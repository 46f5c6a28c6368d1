-- ===== src/Encode/Partial.antt =====
-- fastjson_encode of fastjson_encode.c with PARTIAL_OUTPUT_ON_ERROR.
use fastjson.Prelude.{
  Bool, true, false, not, ◌&&◌, Option, none, some, List, Bytes, codes, ◌≡◌, ◌⊎◌, inl, inr, refl,
  if◌then◌else◌,
}
use fastjson.Errors.{
  ErrorState, error_state_set, error_unsupported_type, cleared, returned, thrown, value_error,
}
use fastjson.Entry.{ℤ}
use fastjson.Zval.{Zval, Globals}
use fastjson.Encoder.{Setting, Guard, Ctx}
use fastjson.Encoder.Emit.{encode_zval}
use fastjson.Encoder.Balance.{Excused}
use fastjson.Encoder.Emits.{encode_zval-Excused}
use fastjson.Encode.{
  Encoded, clamped, immediate, start_ctx, finished, directwrite_encode, Outcome, reply,
  userland_exception, with_error, published, throws, encode_depth_in_range, begun, encode,
}

-- The output, an exception of userland code, or false with the error that it is too large.
abbrev pub PartialOutcome : Outcome (Option Bytes) × Globals → Type 0
PartialOutcome (reply (returned (some t)), g) = Unit
PartialOutcome (reply (returned none), g) =
    g.last_err
    ≡ error_state_set error_unsupported_type (some (codes "Encoded JSON string is too large"))
PartialOutcome (reply (thrown code msg), g) = ⊥
PartialOutcome (reply value_error, g) = ⊥
PartialOutcome (userland_exception, g) = Unit

-- What fastjson_directwrite_encode may give then.
abbrev Fine : Encoded → Type 0
Fine e =
    (e.result ≡ none)
    → (e.exception ≡ true)
      ⊎ (e.error
          ≡ error_state_set error_unsupported_type
              (some (codes "Encoded JSON string is too large")))

finished-Fine :
    (ok : Bool) (c : Ctx)
    → c.hard_error ≡ false
    → (ok ≡ false → Excused c)
    → Fine (finished (ok, c))
unfolding finished
finished-Fine false c h x = λ _. x refl
finished-Fine true c h x = choose c.hard_error h
  where
    choose :
        (b : Bool)
        → b ≡ false
        → (if b then none else some c.buf.bytes) ≡ none
        → (c.exception ≡ true)
          ⊎ (c.error
              ≡ error_state_set error_unsupported_type
                  (some (codes "Encoded JSON string is too large")))
    choose true p e = absurd (cc p)
    choose false p e = absurd (cc e)

module _ (s : Setting) (partial : s.flags.partial_output ≡ true) where
  directwrite_encode-Fine :
      (z : Zval) (depth : ℤ) (guards : List Guard) (g : Globals)
      → Fine (directwrite_encode s z depth guards g)
  unfolding directwrite_encode start_ctx
  directwrite_encode-Fine z depth guards g = choose (immediate s z)
    where
      start : Ctx
      start = start_ctx s guards g

      run : Fine (finished (encode_zval s z (clamped depth) start))
      run =
          let (h, x) = encode_zval-Excused s z (clamped depth) start partial refl in
          finished-Fine (encode_zval s z (clamped depth) start).0
            (encode_zval s z (clamped depth) start).1 h x

      choose :
          (o : Option Bytes)
          → Fine (elim o as (λ _. Encoded) [
            | some t ↦ record { result = some t; error = cleared; globals = g; exception = false }
            | none ↦ finished (encode_zval s z (clamped depth) start)
          ])
      choose (some t) = λ e. absurd (cc e)
      choose none = run

  published-Partial :
      (saved : ErrorState) (fallback : Bytes) (e : Encoded)
      → Fine e
      → PartialOutcome (published false saved fallback e)
  unfolding published
  published-Partial saved fallback e fine = choose e.exception e.result refl refl
    where
      too_large : (b : Bool) → e.exception ≡ false → e.exception ≡ true → ⊥
      too_large b p q = cc (p, q)

      blamed :
          e.exception ≡ false
          → (e.exception ≡ true)
            ⊎ (e.error
                ≡ error_state_set error_unsupported_type
                    (some (codes "Encoded JSON string is too large")))
          → e.error
            ≡ error_state_set error_unsupported_type
                (some (codes "Encoded JSON string is too large"))
      blamed p (inl x) = absurd (too_large true p x)
      blamed p (inr x) = x

      choose :
          (b : Bool) (o : Option Bytes)
          → e.exception ≡ b
          → e.result ≡ o
          → PartialOutcome (
              if b
              then (userland_exception, with_error e.globals e.error)
              else elim o as (λ _. Outcome (Option Bytes) × Globals) [
                | some t ↦ (reply (returned (some t)), with_error e.globals e.error)
                | none ↦ (reply (returned none), with_error e.globals e.error)
              ])
      choose true o p q = tt
      choose false (some t) p q = tt
      choose false none p q = blamed p (fine q)

  -- With PARTIAL_OUTPUT_ON_ERROR and a depth in the range of an int, fastjson_encode returns text
  -- for every value, whatever cycles, depth, malformed strings, infinite numbers or unsupported
  -- types it holds, and whatever userland code does to the recorded error; it returns false only
  -- with the recorded error that the output is too large, ends otherwise only with an exception of
  -- userland code, and throws no exception of its own even with THROW_ON_ERROR.
  pub encode-Partial :
      (throw_on_error : Bool) (z : Zval) (depth : ℤ) (guards : List Guard) (g : Globals)
      → encode_depth_in_range depth ≡ true
      → PartialOutcome (encode s throw_on_error z depth guards g)
  unfolding encode
  encode-Partial throw_on_error z depth guards g h =
      choose (encode_depth_in_range depth) (throws s throw_on_error) h
        (never throw_on_error s.flags.partial_output partial)
    where
      never : (t p : Bool) → p ≡ true → t && not p ≡ false
      never true true e = refl
      never false true e = refl
      never t false e = absurd (cc e)

      choose :
          (b t : Bool)
          → b ≡ true
          → t ≡ false
          → PartialOutcome (
              if b
              then published t g.last_err
                  (codes "fastjson_encode failed")
                  (directwrite_encode s z depth guards (begun t g))
              else (reply value_error, g))
      choose true true p q = absurd (cc q)
      choose true false p q =
          published-Partial g.last_err (codes "fastjson_encode failed")
            (directwrite_encode s z depth guards (begun false g))
            (directwrite_encode-Fine z depth guards (begun false g))
      choose false t p q = absurd (cc p)

-- ===== src/Encode/Strict.antt =====
-- fastjson_encode of fastjson_encode.c without PARTIAL_OUTPUT_ON_ERROR.
use fastjson.Prelude.{
  Bool, true, false, not, ◌&&◌, Option, none, some, List, Bytes, codes, ◌≡◌, ◌⊎◌, inl, inr, refl,
  subst, if◌then◌else◌, ◌∙◌,
}
use fastjson.Errors.{ErrorState, cleared, returned, thrown, value_error, message}
use fastjson.Entry.{ℤ}
use fastjson.Zval.{Zval, Globals}
use fastjson.Encoder.{Setting, Guard, Ctx}
use fastjson.Encoder.Emit.{encode_zval}
use fastjson.Encoder.Clean.{Clean}
use fastjson.Encoder.Succeeds.{encode_zval-Cleans}
use fastjson.Encode.{
  Encoded, clamped, immediate, start_ctx, finished, directwrite_encode, Outcome, reply,
  userland_exception, with_error, published, throws, encode_depth_in_range, begun, encode,
}

-- How a call with THROW_ON_ERROR, or without it, ends, where `saved` was recorded before.
abbrev pub StrictOutcome : Bool → ErrorState → Outcome (Option Bytes) × Globals → Type 0
StrictOutcome throw_on_error saved (reply (returned (some t)), g) =
    g.last_err ≡ (if throw_on_error then saved else cleared)
StrictOutcome true saved (reply (returned none), g) = ⊥
StrictOutcome false saved (reply (returned none), g) = ¬ (g.last_err.code ≡ 0)
StrictOutcome true saved (reply (thrown code msg), g) = (¬ (code ≡ 0)) × (g.last_err ≡ saved)
StrictOutcome false saved (reply (thrown code msg), g) = ⊥
StrictOutcome throw_on_error saved (reply value_error, g) = ⊥
StrictOutcome throw_on_error saved (userland_exception, g) = Unit

-- A text comes without an error, and no text with an error or an exception.
abbrev Sound : Encoded → Type 0
Sound e =
    ((t : Bytes) → e.result ≡ some t → e.error ≡ cleared)
    × ((e.result ≡ none) → (e.exception ≡ true) ⊎ ¬ (e.error.code ≡ 0))

finished-Sound :
    (c : Ctx) (r : Bool × Ctx)
    → c.error ≡ cleared
    → c.hard_error ≡ false
    → Clean c r
    → Sound (finished r)
unfolding finished
finished-Sound c (false, d) p q h = (λ t e. absurd (cc e), λ e. h.1 refl)
finished-Sound c (true, d) p q h = (λ t e. (h.0 refl).0 ∙ p, choose d.hard_error ((h.0 refl).1 ∙ q))
  where
    choose :
        (b : Bool)
        → b ≡ false
        → (if b then none else some d.buf.bytes) ≡ none
        → (d.exception ≡ true) ⊎ ¬ (d.error.code ≡ 0)
    choose true x e = absurd (cc x)
    choose false x e = absurd (cc e)

module _ (s : Setting) (strict : s.flags.partial_output ≡ false) where
  directwrite_encode-Sound :
      (z : Zval) (depth : ℤ) (guards : List Guard) (g : Globals)
      → Sound (directwrite_encode s z depth guards g)
  unfolding directwrite_encode start_ctx
  directwrite_encode-Sound z depth guards g = choose (immediate s z)
    where
      start : Ctx
      start = start_ctx s guards g

      choose :
          (o : Option Bytes)
          → Sound (elim o as (λ _. Encoded) [
            | some t ↦ record { result = some t; error = cleared; globals = g; exception = false }
            | none ↦ finished (encode_zval s z (clamped depth) start)
          ])
      choose (some t) = (λ t e. refl, λ e. absurd (cc e))
      choose none =
          finished-Sound start (encode_zval s z (clamped depth) start) refl refl
            (encode_zval-Cleans s strict z (clamped depth) start)

  published-Strict :
      (throw_mode : Bool) (saved : ErrorState) (fallback : Bytes) (e : Encoded)
      → Sound e
      → StrictOutcome throw_mode saved (published throw_mode saved fallback e)
  unfolding published
  published-Strict throw_mode saved fallback e (sound, blamed) =
      choose e.exception e.result throw_mode refl refl
    where
      blame :
          e.exception ≡ false → (e.exception ≡ true) ⊎ ¬ (e.error.code ≡ 0) → ¬ (e.error.code ≡ 0)
      blame p (inl x) = absurd (cc (p, x))
      blame p (inr x) = x

      choose :
          (b : Bool) (o : Option Bytes) (t : Bool)
          → e.exception ≡ b
          → e.result ≡ o
          → StrictOutcome t saved (
              if b
              then (userland_exception, if t then e.globals else with_error e.globals e.error)
              else elim o as (λ _. Outcome (Option Bytes) × Globals) [
                | some x ↦
                    (reply (returned (some x)), with_error e.globals (if t then saved else e.error))
                | none ↦
                    if t
                    then (
                      reply (thrown e.error.code (message e.error.msg (some fallback))),
                      with_error e.globals saved,
                    )
                    else (reply (returned none), with_error e.globals e.error)
              ])
      choose true o t p q = tt
      choose false (some x) true p q = refl
      choose false (some x) false p q = sound x q
      choose false none true p q = (blame p (blamed q), refl)
      choose false none false p q = blame p (blamed q)

  -- Without PARTIAL_OUTPUT_ON_ERROR, and with a depth in the range of an int: where fastjson_encode
  -- returns text, no error is recorded after it, or with THROW_ON_ERROR the one from before; where
  -- it returns false, which it does only without THROW_ON_ERROR, an error is recorded; where it
  -- throws an exception of its own, which it does only with THROW_ON_ERROR, the exception has the
  -- code of an error and the recorded error is the one from before. It ends otherwise only with an
  -- exception of userland code.
  pub encode-Strict :
      (throw_on_error : Bool) (z : Zval) (depth : ℤ) (guards : List Guard) (g : Globals)
      → encode_depth_in_range depth ≡ true
      → StrictOutcome throw_on_error g.last_err (encode s throw_on_error z depth guards g)
  unfolding encode
  encode-Strict throw_on_error z depth guards g h =
      choose (encode_depth_in_range depth) (throws s throw_on_error) h
        (as_asked throw_on_error s.flags.partial_output strict)
    where
      as_asked : (t p : Bool) → p ≡ false → t && not p ≡ t
      as_asked true true e = absurd (cc e)
      as_asked false true e = refl
      as_asked true false e = refl
      as_asked false false e = refl

      choose :
          (b t : Bool)
          → b ≡ true
          → t ≡ throw_on_error
          → StrictOutcome throw_on_error g.last_err (
              if b
              then published t g.last_err
                  (codes "fastjson_encode failed")
                  (directwrite_encode s z depth guards (begun t g))
              else (reply value_error, g))
      choose false t p q = absurd (cc p)
      choose true t p q =
          subst
            (λ u. StrictOutcome u g.last_err (
              published t g.last_err (codes "fastjson_encode failed")
                (directwrite_encode s z depth guards (begun t g))))
            q
            (published-Strict t g.last_err (codes "fastjson_encode failed")
              (directwrite_encode s z depth guards (begun t g))
              (directwrite_encode-Sound z depth guards (begun t g)))

-- ===== src/Splice/Moves.antt =====
-- Steps of the splice writer of fastjson_pointer_splice.c that append bytes and move the
-- indentation.
use fastjson.Prelude.{
  ℕ, zero, suc, ◌+◌, ◌*◌, ◌/◌, ◌-◌, Bool, true, false, not, ◌&&◌, Option, none, some, [], ◌∷◌, ◌++◌,
  Bytes, length, ltb, leb, ◌≡◌, refl, sym, ap, ◌∙◌, subst, if◌then◌else◌, append_assoc, append-nil,
}
use fastjson.Doc.{Num}
use fastjson.StringWriter.{Buf, alloc, append, put}
use fastjson.Pointer.{Status, depth_fail, too_large, inf_or_nan}
use fastjson.Splice.{
  Setting, Ctx, Written, Writer, and_then, ◌>>◌, done, ok, stop, fail, fail_if, modify, reserve,
  stack_ok, text, newline_indent, indent_loop, append_newline_indent, put_number, write_number,
  is_finite, has_float_mark, write_raw, spaces,
}
use fastjson.Splice.Full.{if_deep}
use fastjson.Splice.Steps.{success}

-- Bytes were appended, the indentation went from `n` to `f n`, and nothing else changed.
abbrev pub After : (ℕ → ℕ) → Ctx → Ctx → Type 0
After f c d =
    ((t : Bytes) × (d.buf.bytes ≡ c.buf.bytes ++ t))
    × (d.indent ≡ f c.indent)
    × (d.status ≡ c.status)
    × (d.settable ≡ c.settable)

abbrev pub Moves : (ℕ → ℕ) → Writer → Type 0
Moves f m = (c d : Ctx) → success (m c) ≡ some d → After f c d

abbrev pub same_indent : ℕ → ℕ
same_indent n = n

pub After-trans : (f g : ℕ → ℕ) (c d e : Ctx) → After f c d → After g d e → After (λ n. g (f n)) c e
After-trans f g c d e ((t, bt), i, s, a) ((u, bu), j, s', a') =
    ((t ++ u, bu ∙ ap (λ x. x ++ u) bt ∙ append_assoc c.buf.bytes t u), j ∙ ap g i, s' ∙ s, a' ∙ a)

pub After-self : (c : Ctx) → After same_indent c c
After-self c = (([], sym (append-nil c.buf.bytes)), refl, refl, refl)

pub ok-Moves : (f : ℕ → ℕ) (c d e : Ctx) → After f c d → success (ok d) ≡ some e → After f c e
ok-Moves f c d e a h = subst (After f c) (ap held h) a
  where
    held : Option Ctx → Ctx
    held none = d
    held (some x) = x

pub then-Moves :
    (f g : ℕ → ℕ) (m k : Writer) → Moves f m → Moves g k → Moves (λ n. g (f n)) (m >> k)
then-Moves f g m k hm hk c e = go (m c) (hm c)
  where
    go :
        (x : Written)
        → ((d : Ctx) → success x ≡ some d → After f c d)
        → success (and_then x k) ≡ some e
        → After (λ n. g (f n)) c e
    go (ok d) h p = After-trans f g c d e (h d refl) (hk d e p)
    go (stop d) h p = absurd (cc p)

pub fail-Moves : (f : ℕ → ℕ) (status : Status) → Moves f (fail status)
fail-Moves f status c d h = absurd (cc h)

pub done-Moves : Moves same_indent done
done-Moves c d h = ok-Moves same_indent c c d (After-self c) h

pub fail_if-Moves : (b : Bool) (status : Status) → Moves same_indent (fail_if b status)
fail_if-Moves true status = fail-Moves same_indent status
fail_if-Moves false status = done-Moves

pub deep-Moves : (b : Bool) (m : Writer) → Moves same_indent m → Moves same_indent (if_deep b m)
deep-Moves true m h = fail-Moves same_indent depth_fail
deep-Moves false m h = h

pub modify-Moves :
    (f : Buf → Buf)
    → ((b : Buf) → (t : Bytes) × ((f b).bytes ≡ b.bytes ++ t))
    → Moves same_indent (modify f)
modify-Moves f h c d e =
    ok-Moves same_indent c (record c { buf = f c.buf }) d (h c.buf, refl, refl, refl) e

pub if-Moves :
    (b : Bool) (m : Writer) → Moves same_indent m → Moves same_indent (if b then m else done)
if-Moves true m h = h
if-Moves false m h = done-Moves

module _ (s : Setting) where
  pub text-Moves : (t : Bytes) → Moves same_indent (text s t)
  unfolding text
  text-Moves t = modify-Moves (append s.env t) (λ b. (t, refl))

  pub reserve-Moves : (n : ℕ) → Moves same_indent (reserve s n)
  unfolding reserve
  reserve-Moves n c =
      then-Moves same_indent same_indent (fail_if b too_large) (modify (alloc s.env n))
        (fail_if-Moves b too_large)
        (modify-Moves (alloc s.env n) (λ b. ([], sym (append-nil b.bytes)))) c
    where
      b : Bool
      b = ltb (s.env.max_len - length c.buf.bytes) n

  pub stack-Moves : (r : ℕ) → Moves same_indent (stack_ok s r)
  unfolding stack_ok
  stack-Moves r = fail_if-Moves (s.overflowed r) depth_fail

  indent_loop-bytes :
      (n : ℕ) (b : Buf) → (t : Bytes) × ((indent_loop s.env n b).bytes ≡ b.bytes ++ t)
  unfolding indent_loop
  indent_loop-bytes zero b = ([], sym (append-nil b.bytes))
  indent_loop-bytes (suc n) b =
      let (t, e) = indent_loop-bytes n (append s.env (spaces 4) b) in
      (spaces 4 ++ t, e ∙ append_assoc b.bytes (spaces 4) t)

  pub newline-Moves : Moves same_indent (newline_indent s)
  unfolding newline_indent append_newline_indent
  newline-Moves c =
      modify-Moves (append_newline_indent s.env c.indent)
        (λ b. choose b (ltb 8 c.indent && leb c.indent ((s.env.max_len - 1) / 4))) c
    where
      choose :
          (buf : Buf) (b : Bool)
          → (t : Bytes) × ((if b
                then put
                    (spaces (c.indent * 4))
                    (append s.env (b'\n' ∷ []) (alloc s.env (c.indent * 4 + 1) buf))
                else indent_loop s.env c.indent (append s.env (b'\n' ∷ []) buf)).bytes
              ≡ buf.bytes ++ t)
      choose buf true = (
        (b'\n' ∷ []) ++ spaces (c.indent * 4),
        append_assoc buf.bytes (b'\n' ∷ []) (spaces (c.indent * 4)),
      )
      choose buf false =
          let (t, e) = indent_loop-bytes c.indent (append s.env (b'\n' ∷ []) buf) in
          ((b'\n' ∷ []) ++ t, e ∙ append_assoc buf.bytes (b'\n' ∷ []) t)

  pub number-Moves : (n : Num) → Moves same_indent (write_number s n)
  unfolding write_number put_number
  number-Moves n =
      then-Moves same_indent same_indent (fail_if (not (is_finite n)) inf_or_nan)
        (reserve s 40 >> put_number s (s.write_number n))
        (fail_if-Moves (not (is_finite n)) inf_or_nan)
        (then-Moves same_indent same_indent (reserve s 40) (put_number s (s.write_number n))
          (reserve-Moves 40) (written (s.write_number n)))
    where
      written : (o : Option Bytes) → Moves same_indent (put_number s o)
      written none = λ c d h. absurd (cc h)
      written (some w) = modify-Moves (put w) (λ b. (w, refl))

  pub raw-Moves : (t : Bytes) → Moves same_indent (write_raw s t)
  unfolding write_raw
  raw-Moves t =
      then-Moves same_indent same_indent (fail_if b inf_or_nan) (reserve s (length t) >> text s t)
        (fail_if-Moves b inf_or_nan)
        (then-Moves same_indent same_indent (reserve s (length t)) (text s t)
          (reserve-Moves (length t)) (text-Moves t))
    where
      b : Bool
      b = has_float_mark t && not (s.strtod_is_finite t)

-- ===== src/Encoder/Numbers.antt =====
-- Numbers of fastjson_directwrite.c: dw_emit_long and dw_emit_double.
use fastjson.Prelude.{
  ℕ, ◌+◌, ◌-◌, ◌*◌, ◌/◌, ◌%◌, ◌^◌, Bool, true, false, not, ◌&&◌, ◌||◌, Option, none, some, [], ◌∷◌,
  ◌++◌, Bytes, codes, length, ltb, leb, ◌==◌, if◌then◌else◌,
}
use fastjson.Doc.{real}
use fastjson.StringWriter.{alloc, put}
use fastjson.Splice.{is_finite}
use fastjson.Errors.{error_inf_or_nan}
use fastjson.Encoder.{
  Setting, Step, ◌>>◌, stop, modify, set_error, inf_nan, num_int_worst, num_real_worst, text,
}

-- The magnitude of a finite double that is an integer: 2^52 more than the fraction, times
-- 2^(exponent - 1075). A subnormal one is no integer but for zero.
unfoldable pub integral_magnitude : ℕ → Option ℕ
integral_magnitude d =
    let e = d / 2 ^ 52 % 2 ^ 11 in
    let m = d % 2 ^ 52 in
    if e == 0
    then (if m == 0 then some 0 else none)
    else if leb 1075 e
    then some ((2 ^ 52 + m) * 2 ^ (e - 1075))
    else if (2 ^ 52 + m) % 2 ^ (1075 - e) == 0
    then some ((2 ^ 52 + m) / 2 ^ (1075 - e))
    else none

-- `l` where `fabs(d) < 1e17` and `(double)l == d`.
unfoldable pub lossless_long : ℕ → Option ℕ
unfolding integral_magnitude
lossless_long d = elim (integral_magnitude d) [
  | none ↦ none
  | some n ↦
      if ltb n (10 ^ 17)
      then some (if leb (2 ^ 63) d && not (n == 0) then 2 ^ 64 - n else n)
      else none
]

unfoldable pub has_point : Bytes → Bool
has_point [] = false
has_point (c ∷ t) = c == b'.' || has_point t

module _ (s : Setting) where
  -- dw_emit_long
  unfoldable pub emit_long : ℕ → Step
  emit_long n = modify (alloc s.env num_int_worst) >> modify (put (s.write_sint n))

  abbrev pub with_fraction : Bytes → Bytes
  with_fraction num =
      if s.flags.preserve_zero_fraction
        && not (has_point num)
        && ltb (length num) (s.double_max_length - 2)
      then num ++ codes ".0"
      else num

  -- A double that is not finite; the buffer is freed where it stops the encode.
  unfoldable pub emit_not_finite : Step
  unfolding set_error text
  emit_not_finite =
      set_error error_inf_or_nan inf_nan
      >> (if s.flags.partial_output then text s (codes "0") else λ c.
          (false, record c { hard_error = true; buf = record { bytes = []; room = 0 } }))

  unfoldable pub put_real : Option Bytes → Step
  unfolding set_error text
  put_real (some w) = modify (put w)
  put_real none =
      set_error error_inf_or_nan inf_nan
      >> (if s.flags.partial_output then text s (codes "0") else stop)

  abbrev pub emit_real : ℕ → Step
  emit_real d = modify (alloc s.env num_real_worst) >> put_real (s.write_real d)

  unfoldable pub emit_shortest : ℕ → Option ℕ → Step
  unfolding emit_long put_real
  emit_shortest d none = emit_real d
  emit_shortest d (some l) = if s.flags.preserve_zero_fraction then emit_real d else emit_long l

  unfoldable pub emit_finite : ℕ → Option ℕ → Step
  unfolding text emit_shortest lossless_long has_point
  emit_finite d (some precision) = text s (with_fraction (s.gcvt d precision))
  emit_finite d none =
      if d == 2 ^ 63
      then text s (if s.flags.preserve_zero_fraction then codes "-0.0" else codes "-0")
      else emit_shortest d (lossless_long d)

  -- dw_emit_double
  unfoldable pub emit_double : ℕ → Step
  unfolding emit_not_finite emit_finite
  emit_double d c =
      if is_finite (real d) then emit_finite d c.globals.precision c else emit_not_finite c

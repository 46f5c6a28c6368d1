-- ===== src/Encoder/Leaves.antt =====
-- What the writers of strings, keys and numbers of fastjson_directwrite.c leave as it was.
use fastjson.Prelude.{
  ℕ, ◌+◌, ◌-◌, ◌*◌, Bool, true, false, ◌&&◌, ◌||◌, Option, none, some, Bytes, codes, length, drop,
  ltb, ◌==◌, ◌^◌, ◌≡◌, refl, if◌then◌else◌,
}
use fastjson.Doc.{real}
use fastjson.Utf8.{sanitize_utf8, SanitizeMode}
use fastjson.HexEscapes.{apply_hex_escapes}
use fastjson.StringWriter.{
  Buf, alloc, put, SizeStatus, fits, invalid, too_large, wants_sized_writer,
}
use fastjson.StringWriter.Large.{write_large_json_string}
use fastjson.Splice.{is_finite}
use fastjson.Errors.{error_utf8, error_inf_or_nan}
use fastjson.Zval.{Key, index, name}
use fastjson.Encoder.{
  Setting, Ctx, Step, ◌>>◌, done, stop, modify, translate_write_flags, set_error, fail_too_large,
  has_hex, malformed, inf_nan, num_int_worst, num_real_worst, text, reserve, Numeric, not_numeric,
  is_long, is_double, may_be_numeric, newline_indent,
}
use fastjson.Encoder.Strings.{
  put_rewritten, hex_escapes, put_string, put_sized, lacks_room, attempt, malformed_string,
  second_try, first_try, emit_string_ex, emit_key_name, emit_object_key, rewritten_buf,
}
use fastjson.Encoder.Numbers.{
  emit_long, emit_not_finite, put_real, emit_real, emit_shortest, emit_finite, emit_double,
  lossless_long, with_fraction,
}
use fastjson.Encoder.Discard.{discard_double}
use fastjson.Encoder.Emit.{emit_numeric, emit_text, separator}
use fastjson.Encoder.Balance.{
  Same, Good, Keeps, Good-trans, then-Keeps, done-Keeps, modify-Keeps, set_error-Keeps,
  too_large-Keeps, if-Keeps, if-Good, partial-Keeps, text-Keeps, newline-Keeps,
}

module _ (q : Bool) (s : Setting) (partial : q ≡ true → s.flags.partial_output ≡ true) where
  -- Where a context differs from `c` in its buffer only.
  abbrev Rebuffed : Ctx → Ctx → Type 0
  Rebuffed c d = d ≡ record c { buf = d.buf }

  hex-Keeps : (start : ℕ) → Keeps q (hex_escapes s start)
  unfolding hex_escapes put_rewritten
  hex-Keeps start c =
      if-Good q (has_hex s.flags.hex) c _ _
        (rewritten (apply_hex_escapes s.env.max_len start s.flags.hex (drop start c.buf.bytes)))
        (done-Keeps q c)
    where
      rewritten : (o : Option Bytes) → Good q c (put_rewritten s start o c)
      rewritten none = too_large-Keeps q c
      rewritten (some t) = modify-Keeps q (rewritten_buf s start t) c

  abbrev GoodStatus : Ctx → SizeStatus × Ctx → Type 0
  GoodStatus c (status, d) = Good q c (true, d)

  attempt-Good : (t : Bytes) (c : Ctx) → GoodStatus c (attempt s t c)
  unfolding attempt put_string
  attempt-Good t c =
      choose (wants_sized_writer c.buf (length t)) (lacks_room s t c)
        (write_large_json_string s.env (translate_write_flags s.flags) t c.buf)
        (s.env.write_string (translate_write_flags s.flags) t)
    where
      choose :
          (b l : Bool) (x : SizeStatus × Buf) (o : Option Bytes)
          → GoodStatus c (
              if b
              then put_sized s c x
              else if l
              then (too_large, c)
              else put_string s (record c { buf = alloc s.env (length t * 6 + 2) c.buf }) o)
      choose true l (status, buf) o = modify-Keeps q (λ b. buf) c
      choose false true x o = done-Keeps q c
      choose false false x none = modify-Keeps q (alloc s.env (length t * 6 + 2)) c
      choose false false x (some w) =
          modify-Keeps q (λ b. put w (alloc s.env (length t * 6 + 2) b)) c

  malformed-Keeps : (is_key : Bool) → Keeps q (malformed_string s is_key)
  unfolding malformed_string
  malformed-Keeps is_key =
      then-Keeps q (set_error error_utf8 malformed) (if s.flags.partial_output then note else stop)
        (set_error-Keeps q error_utf8 malformed)
        (partial-Keeps q s partial s.flags.partial_output note stop partial
          (text-Keeps q s partial (if is_key then codes "\"\"" else codes "null"))
          (λ c. (refl, refl, refl)))
    where
      note : Step
      note = text s (if is_key then codes "\"\"" else codes "null")

  second-Good :
      (start : ℕ) (is_key : Bool) (c : Ctx) (x : SizeStatus × Ctx)
      → GoodStatus c x
      → Good q c (second_try s start is_key x)
  unfolding second_try
  second-Good start is_key c (fits, d) h =
      Good-trans q c d (hex_escapes s start d) h (hex-Keeps start d)
  second-Good start is_key c (too_large, d) h =
      Good-trans q c d (fail_too_large d) h (too_large-Keeps q d)
  second-Good start is_key c (invalid, d) h =
      Good-trans q c d (malformed_string s is_key d) h (malformed-Keeps is_key d)

  first-Good :
      (start : ℕ) (is_key : Bool) (t : Bytes) (c : Ctx) (x : SizeStatus × Ctx)
      → GoodStatus c x
      → Good q c (first_try s start is_key t x)
  unfolding first_try
  first-Good start is_key t c (fits, d) h =
      Good-trans q c d (hex_escapes s start d) h (hex-Keeps start d)
  first-Good start is_key t c (too_large, d) h =
      Good-trans q c d (fail_too_large d) h (too_large-Keeps q d)
  first-Good start is_key t c (invalid, d) h =
      Good-trans q c d
        (if s.flags.ignore || s.flags.subst
          then second_try s start is_key (attempt s sane d)
          else malformed_string s is_key d)
        h
        (if-Good q (s.flags.ignore || s.flags.subst) d _ _
          (second-Good start is_key d (attempt s sane d) (attempt-Good sane d))
          (malformed-Keeps is_key d))
    where
      sane : Bytes
      sane = sanitize_utf8 s.flags.ignore s.flags.subst SanitizeMode.encode t

  pub string-Keeps : (is_key : Bool) (t : Bytes) → Keeps q (emit_string_ex s is_key t)
  unfolding emit_string_ex
  string-Keeps is_key t c =
      first-Good (length c.buf.bytes) is_key t c (attempt s t c) (attempt-Good t c)

  key_name-Keeps : (k : Key) → Keeps q (emit_key_name s k)
  unfolding emit_key_name reserve
  key_name-Keeps (name t) = string-Keeps true t
  key_name-Keeps (index n) =
      then-Keeps q (reserve s (num_int_worst + 2)) (quoted >> digits)
        (λ c.
          if-Good q (ltb (s.env.max_len - length c.buf.bytes) (num_int_worst + 2)) c _ _
            (too_large-Keeps q c) (modify-Keeps q (alloc s.env (num_int_worst + 2)) c))
        (then-Keeps q quoted digits (text-Keeps q s partial (codes "\"")) (
          then-Keeps q (modify (put (s.write_sint n))) quoted
            (modify-Keeps q (put (s.write_sint n))) (text-Keeps q s partial (codes "\""))))
    where
      quoted : Step
      quoted = text s (codes "\"")

      digits : Step
      digits = modify (put (s.write_sint n)) >> quoted

  pub key-Keeps : (k : Key) → Keeps q (emit_object_key s k)
  unfolding emit_object_key
  key-Keeps k =
      then-Keeps q (emit_key_name s k)
        (text s (codes ":") >> (if s.flags.pretty_print then text s (codes " ") else done))
        (key_name-Keeps k)
        (then-Keeps q (text s (codes ":"))
          (if s.flags.pretty_print then text s (codes " ") else done)
          (text-Keeps q s partial (codes ":"))
          (if-Keeps q s.flags.pretty_print (text s (codes " ")) done
            (text-Keeps q s partial (codes " ")) (done-Keeps q)))

  pub long-Keeps : (n : ℕ) → Keeps q (emit_long s n)
  unfolding emit_long
  long-Keeps n =
      then-Keeps q (modify (alloc s.env num_int_worst)) (modify (put (s.write_sint n)))
        (modify-Keeps q (alloc s.env num_int_worst)) (modify-Keeps q (put (s.write_sint n)))

  zero-Keeps :
      (k : Step)
      → ((c : Ctx) → Same c (k c).1)
      → Keeps q (
          set_error error_inf_or_nan inf_nan
          >> (if s.flags.partial_output then text s (codes "0") else k))
  zero-Keeps k h =
      then-Keeps q (set_error error_inf_or_nan inf_nan)
        (if s.flags.partial_output then text s (codes "0") else k)
        (set_error-Keeps q error_inf_or_nan inf_nan)
        (partial-Keeps q s partial s.flags.partial_output (text s (codes "0")) k partial
          (text-Keeps q s partial (codes "0")) h)

  real-Keeps : (d : ℕ) → Keeps q (emit_real s d)
  unfolding put_real
  real-Keeps d =
      then-Keeps q (modify (alloc s.env num_real_worst)) (put_real s (s.write_real d))
        (modify-Keeps q (alloc s.env num_real_worst)) (written (s.write_real d))
    where
      written : (o : Option Bytes) → Keeps q (put_real s o)
      written (some w) = modify-Keeps q (put w)
      written none = zero-Keeps stop (λ c. (refl, refl, refl))

  shortest-Keeps : (d : ℕ) (o : Option ℕ) → Keeps q (emit_shortest s d o)
  unfolding emit_shortest
  shortest-Keeps d none = real-Keeps d
  shortest-Keeps d (some l) =
      if-Keeps q s.flags.preserve_zero_fraction (emit_real s d) (emit_long s l) (real-Keeps d)
        (long-Keeps l)

  finite-Keeps : (d : ℕ) (o : Option ℕ) → Keeps q (emit_finite s d o)
  unfolding emit_finite
  finite-Keeps d (some precision) = text-Keeps q s partial (with_fraction s (s.gcvt d precision))
  finite-Keeps d none =
      if-Keeps q (d == 2 ^ 63) (text s zero) (emit_shortest s d (lossless_long d))
        (text-Keeps q s partial zero) (shortest-Keeps d (lossless_long d))
    where
      zero : Bytes
      zero = if s.flags.preserve_zero_fraction then codes "-0.0" else codes "-0"

  pub double-Keeps : (d : ℕ) → Keeps q (emit_double s d)
  unfolding emit_double emit_not_finite
  double-Keeps d c =
      if-Good q (is_finite (real d)) c _ _ (finite-Keeps d c.globals.precision c)
        (zero-Keeps _ (λ c. (refl, refl, refl)) c)

  pub discard_double-Keeps : (d : ℕ) → Keeps q (discard_double s d)
  unfolding discard_double
  discard_double-Keeps d c =
      if-Good q (is_finite (real d) || c.hard_error) c _ _ (done-Keeps q c)
        (set_error-Keeps q error_inf_or_nan inf_nan c)

  numeric-Keeps : (t : Bytes) (n : Numeric) → Keeps q (emit_numeric s t n)
  unfolding emit_numeric
  numeric-Keeps t not_numeric = string-Keeps false t
  numeric-Keeps t (is_long n) = long-Keeps n
  numeric-Keeps t (is_double d) =
      if-Keeps q (is_finite (real d)) (emit_double s d) (emit_string_ex s false t) (double-Keeps d)
        (string-Keeps false t)

  pub emit_text-Keeps : (t : Bytes) → Keeps q (emit_text s t)
  unfolding emit_text
  emit_text-Keeps t =
      if-Keeps q (s.flags.numeric_check && may_be_numeric t) (emit_numeric s t (s.numeric t))
        (emit_string_ex s false t) (numeric-Keeps t (s.numeric t)) (string-Keeps false t)

  pub separator-Keeps : (first : Bool) → Keeps q (separator s first)
  unfolding separator
  separator-Keeps first =
      then-Keeps q (if first then done else text s (codes ","))
        (if s.flags.pretty_print then newline_indent s else done)
        (if-Keeps q first done (text s (codes ",")) (done-Keeps q)
          (text-Keeps q s partial (codes ",")))
        (if-Keeps q s.flags.pretty_print (newline_indent s) done (newline-Keeps q s partial)
          (done-Keeps q))

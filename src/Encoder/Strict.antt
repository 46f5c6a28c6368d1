-- ===== src/Encoder/Strict.antt =====
-- The writers of strings, keys and numbers of fastjson_directwrite.c, and the recorded error where
-- partial output is not asked for.
use fastjson.Prelude.{
  ℕ, ◌+◌, ◌-◌, ◌*◌, ◌^◌, Bool, true, false, ◌&&◌, ◌||◌, Option, none, some, [], inr, Bytes, codes,
  length, drop, ltb, ◌==◌, ◌≡◌, refl, if◌then◌else◌,
}
use fastjson.Doc.{real}
use fastjson.Utf8.{sanitize_utf8, SanitizeMode}
use fastjson.HexEscapes.{apply_hex_escapes}
use fastjson.StringWriter.{
  Buf, alloc, put, SizeStatus, fits, invalid, too_large, wants_sized_writer,
}
use fastjson.StringWriter.Large.{write_large_json_string}
use fastjson.Splice.{is_finite}
use fastjson.Errors.{error_utf8, error_inf_or_nan}
use fastjson.Zval.{Key, index, name}
use fastjson.Encoder.{
  Setting, Ctx, Step, ◌>>◌, done, modify, translate_write_flags, set_error, fail_too_large, has_hex,
  malformed, inf_nan, num_int_worst, num_real_worst, text, reserve, Numeric, not_numeric, is_long,
  is_double, may_be_numeric, newline_indent,
}
use fastjson.Encoder.Strings.{
  put_rewritten, hex_escapes, put_string, put_sized, lacks_room, attempt, malformed_string,
  second_try, first_try, emit_string_ex, emit_key_name, emit_object_key, rewritten_buf,
}
use fastjson.Encoder.Numbers.{
  emit_long, emit_not_finite, put_real, emit_real, emit_shortest, emit_finite, emit_double,
  lossless_long, with_fraction,
}
use fastjson.Encoder.Emit.{emit_numeric, emit_text, separator}
use fastjson.Encoder.Clean.{
  Clean, Cleans, done-Cleans, Clean-trans, then-Cleans, if-Cleans, if-Clean, erring-Cleans,
  text-Cleans, line-Cleans,
}

modify-Cleans : (f : Buf → Buf) → Cleans (modify f)
modify-Cleans f c = (λ e. (refl, refl), λ e. absurd (cc e))

too_large-Cleans : Cleans fail_too_large
unfolding fail_too_large set_error
too_large-Cleans c = (λ e. absurd (cc e), λ e. inr (λ z. cc z))

module _ (s : Setting) (strict : s.flags.partial_output ≡ false) where
  hex-Cleans : (start : ℕ) → Cleans (hex_escapes s start)
  unfolding hex_escapes put_rewritten
  hex-Cleans start c =
      if-Clean (has_hex s.flags.hex) c _ _
        (rewritten (apply_hex_escapes s.env.max_len start s.flags.hex (drop start c.buf.bytes)))
        (done-Cleans c)
    where
      rewritten : (o : Option Bytes) → Clean c (put_rewritten s start o c)
      rewritten none = too_large-Cleans c
      rewritten (some t) = modify-Cleans (rewritten_buf s start t) c

  -- What an attempt to write a string has done to the error.
  abbrev CleanStatus : Ctx → SizeStatus × Ctx → Type 0
  CleanStatus c (status, d) = (d.error ≡ c.error) × (d.hard_error ≡ c.hard_error)

  attempt-Clean : (t : Bytes) (c : Ctx) → CleanStatus c (attempt s t c)
  unfolding attempt put_string
  attempt-Clean t c =
      choose (wants_sized_writer c.buf (length t)) (lacks_room s t c)
        (write_large_json_string s.env (translate_write_flags s.flags) t c.buf)
        (s.env.write_string (translate_write_flags s.flags) t)
    where
      choose :
          (b l : Bool) (x : SizeStatus × Buf) (o : Option Bytes)
          → CleanStatus c (
              if b
              then put_sized s c x
              else if l
              then (too_large, c)
              else put_string s (record c { buf = alloc s.env (length t * 6 + 2) c.buf }) o)
      choose true l (status, buf) o = (refl, refl)
      choose false true x o = (refl, refl)
      choose false false x none = (refl, refl)
      choose false false x (some w) = (refl, refl)

  malformed-Cleans : (is_key : Bool) → Cleans (malformed_string s is_key)
  unfolding malformed_string
  malformed-Cleans is_key =
      erring-Cleans s strict error_utf8 malformed
        (text s (if is_key then codes "\"\"" else codes "null")) (λ d. d) (λ e. cc e) (λ d. refl)

  second-Clean :
      (start : ℕ) (is_key : Bool) (c : Ctx) (x : SizeStatus × Ctx)
      → CleanStatus c x
      → Clean c (second_try s start is_key x)
  unfolding second_try
  second-Clean start is_key c (fits, d) h =
      Clean-trans c d (hex_escapes s start d) h (hex-Cleans start d)
  second-Clean start is_key c (too_large, d) h =
      Clean-trans c d (fail_too_large d) h (too_large-Cleans d)
  second-Clean start is_key c (invalid, d) h =
      Clean-trans c d (malformed_string s is_key d) h (malformed-Cleans is_key d)

  first-Clean :
      (start : ℕ) (is_key : Bool) (t : Bytes) (c : Ctx) (x : SizeStatus × Ctx)
      → CleanStatus c x
      → Clean c (first_try s start is_key t x)
  unfolding first_try
  first-Clean start is_key t c (fits, d) h =
      Clean-trans c d (hex_escapes s start d) h (hex-Cleans start d)
  first-Clean start is_key t c (too_large, d) h =
      Clean-trans c d (fail_too_large d) h (too_large-Cleans d)
  first-Clean start is_key t c (invalid, d) h =
      Clean-trans c d
        (if s.flags.ignore || s.flags.subst
          then second_try s start is_key (attempt s sane d)
          else malformed_string s is_key d)
        h
        (if-Clean (s.flags.ignore || s.flags.subst) d _ _
          (second-Clean start is_key d (attempt s sane d) (attempt-Clean sane d))
          (malformed-Cleans is_key d))
    where
      sane : Bytes
      sane = sanitize_utf8 s.flags.ignore s.flags.subst SanitizeMode.encode t

  string-Cleans : (is_key : Bool) (t : Bytes) → Cleans (emit_string_ex s is_key t)
  unfolding emit_string_ex
  string-Cleans is_key t c =
      first-Clean (length c.buf.bytes) is_key t c (attempt s t c) (attempt-Clean t c)

  key_name-Cleans : (k : Key) → Cleans (emit_key_name s k)
  unfolding emit_key_name reserve
  key_name-Cleans (name t) = string-Cleans true t
  key_name-Cleans (index n) =
      then-Cleans (reserve s (num_int_worst + 2)) (quote >> digits >> quote)
        (λ c.
          if-Clean (ltb (s.env.max_len - length c.buf.bytes) (num_int_worst + 2)) c _ _
            (too_large-Cleans c) (modify-Cleans (alloc s.env (num_int_worst + 2)) c))
        (then-Cleans quote (digits >> quote) (text-Cleans s strict (codes "\"")) (
          then-Cleans digits quote (modify-Cleans (put (s.write_sint n)))
            (text-Cleans s strict (codes "\""))))
    where
      quote : Step
      quote = text s (codes "\"")

      digits : Step
      digits = modify (put (s.write_sint n))

  pub key-Cleans : (k : Key) → Cleans (emit_object_key s k)
  unfolding emit_object_key
  key-Cleans k = then-Cleans (emit_key_name s k) (text s (codes ":") >> blank) (key_name-Cleans k) (
      then-Cleans (text s (codes ":")) blank (text-Cleans s strict (codes ":")) (
        if-Cleans s.flags.pretty_print (text s (codes " ")) done (text-Cleans s strict (codes " "))
          done-Cleans))
    where
      blank : Step
      blank = if s.flags.pretty_print then text s (codes " ") else done

  pub long-Cleans : (n : ℕ) → Cleans (emit_long s n)
  unfolding emit_long
  long-Cleans n =
      then-Cleans (modify (alloc s.env num_int_worst)) (modify (put (s.write_sint n)))
        (modify-Cleans (alloc s.env num_int_worst)) (modify-Cleans (put (s.write_sint n)))

  real-Cleans : (d : ℕ) → Cleans (emit_real s d)
  unfolding put_real
  real-Cleans d =
      then-Cleans (modify (alloc s.env num_real_worst)) (put_real s (s.write_real d))
        (modify-Cleans (alloc s.env num_real_worst)) (written (s.write_real d))
    where
      written : (o : Option Bytes) → Cleans (put_real s o)
      written (some w) = modify-Cleans (put w)
      written none =
          erring-Cleans s strict error_inf_or_nan inf_nan (text s (codes "0")) (λ d. d) (λ e. cc e)
            (λ d. refl)

  finite-Cleans : (d : ℕ) (o : Option ℕ) → Cleans (emit_finite s d o)
  unfolding emit_finite emit_shortest
  finite-Cleans d (some precision) = text-Cleans s strict (with_fraction s (s.gcvt d precision))
  finite-Cleans d none =
      if-Cleans (d == 2 ^ 63)
        (text s (if s.flags.preserve_zero_fraction then codes "-0.0" else codes "-0"))
        (emit_shortest s d (lossless_long d))
        (text-Cleans s strict (if s.flags.preserve_zero_fraction then codes "-0.0" else codes "-0"))
        (shortest (lossless_long d))
    where
      shortest : (o : Option ℕ) → Cleans (emit_shortest s d o)
      shortest none = real-Cleans d
      shortest (some l) =
          if-Cleans s.flags.preserve_zero_fraction (emit_real s d) (emit_long s l) (real-Cleans d)
            (long-Cleans l)

  pub double-Cleans : (d : ℕ) → Cleans (emit_double s d)
  unfolding emit_double emit_not_finite
  double-Cleans d c = if-Clean (is_finite (real d)) c _ _ (finite-Cleans d c.globals.precision c) (
      erring-Cleans s strict error_inf_or_nan inf_nan (text s (codes "0"))
        (λ d. record d { hard_error = true; buf = record { bytes = []; room = 0 } }) (λ e. cc e)
        (λ d. refl) c)

  pub emit_text-Cleans : (t : Bytes) → Cleans (emit_text s t)
  unfolding emit_text emit_numeric
  emit_text-Cleans t =
      if-Cleans (s.flags.numeric_check && may_be_numeric t) (emit_numeric s t (s.numeric t))
        (emit_string_ex s false t) (numeric (s.numeric t)) (string-Cleans false t)
    where
      numeric : (n : Numeric) → Cleans (emit_numeric s t n)
      numeric not_numeric = string-Cleans false t
      numeric (is_long n) = long-Cleans n
      numeric (is_double d) =
          if-Cleans (is_finite (real d)) (emit_double s d) (emit_string_ex s false t)
            (double-Cleans d) (string-Cleans false t)

  pub separator-Cleans : (first : Bool) → Cleans (separator s first)
  unfolding separator
  separator-Cleans first =
      then-Cleans (if first then done else text s (codes ","))
        (if s.flags.pretty_print then newline_indent s else done)
        (if-Cleans first done (text s (codes ",")) done-Cleans (text-Cleans s strict (codes ",")))
        (if-Cleans s.flags.pretty_print (newline_indent s) done (line-Cleans s strict) done-Cleans)

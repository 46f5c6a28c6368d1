-- ===== src/Encoder/Strings.antt =====
-- Strings and object keys of fastjson_directwrite.c: dw_emit_string_ex, dw_emit_object_key and
-- dw_discard_string.
use fastjson.Prelude.{
  ℕ, ◌+◌, ◌-◌, ◌*◌, ◌/◌, Bool, true, ◌||◌, Option, none, some, ◌++◌, Bytes, codes, length, take,
  drop, ltb, ◌==◌, if◌then◌else◌,
}
use fastjson.Utf8.{sanitize_utf8, utf8_well_formed, SanitizeMode}
use fastjson.HexEscapes.{apply_hex_escapes}
use fastjson.StringWriter.{
  Buf, alloc, put, SizeStatus, fits, invalid, too_large, wants_sized_writer,
}
use fastjson.StringWriter.Large.{write_large_json_string}
use fastjson.Errors.{error_utf8}
use fastjson.Zval.{Key, index, name}
use fastjson.Encoder.{
  Setting, Ctx, Step, ◌>>◌, done, stop, modify, translate_write_flags, set_error, fail_too_large,
  has_hex, malformed, num_int_worst, text, reserve,
}

module _ (s : Setting) where
  abbrev pub rewritten_buf : ℕ → Bytes → Buf → Buf
  rewritten_buf start t buf = record {
    bytes = take start buf.bytes ++ t;
    room =
        if start + length t == length buf.bytes
        then buf.room
        else s.env.grow buf.room (start + length t);
  }

  unfoldable pub put_rewritten : ℕ → Option Bytes → Step
  unfolding fail_too_large
  put_rewritten start none = fail_too_large
  put_rewritten start (some t) = modify (rewritten_buf start t)

  -- dw_apply_hex_escapes
  unfoldable pub hex_escapes : ℕ → Step
  unfolding put_rewritten
  hex_escapes start c =
      if has_hex s.flags.hex
      then put_rewritten start
          (apply_hex_escapes s.env.max_len start s.flags.hex (drop start c.buf.bytes)) c
      else (true, c)

  -- What the one-pass writer and the sized writer leave. A string that is too large has left the
  -- context as it is; its error is set by the caller.
  unfoldable pub put_string : Ctx → Option Bytes → SizeStatus × Ctx
  put_string c none = (invalid, c)
  put_string c (some w) = (fits, record c { buf = put w c.buf })

  abbrev pub put_sized : Ctx → SizeStatus × Buf → SizeStatus × Ctx
  put_sized c (status, buf) = (status, record c { buf = buf })

  -- dw_reserve_string finds too little room.
  abbrev pub lacks_room : Bytes → Ctx → Bool
  lacks_room t c =
      ltb ((s.env.max_len - 2) / 6) (length t)
      || ltb (s.env.max_len - length c.buf.bytes) (length t * 6 + 2)

  unfoldable pub attempt : Bytes → Ctx → SizeStatus × Ctx
  unfolding put_string translate_write_flags
  attempt t c =
      if wants_sized_writer c.buf (length t)
      then put_sized c (write_large_json_string s.env (translate_write_flags s.flags) t c.buf)
      else if lacks_room t c
      then (too_large, c)
      else put_string (record c { buf = alloc s.env (length t * 6 + 2) c.buf })
          (s.env.write_string (translate_write_flags s.flags) t)

  unfoldable pub malformed_string : (is_key : Bool) → Step
  unfolding set_error text
  malformed_string is_key =
      set_error error_utf8 malformed
      >> (if s.flags.partial_output
          then text s (if is_key then codes "\"\"" else codes "null")
          else stop)

  -- What follows the writing of the sanitized copy, and of the string itself.
  unfoldable pub second_try : ℕ → (is_key : Bool) → SizeStatus × Ctx → Bool × Ctx
  unfolding hex_escapes malformed_string
  second_try start is_key (fits, c) = hex_escapes start c
  second_try start is_key (too_large, c) = fail_too_large c
  second_try start is_key (invalid, c) = malformed_string is_key c

  unfoldable pub first_try : ℕ → (is_key : Bool) → Bytes → SizeStatus × Ctx → Bool × Ctx
  unfolding second_try attempt
  first_try start is_key t (fits, c) = hex_escapes start c
  first_try start is_key t (too_large, c) = fail_too_large c
  first_try start is_key t (invalid, c) =
      if s.flags.ignore || s.flags.subst
      then second_try start is_key
          (attempt (sanitize_utf8 s.flags.ignore s.flags.subst SanitizeMode.encode t) c)
      else malformed_string is_key c

  -- dw_emit_string_ex
  unfoldable pub emit_string_ex : (is_key : Bool) → Bytes → Step
  unfolding first_try
  emit_string_ex is_key t c = first_try (length c.buf.bytes) is_key t (attempt t c)

  -- dw_emit_object_key
  unfoldable pub emit_key_name : Key → Step
  unfolding emit_string_ex reserve text
  emit_key_name (name t) = emit_string_ex true t
  emit_key_name (index n) =
      reserve s (num_int_worst + 2)
      >> text s (codes "\"")
      >> modify (put (s.write_sint n))
      >> text s (codes "\"")

  unfoldable pub emit_object_key : Key → Step
  unfolding emit_key_name text
  emit_object_key k =
      emit_key_name k
      >> text s (codes ":")
      >> (if s.flags.pretty_print then text s (codes " ") else done)

  -- dw_discard_string
  unfoldable pub discard_string : Bytes → Step
  unfolding fail_too_large set_error
  discard_string t =
      if ltb ((s.env.max_len - 2) / 6) (length t)
      then fail_too_large
      else if s.flags.ignore || s.flags.subst || utf8_well_formed t
      then done
      else set_error error_utf8 malformed >> stop

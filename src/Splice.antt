-- ===== src/Splice.antt =====
-- The splice writer of fastjson_pointer_splice.c: its state and the values without children. A
-- writer takes the state and returns it, with whether to go on: `ok` for true, `stop` for false.
pub mod Full
pub mod Edit
pub mod SetAt
pub mod NoPlace
pub mod Steps
pub mod Wholes
pub mod MemberSteps
pub mod ObjectEdits
pub mod ArrayEdits
pub mod Refines
pub mod Document
pub mod RoundTrip
pub mod Moves
pub mod Containers
pub mod Appends
pub mod Examples
use fastjson.Prelude.{
  ℕ, zero, suc, ◌+◌, ◌-◌, ◌*◌, ◌/◌, ◌%◌, ◌^◌, Bool, true, false, not, ◌&&◌, ◌||◌, Option, none,
  some, List, [], ◌∷◌, ◌++◌, Bytes, codes, length, take, drop, ltb, leb, ◌==◌, if◌then◌else◌,
}
use fastjson.Doc.{Num, uint, sint, real, Val}
use fastjson.HexEscapes.{HexFlags, apply_hex_escapes}
use fastjson.StringWriter.{
  Buf, WriteFlags, Env, alloc, append, put, SizeStatus, fits, invalid, wants_sized_writer,
}
use fastjson.StringWriter.Large.{write_large_json_string}
use fastjson.Pointer.{Status, depth_fail, too_large, inf_or_nan, invalid_utf8}

-- What stays the same in a run of the writer: the fields of fj_splice_ctx that it does not change,
-- the number writer of the vendored library (`none` for NULL), whether zend_strtod of some digits
-- is finite, and whether the C stack has overflowed at a depth.
pub record Setting : Type 0 where
  pub env : Env
  pub yflags : WriteFlags
  pub hex : HexFlags
  pub pretty : Bool
  pub write_number : Num → Option Bytes
  pub strtod_is_finite : Bytes → Bool
  pub overflowed : ℕ → Bool

-- The fields of fj_splice_ctx that change.
pub record Ctx : Type 0 where
  pub buf : Buf
  pub indent : ℕ
  pub status : Status
  pub settable : Bool

pub data Written : Type 0 where
  ok : Ctx → Written
  stop : Ctx → Written

abbrev pub Writer : Type 0
Writer = Ctx → Written

abbrev pub and_then : Written → Writer → Written
and_then (ok c) k = k c
and_then (stop c) k = stop c

infixr 5 ◌>>◌
abbrev pub ◌>>◌ : Writer → Writer → Writer
◌>>◌ m k c = and_then (m c) k

-- `return true` and `ctx->status = status; return false`.
abbrev pub done : Writer
done c = ok c

abbrev pub fail : Status → Writer
fail status c = stop (record c { status = status })

abbrev pub modify : (Buf → Buf) → Writer
modify f c = ok (record c { buf = f c.buf })

-- `if (test) return false` after the status is set.
abbrev pub fail_if : Bool → Status → Writer
fail_if true status c = fail status c
fail_if false status c = ok c

-- A replacement: a value in a document, or text that the encoder made.
pub data Replacement : Type 0 where
  value : Val → Replacement
  encoded : Bytes → Replacement

-- An exponent that is not all ones.
unfoldable pub is_finite : Num → Bool
is_finite (real x) = not (x / 2 ^ 52 % 2 ^ 11 == 2047)
is_finite (uint n) = true
is_finite (sint n) = true

abbrev pub is_float_mark : ℕ → Bool
is_float_mark c = c == b'.' || c == b'e' || c == b'E'

unfoldable pub has_float_mark : Bytes → Bool
has_float_mark [] = false
has_float_mark (c ∷ t) = is_float_mark c || has_float_mark t

-- FASTJSON_NUM_REAL_WORST
abbrev pub real_worst : ℕ
real_worst = 40

abbrev pub spaces : ℕ → Bytes
spaces zero = []
spaces (suc n) = b' ' ∷ spaces n

-- The loop of fastjson_append_newline_indent.
unfoldable pub indent_loop : Env → ℕ → Buf → Buf
indent_loop env zero buf = buf
indent_loop env (suc level) buf = indent_loop env level (append env (spaces 4) buf)

unfoldable pub append_newline_indent : Env → ℕ → Buf → Buf
unfolding indent_loop
append_newline_indent env level buf =
    if ltb 8 level && leb level ((env.max_len - 1) / 4)
    then put (spaces (level * 4)) (append env (b'\n' ∷ []) (alloc env (level * 4 + 1) buf))
    else indent_loop env level (append env (b'\n' ∷ []) buf)

module _ (s : Setting) where
  -- fj_splice_reserve and fj_splice_stack_ok
  unfoldable pub reserve : ℕ → Writer
  reserve add c =
      (fail_if (ltb (s.env.max_len - length c.buf.bytes) add) too_large >> modify (alloc s.env add))
        c

  unfoldable pub stack_ok : ℕ → Writer
  stack_ok remaining = fail_if (s.overflowed remaining) depth_fail

  unfoldable pub text : Bytes → Writer
  text t = modify (append s.env t)

  unfoldable pub newline_indent : Writer
  unfolding append_newline_indent
  newline_indent c = modify (append_newline_indent s.env c.indent) c

  abbrev pub has_hex : Bool
  has_hex = s.hex.tag || s.hex.amp || s.hex.apos || s.hex.quot

  -- The buffer after the rewrite of the string at `start`; more room is made for a longer one.
  abbrev pub rewritten_buf : ℕ → Bytes → Buf → Buf
  rewritten_buf start t buf = record {
    bytes = take start buf.bytes ++ t;
    room =
        if start + length t == length buf.bytes
        then buf.room
        else s.env.grow buf.room (start + length t);
  }

  unfoldable pub put_rewritten : ℕ → Option Bytes → Writer
  put_rewritten start none = fail too_large
  put_rewritten start (some t) = modify (rewritten_buf start t)

  -- fj_splice_apply_hex_escapes
  unfoldable pub splice_hex_escapes : ℕ → Writer
  unfolding put_rewritten
  splice_hex_escapes start c =
      if has_hex
      then put_rewritten start
          (apply_hex_escapes s.env.max_len start s.hex (drop start c.buf.bytes)) c
      else ok c

  -- What fastjson_write_large_json_string returned, with the buffer as it left it.
  unfoldable pub put_sized : ℕ → SizeStatus × Buf → Writer
  put_sized start (fits, buf) = modify (λ b. buf) >> splice_hex_escapes start
  put_sized start (invalid, buf) = modify (λ b. buf) >> fail invalid_utf8
  put_sized start (SizeStatus.too_large, buf) = modify (λ b. buf) >> fail too_large

  unfoldable pub put_string : ℕ → Option Bytes → Writer
  put_string start none = fail invalid_utf8
  put_string start (some w) = modify (put w) >> splice_hex_escapes start

  -- fj_splice_write_string
  unfoldable pub write_string : Bytes → Writer
  unfolding put_sized put_string reserve splice_hex_escapes
  write_string t c =
      if wants_sized_writer c.buf (length t)
      then put_sized (length c.buf.bytes) (write_large_json_string s.env s.yflags t c.buf) c
      else (fail_if (ltb ((s.env.max_len - 2) / 6) (length t)) too_large
            >> reserve (length t * 6 + 2)
            >> put_string (length c.buf.bytes) (s.env.write_string s.yflags t))
          c

  unfoldable pub put_number : Option Bytes → Writer
  put_number none = λ c. stop c
  put_number (some w) = modify (put w)

  -- fj_splice_write_number
  unfoldable pub write_number : Num → Writer
  unfolding put_number reserve is_finite
  write_number n =
      fail_if (not (is_finite n)) inf_or_nan >> reserve real_worst >> put_number (s.write_number n)

  -- fj_splice_write_raw
  unfoldable pub write_raw : Bytes → Writer
  unfolding has_float_mark reserve text
  write_raw t =
      fail_if (has_float_mark t && not (s.strtod_is_finite t)) inf_or_nan
      >> reserve (length t)
      >> text t

-- ===== src/StringWriter/Laws.antt =====
-- The one-pass writer of the vendored library, and what it means that a string was appended as
-- that writer writes it, for the string writer of fastjson.c.
use fastjson.Prelude.{false, some, ◌++◌, ◌≡◌, Bytes}
use fastjson.StringWriter.{
  Buf, WriteFlags, Env, SizeStatus, fits, invalid, too_large, word_needs_escape,
}
use fastjson.StringWriter.Large.{quoted}

-- What the code relies on of yyjson_write_string_to_buf: a written string stands between quotes,
-- a string with nothing to escape is copied, and two strings that it can write are written one
-- after the other.
pub record WriterLaws (env : Env) (flags : WriteFlags) : Type 0 where
  pub plain :
      (s : Bytes) → word_needs_escape flags s ≡ false → env.write_string flags s ≡ some (quoted s)
  pub between : (s w : Bytes) → env.write_string flags s ≡ some w → (x : Bytes) × (w ≡ quoted x)
  pub joined :
      (s t x y : Bytes)
      → env.write_string flags s ≡ some (quoted x)
      → env.write_string flags t ≡ some (quoted y)
      → env.write_string flags (s ++ t) ≡ some (quoted (x ++ y))

-- The string was appended as the one-pass writer writes it, or the buffer's bytes are unchanged.
abbrev pub Outcome : Env → WriteFlags → Bytes → Bytes → SizeStatus × Buf → Type 0
Outcome env flags s before (fits, buf) =
    (w : Bytes) × (env.write_string flags s ≡ some w) × (buf.bytes ≡ before ++ w)
Outcome env flags s before (invalid, buf) = buf.bytes ≡ before
Outcome env flags s before (too_large, buf) = buf.bytes ≡ before

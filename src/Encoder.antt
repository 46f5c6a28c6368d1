-- ===== src/Encoder.antt =====
-- The direct-write encoder of fastjson_directwrite.c: its context, its errors, and the values that
-- have no children. A step takes the context and returns it with whether to go on. Numbers are
-- those of a build with a 64-bit zend_long.
pub mod Strings
pub mod Numbers
pub mod Discard
pub mod Emit
pub mod Balance
pub mod Leaves
pub mod Restores
pub mod Bodies
pub mod Containers
pub mod Emits
pub mod Marks
pub mod Clean
pub mod Strict
pub mod Succeeds
use fastjson.Prelude.{
  ℕ, zero, suc, ◌+◌, ◌-◌, ◌*◌, ◌/◌, ◌%◌, ◌^◌, Bool, true, false, not, ◌&&◌, ◌||◌, Option, none,
  some, List, [], ◌∷◌, ◌++◌, Bytes, codes, length, take, drop, ltb, leb, ◌==◌, if◌then◌else◌,
}
use fastjson.Doc.{Num, sint, real}
use fastjson.Utf8.{sanitize_utf8, utf8_well_formed}
use fastjson.Utf8
use fastjson.HexEscapes.{HexFlags, apply_hex_escapes}
use fastjson.StringWriter.{
  Buf, WriteFlags, Env, alloc, append, put, SizeStatus, fits, invalid, too_large,
  wants_sized_writer,
}
use fastjson.StringWriter.Large.{write_large_json_string}
use fastjson.Splice.{append_newline_indent, is_finite}
use fastjson.Errors.{
  ErrorState, error_state_set, error_depth, error_utf8, error_inf_or_nan, error_unsupported_type,
}
use fastjson.Zval.{Globals, Effect, Key, index, name, Table, Zval, null, reference}

abbrev pub error_recursion : ℕ
error_recursion = 6

abbrev pub error_non_backed_enum : ℕ
error_non_backed_enum = 11

-- The flags of an encode call.
pub record EncodeFlags : Type 0 where
  pub hex : HexFlags
  pub force_object : Bool
  pub numeric_check : Bool
  pub unescaped_slashes : Bool
  pub unescaped_unicode : Bool
  pub pretty_print : Bool
  pub partial_output : Bool
  pub preserve_zero_fraction : Bool
  pub ignore : Bool
  pub subst : Bool

-- What is_numeric_string finds: no number, or one of the two types.
pub data Numeric : Type 0 where
  not_numeric : Numeric
  is_long is_double : ℕ → Numeric

-- What stays the same in a run: the flags, and what is taken from the engine and the vendored
-- library: the string buffers, yyjson_write_number of an integer and of a real (`none` for NULL),
-- php_gcvt with a precision, ZEND_DOUBLE_MAX_LENGTH, zend_long_to_str, is_numeric_string, zend_array_is_list, whether
-- the engine reports the limit of the C stack, and whether that is exceeded inside so many calls.
pub record Setting : Type 0 where
  pub env : Env
  pub flags : EncodeFlags
  pub write_sint : ℕ → Bytes
  pub write_real : ℕ → Option Bytes
  pub gcvt : ℕ → ℕ → Bytes
  pub double_max_length : ℕ
  pub long_to_str : ℕ → Bytes
  pub numeric : Bytes → Numeric
  pub array_is_list : Table → Bool
  pub has_native_stack_limit : Bool
  pub overflowed : ℕ → Bool

-- A recursion mark that is set: on a hash table or an object with hooks, or the JSON guard of an
-- object.
pub data Guard : Type 0 where
  table_guard json_guard : ℕ → Guard

-- fastjson_dw_ctx, with the recursion marks, the globals, and whether an exception is pending.
-- call_depth is counted on every build, and tested where the engine reports no stack limit.
pub record Ctx : Type 0 where
  pub buf : Buf
  pub hard_error : Bool
  pub discard_aborted : Bool
  pub error : ErrorState
  pub call_depth : ℕ
  pub indent_level : ℕ
  pub guards : List Guard
  pub globals : Globals
  pub exception : Bool

abbrev pub Step : Type 0
Step = Ctx → Bool × Ctx

abbrev pub and_then : Bool × Ctx → Step → Bool × Ctx
and_then (true, c) k = k c
and_then (false, c) k = (false, c)

infixr 5 ◌>>◌
abbrev pub ◌>>◌ : Step → Step → Step
◌>>◌ m k c = and_then (m c) k

abbrev pub done : Step
done c = (true, c)

abbrev pub stop : Step
stop c = (false, c)

abbrev pub modify : (Buf → Buf) → Step
modify f c = (true, record c { buf = f c.buf })

-- fastjson_translate_write_flags, of the flags that the string writer reads.
unfoldable pub translate_write_flags : EncodeFlags → WriteFlags
translate_write_flags flags = record {
  slashes = not flags.unescaped_slashes;
  unicode = not flags.unescaped_unicode;
}

-- dw_set_error
unfoldable pub set_error : ℕ → Bytes → Step
set_error code msg c = (
  true,
  record c {
    error = error_state_set code (some msg);
    globals = record c.globals { last_err = error_state_set code (some msg) };
  },
)

-- dw_fail_too_large
unfoldable pub fail_too_large : Step
unfolding set_error
fail_too_large = set_error error_unsupported_type (codes "Encoded JSON string is too large") >> stop

abbrev pub has_hex : HexFlags → Bool
has_hex hex = hex.tag || hex.amp || hex.apos || hex.quot

abbrev pub malformed : Bytes
malformed = codes "Malformed UTF-8 characters, possibly incorrectly encoded"

abbrev pub inf_nan : Bytes
inf_nan = codes "Inf and NaN cannot be JSON encoded"

abbrev pub too_deep : Bytes
too_deep = codes "Maximum stack depth exceeded"

abbrev pub num_int_worst : ℕ
num_int_worst = 24

abbrev pub num_real_worst : ℕ
num_real_worst = 40

abbrev pub leave_call : Bool × Ctx → Bool × Ctx
leave_call (b, c) = (b, record c { call_depth = c.call_depth - 1 })

-- Userland code that ran, and an exception that it left.
abbrev pub userland : Effect → Step
userland effect c = (true, record c { globals = effect c.globals })

abbrev pub threw : Step
threw c = (false, record c { exception = true })

-- GC_IS_RECURSIVE, GC_PROTECT_RECURSION and GC_UNPROTECT_RECURSION, and the guards of the engine.
abbrev pub guard_eq : Guard → Guard → Bool
guard_eq (table_guard a) (table_guard b) = a == b
guard_eq (json_guard a) (json_guard b) = a == b
guard_eq (table_guard a) (json_guard b) = false
guard_eq (json_guard a) (table_guard b) = false

unfoldable pub is_recursive : Guard → List Guard → Bool
is_recursive g [] = false
is_recursive g (h ∷ gs) = guard_eq g h || is_recursive g gs

abbrev pub protect : Guard → Ctx → Ctx
protect g c = record c { guards = g ∷ c.guards }

unfoldable pub removed : Guard → List Guard → List Guard
removed g [] = []
removed g (h ∷ gs) = if guard_eq g h then gs else h ∷ removed g gs

abbrev pub unprotect : Guard → Bool × Ctx → Bool × Ctx
unprotect g (b, c) = (b, record c { guards = removed g c.guards })

module _ (s : Setting) where
  unfoldable pub text : Bytes → Step
  text t = modify (append s.env t)

  -- dw_reserve and dw_reserve_string
  unfoldable pub reserve : ℕ → Step
  unfolding fail_too_large
  reserve add c =
      if ltb (s.env.max_len - length c.buf.bytes) add
      then fail_too_large c
      else modify (alloc s.env add) c

  -- dw_emit_newline_indent
  unfoldable pub newline_indent : Step
  newline_indent c = modify (append_newline_indent s.env c.indent_level) c

  -- dw_partial_or_fail
  unfoldable pub partial_or_fail : ℕ → Bytes → (emit_zero_not_null : Bool) → Step
  unfolding set_error text
  partial_or_fail code msg emit_zero_not_null =
      set_error code msg
      >> (if s.flags.partial_output
          then text (if emit_zero_not_null then codes "0" else codes "null")
          else stop)

  abbrev pub fail_depth : Step
  fail_depth = partial_or_fail error_depth too_deep false

  -- dw_encode_zval and dw_discard_zval around their inner function.
  unfoldable pub counted : Step → Step
  counted m c =
      if not s.has_native_stack_limit && leb 1024 c.call_depth
      then fail_depth c
      else leave_call (m (record c { call_depth = c.call_depth + 1 }))

  -- The value of a slot, of what the inner function does with it: ZVAL_DEREF and then the function
  -- itself, which is what the inner one does with a reference.
  unfoldable pub in_slot : Zval → Step → Step
  unfolding counted
  in_slot (reference z) m = m
  in_slot null m = counted m
  in_slot _ m = counted m

  -- A container, with its recursion mark around the walk of it.
  unfoldable pub guarded : Option Guard → Step → Step
  unfolding is_recursive removed
  guarded none m c = m c
  guarded (some g) m c =
      if is_recursive g c.guards
      then partial_or_fail error_recursion (codes "Recursion detected") false c
      else unprotect g (m (protect g c))

  -- The test of the C stack, and the test that a container's depth is left.
  unfoldable pub stack_test : Step → Step
  stack_test m c = if s.overflowed c.call_depth then fail_depth c else m c

  unfoldable pub depth_test : ℕ → Step → Step
  depth_test r m c = if r == 0 then fail_depth c else m c

-- A mangled name of a private or protected property.
abbrev pub is_hidden : Key → Bool
is_hidden (index n) = false
is_hidden (name []) = false
is_hidden (name (c ∷ t)) = c == 0

abbrev pub table_mark : Option ℕ → Option Guard
table_mark none = none
table_mark (some n) = some (table_guard n)

abbrev is_space : ℕ → Bool
is_space c = c == b' ' || leb 9 c && leb c 13

abbrev is_digit : ℕ → Bool
is_digit c = leb b'0' c && leb c b'9'

-- Whether the first byte lets is_numeric_string find a number.
abbrev pub may_be_numeric : Bytes → Bool
may_be_numeric [] = true
may_be_numeric (c ∷ t) = is_space c || c == b'-' || c == b'+' || c == b'.' || is_digit c

-- A hash table is written as a list, and not as an object.
abbrev pub as_list : Setting → Table → Bool
as_list s ht = not s.flags.force_object && s.array_is_list ht

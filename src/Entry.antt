-- ===== src/Entry.antt =====
-- PHP functions over the recorded error: fastjson_pointer_exists of fastjson_decode.c,
-- fastjson_validate and the fastjson_last_error functions of fastjson.c. An argument that is of
-- another type is refused before the function runs.
pub mod Modes
pub mod Exists
pub mod Validates
pub mod WellFormed
mod Examples
use fastjson.Prelude.{
  ℕ, Bool, true, false, ◌||◌, Option, none, some, [], ◌∷◌, Bytes, codes, ltb, leb, ◌==◌,
  if◌then◌else◌,
}
use fastjson.Doc.{Val}
use fastjson.Location.{Place}
use fastjson.Pointer.{Status}
use fastjson.Pointer.Walk.{Utf8Flags, resolve_limited}
use fastjson.Reading.{
  ReadDoc, Parse, doc, unread, ReadFlags, DecodeFlags, Extra, no_extra, validate_only,
  invalid_parameter, ReadErr, read_doc_ex,
}
use fastjson.Errors.{
  ErrorState, error_state_set, cleared, error_none, error_depth, set_read_error, Reply, returned,
  value_error, Run, throw_mode_init, read_failed, dispatch_error,
}

-- The parser and the locator of the vendored library, and the largest size_t.
pub record Library : Type 0 where
  pub parse : ReadFlags → Bytes → Parse
  pub locate_pos : Bytes → ℕ → Option Place
  pub size_max : ℕ

-- A zend_long.
pub data ℤ : Type 0 where
  pos : ℕ → ℤ
  negsuc : ℕ → ℤ

abbrev pub int_max : ℕ
int_max = 2147483647

abbrev pub utf8_flags : DecodeFlags → Utf8Flags
utf8_flags flags = record { ignore = flags.ignore; subst = flags.subst }

-- `pointer_status == FJ_SPLICE_AMBIGUOUS || pointer_status == FJ_SPLICE_DEPTH_FAIL`
abbrev pub is_refused : Status → Bool
is_refused Status.ambiguous = true
is_refused Status.depth_fail = true
is_refused Status.ok = false
is_refused Status.settable_fail = false
is_refused Status.write_fail = false
is_refused Status.too_large = false
is_refused Status.inf_or_nan = false
is_refused Status.invalid_utf8 = false

-- What fastjson_pointer_exists does with the target of a pointer that was not refused.
unfoldable pub target_exists : Option Val → ErrorState → Reply Bool × ErrorState
target_exists none state = (returned false, cleared)
target_exists (some t) state = (returned true, state)

unfoldable pub resolved_exists :
    (throw_mode : Bool) → (saved state : ErrorState) → Status × Option Val → Reply Bool × ErrorState
unfolding dispatch_error target_exists
resolved_exists throw_mode saved state (status, target) =
    if is_refused status
    then dispatch_error status throw_mode saved false
    else target_exists target state

unfoldable pub read_exists :
    Library
    → DecodeFlags
    → Bytes
    → (pointer : Bytes) → (saved state : ErrorState) → Parse
    → Reply Bool × ErrorState
unfolding read_failed resolved_exists
read_exists lib flags json pointer saved state (unread err) =
    read_failed lib.locate_pos flags.throw_on_error saved json err false
read_exists lib flags json pointer saved state (doc d) =
    resolved_exists flags.throw_on_error saved state
      (resolve_limited lib.size_max d.root pointer 0 (utf8_flags flags))

-- fastjson_pointer_exists
unfoldable pub pointer_exists : Library → Bytes → Bytes → DecodeFlags → Run Bool
unfolding throw_mode_init read_exists
pointer_exists lib json pointer flags saved =
    read_exists lib flags json pointer saved (throw_mode_init flags.throw_on_error saved)
      (read_doc_ex lib.parse json flags no_extra)

-- The flags of fastjson_validate: the one that it takes, and whether another bit is set.
pub record ValidateFlags : Type 0 where
  pub ignore : Bool
  pub others : Bool

abbrev pub decode_flags : ValidateFlags → DecodeFlags
decode_flags flags = record {
  bigint_as_string = false;
  ignore = flags.ignore;
  subst = false;
  relaxed = false;
  throw_on_error = false;
}

unfoldable pub nesting_checked : Library → Bytes → (depth : ℕ) → Parse → Reply Bool × ErrorState
nesting_checked lib json depth (unread err) =
    (returned false, set_read_error lib.locate_pos json err)
nesting_checked lib json depth (doc d) =
    if leb depth d.val_read
    then (returned false, error_state_set error_depth (some (codes "Maximum stack depth exceeded")))
    else (returned true, cleared)

-- The depth from 1 to INT_MAX, or a ValueError.
unfoldable pub validate_depth : Library → Bytes → ValidateFlags → ℤ → Reply Bool × ErrorState
unfolding nesting_checked
validate_depth lib json flags (negsuc n) = (value_error, cleared)
validate_depth lib json flags (pos depth) =
    if depth == 0 || ltb int_max depth
    then (value_error, cleared)
    else nesting_checked lib json depth
        (read_doc_ex lib.parse json (decode_flags flags) validate_only)

abbrev pub empty_err : ReadErr
empty_err = record { code = invalid_parameter; msg = some (codes "input length is 0"); pos = 0 }

-- fastjson_validate
unfoldable pub validate : Library → Bytes → ℤ → ValidateFlags → Run Bool
unfolding validate_depth
validate lib [] depth flags state =
    if flags.others
    then (value_error, state)
    else (returned false, set_read_error lib.locate_pos [] empty_err)
validate lib (c ∷ t) depth flags state =
    if flags.others then (value_error, state) else validate_depth lib (c ∷ t) flags depth

-- fastjson_last_error, fastjson_last_error_pos and fastjson_last_error_msg
unfoldable pub last_error : ErrorState → ℕ
last_error state = state.code

unfoldable pub last_error_pos : ErrorState → ℤ
last_error_pos state = elim state.pos [ none ↦ negsuc 0 | some at ↦ pos at ]

unfoldable pub last_error_msg : ErrorState → Bytes
last_error_msg state = elim state.msg [
  | none ↦ codes "No error"
  | some msg ↦ if state.code == error_none then codes "No error" else msg
]

-- ===== src/Errors.antt =====
-- The recorded error: the module globals of php_fastjson.h, the functions of fastjson.c that set,
-- save, restore and throw an error, and the table of splice errors of fastjson_decode.c.
use fastjson.Prelude.{
  ℕ, Bool, true, false, Option, none, some, Bytes, codes, length, leb, if◌then◌else◌,
}
use fastjson.Location.{Place, locate_ascii_pos}
use fastjson.Reading.{
  ReadCode, success, invalid_string, invalid_number, invalid_parameter, another, ReadErr,
}
use fastjson.Pointer.{Status}

abbrev pub error_none : ℕ
error_none = 0

abbrev pub error_depth : ℕ
error_depth = 1

abbrev pub error_syntax : ℕ
error_syntax = 4

abbrev pub error_utf8 : ℕ
error_utf8 = 5

abbrev pub error_inf_or_nan : ℕ
error_inf_or_nan = 7

abbrev pub error_unsupported_type : ℕ
error_unsupported_type = 8

-- The globals `last_err_*` and fastjson_error_state, which has the same fields. A position of -1
-- is `none`, and so is a NULL message.
pub record ErrorState : Type 0 where
  pub code : ℕ
  pub msg : Option Bytes
  pub pos : Option ℕ
  pub line : ℕ
  pub col : ℕ

-- fastjson_error_globals_set and fastjson_error_state_set
abbrev pub error_state_set : ℕ → Option Bytes → ErrorState
error_state_set code msg = record { code = code; msg = msg; pos = none; line = 0; col = 0 }

-- fastjson_clear_error and fastjson_error_state_clear
abbrev pub cleared : ErrorState
cleared = error_state_set error_none none

-- fastjson_translate_read_code
unfoldable pub translate_read_code : ReadCode → ℕ
translate_read_code success = error_none
translate_read_code invalid_string = error_utf8
translate_read_code invalid_number = error_syntax
translate_read_code invalid_parameter = error_syntax
translate_read_code (another n) = error_syntax

-- `err->code != YYJSON_READ_SUCCESS`
abbrev pub is_error : ReadCode → Bool
is_error success = false
is_error invalid_string = true
is_error invalid_number = true
is_error invalid_parameter = true
is_error (another n) = true

abbrev pub place_of : Option Place → Option Place → Option Place
place_of (some place) other = some place
place_of none other = other

-- The location that was found, or none.
unfoldable pub with_place : Option Place → ErrorState → ErrorState
with_place none state = state
with_place (some place) state = record state { line = place.line; col = place.col }

-- fastjson_set_read_error, with yyjson_locate_pos.
unfoldable pub set_read_error :
    (locate_pos : Bytes → ℕ → Option Place) → Bytes → ReadErr → ErrorState
unfolding translate_read_code with_place
set_read_error locate_pos json err =
    let state = error_state_set (translate_read_code err.code) err.msg in
    if is_error err.code
    then (if leb err.pos (length json)
        then with_place (place_of (locate_ascii_pos json err.pos) (locate_pos json err.pos))
            (record state { pos = some err.pos })
        else state)
    else state

-- What a PHP function does: it returns a value, or throws fastjson's exception or a ValueError.
pub data Reply {ℓ} (A : Type ℓ) : Type ℓ where
  returned : A → Reply A
  thrown : (code : ℕ) → (msg : Bytes) → Reply A
  value_error : Reply A

-- A function that keeps the recorded error.
abbrev pub Run {ℓ} : Type ℓ → Type ℓ
Run A = ErrorState → Reply A × ErrorState

-- fastjson_throw_mode_init: the globals after it; it saves the ones before it.
unfoldable pub throw_mode_init : Bool → ErrorState → ErrorState
throw_mode_init true state = state
throw_mode_init false state = cleared

abbrev pub message : Option Bytes → Option Bytes → Bytes
message (some msg) fallback = msg
message none (some fallback) = fallback
message none none = codes "fastjson error"

-- fastjson_throw_error, and what it leaves: the saved error.
unfoldable pub throw_error {ℓ} :
    {A : Type ℓ} → ℕ → Option Bytes → Option Bytes → (saved : ErrorState) → Reply A × ErrorState
throw_error code msg fallback saved = (thrown code (message msg fallback), saved)

-- fastjson_throw_read_error, or fastjson_set_read_error with a value to return.
unfoldable pub read_failed {ℓ} :
    {A : Type ℓ}
    → (locate_pos : Bytes → ℕ → Option Place) → (throw_mode : Bool) → (saved : ErrorState) → Bytes
    → ReadErr
    → A
    → Reply A × ErrorState
unfolding throw_error set_read_error
read_failed locate_pos true saved json err result =
    throw_error (translate_read_code err.code) err.msg (some (codes "JSON parse error")) saved
read_failed locate_pos false saved json err result =
    (returned result, set_read_error locate_pos json err)

-- fj_splice_errors, and what stands behind the loop over it.
unfoldable pub splice_error : Status → ℕ × Bytes
splice_error Status.depth_fail = (error_depth, codes "Maximum stack depth exceeded")
splice_error Status.too_large = (error_unsupported_type, codes "Encoded JSON string is too large")
splice_error Status.inf_or_nan = (error_inf_or_nan, codes "Inf and NaN cannot be JSON encoded")
splice_error Status.invalid_utf8 =
    (error_utf8, codes "Malformed UTF-8 characters, possibly incorrectly encoded")
splice_error Status.ambiguous = (
  error_syntax,
  codes "JSON pointer target is ambiguous because the object contains duplicate members",
)
splice_error Status.settable_fail =
    (error_syntax, codes "JSON pointer does not resolve to a settable location")
splice_error Status.write_fail = (error_syntax, codes "fastjson_pointer_set write failed")
splice_error Status.ok = (error_syntax, codes "fastjson_pointer_set write failed")

-- fj_splice_dispatch_error, with the value that the caller returns where nothing is thrown.
unfoldable pub dispatch_error {ℓ} :
    {A : Type ℓ} → Status → (throw_mode : Bool) → (saved : ErrorState) → A → Reply A × ErrorState
unfolding splice_error throw_error
dispatch_error status true saved result =
    let (code, msg) = splice_error status in throw_error code (some msg) none saved
dispatch_error status false saved result =
    let (code, msg) = splice_error status in (returned result, error_state_set code (some msg))

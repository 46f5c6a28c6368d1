-- ===== src/Encode.antt =====
-- PHP functions of fastjson_encode.c over the direct-write encoder, fastjson_directwrite_encode of
-- fastjson_directwrite.c, and the write of a file. Userland code that runs inside a call changes the
-- globals; the call reports its own error after that.
pub mod Writes
pub mod Delivers
pub mod Partial
pub mod Strict
pub mod Examples
use fastjson.Prelude.{
  ℕ, zero, suc, ◌+◌, ◌-◌, ◌*◌, Bool, true, false, not, ◌&&◌, ◌||◌, Option, none, some, List, [],
  ◌∷◌, ◌++◌, Bytes, codes, length, take, drop, ltb, leb, ◌==◌, if◌then◌else◌,
}
use fastjson.StringWriter.{Buf, alloc}
use fastjson.Errors.{
  ErrorState, error_state_set, cleared, error_syntax, Reply, returned, thrown, value_error, message,
  throw_mode_init,
}
use fastjson.Entry.{ℤ, pos, negsuc, int_max}
use fastjson.Zval.{Zval, null, bool, long, Globals}
use fastjson.Encoder.{Setting, Guard, Ctx}
use fastjson.Encoder.Emit.{bool_text, encode_zval}

-- What fastjson_directwrite_encode returns (`none` for NULL), its error state, the globals after
-- it, and whether an exception is pending.
pub record Encoded : Type 0 where
  pub result : Option Bytes
  pub error : ErrorState
  pub globals : Globals
  pub exception : Bool

-- A depth of zend_long: one below 0 is 0, since a container fails at either.
abbrev pub clamped : ℤ → ℕ
clamped (pos n) = n
clamped (negsuc n) = 0

-- A scalar whose text needs no context.
abbrev pub immediate : Setting → Zval → Option Bytes
immediate s null = some (codes "null")
immediate s (bool b) = some (bool_text b)
immediate s (long n) = some (s.long_to_str n)
immediate s z = none

-- The context that is set up for a run; an enclosing run has set the recursion marks `guards`.
unfoldable pub start_ctx : Setting → List Guard → Globals → Ctx
start_ctx s guards g = record {
  buf = alloc s.env 256 (record { bytes = []; room = 0 });
  hard_error = false;
  discard_aborted = false;
  error = cleared;
  call_depth = 0;
  indent_level = 0;
  guards = guards;
  globals = g;
  exception = false;
}

unfoldable pub finished : Bool × Ctx → Encoded
finished (ok, c) = record {
  result = if not ok || c.hard_error then none else some c.buf.bytes;
  error = c.error;
  globals = c.globals;
  exception = c.exception;
}

-- fastjson_directwrite_encode
unfoldable pub directwrite_encode : Setting → Zval → ℤ → List Guard → Globals → Encoded
unfolding start_ctx finished encode_zval
directwrite_encode s z depth guards g = elim (immediate s z) [
  | some t ↦ record { result = some t; error = cleared; globals = g; exception = false }
  | none ↦ finished (encode_zval s z (clamped depth) (start_ctx s guards g))
]

-- How a call ends: as a PHP function does by itself, or with an exception of userland code.
pub data Outcome {ℓ} (A : Type ℓ) : Type ℓ where
  reply : Reply A → Outcome A
  userland_exception : Outcome A

abbrev pub with_error : Globals → ErrorState → Globals
with_error g err = record g { last_err = err }

-- fastjson_do_encode: its result, encode_err, and the globals; `none` in a reply is NULL.
unfoldable pub published :
    (throw_mode : Bool)
    → (saved : ErrorState) → (fallback : Bytes) → Encoded
    → Outcome (Option Bytes) × Globals
published throw_mode saved fallback e =
    if e.exception
    then (userland_exception, if throw_mode then e.globals else with_error e.globals e.error)
    else elim e.result [
      | some t ↦
          (reply (returned (some t)), with_error e.globals (if throw_mode then saved else e.error))
      | none ↦
          if throw_mode
          then (
            reply (thrown e.error.code (message e.error.msg (some fallback))),
            with_error e.globals saved,
          )
          else (reply (returned none), with_error e.globals e.error)
    ]

-- The flags of an encode call that concern its errors.
abbrev pub throws : Setting → (throw_on_error : Bool) → Bool
throws s throw_on_error = throw_on_error && not s.flags.partial_output

-- fastjson_encode_depth_in_range
unfoldable pub encode_depth_in_range : ℤ → Bool
encode_depth_in_range (pos n) = leb n int_max
encode_depth_in_range (negsuc n) = leb n int_max

abbrev pub begun : Bool → Globals → Globals
begun throw_mode g = record g { last_err = throw_mode_init throw_mode g.last_err }

-- fastjson_encode; `none` is false.
unfoldable pub encode :
    Setting
    → (throw_on_error : Bool) → Zval
    → ℤ
    → List Guard
    → Globals
    → Outcome (Option Bytes) × Globals
unfolding published directwrite_encode encode_depth_in_range
encode s throw_on_error z depth guards g =
    if encode_depth_in_range depth
    then published (throws s throw_on_error) g.last_err (codes "fastjson_encode failed")
        (directwrite_encode s z depth guards (begun (throws s throw_on_error) g))
    else (reply value_error, g)

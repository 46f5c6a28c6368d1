-- ===== src/Decode/Set.antt =====
-- fastjson_pointer_set of fastjson_decode.c, with fastjson_pointer_build_replacement of
-- fastjson_pointer_splice.c: a document with one value replaced, as text.
use fastjson.Prelude.{
  ℕ, ◌-◌, Bool, true, false, not, ◌&&◌, ◌||◌, Option, none, some, List, Bytes, codes, ◌==◌,
  if◌then◌else◌,
}
use fastjson.Doc.{Val, sint}
use fastjson.Utf8.{sanitize_utf8, utf8_well_formed, SanitizeMode}
use fastjson.Reading.{Parse, doc, unread, DecodeFlags, Extra, read_doc_ex}
use fastjson.Pointer.{Plan}
use fastjson.Pointer.Walk.{PlanInit, ready, plan_init}
use fastjson.Splice
use fastjson.Splice.{Replacement, value, encoded}
use fastjson.Splice.Edit.{SetResult, written, imut_pointer_set_write}
use fastjson.Errors.{
  ErrorState, cleared, error_none, Reply, returned, thrown, value_error, message, read_failed,
  dispatch_error,
}
use fastjson.Entry.{ℤ, pos}
use fastjson.Zval.{Zval, null, bool, long, string, reference, Globals}
use fastjson.Encoder.{Setting, Guard, translate_write_flags}
use fastjson.Encode.{
  Encoded, directwrite_encode, Outcome, reply, userland_exception, with_error, begun,
}
use fastjson.Decode.{Engine, effective_walk_depth, valid_depth}

-- What fastjson_pointer_build_replacement gives: the replacement (`none` for false), its error
-- state, the globals, and whether an exception is pending.
pub record Built : Type 0 where
  pub replacement : Option Replacement
  pub error : ErrorState
  pub globals : Globals
  pub exception : Bool

-- A string, sanitized where the flags ask for that and it is not well formed.
unfoldable pub replaced_string : Setting → Bytes → Bytes
replaced_string s t =
    if (s.flags.ignore || s.flags.subst) && not (utf8_well_formed t)
    then sanitize_utf8 s.flags.ignore s.flags.subst SanitizeMode.encode t
    else t

-- The scalars whose representation no flag changes.
unfoldable pub plain_value : Setting → Zval → Option Val
unfolding replaced_string
plain_value s null = some Val.null
plain_value s (bool b) = some (Val.bool b)
plain_value s (long n) = some (Val.num (sint n))
plain_value s (string t) = some (Val.str (record { bytes = replaced_string s t; invalid = false }))
plain_value s z = none

-- ZVAL_DEREF
abbrev pub dereferenced : Zval → Zval
dereferenced (reference z) = z
dereferenced z = z

abbrev pub must_encode : Setting → Bool
must_encode s =
    s.flags.force_object || s.flags.numeric_check || s.flags.partial_output
    || s.flags.preserve_zero_fraction

unfoldable pub encoded_replacement : Encoded → Built
encoded_replacement e = record {
  replacement =
      if e.exception then none else elim e.result [ none ↦ none | some t ↦ some (encoded t) ];
  error = e.error;
  globals = e.globals;
  exception = e.exception;
}

-- fastjson_pointer_build_replacement
unfoldable pub build_replacement : Setting → Zval → (depth : ℕ) → List Guard → Globals → Built
unfolding plain_value encoded_replacement directwrite_encode
build_replacement s z depth guards g =
    elim (if must_encode s then none else plain_value s (dereferenced z)) [
      | some v ↦ record {
        replacement = some (value v);
        error = cleared;
        globals = g;
        exception = false;
      }
      | none ↦ encoded_replacement (directwrite_encode s (dereferenced z) (pos depth) guards g)
    ]

-- The base document is read with RELAXED only.
abbrev pub base_flags : (relaxed : Bool) → DecodeFlags
base_flags relaxed = record {
  bigint_as_string = false;
  ignore = false;
  subst = false;
  relaxed = relaxed;
  throw_on_error = false;
}

abbrev pub in_globals {ℓ} : {A : Type ℓ} → Globals → Reply A × ErrorState → Outcome A × Globals
in_globals g (r, err) = (reply r, with_error g err)

-- The splice writer of a call, over the buffers and the flags of the encoder.
abbrev pub splicing : Setting → Splice.Setting → Splice.Setting
splicing s w = record w {
  env = s.env;
  yflags = translate_write_flags s.flags;
  hex = s.flags.hex;
  pretty = s.flags.pretty_print;
}

-- `s` is the encoder of the replacement, with the flags of the call, and `w` what the splice writer
-- of the document takes from outside besides.
module _ (e : Engine) (s : Setting) (w : Splice.Setting) (throw_mode : Bool) where
  -- Behind fastjson_imut_pointer_set_write; `none` is false.
  unfoldable pub set_written :
      (saved err : ErrorState) → Globals → SetResult → Outcome (Option Bytes) × Globals
  unfolding dispatch_error
  set_written saved err g (written t) = (
    reply (returned (some t)),
    if throw_mode then with_error g (if err.code == error_none then saved else err) else g,
  )
  set_written saved err g (SetResult.failed status) =
      in_globals g (dispatch_error status throw_mode saved none)

  -- Behind fastjson_pointer_build_replacement, whose error state is `err`.
  unfoldable pub set_replaced :
      (saved : ErrorState)
      → Val
      → Plan
      → (depth : ℕ) → (err : ErrorState) → (exception : Bool) → Globals
      → Option Replacement
      → Outcome (Option Bytes) × Globals
  unfolding set_written imut_pointer_set_write
  set_replaced saved root plan depth err exception g (some r) =
      set_written saved err g
        (imut_pointer_set_write (splicing s w) e.lib.size_max r root plan depth)
  set_replaced saved root plan depth err true g none = (userland_exception, g)
  set_replaced saved root plan depth err false g none =
      if throw_mode
      then (
        reply
            (thrown err.code (message err.msg (some (codes "fastjson_pointer_set encode failed")))),
        with_error g saved,
      )
      else (reply (returned none), g)

  abbrev restored : Built → Globals
  restored b = if throw_mode then b.globals else with_error b.globals b.error

  unfoldable pub set_planned :
      (saved : ErrorState)
      → Zval
      → List Guard
      → Globals
      → Val
      → (depth : ℕ) → PlanInit
      → Outcome (Option Bytes) × Globals
  unfolding set_replaced build_replacement dispatch_error
  set_planned saved z guards g root depth (PlanInit.failed status) =
      in_globals g (dispatch_error status throw_mode saved none)
  set_planned saved z guards g root depth (ready plan) =
      let b = build_replacement s z (depth - plan.nsegs - 1) guards g in
      set_replaced saved root plan depth b.error b.exception (restored b) b.replacement

  unfoldable pub set_into :
      (saved : ErrorState)
      → (json pointer : Bytes) → Zval
      → List Guard
      → Globals
      → (depth : ℕ) → Parse
      → Outcome (Option Bytes) × Globals
  unfolding set_planned plan_init read_failed
  set_into saved json pointer z guards g depth (unread err) =
      in_globals g (read_failed e.lib.locate_pos throw_mode saved json err none)
  set_into saved json pointer z guards g depth (doc d) =
      set_planned saved z guards g d.root depth (plan_init e.lib.size_max d.root pointer depth)

  -- fastjson_pointer_set
  unfoldable pub pointer_set :
      (relaxed : Bool)
      → (json pointer : Bytes) → Zval
      → (depth : ℤ) → List Guard
      → Globals
      → Outcome (Option Bytes) × Globals
  unfolding set_into valid_depth effective_walk_depth
  pointer_set relaxed json pointer z depth guards g = elim (valid_depth depth) [
    | none ↦ (reply value_error, begun throw_mode g)
    | some n ↦
        set_into g.last_err json pointer z guards (begun throw_mode g) (effective_walk_depth e n)
          (read_doc_ex e.lib.parse json (base_flags relaxed) Extra.number_as_raw)
  ]

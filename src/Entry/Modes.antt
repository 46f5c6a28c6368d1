-- ===== src/Entry/Modes.antt =====
-- The recorded error under FASTJSON_DECODE_THROW_ON_ERROR and without it, for the PHP functions of
-- fastjson_decode.c.
use fastjson.Prelude.{Bool, true, false, Option, none, some, Bytes, if◌then◌else◌, ◌≡◌, refl}
use fastjson.Doc.{Val}
use fastjson.Pointer.{Status}
use fastjson.Pointer.Walk.{resolve_limited}
use fastjson.Reading.{Parse, doc, unread, DecodeFlags, read_doc_ex, no_extra}
use fastjson.Errors.{
  ErrorState, cleared, Reply, returned, thrown, value_error, throw_mode_init, throw_error,
  read_failed, dispatch_error,
}
use fastjson.Entry.{
  Library, is_refused, target_exists, resolved_exists, read_exists, pointer_exists, utf8_flags,
}

-- What a call leaves of the error that was recorded before it: under the throwing mode the error
-- itself, or none where the result is that nothing is there; without that mode nothing is thrown.
abbrev pub Kept : (throw_mode : Bool) → (before : ErrorState) → Reply Bool × ErrorState → Type 0
Kept true before (returned true, after) = after ≡ before
Kept true before (returned false, after) = after ≡ cleared
Kept true before (thrown code msg, after) = after ≡ before
Kept true before (value_error, after) = ⊥
Kept false before (returned true, after) = after ≡ cleared
Kept false before (returned false, after) = Unit {0}
Kept false before (thrown code msg, after) = ⊥
Kept false before (value_error, after) = ⊥

dispatch_error-Kept :
    (status : Status) (mode : Bool) (saved : ErrorState)
    → Kept mode saved (dispatch_error status mode saved false)
unfolding dispatch_error throw_error
dispatch_error-Kept status true saved = refl
dispatch_error-Kept status false saved = tt

target_exists-Kept :
    (target : Option Val) (mode : Bool) (saved : ErrorState)
    → Kept mode saved (target_exists target (throw_mode_init mode saved))
unfolding target_exists throw_mode_init
target_exists-Kept none true saved = refl
target_exists-Kept none false saved = tt
target_exists-Kept (some t) true saved = refl
target_exists-Kept (some t) false saved = refl

resolved_exists-Kept :
    (mode : Bool) (saved : ErrorState) (r : Status × Option Val)
    → Kept mode saved (resolved_exists mode saved (throw_mode_init mode saved) r)
unfolding resolved_exists
resolved_exists-Kept mode saved (status, target) = choose (is_refused status)
  where
    choose :
        (b : Bool)
        → Kept mode saved (
            if b
            then dispatch_error status mode saved false
            else target_exists target (throw_mode_init mode saved))
    choose true = dispatch_error-Kept status mode saved
    choose false = target_exists-Kept target mode saved

read_exists-Kept :
    (lib : Library) (json pointer : Bytes) (flags : DecodeFlags) (saved : ErrorState) (p : Parse)
    → Kept flags.throw_on_error saved
        (read_exists lib flags json pointer saved (throw_mode_init flags.throw_on_error saved) p)
unfolding read_exists read_failed throw_error
read_exists-Kept lib json pointer flags saved (doc d) =
    resolved_exists-Kept flags.throw_on_error saved
      (resolve_limited lib.size_max d.root pointer 0 (utf8_flags flags))
read_exists-Kept lib json pointer flags saved (unread err) = choose flags.throw_on_error
  where
    choose : (mode : Bool) → Kept mode saved (read_failed lib.locate_pos mode saved json err false)
    choose true = refl
    choose false = tt

-- A call of fastjson_pointer_exists under FASTJSON_DECODE_THROW_ON_ERROR leaves the recorded error
-- as it was where it throws or returns true, and clears it where it returns false. A call without
-- that flag throws nothing, and no error is recorded where it returns true.
pub pointer_exists-Kept :
    (lib : Library) (json pointer : Bytes) (flags : DecodeFlags) (before : ErrorState)
    → Kept flags.throw_on_error before (pointer_exists lib json pointer flags before)
unfolding pointer_exists
pointer_exists-Kept lib json pointer flags before =
    read_exists-Kept lib json pointer flags before (read_doc_ex lib.parse json flags no_extra)

-- ===== src/Entry/WellFormed.antt =====
-- The fields of the recorded error of fastjson.c agree with each other.
use fastjson.Prelude.{
  ℕ, ◌+◌, ◌-◌, Bool, true, false, Option, none, some, [], ◌∷◌, Bytes, codes, length, take, drop,
  leb, ltb, ◌||◌, ◌==◌, if◌then◌else◌, ◌≡◌, refl, sym, ◌∙◌, arith,
}
use fastjson.Doc.{Val}
use fastjson.Location.{Place, Scan, locate_ascii_pos, locate_start, scan_words}
use fastjson.Pointer.{Status}
use fastjson.Pointer.Walk.{resolve_limited}
use fastjson.Reading.{
  ReadErr, Parse, doc, unread, read_doc_ex, no_extra, validate_only, DecodeFlags,
}
use fastjson.Errors.{
  ErrorState, cleared, error_state_set, set_read_error, with_place, place_of, is_error,
  translate_read_code, Reply, returned, value_error, throw_mode_init, throw_error, splice_error,
  read_failed, dispatch_error,
}
use fastjson.Entry.{
  Library, ℤ, pos, negsuc, ValidateFlags, decode_flags, nesting_checked, validate_depth, validate,
  empty_err, int_max, is_refused, target_exists, resolved_exists, read_exists, pointer_exists,
  utf8_flags,
}
use fastjson.Entry.Validates.{translate_read_code-is_error}

-- Without a position there is no line and no column; with one there are both or neither.
abbrev pub Located : Option ℕ → ℕ → ℕ → Type 0
Located none line col = (line ≡ 0) × (col ≡ 0)
Located (some at) line col = (line == 0) ≡ (col == 0)

abbrev pub NoPosition : Option ℕ → Type 0
NoPosition none = Unit
NoPosition (some at) = ⊥

-- And without an error there is no position.
abbrev pub WellFormed : ErrorState → Type 0
WellFormed state = Located state.pos state.line state.col × (state.code ≡ 0 → NoPosition state.pos)

abbrev Leaves : Reply Bool × ErrorState → Type 0
Leaves r = WellFormed r.1

-- A line and a column count from 1.
abbrev pub FromOne : Option Place → Type 0
FromOne none = Unit
FromOne (some place) = ((place.line == 0) ≡ false) × ((place.col == 0) ≡ false)

error_state_set-WellFormed : (code : ℕ) (msg : Option Bytes) → WellFormed (error_state_set code msg)
error_state_set-WellFormed code msg = ((refl, refl), λ e. tt)

locate_ascii_pos-FromOne : (json : Bytes) (at : ℕ) → FromOne (locate_ascii_pos json at)
unfolding locate_ascii_pos
locate_ascii_pos-FromOne json at = choose (
    scan_words at (locate_start json at) (drop (locate_start json at) (take at json))
      (record { line_count = 0; line_start = locate_start json at }))
  where
    choose :
        (o : Option Scan)
        → FromOne (elim o [
          | none ↦ none
          | some st ↦ some (record { line = st.line_count + 1; col = at - st.line_start + 1 })
        ])
    choose none = tt
    choose (some st) = (ground arith, ground arith)

with_place-WellFormed :
    (o : Option Place)
    → FromOne o
    → (code : ℕ) (msg : Option Bytes) (at : ℕ) → (code == 0) ≡ false
    → WellFormed
        (with_place o (record { code = code; msg = msg; pos = some at; line = 0; col = 0 }))
unfolding with_place
with_place-WellFormed none g code msg at e = (refl, λ z. absurd (ground arith))
with_place-WellFormed (some place) (l, c) code msg at e = (l ∙ sym c, λ z. absurd (ground arith))

module _ (lib : Library)
    (from_one : (json : Bytes) (at : ℕ) → FromOne (lib.locate_pos json at)) where
  place_of-FromOne :
      (o : Option Place)
      → FromOne o
      → (json : Bytes) (at : ℕ) → FromOne (place_of o (lib.locate_pos json at))
  place_of-FromOne none g json at = from_one json at
  place_of-FromOne (some place) g json at = g

  set_read_error-WellFormed :
      (json : Bytes) (err : ReadErr) → WellFormed (set_read_error lib.locate_pos json err)
  unfolding set_read_error translate_read_code
  set_read_error-WellFormed json err = choose (is_error err.code) refl (leb err.pos (length json))
    where
      state : ErrorState
      state = error_state_set (translate_read_code err.code) err.msg

      choose :
          (a : Bool)
          → is_error err.code ≡ a
          → (b : Bool)
          → WellFormed (
              if a
              then (if b
                  then with_place
                      (place_of (locate_ascii_pos json err.pos) (lib.locate_pos json err.pos))
                      (record state { pos = some err.pos })
                  else state)
              else state)
      choose true e true =
          with_place-WellFormed
            (place_of (locate_ascii_pos json err.pos) (lib.locate_pos json err.pos))
            (place_of-FromOne (locate_ascii_pos json err.pos)
              (locate_ascii_pos-FromOne json err.pos) json err.pos)
            (translate_read_code err.code) err.msg err.pos (translate_read_code-is_error err.code e)
      choose true e false = error_state_set-WellFormed (translate_read_code err.code) err.msg
      choose false e b = error_state_set-WellFormed (translate_read_code err.code) err.msg

  read_failed-WellFormed :
      (mode : Bool) (saved : ErrorState) (json : Bytes) (err : ReadErr)
      → WellFormed saved
      → WellFormed (read_failed lib.locate_pos mode saved json err false).1
  unfolding read_failed throw_error
  read_failed-WellFormed true saved json err w = w
  read_failed-WellFormed false saved json err w = set_read_error-WellFormed json err

  dispatch_error-WellFormed :
      (status : Status) (mode : Bool) (saved : ErrorState)
      → WellFormed saved
      → WellFormed (dispatch_error status mode saved false).1
  unfolding dispatch_error throw_error
  dispatch_error-WellFormed status true saved w = w
  dispatch_error-WellFormed status false saved w =
      error_state_set-WellFormed (splice_error status).0 (some (splice_error status).1)

  throw_mode_init-WellFormed :
      (mode : Bool) (saved : ErrorState)
      → WellFormed saved
      → WellFormed (throw_mode_init mode saved)
  unfolding throw_mode_init
  throw_mode_init-WellFormed true saved w = w
  throw_mode_init-WellFormed false saved w = error_state_set-WellFormed 0 none

  resolved_exists-WellFormed :
      (mode : Bool) (saved state : ErrorState) (r : Status × Option Val)
      → WellFormed saved
      → WellFormed state
      → WellFormed (resolved_exists mode saved state r).1
  unfolding resolved_exists target_exists
  resolved_exists-WellFormed mode saved state (status, target) w v =
      choose (is_refused status) target
    where
      choose :
          (b : Bool) (o : Option Val)
          → Leaves (if b then dispatch_error status mode saved false else target_exists o state)
      choose true o = dispatch_error-WellFormed status mode saved w
      choose false none = error_state_set-WellFormed 0 none
      choose false (some t) = v

  exists_WellFormed :
      (json pointer : Bytes) (flags : DecodeFlags) (saved state : ErrorState) (p : Parse)
      → WellFormed saved
      → WellFormed state
      → WellFormed (read_exists lib flags json pointer saved state p).1
  unfolding read_exists
  exists_WellFormed json pointer flags saved state (unread err) w v =
      read_failed-WellFormed flags.throw_on_error saved json err w
  exists_WellFormed json pointer flags saved state (doc d) w v =
      resolved_exists-WellFormed flags.throw_on_error saved state
        (resolve_limited lib.size_max d.root pointer 0 (utf8_flags flags)) w v

  nesting_checked-WellFormed :
      (json : Bytes) (depth : ℕ) (p : Parse) → WellFormed (nesting_checked lib json depth p).1
  unfolding nesting_checked
  nesting_checked-WellFormed json depth (unread err) = set_read_error-WellFormed json err
  nesting_checked-WellFormed json depth (doc d) = choose (leb depth d.val_read)
    where
      choose :
          (b : Bool)
          → Leaves (
              if b
              then (returned false, error_state_set 1 (some (codes "Maximum stack depth exceeded")))
              else (returned true, cleared))
      choose true = error_state_set-WellFormed 1 (some (codes "Maximum stack depth exceeded"))
      choose false = error_state_set-WellFormed 0 none

  validate_depth-WellFormed :
      (json : Bytes) (flags : ValidateFlags) (depth : ℤ)
      → WellFormed (validate_depth lib json flags depth).1
  unfolding validate_depth
  validate_depth-WellFormed json flags (negsuc n) = error_state_set-WellFormed 0 none
  validate_depth-WellFormed json flags (pos depth) = choose (depth == 0 || ltb int_max depth)
    where
      choose :
          (b : Bool)
          → Leaves (
              if b
              then (value_error, cleared)
              else nesting_checked lib json depth
                  (read_doc_ex lib.parse json (decode_flags flags) validate_only))
      choose true = error_state_set-WellFormed 0 none
      choose false =
          nesting_checked-WellFormed json depth
            (read_doc_ex lib.parse json (decode_flags flags) validate_only)

  -- A call of fastjson_pointer_exists, thrown or returned, keeps the recorded error well formed: no
  -- position without an error, no line and column without a position, and a line wherever there
  -- is a column. The vendored locator counts lines and columns from 1.
  pub pointer_exists-WellFormed :
      (json pointer : Bytes) (flags : DecodeFlags) (before : ErrorState)
      → WellFormed before
      → WellFormed (pointer_exists lib json pointer flags before).1
  unfolding pointer_exists
  pointer_exists-WellFormed json pointer flags before w =
      exists_WellFormed json pointer flags before (throw_mode_init flags.throw_on_error before)
        (read_doc_ex lib.parse json flags no_extra) w
        (throw_mode_init-WellFormed flags.throw_on_error before w)

  -- A call of fastjson_validate keeps the recorded error well formed in the same sense, whether it
  -- returns or raises a ValueError.
  pub validate-WellFormed :
      (json : Bytes) (depth : ℤ) (flags : ValidateFlags) (before : ErrorState)
      → WellFormed before
      → WellFormed (validate lib json depth flags before).1
  unfolding validate
  validate-WellFormed [] depth flags before w = choose flags.others
    where
      choose :
          (b : Bool)
          → Leaves (
              if b
              then (value_error, before)
              else (returned false, set_read_error lib.locate_pos [] empty_err))
      choose true = w
      choose false = set_read_error-WellFormed [] empty_err
  validate-WellFormed (c ∷ t) depth flags before w = choose flags.others
    where
      choose :
          (b : Bool)
          → Leaves (if b then (value_error, before) else validate_depth lib (c ∷ t) flags depth)
      choose true = w
      choose false = validate_depth-WellFormed (c ∷ t) flags depth

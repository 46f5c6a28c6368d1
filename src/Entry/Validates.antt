-- ===== src/Entry/Validates.antt =====
-- The recorded error after fastjson_validate of fastjson.c.
use fastjson.Prelude.{
  ℕ, Bool, true, false, Option, none, some, [], ◌∷◌, Bytes, codes, not, ◌&&◌, get_or, drop, length,
  leb, ltb, ◌||◌, ◌==◌, if◌then◌else◌, ◌≡◌, refl, ap, ◌∙◌, arith,
}
use fastjson.Location.{Place, locate_ascii_pos}
use fastjson.Utf8.{byte_is_valid_utf8_start}
use fastjson.Reading.{
  ReadCode, success, invalid_string, invalid_number, invalid_parameter, another, ReadErr, Parse,
  doc, unread, ReadFlags, read_doc_ex, retry, reclassify, read_flags, DecodeFlags, Extra,
  validate_only, is_invalid_number, input_has_inf_nan_literal,
}
use fastjson.Errors.{
  ErrorState, cleared, error_state_set, set_read_error, with_place, place_of, is_error,
  translate_read_code, Reply, returned, thrown, value_error,
}
use fastjson.Entry.{
  Library, ℤ, pos, negsuc, ValidateFlags, decode_flags, nesting_checked, validate_depth, validate,
  last_error, empty_err, int_max,
}

-- An error of the parser is one.
abbrev pub Failing : Parse → Type 0
Failing (doc d) = Unit
Failing (unread err) = is_error err.code ≡ true

-- The parser says success only where it gives a document.
abbrev pub Honest : Library → Type 0
Honest lib = (flags : ReadFlags) (json : Bytes) → Failing (lib.parse flags json)

-- A call that returns true records no error, and one that returns false records one.
abbrev pub Reported : Reply Bool × ErrorState → Type 0
Reported (returned true, after) = last_error after ≡ 0
Reported (returned false, after) = (last_error after == 0) ≡ false
Reported (thrown code msg, after) = ⊥
Reported (value_error, after) = Unit

pub translate_read_code-is_error :
    (c : ReadCode) → is_error c ≡ true → (translate_read_code c == 0) ≡ false
unfolding translate_read_code
translate_read_code-is_error success h = absurd (ground arith)
translate_read_code-is_error invalid_string h = refl
translate_read_code-is_error invalid_number h = refl
translate_read_code-is_error invalid_parameter h = refl
translate_read_code-is_error (another n) h = refl

with_place-code : (o : Option Place) (state : ErrorState) → (with_place o state).code ≡ state.code
unfolding with_place
with_place-code none state = refl
with_place-code (some place) state = refl

set_read_error-code :
    (locate_pos : Bytes → ℕ → Option Place) (json : Bytes) (err : ReadErr)
    → (set_read_error locate_pos json err).code ≡ translate_read_code err.code
unfolding set_read_error
set_read_error-code locate_pos json err = choose (is_error err.code) (leb err.pos (length json))
  where
    state : ErrorState
    state = error_state_set (translate_read_code err.code) err.msg

    choose :
        (a b : Bool)
        → (if a
            then (if b
                then with_place
                    (place_of (locate_ascii_pos json err.pos) (locate_pos json err.pos))
                    (record state { pos = some err.pos })
                else state)
            else state).code
          ≡ translate_read_code err.code
    choose true true =
        with_place-code (place_of (locate_ascii_pos json err.pos) (locate_pos json err.pos))
          (record state { pos = some err.pos })
    choose true false = refl
    choose false b = refl

module _ (lib : Library) (honest : Honest lib) where
  retry-Failing :
      (flags : ReadFlags) (json : Bytes) (p : Parse)
      → Failing p
      → Failing (retry lib.parse flags json p)
  unfolding retry
  retry-Failing flags json (doc d) h = tt
  retry-Failing flags json (unread err) h =
      choose (is_invalid_number err.code && not (input_has_inf_nan_literal json flags.relaxed))
    where
      choose :
          (b : Bool)
          → Failing
              (if b then lib.parse (record flags { allow_inf_and_nan = true }) json else unread err)
      choose true = honest (record flags { allow_inf_and_nan = true }) json
      choose false = h

  reclassify-Failing : (json : Bytes) (p : Parse) → Failing p → Failing (reclassify json p)
  unfolding reclassify
  reclassify-Failing json (doc d) h = tt
  reclassify-Failing json (unread err) h = choose (
      ltb err.pos (length json)
      && leb 0x80 (get_or json err.pos 0)
      && not (byte_is_valid_utf8_start (drop err.pos json)))
    where
      choose :
          (b : Bool)
          → Failing (if b then unread (record err { code = invalid_string }) else unread err)
      choose true = refl
      choose false = h

  read_doc_ex-Failing :
      (json : Bytes) (flags : DecodeFlags) (extra : Extra)
      → Failing (read_doc_ex lib.parse json flags extra)
  unfolding read_doc_ex
  read_doc_ex-Failing json flags extra =
      reclassify-Failing json
        (retry lib.parse (read_flags flags extra) json (lib.parse (read_flags flags extra) json))
        (retry-Failing (read_flags flags extra) json (lib.parse (read_flags flags extra) json)
          (honest (read_flags flags extra) json))

  nesting_checked-Reported :
      (json : Bytes) (depth : ℕ) (p : Parse)
      → Failing p
      → Reported (nesting_checked lib json depth p)
  unfolding nesting_checked last_error
  nesting_checked-Reported json depth (unread err) h =
      ap (λ n. n == 0) (set_read_error-code lib.locate_pos json err)
      ∙ translate_read_code-is_error err.code h
  nesting_checked-Reported json depth (doc d) h = choose (leb depth d.val_read)
    where
      choose :
          (b : Bool)
          → Reported (
              if b
              then (returned false, error_state_set 1 (some (codes "Maximum stack depth exceeded")))
              else (returned true, cleared))
      choose true = refl
      choose false = refl

  validate_depth-Reported :
      (json : Bytes) (flags : ValidateFlags) (depth : ℤ)
      → Reported (validate_depth lib json flags depth)
  unfolding validate_depth
  validate_depth-Reported json flags (negsuc n) = tt
  validate_depth-Reported json flags (pos depth) = choose (depth == 0 || ltb int_max depth)
    where
      choose :
          (b : Bool)
          → Reported (
              if b
              then (value_error, cleared)
              else nesting_checked lib json depth
                  (read_doc_ex lib.parse json (decode_flags flags) validate_only))
      choose true = tt
      choose false =
          nesting_checked-Reported json depth
            (read_doc_ex lib.parse json (decode_flags flags) validate_only)
            (read_doc_ex-Failing json (decode_flags flags) validate_only)

  -- With a parser whose errors are never `success`, fastjson_last_error after fastjson_validate is
  -- FASTJSON_ERROR_NONE where it returned true and an error where it returned false, the empty
  -- input included; it throws nothing but a ValueError.
  pub validate-Reported :
      (json : Bytes) (depth : ℤ) (flags : ValidateFlags) (before : ErrorState)
      → Reported (validate lib json depth flags before)
  unfolding validate last_error translate_read_code
  validate-Reported [] depth flags before = choose flags.others
    where
      choose :
          (b : Bool)
          → Reported (
              if b
              then (value_error, before)
              else (returned false, set_read_error lib.locate_pos [] empty_err))
      choose true = tt
      choose false = ap (λ n. n == 0) (set_read_error-code lib.locate_pos [] empty_err)
  validate-Reported (c ∷ t) depth flags before = choose flags.others
    where
      choose :
          (b : Bool)
          → Reported (if b then (value_error, before) else validate_depth lib (c ∷ t) flags depth)
      choose true = tt
      choose false = validate_depth-Reported (c ∷ t) flags depth

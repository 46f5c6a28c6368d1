-- ===== src/Entry/Examples.antt =====
-- Runs of the PHP functions on small documents.
use fastjson.Prelude.{
  Bool, true, false, none, some, [], ◌∷◌, Bytes, codes, ◌==◌, if◌then◌else◌, ◌≡◌, ◌↔◌, refl,
}
use fastjson.Doc.{Val, null, bool, arr, nil, item}
use fastjson.Pointer.{pointer_parse, nsegs_ok, count_segments, plan_of, fill_segments}
use fastjson.Pointer.Index.{seg_is_index}
use fastjson.Pointer.Walk.{resolve_limited, resolve_parsed, pointer_walk, child_of}
use fastjson.Pointer.Walk.Limited.{Targets}
use fastjson.Reading.{
  ReadDoc, ReadErr, ReadFlags, Parse, doc, unread, DecodeFlags, another, read_doc_ex, no_extra,
}
use fastjson.Errors.{ErrorState, returned, error_state_set, cleared}
use fastjson.Entry.{Library, pos, ValidateFlags, pointer_exists, validate, utf8_flags}
use fastjson.Entry.Modes.{Kept, pointer_exists-Kept}
use fastjson.Entry.Exists.{pointer_exists_iff}
use fastjson.Entry.Validates.{Failing, Reported, validate-Reported}
use fastjson.Entry.WellFormed.{WellFormed, pointer_exists-WellFormed, validate-WellFormed}

-- [null,[true]]
abbrev nested_arrays : ReadDoc
nested_arrays = record {
  root = arr (item null (item (arr (item (bool true) nil)) nil));
  val_read = 2;
}

abbrev at_start : ReadErr
at_start = record { code = another 6; msg = some (codes "unexpected character"); pos = 0 }

-- A parser that knows one document.
abbrev parse_sample : ReadFlags → Bytes → Parse
parse_sample flags [] = unread at_start
parse_sample flags (c ∷ t) = if c == b'[' then doc nested_arrays else unread at_start

abbrev sample : Library
sample = record {
  parse = parse_sample;
  locate_pos = λ json at. none;
  size_max = 18446744073709551615;
}

abbrev with_throw : Bool → DecodeFlags
with_throw throw = record {
  bigint_as_string = false;
  ignore = false;
  subst = false;
  relaxed = false;
  throw_on_error = throw;
}

abbrev no_flags : ValidateFlags
no_flags = record { ignore = false; others = false }

abbrev old_error : ErrorState
old_error = error_state_set 4 (some (codes "old"))

absent :
    pointer_exists sample (codes "[null,[true]]") (codes "/2") (with_throw true) old_error
    ≡ (returned false, cleared)
unfolding pointer_exists read_doc_ex resolve_limited resolve_parsed pointer_parse nsegs_ok
    count_segments plan_of fill_segments pointer_walk child_of seg_is_index
absent = refl

too_deep : (validate sample (codes "[null,[true]]") (pos 2) no_flags old_error).0 ≡ returned false
unfolding validate read_doc_ex
too_deep = refl

pointer_exists-Kept_example :
    Kept true old_error (pointer_exists sample (codes "x") (codes "/2") (with_throw true) old_error)
pointer_exists-Kept_example =
    pointer_exists-Kept sample (codes "x") (codes "/2") (with_throw true) old_error

pointer_exists_iff_example :
    ((pointer_exists sample (codes "[null,[true]]") (codes "/1/0") (with_throw false) old_error).0
      ≡ returned true)
    ↔ ((d : ReadDoc) × (t : Val) × (read_doc_ex parse_sample
            (codes "[null,[true]]")
            (with_throw false)
            no_extra
          ≡ doc d)
        × Targets 18446744073709551615 (utf8_flags (with_throw false)) d.root (codes "/1/0") 0 t)
pointer_exists_iff_example =
    pointer_exists_iff sample (codes "[null,[true]]") (codes "/1/0") (with_throw false) old_error

parse_sample_fails : (flags : ReadFlags) (json : Bytes) → Failing (parse_sample flags json)
parse_sample_fails flags [] = refl
parse_sample_fails flags (c ∷ t) = choose (c == b'[')
  where
    choose : (b : Bool) → Failing (if b then doc nested_arrays else unread at_start)
    choose true = tt
    choose false = refl

validate-Reported_example : Reported (validate sample (codes "x") (pos 5) no_flags old_error)
validate-Reported_example =
    validate-Reported sample parse_sample_fails (codes "x") (pos 5) no_flags old_error

pointer_exists-WellFormed_example :
    WellFormed (pointer_exists sample (codes "x") (codes "/1") (with_throw false) old_error).1
pointer_exists-WellFormed_example =
    pointer_exists-WellFormed sample (λ json at. tt) (codes "x") (codes "/1") (with_throw false)
      old_error ((refl, refl), λ e. tt)

validate-WellFormed_example : WellFormed (validate sample (codes "x") (pos 5) no_flags old_error).1
validate-WellFormed_example =
    validate-WellFormed sample (λ json at. tt) (codes "x") (pos 5) no_flags old_error
      ((refl, refl), λ e. tt)

-- ===== src/Decode/Examples.antt =====
-- Runs of fastjson_decode, fastjson_merge_patch and fastjson_pointer_set of fastjson_decode.c on small
-- documents.
use fastjson.Prelude.{
  ℕ, Bool, true, false, none, some, [], ◌∷◌, Bytes, codes, leb, if◌then◌else◌, ◌≡◌, refl, Option,
  arith,
}
use fastjson.Doc.{Str, null, bool, obj, end, member, bytes_eq}
use fastjson.Depth.Height.{height}
use fastjson.Reading.{ReadDoc, ReadFlags, Parse, doc, unread, another, read_doc_ex, no_extra, Extra}
use fastjson.Merge.Patch
use fastjson.Pointer.Parse.{parse_spec}
use fastjson.Splice.{value}
use fastjson.Splice.Full.{write_full}
use fastjson.Splice.Edit.{start_ctx}
use fastjson.Splice.Steps.{success, given}
use fastjson.Splice.Document.{bytes_of}
use fastjson.Splice.Examples.{plain_setting}
use fastjson.Zval.{Zval, Globals}
use fastjson.Encode.Examples as Encode
use fastjson.Decode.Set.{base_flags, pointer_set, splicing}
use fastjson.Decode.Scalars.{HasPlainFlags, IsScalar, behind_reference}
use fastjson.Decode.Sets.{set_text, edited, has_segments, pointer_set-set_at}
use fastjson.Merge.Entries.{canon_loop, assign}
use fastjson.Errors.{ErrorState, error_state_set, cleared}
use fastjson.Entry.{pos}
use fastjson.Walk.Build.{build, names_fit}
use fastjson.Walk.Examples.{some_setting}
use fastjson.Decode.{
  walk_setting, Engine, Options, effective_walk_depth, decode, merge_patch, valid_depth,
}
use fastjson.Decode.Values.{gives, refuses, decode-build, merge_patch-build}

abbrev key : Bytes → Str
key t = record { bytes = t; invalid = false }

-- {"a":{"b":true}} and {"a":null}
abbrev nested : ReadDoc
nested = record {
  root = obj (member (key (codes "a")) (obj (member (key (codes "b")) (bool true) end)) end);
  val_read = 0;
}

abbrev removal : ReadDoc
removal = record { root = obj (member (key (codes "a")) null end); val_read = 0 }

-- A parser that knows two documents by the length of their texts.
abbrev parse_sample : ReadFlags → Bytes → Parse
parse_sample flags [] = unread (record { code = another 6; msg = none; pos = 0 })
parse_sample flags (c ∷ []) = doc removal
parse_sample flags (c ∷ d ∷ t) = doc nested

abbrev options : (throw : Bool) → ℕ → Options
options throw depth = record {
  associative = some false;
  object_as_array = false;
  depth = pos depth;
  flags = record {
    bigint_as_string = false;
    ignore = false;
    subst = false;
    relaxed = false;
    throw_on_error = throw;
  };
}

abbrev engine : Engine
engine = record {
  lib = record {
    parse = parse_sample;
    locate_pos = λ json at. none;
    size_max = 18446744073709551615;
  };
  walking = some_setting false (options false 1).flags;
  has_native_stack_limit = true;
  read_size = λ d. 16;
}

abbrev globals : Globals
globals = record { last_err = cleared; precision = none }

abbrev old_error : ErrorState
old_error = error_state_set 4 (some (codes "old"))

valid : valid_depth (pos 2) ≡ some 2
unfolding valid_depth
valid = refl

read_nested : read_doc_ex parse_sample (codes "ab") (options true 2).flags no_extra ≡ doc nested
unfolding read_doc_ex
read_nested = refl

read_removal : read_doc_ex parse_sample (codes "a") (options true 2).flags no_extra ≡ doc removal
unfolding read_doc_ex
read_removal = refl

nested_names : names_fit (walk_setting engine (options true 2)) nested.root ≡ true
unfolding names_fit
nested_names = refl

merged_names :
    names_fit
      (walk_setting engine (options true 2))
      (Patch.merge_patch removal.root (some nested.root))
    ≡ true
unfolding names_fit Patch.merge_patch Patch.apply canon_loop assign Patch.apply_edit Patch.remove
    bytes_eq
merged_names = refl

decode-build_example : decode engine (codes "ab") (options true 2) old_error ≡ (
    if leb (effective_walk_depth engine 2) (height nested.root)
    then refuses (options true 2) old_error
    else gives
        (options true 2)
        old_error
        (build (walk_setting engine (options true 2)) nested.root))
decode-build_example =
    decode-build engine (options true 2) 2 (λ r. refl) (codes "ab") old_error nested valid
      read_nested nested_names

merge_patch-build_example :
    merge_patch engine (λ r. false) (codes "ab") (codes "a") (options true 2) old_error ≡ (
      if leb
        (effective_walk_depth engine 2)
        (height (Patch.merge_patch removal.root (some nested.root)))
      then refuses (options true 2) old_error
      else gives (options true 2) old_error (
          build
            (walk_setting engine (options true 2))
            (Patch.merge_patch removal.root (some nested.root))))
merge_patch-build_example =
    merge_patch-build engine (options true 2) 2 (λ r. refl) (λ r. false) (codes "ab") (codes "a")
      old_error nested removal (λ r. refl) valid read_nested read_removal merged_names

read_base :
    read_doc_ex parse_sample (codes "ab") (base_flags false) Extra.number_as_raw ≡ doc nested
unfolding read_doc_ex
read_base = refl

plain_flags : HasPlainFlags (Encode.setting false false)
plain_flags = record {
  no_force_object = refl;
  no_numeric_check = refl;
  no_partial_output = refl;
  no_preserve_zero_fraction = refl;
}

abbrev set_at_pointer : Bytes → Option Bytes
set_at_pointer pointer = set_text (
    pointer_set engine (Encode.setting false false) (plain_setting false) true false (codes "ab")
      pointer (Zval.reference (Zval.bool false)) (pos 5) [] globals)

pointer_set-set_at_example :
    set_at_pointer (codes "/a/b")
    ≡ bytes_of (
        success (
          given
            (edited engine.lib.size_max
              (parse_spec (codes "/a/b") (effective_walk_depth engine 5))
              (bool false)
              nested.root)
            (λ x.
              write_full
                (splicing (Encode.setting false false) (plain_setting false))
                x
                (effective_walk_depth engine 5))
            (start_ctx
              (splicing (Encode.setting false false) (plain_setting false))
              engine.lib.size_max
              (value (bool false))
              (has_segments (parse_spec (codes "/a/b") (effective_walk_depth engine 5))))))
pointer_set-set_at_example =
    pointer_set-set_at engine (Encode.setting false false) (plain_setting false) true false
      (codes "ab") (codes "/a/b") (Zval.reference (Zval.bool false)) 5 [] globals nested
      (bool false) (λ r. refl) plain_flags (behind_reference (IsScalar.bool false)) (omega arith)
      (omega arith) read_base

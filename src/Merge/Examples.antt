-- ===== src/Merge/Examples.antt =====
-- Runs of the merge of fastjson_decode.c.
use fastjson.Prelude.{ℕ, Bool, false, none, some, [], ◌∷◌, ◌≡◌, refl, leb, if◌then◌else◌}
use fastjson.Depth.{val_depth_reaches}
use fastjson.Doc.{bytes_eq, Val, Str, null, num, uint, arr, obj, nil, item, end, member}
use fastjson.Depth.Height.{height}
use fastjson.Merge.{
  entry, merge_patch_linear, merge_patch_indexed, merge_patch_bounded, merge_paths, copy_checked,
}
use fastjson.Merge.Patch.{merge_patch}
use fastjson.Merge.Indexed.{merge_patch_linear-merge_patch_indexed}
use fastjson.Merge.Refines.{merge_patch_bounded_lem}

abbrev name : ℕ → Str
name c = record { bytes = c ∷ []; invalid = false }

abbrev number : ℕ → Val
number n = num (uint n)

abbrev never : ℕ → Bool
never n = false

-- {"a": 1, "b": {"c": 2}, "a": 7}
abbrev target : Val
target = obj (
    member (name 97) (number 1)
      (member (name 98) (obj (member (name 99) (number 2) end)) (member (name 97) (number 7) end)))

-- {"b": {"c": null, "d": [3]}}
abbrev change : Val
change = obj (
    member (name 98)
      (obj (member (name 99) null (member (name 100) (arr (item (number 3) nil)) end))) end)

-- {"a": 7, "b": {"d": [3]}}
abbrev changed : Val
changed = obj (
    member (name 97) (number 7)
      (member (name 98) (obj (member (name 100) (arr (item (number 3) nil)) end)) end))

merges : merge_patch_bounded never 4 (some target) change ≡ some changed
unfolding merge_patch_bounded merge_paths merge_patch_linear merge_patch_indexed bytes_eq
    copy_checked val_depth_reaches
merges = refl

too_deep : merge_patch_bounded never 3 (some target) change ≡ none
unfolding merge_patch_bounded merge_paths merge_patch_linear merge_patch_indexed bytes_eq
    copy_checked val_depth_reaches
too_deep = refl

merge_patch_bounded_lem_example : merge_patch_bounded never 4 (some target) change ≡ (
    if leb 4 (height (merge_patch change (some target)))
    then none
    else some (merge_patch change (some target)))
merge_patch_bounded_lem_example = merge_patch_bounded_lem never 4 (some target) change (λ n. refl)

merge_patch_linear-merge_patch_indexed_example :
    merge_patch_linear
      (λ o p. some p)
      4
      (entry (name 97) (number 1) ∷ entry (name 98) (number 2) ∷ [])
      (entry (name 98) null ∷ entry (name 99) (number 3) ∷ [])
    ≡ merge_patch_indexed
        (λ o p. some p)
        4
        (entry (name 97) (number 1) ∷ entry (name 98) (number 2) ∷ [])
        (entry (name 98) null ∷ entry (name 99) (number 3) ∷ [])
merge_patch_linear-merge_patch_indexed_example =
    merge_patch_linear-merge_patch_indexed (λ o p. some p) 4
      (entry (name 97) (number 1) ∷ entry (name 98) (number 2) ∷ [])
      (entry (name 98) null ∷ entry (name 99) (number 3) ∷ [])

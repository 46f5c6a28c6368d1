-- ===== src/Pointer/Examples.antt =====
-- Runs of the pointer functions, and the theorems at concrete pointers and documents.
use fastjson.Prelude.{
  ℕ, ◌-◌, ◌^◌, ◌≤◌, true, false, some, [], ◌∷◌, ◌≡◌, ◌↔◌, refl, arith, Bytes, codes, length,
}
use fastjson.Doc.{Str, Val, null, bool, arr, obj, nil, item, end, member}
use fastjson.Pointer.{
  ok, settable_fail, ambiguous, pointer_parse, count_segments, nsegs_ok, fill_segments, plan_of,
  bad_escape,
}
use fastjson.Pointer.Cut.{pointer_of}
use fastjson.Pointer.Parse.{keys, refused, view, parse_spec, pointer_parse_lem}
use fastjson.Pointer.RoundTrip.{pointer_parse-pointer_of}
use fastjson.Pointer.Index.{seg_is_index, write_uint64_dec}
use fastjson.Pointer.Index.Decimal.{value, IsCanonical, seg_is_index_sound, seg_is_index_complete}
use fastjson.Pointer.Index.RoundTrip.{seg_is_index-write_uint64_dec}
use fastjson.Pointer.Walk.{no_utf8_flags, reached, failed, pointer_walk, resolve_limited}
use fastjson.Pointer.Walk.Resolves.{Resolves, pointer_walk_iff}
use fastjson.Pointer.Walk.Ambiguity.{Ambiguous, pointer_walk-ambiguous_iff}
use fastjson.Pointer.Walk.Limited.{Targets, resolve_limited_iff}

abbrev size_max : ℕ
size_max = 2 ^ 64 - 1

abbrev key : Bytes → Str
key s = record { bytes = s; invalid = false }

-- {"a":[null,true],"d":null,"d":true}
abbrev sample : Val
sample = obj (
    member (key (codes "a")) (arr (item null (item (bool true) nil)))
      (member (key (codes "d")) null (member (key (codes "d")) (bool true) end)))

parse_runs :
    view (pointer_parse (codes "/a~1b/~0") 512 settable_fail)
    ≡ keys 2 (codes "a/b" ∷ codes "~" ∷ [])
unfolding pointer_parse count_segments nsegs_ok fill_segments plan_of bad_escape
parse_runs = refl

-- A syntax error goes before the depth error that the same pointer deserves.
syntax_first : view (pointer_parse (codes "/a/b/~2") 2 settable_fail) ≡ refused settable_fail
unfolding pointer_parse count_segments nsegs_ok bad_escape
syntax_first = refl

pointer_parse_lem_example :
    view (pointer_parse (codes "/a~1b") 512 settable_fail) ≡ parse_spec (codes "/a~1b") 512
pointer_parse_lem_example = pointer_parse_lem (codes "/a~1b") 512

pointer_parse-pointer_of_example :
    view (pointer_parse (pointer_of (codes "~" ∷ [] ∷ [])) 512 settable_fail)
    ≡ keys 2 (codes "~" ∷ [] ∷ [])
pointer_parse-pointer_of_example =
    pointer_parse-pointer_of (codes "~" ∷ [] ∷ []) 512 (unfold nsegs_ok in refl)

index_runs : seg_is_index size_max (codes "120") ≡ some 120
unfolding seg_is_index
index_runs = refl

seg_is_index_sound_example :
    IsCanonical (codes "120")
    × (length (codes "120") ≤ 19)
    × (120 ≡ value 0 (codes "120"))
    × (120 ≤ size_max)
seg_is_index_sound_example = seg_is_index_sound size_max (codes "120") 120 (omega arith) index_runs

seg_is_index_complete_example : seg_is_index size_max (codes "42") ≡ some (value 0 (codes "42"))
seg_is_index_complete_example =
    seg_is_index_complete size_max (codes "42") (omega arith) (omega arith) (omega arith)

seg_is_index-write_uint64_dec_example :
    seg_is_index size_max (write_uint64_dec 1234567890) ≡ some 1234567890
seg_is_index-write_uint64_dec_example =
    seg_is_index-write_uint64_dec size_max 1234567890 (omega arith) (omega arith)

pointer_walk_iff_example :
    (pointer_walk size_max no_utf8_flags false sample (codes "a" ∷ codes "1" ∷ [])
      ≡ reached (bool true))
    ↔ Resolves size_max no_utf8_flags sample (codes "a" ∷ codes "1" ∷ []) (bool true)
pointer_walk_iff_example =
    pointer_walk_iff size_max no_utf8_flags false sample (bool true) (codes "a" ∷ codes "1" ∷ [])

pointer_walk-ambiguous_iff_example :
    (pointer_walk size_max no_utf8_flags false sample (codes "d" ∷ []) ≡ failed ambiguous)
    ↔ Ambiguous size_max no_utf8_flags sample (codes "d" ∷ [])
pointer_walk-ambiguous_iff_example =
    pointer_walk-ambiguous_iff size_max no_utf8_flags false sample (codes "d" ∷ [])

resolve_limited_iff_example :
    (resolve_limited size_max sample (codes "/a/1") 512 no_utf8_flags ≡ (ok, some (bool true)))
    ↔ Targets size_max no_utf8_flags sample (codes "/a/1") 512 (bool true)
resolve_limited_iff_example =
    resolve_limited_iff size_max no_utf8_flags sample (codes "/a/1") 512 (bool true)

-- ===== src/Pointer/Parse.antt =====
-- fj_pointer_parse against the grammar of Pointer/Cut.
use mathlib.Core.Option
use fastjson.Prelude.{
  ℕ, suc, true, Option, none, some, List, [], ◌∷◌, ◌≡◌, refl, ap, ◌∙◌, arith, append-nil, Bytes,
  length, leb, ltb, Bool, ◌&&◌, ◌||◌, Bool-cases, Option-cases, inl, inr, ◌==◌, if◌then◌else◌,
}
use fastjson.Pointer.{
  Status, settable_fail, depth_fail, plan_keys, slash, count_segments, Fill, fill_loop, check_count,
  fill_segments, max_segments, nsegs_ok, bad_escape, Parsed, planned, failed, plan_of,
  pointer_parse,
}
use fastjson.Pointer.Cut.{cut, unescape_all}
use fastjson.Pointer.Segments.{add_keys, behind-cut, fill_loop_lem, add_keys-Holds, length-add_keys}
use fastjson.Pointer.Escapes.{count_loop_lem, length-unescape_all, cut_pos, bad_escape_lem}

abbrev no_segs : Fill
no_segs = record { segs = []; storage = [] }

-- What a caller sees of a parse: the number of segments and the keys that they point to.
pub data Keys : Type 0 where
  keys : ℕ → List Bytes → Keys
  refused : Status → Keys

abbrev pub view : Parsed → Keys
view (planned plan) = keys plan.nsegs (plan_keys plan)
view (failed status) = refused status

-- At most FASTJSON_POINTER_MAX_SEGMENTS segments, and fewer than a depth limit that is not 0.
abbrev pub within_limits : (segments depth_limit : ℕ) → Bool
within_limits segments depth_limit =
    leb segments max_segments && (depth_limit == 0 || ltb segments depth_limit)

nsegs_ok_lem : (n d : ℕ) → nsegs_ok n d ≡ within_limits n d
unfolding nsegs_ok
nsegs_ok_lem n d = ground arith

-- The grammar, and the limits once the grammar is met.
abbrev pub limited : ℕ → Option (List Bytes) → Keys
limited depth_limit none = refused settable_fail
limited depth_limit (some found) =
    if within_limits (length found) depth_limit
    then keys (length found) found
    else refused depth_fail

unfoldable pub parse_spec : Bytes → ℕ → Keys
parse_spec [] depth_limit = keys 0 []
parse_spec (c ∷ t) depth_limit =
    if c == slash then limited depth_limit (unescape_all (cut t)) else refused settable_fail

fill_segments_lem :
    (c : ℕ) (t : Bytes)
    → (c == slash) ≡ true
    → fill_segments (c ∷ t) (length (cut t)) (length (c ∷ t))
      ≡ Option.map (add_keys no_segs) (unescape_all (cut t))
unfolding fill_segments check_count
fill_segments_lem c t e =
    let filled = fill_loop_lem (suc (length t)) t [] no_segs (omega arith) in
    elim (Option-cases (unescape_all (cut t))) [
      | inl bad ↦
          let stopped : fill_loop (suc (length t)) t [] no_segs ≡ none =
            filled ∙ rw (behind-cut t, bad) in
          ground (arith, stopped, cut_pos t)
      | inr (found, good) ↦
          let done : fill_loop (suc (length t)) t [] no_segs ≡ some (add_keys no_segs found) =
            filled ∙ rw (behind-cut t, good) in
          ground (
            arith,
            done,
            cut_pos t,
            length-unescape_all (cut t) good,
            length-add_keys no_segs found,
          )
    ]

count_segments_lem :
    (c : ℕ) (t : Bytes) → (c == slash) ≡ true → count_segments (c ∷ t) ≡ length (cut t)
unfolding count_segments
count_segments_lem c t e = rw e (omega (arith, count_loop_lem t 0))

plan_keys_lem :
    (found : List Bytes) (n : ℕ)
    → view (plan_of settable_fail n (some (add_keys no_segs found))) ≡ keys n found
unfolding plan_of
plan_keys_lem found n = ap (keys n) (
    rw (append-nil (add_keys no_segs found).storage) at
      (add_keys-Holds no_segs [] found (λ more. refl) []))

parse_slash :
    (c : ℕ) (t : Bytes) (depth_limit : ℕ)
    → (c == slash) ≡ true
    → pointer_parse (c ∷ t) depth_limit settable_fail ≡ (
        if nsegs_ok (length (cut t)) depth_limit
        then plan_of settable_fail
            (length (cut t))
            (Option.map (add_keys no_segs) (unescape_all (cut t)))
        else failed (if bad_escape t then settable_fail else depth_fail))
unfolding pointer_parse
parse_slash c t depth_limit e =
    rw (e, count_segments_lem c t e, fill_segments_lem c t e) (ground arith)

parse_parts :
    (t : Bytes) (depth_limit : ℕ)
    → view (
        if nsegs_ok (length (cut t)) depth_limit
        then plan_of settable_fail
            (length (cut t))
            (Option.map (add_keys no_segs) (unescape_all (cut t)))
        else failed (if bad_escape t then settable_fail else depth_fail))
      ≡ limited depth_limit (unescape_all (cut t))
parse_parts t depth_limit = elim (Option-cases (unescape_all (cut t))) [
  | inl bad ↦ rw (bad, bad_escape_lem, bad) (unfold plan_of in ground arith)
  | inr (found, good) ↦
      rw (bad_escape_lem, good, ← length-unescape_all (cut t) good)
        (ground
          (arith, plan_keys_lem found (length found), nsegs_ok_lem (length found) depth_limit))
]

-- fj_pointer_parse accepts exactly the pointers of the grammar that respect the segment and depth
-- limits; the plan's segments read back as the unescaped parts, in order, and there are `nsegs` of
-- them. A syntax error is reported as such, also where a limit is exceeded as well.
pub pointer_parse_lem :
    (pointer : Bytes) (depth_limit : ℕ)
    → view (pointer_parse pointer depth_limit settable_fail) ≡ parse_spec pointer depth_limit
unfolding parse_spec
pointer_parse_lem [] depth_limit = unfold pointer_parse in refl
pointer_parse_lem (c ∷ t) depth_limit = elim (Bool-cases (c == slash)) [
  | inl e ↦ ap view (parse_slash c t depth_limit e) ∙ parse_parts t depth_limit ∙ rw e
  | inr e ↦ unfold pointer_parse in ground arith
]

-- The number that comes with the keys is theirs.
pub parse_spec-count :
    (pointer : Bytes) (depth_limit count : ℕ) (found : List Bytes)
    → parse_spec pointer depth_limit ≡ keys count found
    → count ≡ length found
unfolding parse_spec
parse_spec-count [] depth_limit count found h = ground arith
parse_spec-count (c ∷ t) depth_limit count found h = ground arith

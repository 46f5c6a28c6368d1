-- ===== src/Pointer/Walk.antt =====
-- Walking a document along a pointer (fastjson_pointer_splice.c): fj_seg_key_eq, fj_pointer_walk,
-- fastjson_pointer_plan_init and fastjson_pointer_resolve_limited. Plans are values here, so
-- fastjson_pointer_plan_destroy leaves no trace.
pub mod Resolves
pub mod Ambiguity
pub mod Limited
use fastjson.Prelude.{
  ℕ, ◌+◌, Bool, true, false, not, ◌&&◌, ◌||◌, Option, none, some, List, [], ◌∷◌, Bytes, ltb, leb,
  if◌then◌else◌,
}
use fastjson.Doc.{
  Str, Val, Items, Members, null, bool, num, str, raw, arr, obj, end, member, is_ctn, arr_size,
  arr_get, bytes_eq,
}
use fastjson.Utf8.{decode, sanitize_utf8}
use fastjson.Pointer.{
  Status, ok, settable_fail, ambiguous, Plan, Parsed, planned, plan_keys, pointer_parse,
}
use fastjson.Pointer.Index.{seg_is_index}

-- The two UTF-8 handling bits of the flags word.
pub record Utf8Flags : Type 0 where
  pub ignore : Bool
  pub subst : Bool

abbrev pub no_utf8_flags : Utf8Flags
no_utf8_flags = record { ignore = false; subst = false }

-- fj_seg_key_eq
unfoldable pub seg_key_eq : Utf8Flags → Str → Bytes → Bool
seg_key_eq flags key seg =
    if (flags.ignore || flags.subst) && key.invalid
    then bytes_eq (sanitize_utf8 flags.ignore flags.subst decode key.bytes) seg
    else bytes_eq key.bytes seg

-- What the loop over an object's members finds.
pub data Found : Type 0 where
  absent : Found
  one : Val → Found
  many : Found

abbrev pub found_child : Option Val → Found
found_child none = absent
found_child (some v) = one v

unfoldable pub find_loop : Utf8Flags → Bytes → Members → Option Val → ℕ → Found
find_loop flags seg end child matches = found_child child
find_loop flags seg (member key v ms) child matches =
    let next = find_loop flags seg ms child matches in
    let hit = find_loop flags seg ms (some v) (matches + 1) in
    if not (seg_key_eq flags key seg) then next else if ltb 1 (matches + 1) then many else hit

-- The child that a segment names: an object's only match, or an array's element.
pub data Child : Type 0 where
  child : Val → Child
  no_member : Child
  stop : Status → Child

unfoldable pub member_child : Found → Child
member_child absent = no_member
member_child (one v) = child v
member_child many = stop ambiguous

unfoldable pub element_child : Items → Option ℕ → Child
element_child xs none = stop settable_fail
element_child xs (some index) = elim (leb (arr_size xs) index) [
  | true ↦ stop settable_fail
  | false ↦ elim (arr_get xs index) [ none ↦ stop settable_fail | some v ↦ child v ]
]

unfoldable pub child_of : ℕ → Utf8Flags → Val → Bytes → Child
unfolding find_loop member_child element_child
child_of size_max flags (obj ms) seg = member_child (find_loop flags seg ms none 0)
child_of size_max flags (arr xs) seg = element_child xs (seg_is_index size_max seg)
child_of size_max flags _ seg = stop settable_fail

-- The result of fj_pointer_walk; `missing` is `true` with a NULL target.
pub data Walked : Type 0 where
  reached : Val → Walked
  missing : Walked
  failed : Status → Walked

-- `i + 1 < nsegs && !yyjson_is_ctn(child)`
abbrev pub is_blocked : List Bytes → Val → Bool
is_blocked [] v = false
is_blocked (seg ∷ segs) v = not (is_ctn v)

unfoldable pub pointer_walk : ℕ → Utf8Flags → Bool → Val → List Bytes → Walked
pointer_walk size_max flags allow_missing current [] = reached current
pointer_walk size_max flags allow_missing current (seg ∷ segs) =
    elim (child_of size_max flags current seg) [
      | child v ↦ elim (is_blocked segs v) [
        | true ↦ failed settable_fail
        | false ↦ pointer_walk size_max flags allow_missing v segs
      ]
      | no_member ↦ if allow_missing then missing else failed settable_fail
      | stop status ↦ failed status
    ]

-- fastjson_pointer_plan_init
pub data PlanInit : Type 0 where
  ready : Plan → PlanInit
  failed : Status → PlanInit

unfoldable pub checked_plan : Plan → Walked → PlanInit
checked_plan plan (reached v) = ready plan
checked_plan plan missing = ready plan
checked_plan plan (Walked.failed status) = PlanInit.failed status

unfoldable pub plan_checked : ℕ → Val → Parsed → PlanInit
plan_checked size_max root (planned plan) =
    checked_plan plan (pointer_walk size_max no_utf8_flags true root (plan_keys plan))
plan_checked size_max root (Parsed.failed status) = PlanInit.failed status

unfoldable pub plan_init : ℕ → Val → Bytes → ℕ → PlanInit
plan_init size_max root pointer depth_limit =
    plan_checked size_max root (pointer_parse pointer depth_limit settable_fail)

-- fastjson_pointer_resolve_limited: the status and the target.
unfoldable pub resolved : Walked → Status × Option Val
resolved (reached v) = (ok, some v)
resolved missing = (ok, none)
resolved (Walked.failed status) = (status, none)

unfoldable pub resolve_parsed : ℕ → Val → Utf8Flags → Parsed → Status × Option Val
unfolding resolved
resolve_parsed size_max root flags (planned plan) =
    resolved (pointer_walk size_max flags false root (plan_keys plan))
resolve_parsed size_max root flags (Parsed.failed status) = (status, none)

unfoldable pub resolve_limited : ℕ → Val → Bytes → ℕ → Utf8Flags → Status × Option Val
resolve_limited size_max root pointer depth_limit flags =
    resolve_parsed size_max root flags (pointer_parse pointer depth_limit settable_fail)

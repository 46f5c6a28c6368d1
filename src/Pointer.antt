-- ===== src/Pointer.antt =====
-- JSON pointers in fastjson_pointer_splice.c: cutting a pointer into segments
-- (fastjson_pointer_count_segments, fj_pointer_fill_segments, fj_pointer_nsegs_ok,
-- fj_pointer_parse). The walk along the segments is in Pointer/Walk, array indexes in
-- Pointer/Index.
pub mod Cut
pub mod Segments
pub mod Escapes
pub mod Parse
pub mod RoundTrip
pub mod Index
pub mod Walk
mod Examples
use fastjson.Prelude.{
  ℕ, zero, suc, ◌+◌, ◌-◌, Bool, true, false, not, ◌&&◌, ◌||◌, Option, none, some, List, [], ◌∷◌,
  ◌++◌, map, Bytes, length, take, drop, ltb, leb, ◌==◌, if◌then◌else◌,
}

-- fj_splice_status
pub data Status : Type 0 where
  ok settable_fail write_fail depth_fail too_large inf_or_nan invalid_utf8 ambiguous : Status

-- fj_ptr_seg: `str` is the offset into the plan's storage.
pub record Seg : Type 0 where
  pub str : ℕ
  pub len : ℕ

-- fastjson_pointer_plan: the storage holds the bytes that were written to it.
pub record Plan : Type 0 where
  pub segs : List Seg
  pub storage : Bytes
  pub nsegs : ℕ

abbrev pub empty_plan : Plan
empty_plan = record { segs = []; storage = []; nsegs = 0 }

-- The bytes that a segment points to.
abbrev pub seg_bytes : Bytes → Seg → Bytes
seg_bytes storage seg = take seg.len (drop seg.str storage)

abbrev pub plan_keys : Plan → List Bytes
plan_keys plan = map (seg_bytes plan.storage) plan.segs

abbrev pub slash : ℕ
slash = b'/'

abbrev pub tilde : ℕ
tilde = b'~'

abbrev pub max_segments : ℕ
max_segments = 4096

-- The loop of fastjson_pointer_count_segments over the bytes from `i` on; the end counts too.
unfoldable pub count_loop : Bytes → ℕ → ℕ
count_loop [] count = count + 1
count_loop (c ∷ t) count = count_loop t (if c == slash then count + 1 else count)

unfoldable pub count_segments : Bytes → ℕ
unfolding count_loop
count_segments [] = 0
count_segments (c ∷ t) = if c == slash then count_loop t 0 else 0

-- The byte that an escape stands for.
abbrev pub is_escape : ℕ → Bool
is_escape next = next == b'0' || next == b'1'

abbrev pub unescaped : ℕ → ℕ
unescaped next = if next == b'0' then tilde else slash

-- The inner loop of fj_pointer_fill_segments: decodes one raw segment into the storage, whose
-- capacity is `cap`, and counts what it writes. `none` is `return false`.
unfoldable pub decode_raw : ℕ → Bytes → Bytes → ℕ → Option (Bytes × ℕ)
decode_raw cap [] storage out_len = some (storage, out_len)
decode_raw cap (c ∷ []) storage out_len =
    if c == tilde
    then none
    else if ltb cap (length storage + 1)
    then none
    else some (storage ++ c ∷ [], out_len + 1)
decode_raw cap (c ∷ next ∷ t) storage out_len =
    let escape = decode_raw cap t (storage ++ unescaped next ∷ []) (out_len + 1) in
    let plain = decode_raw cap (next ∷ t) (storage ++ c ∷ []) (out_len + 1) in
    if c == tilde
    then (if not (is_escape next)
        then none
        else if ltb cap (length storage + 1)
        then none
        else escape)
    else if ltb cap (length storage + 1)
    then none
    else plain

-- The segments found so far and the storage that they point into.
pub record Fill : Type 0 where
  pub segs : List Seg
  pub storage : Bytes

-- The part of the outer loop's body behind `continue`: `raw` is what stands between two slashes.
unfoldable pub end_segment : ℕ → Bytes → Fill → Option Fill
unfolding decode_raw
end_segment cap raw fill = elim (decode_raw cap raw fill.storage 0) [
  | none ↦ none
  | some (storage, out_len) ↦ some (record {
    segs = fill.segs ++ record { str = length storage - out_len; len = out_len } ∷ [];
    storage = storage;
  })
]

-- The outer loop, over the bytes from `i` on; `raw` is `ptr[seg_start .. i)`.
unfoldable pub fill_loop : ℕ → Bytes → Bytes → Fill → Option Fill
fill_loop cap [] raw fill = end_segment cap raw fill
fill_loop cap (c ∷ t) raw fill = elim (c == slash) [
  | true ↦ elim (end_segment cap raw fill) [ none ↦ none | some fill' ↦ fill_loop cap t [] fill' ]
  | false ↦ fill_loop cap t (raw ++ c ∷ []) fill
]

-- `return si == nsegs`
unfoldable pub check_count : ℕ → Option Fill → Option Fill
check_count nsegs none = none
check_count nsegs (some fill) = if length fill.segs == nsegs then some fill else none

unfoldable pub fill_segments : Bytes → ℕ → ℕ → Option Fill
unfolding fill_loop end_segment check_count
fill_segments [] nsegs cap = some (record { segs = []; storage = [] })
fill_segments (c ∷ t) nsegs cap =
    if nsegs == 0
    then some (record { segs = []; storage = [] })
    else if not (c == slash)
    then none
    else check_count nsegs (fill_loop cap t [] (record { segs = []; storage = [] }))

-- fj_pointer_nsegs_ok
unfoldable pub nsegs_ok : ℕ → ℕ → Bool
nsegs_ok nsegs depth_limit =
    if ltb max_segments nsegs
    then false
    else if ltb 0 depth_limit && leb depth_limit nsegs
    then false
    else true

-- The scan for a bad escape that keeps the precedence of syntax errors.
unfoldable pub bad_escape : Bytes → Bool
bad_escape [] = false
bad_escape (c ∷ []) = c == tilde
bad_escape (c ∷ next ∷ t) =
    let skip = bad_escape t in
    let go = bad_escape (next ∷ t) in
    if c == tilde then (if not (is_escape next) then true else skip) else go

-- fj_pointer_parse: a plan, or the status with which it returns false. `status` is the caller's.
pub data Parsed : Type 0 where
  planned : Plan → Parsed
  failed : Status → Parsed

unfoldable pub plan_of : Status → ℕ → Option Fill → Parsed
plan_of status nsegs none = failed status
plan_of status nsegs (some fill) =
    planned (record { segs = fill.segs; storage = fill.storage; nsegs = nsegs })

unfoldable pub pointer_parse : Bytes → ℕ → Status → Parsed
pointer_parse [] depth_limit status = planned empty_plan
pointer_parse (c ∷ t) depth_limit status =
    let nsegs = count_segments (c ∷ t) in
    if not (c == slash)
    then failed status
    else if not (nsegs_ok nsegs depth_limit)
    then failed (if bad_escape t then settable_fail else depth_fail)
    else plan_of status nsegs (fill_segments (c ∷ t) nsegs (length (c ∷ t)))

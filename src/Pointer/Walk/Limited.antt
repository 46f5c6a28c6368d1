-- ===== src/Pointer/Walk/Limited.antt =====
-- fastjson_pointer_resolve_limited and fastjson_pointer_plan_init from the pointer's text on.
use fastjson.Prelude.{ℕ, false, some, List, ◌≡◌, ◌↔◌, sym, ◌∙◌, arith, Bytes}
use fastjson.Doc.{Val}
use fastjson.Pointer.{ok, settable_fail, Parsed, planned, plan_keys, pointer_parse}
use fastjson.Pointer.Parse.{keys, view, parse_spec, pointer_parse_lem}
use fastjson.Pointer.Walk.{Utf8Flags, Walked, reached, resolved, resolve_parsed, resolve_limited}
use fastjson.Pointer.Walk.Resolves.{Resolves, pointer_walk_iff}

-- The pointer is well formed and within the limits, and its keys lead from the root to `t`.
pub record Targets (size_max : ℕ) (flags : Utf8Flags) (root : Val) (pointer : Bytes)
    (depth_limit : ℕ) (t : Val) : Type 0 where
  pub count : ℕ
  pub found : List Bytes
  pub parsed : parse_spec pointer depth_limit ≡ keys count found
  pub way : Resolves size_max flags root found t

module _ (size_max : ℕ) (flags : Utf8Flags) (root : Val) (pointer : Bytes) (depth_limit : ℕ) where
  reached_of_resolved : (w : Walked) (t : Val) → resolved w ≡ (ok, some t) → w ≡ reached t
  unfolding resolved
  reached_of_resolved w t h = ground arith

  of_parsed :
      (p : Parsed) (t : Val)
      → view p ≡ parse_spec pointer depth_limit
      → resolve_parsed size_max root flags p ≡ (ok, some t)
      → Targets size_max flags root pointer depth_limit t
  unfolding resolve_parsed
  of_parsed (planned plan) t e h = record {
    count = plan.nsegs;
    found = plan_keys plan;
    parsed = sym e;
    way =
        (pointer_walk_iff size_max flags false root t (plan_keys plan)).0
          (reached_of_resolved _ t h);
  }
  of_parsed (Parsed.failed status) t e h = absurd (ground arith)

  to_resolved :
      (p : Parsed) (t : Val) (count : ℕ) (found : List Bytes)
      → view p ≡ keys count found
      → Resolves size_max flags root found t
      → resolve_parsed size_max root flags p ≡ (ok, some t)
  to_resolved (planned plan) t count found e r =
      let walked = (pointer_walk_iff size_max flags false root t found).1 r in
      let same : plan_keys plan ≡ found = cc in unfold resolve_parsed resolved in rw (same, walked)
  to_resolved (Parsed.failed status) t count found e r = cc

  -- fastjson_pointer_resolve_limited finds a target exactly where the pointer is well formed, is
  -- within the segment cap and the depth limit, and its keys lead from the root to that target.
  pub resolve_limited_iff :
      (t : Val)
      → (resolve_limited size_max root pointer depth_limit flags ≡ (ok, some t))
        ↔ Targets size_max flags root pointer depth_limit t
  unfolding resolve_limited
  resolve_limited_iff t = (
    of_parsed (pointer_parse pointer depth_limit settable_fail) t
        (pointer_parse_lem pointer depth_limit),
    λ found.
        to_resolved (pointer_parse pointer depth_limit settable_fail) t found.count found.found
          (pointer_parse_lem pointer depth_limit ∙ found.parsed) found.way,
  )

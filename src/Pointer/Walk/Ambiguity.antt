-- ===== src/Pointer/Walk/Ambiguity.antt =====
-- When fj_pointer_walk reports an ambiguous target.
use fastjson.Prelude.{
  ℕ, Bool, true, false, Option, ◌⊎◌, inl, inr, List, [], ◌∷◌, ◌++◌, ◌≡◌, ◌↔◌, refl, ap, ◌∙◌, arith,
  Bytes,
}
use fastjson.Doc.{Val, Members, null, arr, obj, is_ctn}
use fastjson.Pointer.{ambiguous}
use fastjson.Pointer.Index.{seg_is_index}
use fastjson.Pointer.Walk.{
  Utf8Flags, child, stop, member_child, element_child, child_of, failed, is_blocked, pointer_walk,
}
use fastjson.Pointer.Walk.Resolves.{
  matches, of_matches, find_loop_lem, Step, member_step, element_step, Resolves, here, down,
  Step-sound, Step-complete, walk_step,
}

module _ (size_max : ℕ) (flags : Utf8Flags) where
  -- On the way to the target there is an object with two members that match their segment.
  pub record Ambiguous (v : Val) (segs : List Bytes) : Type 0 where
    pub before : List Bytes
    pub seg : Bytes
    pub after : List Bytes
    pub members : Members
    pub first : Val
    pub second : Val
    pub others : List Val
    pub whole : segs ≡ before ++ seg ∷ after
    pub way : Resolves size_max flags v before (obj members)
    pub twice : matches flags seg members ≡ first ∷ second ∷ others

  member_ambiguous :
      (seg : Bytes) (ms : Members)
      → member_child (of_matches flags seg (matches flags seg ms)) ≡ stop ambiguous
      → (v : Val) × (w : Val) × (more : List Val) × (matches flags seg ms ≡ v ∷ w ∷ more)
  unfolding member_child
  member_ambiguous seg ms h = ground arith

  -- Only an object makes a step ambiguous.
  child_ambiguous :
      (v : Val) (seg : Bytes) (segs : List Bytes)
      → child_of size_max flags v seg ≡ stop ambiguous
      → Ambiguous v (seg ∷ segs)
  unfolding child_of
  child_ambiguous (obj ms) seg segs h =
      let (v, w, more, e) = member_ambiguous seg ms (rw (find_loop_lem flags seg ms) at h) in
      record {
        before = [];
        seg = seg;
        after = segs;
        members = ms;
        first = v;
        second = w;
        others = more;
        whole = refl;
        way = here (obj ms);
        twice = e;
      }
  child_ambiguous (arr xs) seg segs h = absurd (of_element (seg_is_index size_max seg) h)
    where
      of_element : (o : Option ℕ) → element_child xs o ≡ stop ambiguous → ⊥
      of_element o h = unfold element_child in ground arith
  child_ambiguous null seg segs h = cc
  child_ambiguous _ seg segs h = cc

  walk_ambiguous :
      (allow : Bool) (v : Val) (seg : Bytes) (segs : List Bytes)
      → pointer_walk size_max flags allow v (seg ∷ segs) ≡ failed ambiguous
      → (child_of size_max flags v seg ≡ stop ambiguous)
        ⊎ ((w : Val) × (child_of size_max flags v seg ≡ child w)
            × (pointer_walk size_max flags allow w segs ≡ failed ambiguous))
  unfolding pointer_walk
  walk_ambiguous allow v seg segs h = ground arith

  below :
      {v w : Val} {segs : List Bytes} (seg : Bytes)
      → Step size_max flags v seg w
      → Ambiguous w segs
      → Ambiguous v (seg ∷ segs)
  below seg s a = record {
    before = seg ∷ a.before;
    seg = a.seg;
    after = a.after;
    members = a.members;
    first = a.first;
    second = a.second;
    others = a.others;
    whole = ap (λ r. seg ∷ r) a.whole;
    way = down seg a.before s a.way;
    twice = a.twice;
  }

  ambiguous_sound :
      (allow : Bool) (v : Val) (segs : List Bytes)
      → pointer_walk size_max flags allow v segs ≡ failed ambiguous
      → Ambiguous v segs
  ambiguous_sound allow v [] h = absurd (unfold pointer_walk in cc)
  ambiguous_sound allow v (seg ∷ segs) h = elim (walk_ambiguous allow v seg segs h) [
    | inl e ↦ child_ambiguous v seg segs e
    | inr (w, e, h') ↦
        below seg (Step-sound size_max flags v w seg e) (ambiguous_sound allow w segs h')
  ]

  ctn_of_Step : {v w : Val} {seg : Bytes} → Step size_max flags v seg w → is_ctn v ≡ true
  ctn_of_Step (member_step ms seg v e) = refl
  ctn_of_Step (element_step xs seg i v e e') = refl

  blocked_of_ctn : (segs : List Bytes) (v : Val) → is_ctn v ≡ true → is_blocked segs v ≡ false
  blocked_of_ctn [] v h = refl
  blocked_of_ctn (seg ∷ segs) v h = rw h

  ctn_of_way :
      {v u : Val} {segs : List Bytes}
      → Resolves size_max flags v segs u
      → is_ctn u ≡ true
      → is_ctn v ≡ true
  ctn_of_way (here v) h = h
  ctn_of_way (down seg segs s r) h = ctn_of_Step s

  -- The walk along a prefix that resolves to a container comes to that container.
  walk_prefix :
      (allow : Bool) {v u : Val} {segs : List Bytes} (rest : List Bytes)
      → Resolves size_max flags v segs u
      → is_ctn u ≡ true
      → pointer_walk size_max flags allow v (segs ++ rest)
        ≡ pointer_walk size_max flags allow u rest
  walk_prefix allow rest (here v) h = refl
  walk_prefix allow rest (down {v = v} {w = w} seg segs s r) h =
      walk_step size_max flags allow v w seg (segs ++ rest) (Step-complete size_max flags s)
        (blocked_of_ctn (segs ++ rest) w (ctn_of_way r h))
      ∙ walk_prefix allow rest r h

  stopped :
      (allow : Bool) (ms : Members) (seg : Bytes) (after : List Bytes) (a b : Val) (more : List Val)
      → matches flags seg ms ≡ a ∷ b ∷ more
      → pointer_walk size_max flags allow (obj ms) (seg ∷ after) ≡ failed ambiguous
  unfolding pointer_walk child_of member_child
  stopped allow ms seg after a b more e = ground (arith, find_loop_lem flags seg ms)

  ambiguous_complete :
      (allow : Bool) (v : Val) (segs : List Bytes)
      → Ambiguous v segs
      → pointer_walk size_max flags allow v segs ≡ failed ambiguous
  ambiguous_complete allow v segs a = rw a.whole (
      walk_prefix allow (a.seg ∷ a.after) a.way refl
      ∙ stopped allow a.members a.seg a.after a.first a.second a.others a.twice)

  -- The walk reports an ambiguous target exactly where an object on the way has two or more
  -- members that match their segment.
  pub pointer_walk-ambiguous_iff :
      (allow : Bool) (v : Val) (segs : List Bytes)
      → (pointer_walk size_max flags allow v segs ≡ failed ambiguous) ↔ Ambiguous v segs
  pointer_walk-ambiguous_iff allow v segs =
      (ambiguous_sound allow v segs, ambiguous_complete allow v segs)

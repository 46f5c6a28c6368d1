-- ===== src/Pointer/Walk/Resolves.antt =====
-- fj_pointer_walk against an inductive description of what a pointer resolves to.
use fastjson.Prelude.{
  ℕ, zero, suc, ◌<◌, Bool, false, none, some, List, [], ◌∷◌, ◌≡◌, ◌↔◌, refl, ◌∙◌, arith, Bytes,
  if◌then◌else◌, Bool-cases, Option-cases, inl, inr,
}
use fastjson.Doc.{Val, Items, Members, null, arr, obj, nil, item, end, member, arr_size, arr_get}
use fastjson.Pointer.Index.{seg_is_index}
use fastjson.Pointer.Walk.{
  Utf8Flags, seg_key_eq, Found, absent, one, many, find_loop, child, member_child, element_child,
  child_of, reached, is_blocked, pointer_walk,
}

module _ (flags : Utf8Flags) (seg : Bytes) where
  -- The values of all members whose key matches the segment, in order.
  unfoldable pub matches : Members → List Val
  matches end = []
  matches (member key v ms) = if seg_key_eq flags key seg then v ∷ matches ms else matches ms

  abbrev pub of_matches : List Val → Found
  of_matches [] = absent
  of_matches (v ∷ []) = one v
  of_matches (v ∷ w ∷ vs) = many

  find_loop_hit :
      (ms : Members) (v : Val) → find_loop flags seg ms (some v) 1 ≡ of_matches (v ∷ matches ms)
  unfolding find_loop matches
  find_loop_hit end v = refl
  find_loop_hit (member key w ms) v = elim (Bool-cases (seg_key_eq flags key seg)) [
    | inl e ↦ rw e
    | inr e ↦ rw e (find_loop_hit ms v)
  ]

  -- The loop tells no match, one match and several apart.
  pub find_loop_lem : (ms : Members) → find_loop flags seg ms none 0 ≡ of_matches (matches ms)
  unfolding find_loop matches
  find_loop_lem end = refl
  find_loop_lem (member key v ms) = elim (Bool-cases (seg_key_eq flags key seg)) [
    | inl e ↦ rw e (find_loop_hit ms v)
    | inr e ↦ rw e (find_loop_lem ms)
  ]

module _ (size_max : ℕ) (flags : Utf8Flags) where
  -- One segment leads from a value to a child.
  pub data Step : Val → Bytes → Val → Type 0 where
    member_step :
        (ms : Members) (seg : Bytes) (v : Val) → matches flags seg ms ≡ v ∷ [] → Step (obj ms) seg v
    element_step :
        (xs : Items) (seg : Bytes) (i : ℕ) (v : Val)
        → seg_is_index size_max seg ≡ some i
        → arr_get xs i ≡ some v
        → Step (arr xs) seg v

  -- The segments lead from a value to a target.
  pub data Resolves : Val → List Bytes → Val → Type 0 where
    here : (v : Val) → Resolves v [] v
    down :
        {v w t : Val} (seg : Bytes) (segs : List Bytes)
        → Step v seg w
        → Resolves w segs t
        → Resolves v (seg ∷ segs) t

  arr_get-lt : (xs : Items) (i : ℕ) (v : Val) → arr_get xs i ≡ some v → i < arr_size xs
  arr_get-lt nil i v h = absurd (cc)
  arr_get-lt (item w xs) zero v h = omega arith
  arr_get-lt (item w xs) (suc i) v h = omega (arith, arr_get-lt xs i v h)

  pub Step-complete :
      {v w : Val} {seg : Bytes} → Step v seg w → child_of size_max flags v seg ≡ child w
  unfolding child_of
  Step-complete (member_step ms seg v e) = rw (find_loop_lem, e)
  Step-complete (element_step xs seg i v e e') = ground (arith, e, e', arr_get-lt xs i v e')

  matches_one :
      (seg : Bytes) (ms : Members) (w : Val)
      → member_child (of_matches flags seg (matches flags seg ms)) ≡ child w
      → matches flags seg ms ≡ w ∷ []
  unfolding member_child
  matches_one seg ms w h = ground arith

  pub Step-sound :
      (v w : Val) (seg : Bytes) → child_of size_max flags v seg ≡ child w → Step v seg w
  unfolding child_of
  Step-sound (obj ms) w seg h =
      member_step ms seg w (matches_one seg ms w (rw (find_loop_lem flags seg ms) at h))
  Step-sound (arr xs) w seg h = elim (Option-cases (seg_is_index size_max seg)) [
    | inl e ↦ absurd (ground arith)
    | inr (i, e) ↦ element_step xs seg i w e (unfold element_child in ground arith)
  ]
  Step-sound null w seg h = cc
  Step-sound _ w seg h = cc

  not_blocked : {w t : Val} {segs : List Bytes} → Resolves w segs t → is_blocked segs w ≡ false
  not_blocked (here v) = refl
  not_blocked (down seg segs (member_step ms seg' v e) r) = refl
  not_blocked (down seg segs (element_step xs seg' i v e e') r) = refl

  pub walk_step :
      (allow : Bool) (v w : Val) (seg : Bytes) (segs : List Bytes)
      → child_of size_max flags v seg ≡ child w
      → is_blocked segs w ≡ false
      → pointer_walk size_max flags allow v (seg ∷ segs) ≡ pointer_walk size_max flags allow w segs
  unfolding pointer_walk
  walk_step allow v w seg segs e e' = ground arith

  walk_complete :
      (allow : Bool) {v t : Val} {segs : List Bytes}
      → Resolves v segs t
      → pointer_walk size_max flags allow v segs ≡ reached t
  walk_complete allow (here v) = unfold pointer_walk in refl
  walk_complete allow (down {v = v} {w = w} seg segs s r) =
      walk_step allow v w seg segs (Step-complete s) (not_blocked r) ∙ walk_complete allow r

  -- Inversion of a round that does not stop.
  walk_reached :
      (allow : Bool) (v t : Val) (seg : Bytes) (segs : List Bytes)
      → pointer_walk size_max flags allow v (seg ∷ segs) ≡ reached t
      → (w : Val) × (child_of size_max flags v seg ≡ child w)
        × (pointer_walk size_max flags allow w segs ≡ reached t)
  unfolding pointer_walk
  walk_reached allow v t seg segs h = ground arith

  here_eq : (v t : Val) → v ≡ t → Resolves v [] t
  here_eq v t e = rw e (here t)

  walk_sound :
      (allow : Bool) (v t : Val) (segs : List Bytes)
      → pointer_walk size_max flags allow v segs ≡ reached t
      → Resolves v segs t
  walk_sound allow v t [] h = here_eq v t (unfold pointer_walk in ground arith)
  walk_sound allow v t (seg ∷ segs) h =
      let (w, e, h') = walk_reached allow v t seg segs h in
      down seg segs (Step-sound v w seg e) (walk_sound allow w t segs h')

  -- The walk reaches a target exactly where the pointer resolves to it: through an object by its
  -- only match, through an array by an index that it has.
  pub pointer_walk_iff :
      (allow : Bool) (v t : Val) (segs : List Bytes)
      → (pointer_walk size_max flags allow v segs ≡ reached t) ↔ Resolves v segs t
  pointer_walk_iff allow v t segs = (walk_sound allow v t segs, walk_complete allow)

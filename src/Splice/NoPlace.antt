-- ===== src/Splice/NoPlace.antt =====
-- Where fj_pointer_walk refuses a way that may end at a missing member, there is no place for a new
-- value: the edit makes no document.
use fastjson.Prelude.{
  ℕ, zero, suc, Bool, true, false, Option, none, some, List, [], ◌∷◌, Bytes, ◌≡◌, refl, sym, ap,
  ◌∙◌, arith, Bool-cases, Option-cases, inl, inr,
}
use fastjson.Doc.{
  Val, Str, Items, Members, null, bool, num, str, raw, arr, obj, nil, item, end, member, arr_get,
  bytes_eq,
}
use fastjson.Pointer.{Status}
use fastjson.Pointer.Index.{seg_is_index}
use fastjson.Pointer.Walk.{
  no_utf8_flags, seg_key_eq, is_blocked, failed, missing, pointer_walk, child_of, child, no_member,
  member_child,
}
use fastjson.Pointer.Walk.Resolves.{
  matches, find_loop_lem, member_step, element_step, Step-complete, walk_step,
}
use fastjson.Splice.MemberSteps.{set_member_step, set_member_hit}
use fastjson.Splice.SetAt.{
  has_name, set_member, set_item, set_index, set_child, set_at, wrap, as_obj, as_arr, member_first,
  in_member, in_item,
}

module _ (seg : Bytes) where
  abbrev named : Members → List Val
  named = matches no_utf8_flags seg

  has_name_lem :
      (ms : Members) (v : Val) (vs : List Val) → named ms ≡ v ∷ vs → has_name seg ms ≡ true
  unfolding has_name matches seg_key_eq
  has_name_lem end v vs h = absurd (cc h)
  has_name_lem (member key w ms) v vs h = elim (Bool-cases (bytes_eq key.bytes seg)) [
    | inl e ↦ rw (has_name, e) refl
    | inr e ↦ rw (has_name, e) (has_name_lem ms v vs (rw e at h))
  ]

  module _ (edit : Val → Option Val) (fresh : Val) where
    edited :
        (key : Str) (v : Val) (ms : Members)
        → edit v ≡ none
        → (b : Bool) → (elim b [ true ↦ none | false ↦ member_first key (edit v) ms ]) ≡ none
    edited key v ms k true = refl
    edited key v ms k false = ap (λ o. member_first key o ms) k

    again :
        (key : Str) (v : Val) (ms : Members)
        → has_name seg ms ≡ true
        → (elim (has_name seg ms) [ true ↦ none | false ↦ member_first key (edit v) ms ]) ≡ none
    again key v ms h = rw h refl

    -- A name that is there once is edited, and one that is there twice makes no document.
    set_member-one :
        (ms : Members) (v : Val)
        → named ms ≡ v ∷ []
        → edit v ≡ none
        → set_member seg edit fresh ms ≡ none
    unfolding set_member matches seg_key_eq
    set_member-one end v h k = absurd (cc h)
    set_member-one (member key w ms) v h k = elim (Bool-cases (bytes_eq key.bytes seg)) [
      | inl e ↦
          let same : w ∷ named ms ≡ v ∷ [] = rw e at h in
          set_member_hit seg edit fresh key w ms e
          ∙ edited key w ms (ap edit (cc same) ∙ k) (has_name seg ms)
      | inr e ↦
          set_member_step seg edit fresh key w ms false e
          ∙ ap (in_member key w) (set_member-one ms v (rw e at h) k)
    ]

    set_member-many :
        (ms : Members) (v w : Val) (vs : List Val)
        → named ms ≡ v ∷ w ∷ vs
        → set_member seg edit fresh ms ≡ none
    unfolding set_member matches seg_key_eq
    set_member-many end v w vs h = absurd (cc h)
    set_member-many (member key u ms) v w vs h = elim (Bool-cases (bytes_eq key.bytes seg)) [
      | inl e ↦
          let same : u ∷ named ms ≡ v ∷ w ∷ vs = rw e at h in
          set_member_hit seg edit fresh key u ms e ∙ again key u ms (has_name_lem ms w vs (cc same))
      | inr e ↦
          set_member_step seg edit fresh key u ms false e
          ∙ ap (in_member key u) (set_member-many ms v w vs (rw e at h))
    ]

module _ (edit : Val → Option Val) where
  set_item-beyond : (xs : Items) (i : ℕ) → arr_get xs i ≡ none → set_item edit i xs ≡ none
  unfolding set_item
  set_item-beyond nil i h = refl
  set_item-beyond (item v xs) zero h = absurd (cc h)
  set_item-beyond (item v xs) (suc i) h = ap (in_item v) (set_item-beyond xs i h)

  set_item-at :
      (xs : Items) (i : ℕ) (v : Val)
      → arr_get xs i ≡ some v
      → edit v ≡ none
      → set_item edit i xs ≡ none
  unfolding set_item
  set_item-at nil i v h k = refl
  set_item-at (item w xs) zero v h k = ground arith
  set_item-at (item w xs) (suc i) v h k = ap (in_item w) (set_item-at xs i v h k)

module _ (size_max : ℕ) (new : Val) where
  blocked-set_at :
      (segs : List Bytes) (v : Val) → is_blocked segs v ≡ true → set_at size_max segs new v ≡ none
  unfolding set_at
  blocked-set_at [] v h = absurd (cc h)
  blocked-set_at (seg ∷ segs) null h = refl
  blocked-set_at (seg ∷ segs) (bool b) h = refl
  blocked-set_at (seg ∷ segs) (num n) h = refl
  blocked-set_at (seg ∷ segs) (str t) h = refl
  blocked-set_at (seg ∷ segs) (raw t) h = refl
  blocked-set_at (seg ∷ segs) (arr xs) h = absurd (cc h)
  blocked-set_at (seg ∷ segs) (obj ms) h = absurd (cc h)

  -- Behind a child that the walk has found.
  below :
      (seg : Bytes) (segs : List Bytes) (v w : Val) (status : Status)
      → ((u : Val) (s : Status)
          → pointer_walk size_max no_utf8_flags true u segs ≡ failed s
          → set_at size_max segs new u ≡ none)
      → child_of size_max no_utf8_flags v seg ≡ child w
      → pointer_walk size_max no_utf8_flags true v (seg ∷ segs) ≡ failed status
      → set_at size_max segs new w ≡ none
  below seg segs v w status ih e h = elim (Bool-cases (is_blocked segs w)) [
    | inl b ↦ blocked-set_at segs w b
    | inr b ↦ ih w status (sym (walk_step size_max no_utf8_flags true v w seg segs e b) ∙ h)
  ]

  no_member_lem :
      (seg : Bytes) (ms : Members)
      → matches no_utf8_flags seg ms ≡ []
      → child_of size_max no_utf8_flags (obj ms) seg ≡ no_member
  unfolding child_of member_child
  no_member_lem seg ms e = rw (find_loop_lem no_utf8_flags seg ms, e) refl

  missing_lem :
      (seg : Bytes) (segs : List Bytes) (ms : Members)
      → matches no_utf8_flags seg ms ≡ []
      → pointer_walk size_max no_utf8_flags true (obj ms) (seg ∷ segs) ≡ missing
  unfolding pointer_walk
  missing_lem seg segs ms e = rw (pointer_walk, no_member_lem seg ms e) refl

  set_members :
      (seg : Bytes) (segs : List Bytes) (ms : Members) (status : Status)
      → ((u : Val) (s : Status)
          → pointer_walk size_max no_utf8_flags true u segs ≡ failed s
          → set_at size_max segs new u ≡ none)
      → (found : List Val) → matches no_utf8_flags seg ms ≡ found
      → pointer_walk size_max no_utf8_flags true (obj ms) (seg ∷ segs) ≡ failed status
      → set_member seg (set_at size_max segs new) (wrap segs new) ms ≡ none
  set_members seg segs ms status ih [] e h = absurd (cc (missing_lem seg segs ms e, h))
  set_members seg segs ms status ih (v ∷ []) e h =
      set_member-one seg (set_at size_max segs new) (wrap segs new) ms v e (
        below seg segs (obj ms) v status ih
          (Step-complete size_max no_utf8_flags (member_step ms seg v e)) h)
  set_members seg segs ms status ih (v ∷ w ∷ vs) e h =
      set_member-many seg (set_at size_max segs new) (wrap segs new) ms v w vs e

  set_elements :
      (seg : Bytes) (segs : List Bytes) (xs : Items) (status : Status)
      → ((u : Val) (s : Status)
          → pointer_walk size_max no_utf8_flags true u segs ≡ failed s
          → set_at size_max segs new u ≡ none)
      → (o : Option ℕ) → seg_is_index size_max seg ≡ o
      → pointer_walk size_max no_utf8_flags true (arr xs) (seg ∷ segs) ≡ failed status
      → set_index (set_at size_max segs new) o xs ≡ none
  unfolding set_index
  set_elements seg segs xs status ih none e h = refl
  set_elements seg segs xs status ih (some i) e h = elim (Option-cases (arr_get xs i)) [
    | inl g ↦ ap as_arr (set_item-beyond (set_at size_max segs new) xs i g)
    | inr (v, g) ↦ ap as_arr (
        set_item-at (set_at size_max segs new) xs i v g (
          below seg segs (arr xs) v status ih
            (Step-complete size_max no_utf8_flags (element_step xs seg i v e g)) h))
  ]

  -- Where the walk fails, the edit makes no document.
  pub walk_failed-set_at :
      (segs : List Bytes) (v : Val) (status : Status)
      → pointer_walk size_max no_utf8_flags true v segs ≡ failed status
      → set_at size_max segs new v ≡ none
  unfolding set_at set_child
  walk_failed-set_at [] v status h = absurd (unfold pointer_walk in cc h)
  walk_failed-set_at (seg ∷ segs) (obj ms) status h = ap as_obj (
      set_members seg segs ms status (walk_failed-set_at segs) (matches no_utf8_flags seg ms) refl
        h)
  walk_failed-set_at (seg ∷ segs) (arr xs) status h =
      set_elements seg segs xs status (walk_failed-set_at segs) (seg_is_index size_max seg) refl h
  walk_failed-set_at (seg ∷ segs) null status h = refl
  walk_failed-set_at (seg ∷ segs) (bool b) status h = refl
  walk_failed-set_at (seg ∷ segs) (num n) status h = refl
  walk_failed-set_at (seg ∷ segs) (str t) status h = refl
  walk_failed-set_at (seg ∷ segs) (raw t) status h = refl

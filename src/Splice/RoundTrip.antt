-- ===== src/Splice/RoundTrip.antt =====
-- A document that fastjson_imut_pointer_set_write of fastjson_pointer_splice.c writes, walked along
-- the same segments by fj_pointer_walk.
use fastjson.Prelude.{
  ℕ, zero, suc, Bool, true, false, not, Option, none, some, List, [], ◌∷◌, Bytes, leb, length, ◌==◌,
  ◌≡◌, refl, sym, ap, ◌∙◌, arith, Bool-cases, inl, inr,
}
use fastjson.Doc.{
  Val, Items, Members, Str, null, bool, num, str, raw, arr, obj, nil, item, end, member, is_ctn,
  arr_size, arr_get, bytes_eq, bytes_eq_self,
}
use fastjson.Pointer.Walk.{
  no_utf8_flags, seg_key_eq, one, found_child, find_loop, child, child_of, member_child,
  element_child, is_blocked, pointer_walk, reached,
}
use fastjson.Pointer.Index.{seg_is_index}
use fastjson.Pointer.{Plan, plan_keys}
use fastjson.Splice.{Setting, Ctx, value}
use fastjson.Splice.Full.{write_full}
use fastjson.Splice.Edit.{written, start_ctx, imut_pointer_set_write}
use fastjson.Splice.Steps.{success, given}
use fastjson.Splice.Document.{text_of, bytes_of, imut_pointer_set_write-set_at}
use fastjson.Splice.MemberSteps.{has_name_step}
use fastjson.Splice.SetAt.{
  wrap, name, has_name, set_member, set_item, set_index, set_child, set_at, member_first, in_member,
  in_item, as_obj, as_arr,
}

-- What holds of the value that may be there.
abbrev OnSome {ℓ} : {A : Type ℓ} → (A → Type 0) → Option A → Type 0
OnSome P none = Unit
OnSome P (some a) = P a

find_loop_other :
    (seg : Bytes) (key : Str) (v : Val) (ms : Members) (acc : Option Val) (n : ℕ)
    → bytes_eq key.bytes seg ≡ false
    → find_loop no_utf8_flags seg (member key v ms) acc n ≡ find_loop no_utf8_flags seg ms acc n
unfolding find_loop seg_key_eq
find_loop_other seg key v ms acc n e = rw (find_loop, seg_key_eq, e)

find_loop_first :
    (seg : Bytes) (key : Str) (v : Val) (ms : Members) (acc : Option Val)
    → bytes_eq key.bytes seg ≡ true
    → find_loop no_utf8_flags seg (member key v ms) acc 0
      ≡ find_loop no_utf8_flags seg ms (some v) 1
unfolding find_loop seg_key_eq
find_loop_first seg key v ms acc e = rw (find_loop, seg_key_eq, e)

find_loop-has_name :
    (seg : Bytes) (ms : Members) (acc : Option Val) (n : ℕ)
    → has_name seg ms ≡ false
    → find_loop no_utf8_flags seg ms acc n ≡ found_child acc
unfolding find_loop has_name
find_loop-has_name seg end acc n h = refl
find_loop-has_name seg (member key v ms) acc n h = elim (Bool-cases (bytes_eq key.bytes seg)) [
  | inl e ↦ absurd (cc (h, has_name_step seg key v ms true e))
  | inr e ↦
      find_loop_other seg key v ms acc n e
      ∙ find_loop-has_name seg ms acc n (sym (has_name_step seg key v ms false e) ∙ h)
]

module _ (P : Val → Type 0) where
  abbrev FoundIn : Bytes → Members → Type 0
  FoundIn seg ms = (x : Val) × P x × (find_loop no_utf8_flags seg ms none 0 ≡ one x)

  set_member-FoundIn :
      (seg : Bytes) (edit : Val → Option Val) (fresh : Val)
      → ((v : Val) → OnSome P (edit v))
      → P fresh
      → (ms : Members) → OnSome (FoundIn seg) (set_member seg edit fresh ms)
  unfolding set_member
  set_member-FoundIn seg edit fresh edited new end = (
    fresh,
    new,
    find_loop_first seg (name seg) fresh end none (bytes_eq_self seg)
        ∙ find_loop-has_name seg end (some fresh) 1 refl,
  )
  set_member-FoundIn seg edit fresh edited new (member key v ms) =
      choose (set_member-FoundIn seg edit fresh edited new ms) (bytes_eq key.bytes seg) refl
    where
      first :
          bytes_eq key.bytes seg ≡ true
          → (h : Bool) → has_name seg ms ≡ h
          → (o : Option Val) → OnSome P o
          → OnSome (FoundIn seg) (elim h [ true ↦ none | false ↦ member_first key o ms ])
      first e true h o p = tt
      first e false h none p = tt
      first e false h (some x) p =
          (x, p, find_loop_first seg key x ms none e ∙ find_loop-has_name seg ms (some x) 1 h)

      later :
          bytes_eq key.bytes seg ≡ false
          → (o : Option Members) → OnSome (FoundIn seg) o
          → OnSome (FoundIn seg) (in_member key v o)
      later e none p = tt
      later e (some ms') (x, p, f) = (x, p, find_loop_other seg key v ms' none 0 e ∙ f)

      choose :
          OnSome (FoundIn seg) (set_member seg edit fresh ms)
          → (b : Bool) → bytes_eq key.bytes seg ≡ b
          → OnSome (FoundIn seg) (elim b [
            | true ↦ elim (has_name seg ms) [ true ↦ none | false ↦ member_first key (edit v) ms ]
            | false ↦ in_member key v (set_member seg edit fresh ms)
          ])
      choose p true e = first e (has_name seg ms) refl (edit v) (edited v)
      choose p false e = later e (set_member seg edit fresh ms) p

  abbrev FoundAt : ℕ → Items → Type 0
  FoundAt want xs = (x : Val) × P x × (leb (arr_size xs) want ≡ false) × (arr_get xs want ≡ some x)

  set_item-FoundAt :
      (edit : Val → Option Val)
      → ((v : Val) → OnSome P (edit v))
      → (want : ℕ) (xs : Items) → OnSome (FoundAt want) (set_item edit want xs)
  unfolding set_item
  set_item-FoundAt edit edited want nil = tt
  set_item-FoundAt edit edited zero (item v xs) = choose (edit v) (edited v)
    where
      choose :
          (o : Option Val)
          → OnSome P o
          → OnSome (FoundAt zero) (elim o [ none ↦ none | some e ↦ some (item e xs) ])
      choose none p = tt
      choose (some e) p = (e, p, ground arith, refl)
  set_item-FoundAt edit edited (suc want) (item v xs) =
      choose (set_item edit want xs) (set_item-FoundAt edit edited want xs)
    where
      choose :
          (o : Option Items) → OnSome (FoundAt want) o → OnSome (FoundAt (suc want)) (in_item v o)
      choose none p = tt
      choose (some xs') (x, p, l, g) = (x, p, ground arith, g)

  -- The child that the segment names in the document that was made.
  abbrev HasChild : ℕ → Bytes → Val → Type 0
  HasChild size_max seg e =
      (x : Val) × P x × (is_ctn e ≡ true) × (child_of size_max no_utf8_flags e seg ≡ child x)

  set_child-HasChild :
      (size_max : ℕ) (seg : Bytes) (edit : Val → Option Val) (fresh : Val)
      → ((v : Val) → OnSome P (edit v))
      → P fresh
      → (v : Val) → OnSome (HasChild size_max seg) (set_child size_max seg edit fresh v)
  unfolding set_child set_index child_of member_child
  set_child-HasChild size_max seg edit fresh edited new (obj ms) =
      choose (set_member seg edit fresh ms) (set_member-FoundIn seg edit fresh edited new ms)
    where
      choose :
          (o : Option Members) → OnSome (FoundIn seg) o → OnSome (HasChild size_max seg) (as_obj o)
      choose none p = tt
      choose (some ms') (x, p, f) = (x, p, refl, ap member_child f)
  set_child-HasChild size_max seg edit fresh edited new (arr xs) =
      index (seg_is_index size_max seg) refl
    where
      at :
          (want : ℕ)
          → seg_is_index size_max seg ≡ some want
          → (o : Option Items) → OnSome (FoundAt want) o
          → OnSome (HasChild size_max seg) (as_arr o)
      at want i none p = tt
      at want i (some xs') (x, p, l, g) = (x, p, refl, rw (i, element_child, l, g))

      index :
          (o : Option ℕ)
          → seg_is_index size_max seg ≡ o
          → OnSome (HasChild size_max seg) (set_index edit o xs)
      index none i = tt
      index (some want) i = at want i (set_item edit want xs) (set_item-FoundAt edit edited want xs)
  set_child-HasChild size_max seg edit fresh edited new null = tt
  set_child-HasChild size_max seg edit fresh edited new (bool b) = tt
  set_child-HasChild size_max seg edit fresh edited new (num n) = tt
  set_child-HasChild size_max seg edit fresh edited new (str t) = tt
  set_child-HasChild size_max seg edit fresh edited new (raw t) = tt

module _ (size_max : ℕ) (allow_missing : Bool) (new : Val) where
  -- The walk is not blocked at a value, and ends at the new one.
  abbrev Leads : List Bytes → Val → Type 0
  Leads ks x =
      (is_blocked ks x ≡ false)
      × (pointer_walk size_max no_utf8_flags allow_missing x ks ≡ reached new)

  Leads-on :
      (k : Bytes) (ks : List Bytes) (e : Val) → HasChild (Leads ks) size_max k e → Leads (k ∷ ks) e
  unfolding pointer_walk
  Leads-on k ks e (x, (p, w), n, c) = (ap not n, rw (pointer_walk, c, p, w))

  wrap-Leads : (ks : List Bytes) → Leads ks (wrap ks new)
  unfolding wrap pointer_walk has_name child_of member_child
  wrap-Leads [] = (refl, refl)
  wrap-Leads (k ∷ ks) = Leads-on k ks (obj (member (name k) (wrap ks new) end)) (
    wrap ks new,
    wrap-Leads ks,
    refl,
    ap member_child (
        find_loop_first k (name k) (wrap ks new) end none (bytes_eq_self k)
        ∙ find_loop-has_name k end (some (wrap ks new)) 1 refl),
  )

  pub set_at-Leads : (ks : List Bytes) (v : Val) → OnSome (Leads ks) (set_at size_max ks new v)
  unfolding set_at pointer_walk
  set_at-Leads [] v = (refl, refl)
  set_at-Leads (k ∷ ks) v = choose (set_child size_max k (set_at size_max ks new) (wrap ks new) v) (
      set_child-HasChild (Leads ks) size_max k (set_at size_max ks new) (wrap ks new)
        (set_at-Leads ks) (wrap-Leads ks) v)
    where
      choose :
          (o : Option Val) → OnSome (HasChild (Leads ks) size_max k) o → OnSome (Leads (k ∷ ks)) o
      choose none p = tt
      choose (some e) p = Leads-on k ks e p

module _ (s : Setting) (safe : (r : ℕ) → s.overflowed r ≡ false) (size_max : ℕ) (new : Val) where
  -- Where fastjson_imut_pointer_set_write writes a text for a value replacement, and the C stack does
  -- not overflow, the text is the full text of a document in which fj_pointer_walk along the keys
  -- of the plan reaches the new value. The plan has as many segments as it says.
  pub imut_pointer_set_write-pointer_walk :
      (plan : Plan) (root : Val) (limit : ℕ) (t : Bytes)
      → plan.nsegs ≡ length plan.segs
      → imut_pointer_set_write s size_max (value new) root plan limit ≡ written t
      → (e : Val) × (pointer_walk size_max no_utf8_flags false e (plan_keys plan) ≡ reached new)
        × (bytes_of (
              success
                (write_full s e limit (start_ctx s size_max (value new) (not (plan.nsegs == 0)))))
            ≡ some t)
  imut_pointer_set_write-pointer_walk plan root limit t n h =
      choose (set_at size_max (plan_keys plan) new root)
        (set_at-Leads size_max false new (plan_keys plan) root)
        (sym (imut_pointer_set_write-set_at s safe size_max new plan root limit n) ∙ ap text_of h)
    where
      start : Ctx
      start = start_ctx s size_max (value new) (not (plan.nsegs == 0))

      choose :
          (o : Option Val)
          → OnSome (Leads size_max false new (plan_keys plan)) o
          → bytes_of (success (given o (λ e. write_full s e limit) start)) ≡ some t
          → (e : Val) × (pointer_walk size_max no_utf8_flags false e (plan_keys plan) ≡ reached new)
            × (bytes_of (success (write_full s e limit start)) ≡ some t)
      choose none l b = absurd (cc b)
      choose (some e) (free, w) b = (e, w, b)

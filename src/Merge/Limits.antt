-- ===== src/Merge/Limits.antt =====
-- The depth limit of fastjson_decode.c's merge: what is deeper than the limit fails, for a value,
-- for the members of an object, and for the object built from them.
use fastjson.Prelude.{
  ℕ, suc, ◌-◌, ◌≤◌, max, Bool, true, false, Option, none, some, List, [], ◌∷◌, ◌++◌, ◌≡◌, refl, sym,
  ap, ◌∙◌, ◌||◌, Bool-cases, inl, inr, arith, leb,
}
use fastjson.Doc.{Val, Str, obj, is_null}
use fastjson.Depth.Height.{height, member_height}
use fastjson.Depth.Loop.{val_depth_reaches_lem}
use fastjson.Merge.{
  Entry, entry, members_of, copy_checked, add_member, orig_round, patch_round, builder, has,
}
use fastjson.Merge.Patch.{merge_patch}
use fastjson.Merge.Patch.Order.{keep, added, keep_null, keep_merged, added_skip, added_new}

abbrev pub unless {ℓ} : {A : Type ℓ} → Bool → A → Option A
unless true x = none
unless false x = some x

-- A value that is less than `r` containers deep.
unfoldable pub limited : ℕ → Val → Option Val
limited r v = unless (leb r (height v)) v

unfoldable pub limited_all : ℕ → List (Entry Val) → Option (List (Entry Val))
unfolding limited
limited_all r [] = some []
limited_all r (e ∷ es) = add_member e.key (limited r e.value) (limited_all r es)

pub copy_checked_lem : (r : ℕ) (v : Val) → copy_checked r v ≡ limited r v
unfolding copy_checked limited
copy_checked_lem r v = let e = val_depth_reaches_lem v r in ground arith

add_member-unless :
    (k : Str) (a b : Bool) (v : Val) (es : List (Entry Val))
    → add_member k (unless a v) (unless b es) ≡ unless (a || b) (entry k v ∷ es)
add_member-unless k true b v es = refl
add_member-unless k false true v es = refl
add_member-unless k false false v es = refl

builder-unless :
    (a b : Bool) (xs ys : List (Entry Val))
    → builder (unless a xs) (unless b ys) ≡ unless (a || b) (obj (members_of (xs ++ ys)))
builder-unless true b xs ys = refl
builder-unless false true xs ys = refl
builder-unless false false xs ys = refl

unless-false {ℓ} : {A : Type ℓ} (b : Bool) (x : A) → b ≡ false → some x ≡ unless b x
unless-false true x h = absurd (ground arith)
unless-false false x h = refl

leb-max : (r a b : ℕ) → leb r a || leb r b ≡ leb r (max a b)
leb-max r a b = ground arith

leb-suc : (r a : ℕ) → leb r a ≡ leb (suc r) (suc a)
leb-suc r a = ground arith

limited_all_lem :
    (r : ℕ) (es : List (Entry Val))
    → 1 ≤ r
    → limited_all r es ≡ unless (leb r (member_height (members_of es))) es
unfolding limited_all member_height limited
limited_all_lem r [] h = unless-false (leb r 0) [] (ground arith)
limited_all_lem r (e ∷ es) h =
    ap (add_member e.key (limited r e.value)) (limited_all_lem r es h)
    ∙ add_member-unless e.key (leb r (height e.value)) (leb r (member_height (members_of es)))
        e.value es
    ∙ ap (λ b. unless b (e ∷ es)) (leb-max r (height e.value) (member_height (members_of es)))

member_height-append :
    (xs ys : List (Entry Val))
    → member_height (members_of (xs ++ ys))
      ≡ max (member_height (members_of xs)) (member_height (members_of ys))
unfolding member_height
member_height-append [] ys = omega arith
member_height-append (x ∷ xs) ys = let i = member_height-append xs ys in omega arith

pub builder-limited :
    (r : ℕ) (xs ys : List (Entry Val))
    → 1 ≤ r
    → builder (limited_all r xs) (limited_all r ys) ≡ limited (suc r) (obj (members_of (xs ++ ys)))
unfolding limited height
builder-limited r xs ys h =
    ap (λ o. builder o (limited_all r ys)) (limited_all_lem r xs h)
    ∙ ap (builder (unless (leb r (member_height (members_of xs))) xs)) (limited_all_lem r ys h)
    ∙ builder-unless (leb r (member_height (members_of xs))) (leb r (member_height (members_of ys)))
        xs ys
    ∙ ap (λ b. unless b (obj (members_of (xs ++ ys)))) same
  where
    same :
        leb r (member_height (members_of xs)) || leb r (member_height (members_of ys))
        ≡ leb (suc r) (height (obj (members_of (xs ++ ys))))
    same =
        leb-max r (member_height (members_of xs)) (member_height (members_of ys))
        ∙ sym (ap (leb r) (member_height-append xs ys))
        ∙ leb-suc r (member_height (members_of (xs ++ ys)))

-- The rounds of both paths, where the recursive call `merge` is right one level down.
module _ (merge : Option Val → Val → Option Val) (r : ℕ)
    (ih : (o : Option Val) (p : Val) → merge o p ≡ limited r (merge_patch p o)) where
  pub orig_round_lem :
      (k : Str) (v : Val) (patch : Option Val) (rest : List (Entry Val))
      → orig_round merge (suc r) k v patch (limited_all r rest)
        ≡ limited_all r (keep patch (entry k v) rest)
  unfolding orig_round keep limited_all
  orig_round_lem k v none rest =
      ap (λ o. add_member k o (limited_all r rest))
        (ap (λ n. copy_checked n v) (pred_suc r) ∙ copy_checked_lem r v)
    where
      pred_suc : (n : ℕ) → suc n - 1 ≡ n
      pred_suc n = omega arith
  orig_round_lem k v (some p) rest = elim (Bool-cases (is_null p)) [
    | inl n ↦ rounds_null n ∙ sym (ap (limited_all r) (keep_null p (entry k v) rest n))
    | inr n ↦
        rounds_put n
        ∙ ap (λ o. add_member k o (limited_all r rest)) (ih (some v) p)
        ∙ sym (ap (limited_all r) (keep_merged p (entry k v) rest n))
  ]
    where
      rounds_null :
          is_null p ≡ true
          → orig_round merge (suc r) k v (some p) (limited_all r rest) ≡ limited_all r rest
      rounds_null n = rw (orig_round, n)

      rounds_put :
          is_null p ≡ false
          → orig_round merge (suc r) k v (some p) (limited_all r rest)
            ≡ add_member k (merge (some v) p) (limited_all r rest)
      rounds_put n = rw (orig_round, n)

  pub patch_round_lem :
      (skip : Bool) (target : List (Entry Val)) (p : Entry Val) (ps : List (Entry Val))
      → skip ≡ is_null p.value || has p.key.bytes target
      → patch_round merge skip p.key p.value (limited_all r (added target ps))
        ≡ limited_all r (added target (p ∷ ps))
  unfolding patch_round limited_all
  patch_round_lem true target p ps h = sym (ap (limited_all r) (added_skip target p ps (sym h)))
  patch_round_lem false target p ps h =
      ap (λ o. add_member p.key o (limited_all r (added target ps))) (ih none p.value)
      ∙ sym (ap (limited_all r) (added_new target p ps (sym h)))

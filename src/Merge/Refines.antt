-- ===== src/Merge/Refines.antt =====
-- The merge of fastjson_decode.c against RFC 7396: fastjson_merge_patch_bounded gives the merged
-- document exactly where it is less deep than the limit.
use fastjson.Prelude.{
  ℕ, zero, suc, ◌≤◌, Bool, true, false, Option, none, some, List, [], ◌∷◌, ◌++◌, ◌≡◌, refl, sym, ap,
  ◌∙◌, ◌||◌, ◌&&◌, arith, leb, length, if◌then◌else◌,
}
use fastjson.Doc.{Val, Members, null, bool, num, str, raw, arr, obj, is_null, obj_size}
use fastjson.Depth.Height.{height, member_height}
use fastjson.Merge.{
  Entry, entries, members_of, orig_entries, merge_patch_indexed, linear_orig, linear_patch, has,
  lookup, orig_round, patch_round, builder, merge_paths, merge_values, merge_patch_bounded,
}
use fastjson.Merge.Entries.{canon, canon-map_values, canon-distinct}
use fastjson.Merge.Patch.{merge_patch, edits, edit, edits_lem, apply}
use fastjson.Merge.Patch.Order.{kept, added}
use fastjson.Merge.Patch.Rounds.{apply_lem}
use fastjson.Merge.Limits.{
  unless, limited, limited_all, copy_checked_lem, builder-limited, orig_round_lem, patch_round_lem,
}
use fastjson.Merge.Indexed.{merge_patch_indexed_lem, merge_patch_linear-merge_patch_indexed}

-- The members that RFC 7396 gives, in the code's order.
rfc_members :
    (ms : Members) (es : List (Entry Val))
    → apply (canon (edits ms)) es ≡ kept (canon (entries ms)) es ++ added es (canon (entries ms))
rfc_members ms es =
    ap (λ xs. apply (canon xs) es) (edits_lem ms)
    ∙ ap (λ xs. apply xs es) (canon-map_values edit (entries ms))
    ∙ apply_lem (canon (entries ms)) es (canon-distinct (entries ms))

unless-true {ℓ} : {A : Type ℓ} (b : Bool) (x : A) → b ≡ true → unless b x ≡ none
unless-true true x e = refl
unless-true false x e = absurd (ground arith)

at_limit_lem : (r n : ℕ) → leb (suc r) 1 ≡ true → leb (suc r) (suc n) ≡ true
at_limit_lem r n h = ground arith

limited_object : (r : ℕ) (ms : Members) → leb (suc r) 1 ≡ true → limited (suc r) (obj ms) ≡ none
unfolding limited height
limited_object r ms h =
    unless-true (leb (suc r) (height (obj ms))) (obj ms) (at_limit_lem r (member_height ms) h)

module _ (merge : Option Val → Val → Option Val) (r : ℕ)
    (ih : (o : Option Val) (p : Val) → merge o p ≡ limited r (merge_patch p o)) where
  linear_orig_lem :
      (ps os : List (Entry Val)) → linear_orig merge (suc r) ps os ≡ limited_all r (kept ps os)
  unfolding linear_orig kept limited_all
  linear_orig_lem ps [] = refl
  linear_orig_lem ps (o ∷ os) =
      ap (orig_round merge (suc r) o.key o.value (lookup o.key.bytes ps)) (linear_orig_lem ps os)
      ∙ orig_round_lem merge r ih o.key o.value (lookup o.key.bytes ps) (kept ps os)

  linear_patch_lem :
      (os ps : List (Entry Val)) → linear_patch merge os ps ≡ limited_all r (added os ps)
  unfolding linear_patch added limited_all
  linear_patch_lem os [] = refl
  linear_patch_lem os (p ∷ ps) =
      ap (patch_round merge (is_null p.value || has p.key.bytes os) p.key p.value)
        (linear_patch_lem os ps)
      ∙ patch_round_lem merge r ih (is_null p.value || has p.key.bytes os) os p ps refl

  indexed_lem :
      (o : Option Val) (ms : Members)
      → 1 ≤ r
      → merge_patch_indexed merge (suc r) (orig_entries o) (entries ms)
        ≡ limited (suc r) (merge_patch (obj ms) o)
  unfolding merge_patch
  indexed_lem o ms h =
      merge_patch_indexed_lem merge (suc r) (orig_entries o) (entries ms)
      ∙ ap (λ x. builder x (linear_patch merge os ps)) (linear_orig_lem ps os)
      ∙ ap (builder (limited_all r (kept ps os))) (linear_patch_lem os ps)
      ∙ builder-limited r (kept ps os) (added os ps) h
      ∙ sym (ap (λ xs. limited (suc r) (obj (members_of xs))) (rfc_members ms os))
    where
      ps : List (Entry Val)
      ps = canon (entries ms)

      os : List (Entry Val)
      os = canon (orig_entries o)

  paths_lem :
      (o : Option Val) (ms : Members) (at_limit small : Bool)
      → at_limit ≡ leb (suc r) 1
      → merge_paths merge (suc r) (orig_entries o) (entries ms) at_limit small
        ≡ limited (suc r) (merge_patch (obj ms) o)
  unfolding merge_paths merge_patch
  paths_lem o ms true small e = sym (limited_object r apply_members (ground arith))
    where
      apply_members : Members
      apply_members = members_of (apply (canon (edits ms)) (canon (orig_entries o)))
  paths_lem o ms false true e =
      merge_patch_linear-merge_patch_indexed merge (suc r) (orig_entries o) (entries ms)
      ∙ indexed_lem o ms (ground arith)
  paths_lem o ms false false e = indexed_lem o ms (ground arith)

  values_lem :
      (o : Option Val) (p : Val)
      → merge_values merge (suc r) o p ≡ limited (suc r) (merge_patch p o)
  unfolding merge_patch
  values_lem o (obj ms) =
      paths_lem o ms (leb (suc r) 1) (leb (obj_size ms) 16 && leb (length (orig_entries o)) 16) refl
  values_lem o null = copy_checked_lem (suc r) null
  values_lem o (bool b) = copy_checked_lem (suc r) (bool b)
  values_lem o (num n) = copy_checked_lem (suc r) (num n)
  values_lem o (str s) = copy_checked_lem (suc r) (str s)
  values_lem o (raw s) = copy_checked_lem (suc r) (raw s)
  values_lem o (arr xs) = copy_checked_lem (suc r) (arr xs)

module _ (overflowed : ℕ → Bool) (fits : (n : ℕ) → overflowed n ≡ false) where
  bounded_step :
      (r : ℕ) (o : Option Val) (p : Val)
      → merge_patch_bounded overflowed (suc r) o p
        ≡ merge_values (merge_patch_bounded overflowed r) (suc r) o p
  unfolding merge_patch_bounded
  bounded_step r o p = rw (merge_patch_bounded, fits)

  bounded_zero : (o : Option Val) (p : Val) → none ≡ limited 0 (merge_patch p o)
  unfolding limited
  bounded_zero o p = at_zero (height (merge_patch p o)) (merge_patch p o)
    where
      at_zero : (n : ℕ) (v : Val) → none ≡ unless (leb 0 n) v
      at_zero zero v = refl
      at_zero (suc n) v = sym (unless-true (leb 0 (suc n)) v (ground arith))

  bounded_limited :
      (r : ℕ) (o : Option Val) (p : Val)
      → merge_patch_bounded overflowed r o p ≡ limited r (merge_patch p o)
  unfolding merge_patch_bounded
  bounded_limited zero o p = bounded_zero o p
  bounded_limited (suc r) o p =
      bounded_step r o p ∙ values_lem (merge_patch_bounded overflowed r) r (bounded_limited r) o p

-- The merge under a depth limit implements MergePatch of RFC 7396, with the members of an object
-- in canonical form: the result is the merged document where it is less than `remaining`
-- containers deep, and a depth error otherwise. The C stack is taken not to overflow.
pub merge_patch_bounded_lem :
    (overflowed : ℕ → Bool) (remaining : ℕ) (orig : Option Val) (patch : Val)
    → ((n : ℕ) → overflowed n ≡ false)
    → merge_patch_bounded overflowed remaining orig patch ≡ (
        if leb remaining (height (merge_patch patch orig))
        then none
        else some (merge_patch patch orig))
unfolding limited
merge_patch_bounded_lem overflowed remaining orig patch h =
    bounded_limited overflowed h remaining orig patch
    ∙ unless_if (leb remaining (height (merge_patch patch orig))) (merge_patch patch orig)
  where
    unless_if : (b : Bool) (v : Val) → unless b v ≡ (if b then none else some v)
    unless_if true v = refl
    unless_if false v = refl

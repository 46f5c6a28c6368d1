-- ===== src/Merge/Indexed.antt =====
-- The two hash indexes of fastjson_merge_patch_indexed in fastjson_decode.c: an index holds the
-- canonical members, and the marks on it say which names the original object has.
use fastjson.Prelude.{
  ℕ, Bool, true, false, Option, some, List, [], ◌∷◌, ◌≡◌, refl, sym, ap, ◌∙◌, ◌||◌, Bool-cases, inl,
  inr, arith, Bytes,
}
use fastjson.Doc.{Val, Str, is_null, bytes_eq, bytes_eq_sym}
use fastjson.Merge.{
  Entry, Slot, slot_value, find_ptr, index_add, index_loop, merge_index_init, mark_emitted, marked,
  indexed_orig, indexed_patch, merge_patch_indexed, merge_patch_linear, linear_orig, linear_patch,
  has_duplicate_keys, has, lookup, orig_round, patch_round, builder,
}
use fastjson.Merge.Entries.{assign, canon, canon_loop, canon_id, assign_hit, assign_miss}
use fastjson.Merge.Patch.Order.{lookup_hit, lookup_miss}

abbrev slot : (Bytes → Bool) → Entry Val → Slot
slot f e = record { key = e.key; value = e.value; emitted = f e.key.bytes }

-- The index of some members, of which those named by `f` are marked.
unfoldable slots : (Bytes → Bool) → List (Entry Val) → List Slot
slots f [] = []
slots f (e ∷ es) = slot f e ∷ slots f es

abbrev unmarked : Bytes → Bool
unmarked j = false

index_add_hit :
    (m : Slot) (ms : List Slot) (k : Str) (v : Val)
    → bytes_eq m.key.bytes k.bytes ≡ true
    → index_add (m ∷ ms) k v ≡ record { key = m.key; value = v; emitted = m.emitted } ∷ ms
unfolding index_add
index_add_hit m ms k v h = rw (index_add, h)

index_add_miss :
    (m : Slot) (ms : List Slot) (k : Str) (v : Val)
    → bytes_eq m.key.bytes k.bytes ≡ false
    → index_add (m ∷ ms) k v ≡ m ∷ index_add ms k v
unfolding index_add
index_add_miss m ms k v h = rw (index_add, h)

find_hit :
    (m : Slot) (ms : List Slot) (k : Bytes)
    → bytes_eq m.key.bytes k ≡ true
    → find_ptr (m ∷ ms) k ≡ some m
unfolding find_ptr
find_hit m ms k h = rw (find_ptr, h)

find_miss :
    (m : Slot) (ms : List Slot) (k : Bytes)
    → bytes_eq m.key.bytes k ≡ false
    → find_ptr (m ∷ ms) k ≡ find_ptr ms k
unfolding find_ptr
find_miss m ms k h = rw (find_ptr, h)

index_add-assign :
    (es : List (Entry Val)) (k : Str) (v : Val)
    → index_add (slots unmarked es) k v ≡ slots unmarked (assign es k v)
unfolding slots index_add assign
index_add-assign [] k v = refl
index_add-assign (e ∷ es) k v = elim (Bool-cases (bytes_eq e.key.bytes k.bytes)) [
  | inl h ↦
      index_add_hit (slot unmarked e) (slots unmarked es) k v h
      ∙ sym (ap (slots unmarked) (assign_hit e es k v h))
  | inr h ↦
      index_add_miss (slot unmarked e) (slots unmarked es) k v h
      ∙ ap (λ ms. slot unmarked e ∷ ms) (index_add-assign es k v)
      ∙ sym (ap (slots unmarked) (assign_miss e es k v h))
]

index_loop_lem :
    (acc es : List (Entry Val))
    → index_loop (slots unmarked acc) es ≡ slots unmarked (canon_loop acc es)
unfolding index_loop canon_loop
index_loop_lem acc [] = refl
index_loop_lem acc (e ∷ es) =
    ap (λ ms. index_loop ms es) (index_add-assign acc e.key e.value)
    ∙ index_loop_lem (assign acc e.key e.value) es

merge_index_init_lem : (es : List (Entry Val)) → merge_index_init es ≡ slots unmarked (canon es)
unfolding merge_index_init slots
merge_index_init_lem es = index_loop_lem [] es

find_ptr_lem :
    (f : Bytes → Bool) (es : List (Entry Val)) (k : Bytes)
    → slot_value (find_ptr (slots f es) k) ≡ lookup k es
unfolding slots find_ptr lookup
find_ptr_lem f [] k = refl
find_ptr_lem f (e ∷ es) k = elim (Bool-cases (bytes_eq e.key.bytes k)) [
  | inl h ↦ ap slot_value (find_hit (slot f e) (slots f es) k h) ∙ sym (lookup_hit k e es h)
  | inr h ↦
      ap slot_value (find_miss (slot f e) (slots f es) k h)
      ∙ find_ptr_lem f es k
      ∙ sym (lookup_miss k e es h)
]

mark_emitted_lem :
    (k : Bytes) (f : Bytes → Bool) (es : List (Entry Val))
    → mark_emitted k (slots f es) ≡ slots (λ j. f j || bytes_eq j k) es
unfolding slots mark_emitted
mark_emitted_lem k f [] = refl
mark_emitted_lem k f (e ∷ es) =
    ap (λ ms. slot (λ j. f j || bytes_eq j k) e ∷ ms) (mark_emitted_lem k f es)

slots_ext :
    (f g : Bytes → Bool) (es : List (Entry Val))
    → ((j : Bytes) → f j ≡ g j)
    → slots f es ≡ slots g es
unfolding slots
slots_ext f g [] h = refl
slots_ext f g (e ∷ es) h =
    ap (λ b. record { key = e.key; value = e.value; emitted = b } ∷ slots f es) (h e.key.bytes)
    ∙ ap (λ ms. slot g e ∷ ms) (slots_ext f g es h)

marked_lem :
    (f g : Bytes → Bool) (ps os : List (Entry Val))
    → marked (slots f ps) (slots g os) ≡ slots (λ j. f j || has j os) ps
unfolding marked slots has
marked_lem f g ps [] = slots_ext f (λ j. f j || false) ps (λ j. ground arith)
marked_lem f g ps (o ∷ os) =
    ap (λ ms. marked ms (slots g os)) (mark_emitted_lem o.key.bytes f ps)
    ∙ marked_lem (λ j. f j || bytes_eq j o.key.bytes) g ps os
    ∙ slots_ext (λ j. (f j || bytes_eq j o.key.bytes) || has j os)
        (λ j. f j || (bytes_eq o.key.bytes j || has j os)) ps
        (λ j. regroup (f j) (has j os) (bytes_eq_sym j o.key.bytes))
  where
    regroup : (a : Bool) {b c : Bool} (d : Bool) → b ≡ c → (a || b) || d ≡ a || (c || d)
    regroup true d e = refl
    regroup false d e = ap (λ x. x || d) e

module _ (merge : Option Val → Val → Option Val) (n : ℕ) where
  indexed_orig_lem :
      (f g : Bytes → Bool) (ps os : List (Entry Val))
      → indexed_orig merge n (slots f ps) (slots g os) ≡ linear_orig merge n ps os
  unfolding indexed_orig slots linear_orig
  indexed_orig_lem f g ps [] = refl
  indexed_orig_lem f g ps (o ∷ os) =
      ap (λ x. orig_round merge n o.key o.value x rest) (find_ptr_lem f ps o.key.bytes)
      ∙ ap (orig_round merge n o.key o.value (lookup o.key.bytes ps)) (
          ap (λ ms. indexed_orig merge n ms (slots g os)) (mark_emitted_lem o.key.bytes f ps)
          ∙ indexed_orig_lem (λ j. f j || bytes_eq j o.key.bytes) g ps os)
    where
      rest : Option (List (Entry Val))
      rest = indexed_orig merge n (mark_emitted o.key.bytes (slots f ps)) (slots g os)

  indexed_patch_lem :
      (os ps : List (Entry Val))
      → indexed_patch merge (slots (λ j. has j os) ps) ≡ linear_patch merge os ps
  unfolding indexed_patch slots linear_patch
  indexed_patch_lem os [] = refl
  indexed_patch_lem os (p ∷ ps) =
      ap (patch_round merge (has p.key.bytes os || is_null p.value) p.key p.value)
        (indexed_patch_lem os ps)
      ∙ ap (λ b. patch_round merge b p.key p.value (linear_patch merge os ps)) (ground arith)

  -- The indexed path is the linear loops on the canonical members.
  pub merge_patch_indexed_lem :
      (orig patch : List (Entry Val))
      → merge_patch_indexed merge n orig patch
        ≡ builder
            (linear_orig merge n (canon patch) (canon orig))
            (linear_patch merge (canon orig) (canon patch))
  unfolding merge_patch_indexed
  merge_patch_indexed_lem orig patch =
      ap (λ x. both x (merge_index_init orig)) (merge_index_init_lem patch)
      ∙ ap (both (slots unmarked (canon patch))) (merge_index_init_lem orig)
      ∙ ap (λ o. builder o (indexed_patch merge (marked ps os)))
          (indexed_orig_lem unmarked unmarked (canon patch) (canon orig))
      ∙ ap (builder (linear_orig merge n (canon patch) (canon orig))) (
          ap (indexed_patch merge) (marked_lem unmarked unmarked (canon patch) (canon orig))
          ∙ indexed_patch_lem (canon orig) (canon patch))
    where
      both : List Slot → List Slot → Option Val
      both p o = builder (indexed_orig merge n p o) (indexed_patch merge (marked p o))

      ps : List Slot
      ps = slots unmarked (canon patch)

      os : List Slot
      os = slots unmarked (canon orig)

  -- The two paths of the merge agree on every object and patch, at any depth and whatever the
  -- recursive calls give: the size of the objects decides only the cost.
  pub merge_patch_linear-merge_patch_indexed :
      (orig patch : List (Entry Val))
      → merge_patch_linear merge n orig patch ≡ merge_patch_indexed merge n orig patch
  unfolding merge_patch_linear
  merge_patch_linear-merge_patch_indexed orig patch =
      elim (Bool-cases (has_duplicate_keys orig || has_duplicate_keys patch)) [
        | inl d ↦ dispatched_indexed d
        | inr d ↦
            dispatched_linear d
            ∙ sym (
                merge_patch_indexed_lem orig patch
                ∙ ap (λ o. plain o (canon patch)) (canon_id orig (ground arith))
                ∙ ap (plain orig) (canon_id patch (ground arith)))
      ]
    where
      plain : List (Entry Val) → List (Entry Val) → Option Val
      plain o p = builder (linear_orig merge n p o) (linear_patch merge o p)

      dispatched_indexed :
          has_duplicate_keys orig || has_duplicate_keys patch ≡ true
          → merge_patch_linear merge n orig patch ≡ merge_patch_indexed merge n orig patch
      dispatched_indexed d = rw (merge_patch_linear, d)

      dispatched_linear :
          has_duplicate_keys orig || has_duplicate_keys patch ≡ false
          → merge_patch_linear merge n orig patch ≡ plain orig patch
      dispatched_linear d = rw (merge_patch_linear, d)

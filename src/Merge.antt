-- ===== src/Merge.antt =====
-- The merge of fastjson_decode.c behind fastjson_merge_patch(): the depth-checked copy, the
-- linear path for objects of at most sixteen members, the indexed path with its two hash
-- indexes, and the recursion between them. `none` is a NULL result with *depth_failed set;
-- memory for the new document is there, so no other NULL arises. A NULL `orig` is `none`.
-- yyjson_val_mut_copy gives an equal value, and yyjson_mut_obj_add appends a member.
pub mod Entries
pub mod Patch
pub mod Limits
pub mod Indexed
pub mod Refines
mod Examples
use fastjson.Prelude.{
  ℕ, zero, suc, ◌-◌, Bool, true, false, Option, none, some, List, [], ◌∷◌, ◌++◌, leb, if◌then◌else◌,
  ◌==◌, ◌||◌, ◌&&◌, Bytes, length,
}
use fastjson.Doc.{Val, Members, obj, end, member, is_null, Str, obj_size, bytes_eq}
use fastjson.Depth.{val_depth_reaches}

-- A member of an object.
pub record Entry {ℓ} (A : Type ℓ) : Type ℓ where
  pub key : Str
  pub value : A

abbrev pub entry {ℓ} : {A : Type ℓ} → Str → A → Entry A
entry k v = record { key = k; value = v }

-- The members as yyjson_obj_iter_next gives them, and the object built from members.
abbrev pub entries : Members → List (Entry Val)
entries end = []
entries (member k v ms) = entry k v ∷ entries ms

abbrev pub members_of : List (Entry Val) → Members
members_of [] = end
members_of (e ∷ es) = member e.key e.value (members_of es)

-- yyjson_obj_getn: the value of the first member of that name.
unfoldable pub lookup {ℓ} : {A : Type ℓ} → Bytes → List (Entry A) → Option A
lookup k [] = none
lookup k (e ∷ es) = elim (bytes_eq e.key.bytes k) [ true ↦ some e.value | false ↦ lookup k es ]

unfoldable pub has {ℓ} : {A : Type ℓ} → Bytes → List (Entry A) → Bool
has k [] = false
has k (e ∷ es) = bytes_eq e.key.bytes k || has k es

-- The members of `orig`, which may be NULL or no object.
abbrev pub orig_entries : Option Val → List (Entry Val)
orig_entries (some (obj ms)) = entries ms
orig_entries _ = []

-- fj_merge_copy_checked
unfoldable pub copy_checked : ℕ → Val → Option Val
copy_checked remaining v = if remaining == 0 || val_depth_reaches v remaining then none else some v

-- fj_merge_has_duplicate_keys: `seen` holds the members so far.
unfoldable pub duplicate_loop : List (Entry Val) → List (Entry Val) → Bool
duplicate_loop seen [] = false
duplicate_loop seen (e ∷ es) = elim (has e.key.bytes seen) [
  | true ↦ true
  | false ↦ duplicate_loop (seen ++ e ∷ []) es
]

unfoldable pub has_duplicate_keys : List (Entry Val) → Bool
has_duplicate_keys es = duplicate_loop [] es

-- fj_merge_member. An index is its members in the order of `members`; `by_key` finds the member
-- of a name, of which there is one.
pub record Slot : Type 0 where
  pub key : Str
  pub value : Val
  pub emitted : Bool

unfoldable pub find_ptr : List Slot → Bytes → Option Slot
find_ptr [] k = none
find_ptr (m ∷ ms) k = elim (bytes_eq m.key.bytes k) [ true ↦ some m | false ↦ find_ptr ms k ]

-- A round of fj_merge_index_init: the member of that name, added where there is none, takes the
-- value.
unfoldable pub index_add : List Slot → Str → Val → List Slot
index_add [] k v = record { key = k; value = v; emitted = false } ∷ []
index_add (m ∷ ms) k v = elim (bytes_eq m.key.bytes k.bytes) [
  | true ↦ record { key = m.key; value = v; emitted = m.emitted } ∷ ms
  | false ↦ m ∷ index_add ms k v
]

unfoldable pub index_loop : List Slot → List (Entry Val) → List Slot
index_loop slots [] = slots
index_loop slots (e ∷ es) = index_loop (index_add slots e.key e.value) es

unfoldable pub merge_index_init : List (Entry Val) → List Slot
merge_index_init es = index_loop [] es

-- `patch_member->emitted = true` for the member of that name, where there is one.
unfoldable pub mark_emitted : Bytes → List Slot → List Slot
mark_emitted k [] = []
mark_emitted k (m ∷ ms) =
    record { key = m.key; value = m.value; emitted = m.emitted || bytes_eq m.key.bytes k }
    ∷ mark_emitted k ms

-- yyjson_mut_obj_add in front of what the later rounds add.
abbrev pub add_member : Str → Option Val → Option (List (Entry Val)) → Option (List (Entry Val))
add_member k (some v) (some out) = some (entry k v ∷ out)
add_member k _ _ = none

abbrev pub removes : Option Val → Bool
removes (some v) = is_null v
removes none = false

-- The value under a name of `orig`, whose patch may be missing.
abbrev pub orig_value : (Option Val → Val → Option Val) → ℕ → Val → Option Val → Option Val
orig_value merge remaining v none = copy_checked (remaining - 1) v
orig_value merge remaining v (some p) = merge (some v) p

-- A round of a loop over `orig`, given what the patch has under the name and what the later
-- rounds add. `merge` is the recursive call one level down.
unfoldable pub orig_round :
    (Option Val → Val → Option Val)
    → ℕ
    → Str
    → Val
    → (patch : Option Val) → Option (List (Entry Val))
    → Option (List (Entry Val))
orig_round merge remaining k v patch rest = elim (removes patch) [
  | true ↦ rest
  | false ↦ add_member k (orig_value merge remaining v patch) rest
]

-- A round of a loop over the patch.
unfoldable pub patch_round :
    (Option Val → Val → Option Val)
    → (skip : Bool) → Str
    → Val
    → Option (List (Entry Val))
    → Option (List (Entry Val))
patch_round merge true k v rest = rest
patch_round merge false k v rest = add_member k (merge none v) rest

-- The loops of fastjson_merge_patch_linear.
unfoldable pub linear_orig :
    (Option Val → Val → Option Val)
    → ℕ
    → (patch orig : List (Entry Val)) → Option (List (Entry Val))
linear_orig merge remaining patch [] = some []
linear_orig merge remaining patch (e ∷ es) =
    orig_round merge remaining e.key e.value (lookup e.key.bytes patch)
      (linear_orig merge remaining patch es)

unfoldable pub linear_patch :
    (Option Val → Val → Option Val) → (orig patch : List (Entry Val)) → Option (List (Entry Val))
linear_patch merge orig [] = some []
linear_patch merge orig (e ∷ es) =
    patch_round merge (is_null e.value || has e.key.bytes orig) e.key e.value
      (linear_patch merge orig es)

abbrev pub slot_value : Option Slot → Option Val
slot_value (some m) = some m.value
slot_value none = none

-- The loops of fastjson_merge_patch_indexed. The first hands its marks to the second.
unfoldable pub indexed_orig :
    (Option Val → Val → Option Val) → ℕ → (patch orig : List Slot) → Option (List (Entry Val))
indexed_orig merge remaining patch [] = some []
indexed_orig merge remaining patch (m ∷ ms) =
    orig_round merge remaining m.key m.value (slot_value (find_ptr patch m.key.bytes))
      (indexed_orig merge remaining (mark_emitted m.key.bytes patch) ms)

-- The patch index after the first loop.
unfoldable pub marked : (patch orig : List Slot) → List Slot
marked patch [] = patch
marked patch (m ∷ ms) = marked (mark_emitted m.key.bytes patch) ms

unfoldable pub indexed_patch :
    (Option Val → Val → Option Val) → List Slot → Option (List (Entry Val))
indexed_patch merge [] = some []
indexed_patch merge (m ∷ ms) =
    patch_round merge (m.emitted || is_null m.value) m.key m.value (indexed_patch merge ms)

-- The builder after both loops; NULL where one of them failed.
abbrev pub builder : (first second : Option (List (Entry Val))) → Option Val
builder (some out) (some more) = some (obj (members_of (out ++ more)))
builder _ _ = none

unfoldable pub merge_patch_indexed :
    (Option Val → Val → Option Val) → ℕ → (orig patch : List (Entry Val)) → Option Val
unfolding orig_round patch_round merge_index_init index_loop index_add indexed_orig find_ptr
    mark_emitted marked indexed_patch
merge_patch_indexed merge remaining orig patch =
    let orig_index = merge_index_init orig in
    let patch_index = merge_index_init patch in
    builder (indexed_orig merge remaining patch_index orig_index)
      (indexed_patch merge (marked patch_index orig_index))

unfoldable pub merge_patch_linear :
    (Option Val → Val → Option Val) → ℕ → (orig patch : List (Entry Val)) → Option Val
unfolding orig_round patch_round has_duplicate_keys duplicate_loop linear_orig linear_patch lookup
    has
merge_patch_linear merge remaining orig patch =
    elim (has_duplicate_keys orig || has_duplicate_keys patch) [
      | true ↦ merge_patch_indexed merge remaining orig patch
      | false ↦ builder (linear_orig merge remaining patch orig) (linear_patch merge orig patch)
    ]

-- The end of fastjson_merge_patch_bounded for an object, given its two tests.
unfoldable pub merge_paths :
    (Option Val → Val → Option Val)
    → ℕ
    → (orig patch : List (Entry Val)) → (at_limit small : Bool) → Option Val
merge_paths merge remaining orig patch true small = none
merge_paths merge remaining orig patch false true = merge_patch_linear merge remaining orig patch
merge_paths merge remaining orig patch false false = merge_patch_indexed merge remaining orig patch

-- fastjson_merge_patch_bounded below its first guard.
abbrev pub merge_values : (Option Val → Val → Option Val) → ℕ → Option Val → Val → Option Val
merge_values merge remaining orig (obj ms) =
    merge_paths merge remaining (orig_entries orig) (entries ms) (leb remaining 1)
      (leb (obj_size ms) 16 && leb (length (orig_entries orig)) 16)
merge_values merge remaining orig patch = copy_checked remaining patch

-- `overflowed` is zend_call_stack_overflowed at the call with so much depth remaining.
unfoldable pub merge_patch_bounded : (ℕ → Bool) → ℕ → Option Val → Val → Option Val
merge_patch_bounded overflowed zero orig patch = none
merge_patch_bounded overflowed (suc r) orig patch = elim (overflowed (suc r)) [
  | true ↦ none
  | false ↦ merge_values (merge_patch_bounded overflowed r) (suc r) orig patch
]

-- ===== src/Splice/SetAt.antt =====
-- The document that a pointer set makes, as a function on documents: the specification of the
-- splice writer of fastjson_pointer_splice.c, which writes that document without making it.
use fastjson.Prelude.{ℕ, zero, suc, Bool, true, false, Option, none, some, List, [], ◌∷◌, Bytes}
use fastjson.Doc.{
  Val, Items, Members, Str, null, bool, num, str, raw, arr, obj, nil, item, end, member, bytes_eq,
}
use fastjson.Pointer.Index.{seg_is_index}

-- A name in a new member.
abbrev pub name : Bytes → Str
name k = record { bytes = k; invalid = false }

-- The new value under the segments that the document does not have.
unfoldable pub wrap : List Bytes → Val → Val
wrap [] new = new
wrap (k ∷ ks) new = obj (member (name k) (wrap ks new) end)

abbrev pub in_member : Str → Val → Option Members → Option Members
in_member key v none = none
in_member key v (some ms) = some (member key v ms)

abbrev pub in_item : Val → Option Items → Option Items
in_item v none = none
in_item v (some xs) = some (item v xs)

abbrev pub member_first : Str → Option Val → Members → Option Members
member_first key none ms = none
member_first key (some v) ms = some (member key v ms)

-- The members where the one named `seg` is replaced by what `edit` makes of it. A name that is not
-- there is added at the end; one that is there twice makes no document.
unfoldable pub has_name : Bytes → Members → Bool
has_name seg end = false
has_name seg (member key v ms) = elim (bytes_eq key.bytes seg) [
  | true ↦ true
  | false ↦ has_name seg ms
]

unfoldable pub set_member :
    (seg : Bytes) → (edit : Val → Option Val) → (fresh : Val) → Members → Option Members
unfolding has_name
set_member seg edit fresh end = some (member (name seg) fresh end)
set_member seg edit fresh (member key v ms) = elim (bytes_eq key.bytes seg) [
  | true ↦ elim (has_name seg ms) [ true ↦ none | false ↦ member_first key (edit v) ms ]
  | false ↦ in_member key v (set_member seg edit fresh ms)
]

-- The elements where the one at an index is replaced.
unfoldable pub set_item : (edit : Val → Option Val) → ℕ → Items → Option Items
set_item edit index nil = none
set_item edit zero (item v xs) = elim (edit v) [ none ↦ none | some v' ↦ some (item v' xs) ]
set_item edit (suc index) (item v xs) = in_item v (set_item edit index xs)

abbrev pub as_obj : Option Members → Option Val
as_obj none = none
as_obj (some ms) = some (obj ms)

abbrev pub as_arr : Option Items → Option Val
as_arr none = none
as_arr (some xs) = some (arr xs)

unfoldable pub set_index : (edit : Val → Option Val) → Option ℕ → Items → Option Val
unfolding set_item
set_index edit none xs = none
set_index edit (some index) xs = as_arr (set_item edit index xs)

-- A value under one segment; `fresh` is a new member's value.
unfoldable pub set_child : ℕ → Bytes → (edit : Val → Option Val) → (fresh : Val) → Val → Option Val
unfolding set_member set_index
set_child size_max seg edit fresh (obj ms) = as_obj (set_member seg edit fresh ms)
set_child size_max seg edit fresh (arr xs) = set_index edit (seg_is_index size_max seg) xs
set_child size_max seg edit fresh null = none
set_child size_max seg edit fresh (bool b) = none
set_child size_max seg edit fresh (num n) = none
set_child size_max seg edit fresh (str t) = none
set_child size_max seg edit fresh (raw t) = none

unfoldable pub set_at : ℕ → List Bytes → Val → Val → Option Val
unfolding set_child
set_at size_max [] new v = some new
set_at size_max (k ∷ ks) new v = set_child size_max k (set_at size_max ks new) (wrap ks new) v

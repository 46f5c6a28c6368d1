-- ===== src/Merge/Patch.antt =====
-- RFC 7396, MergePatch(Target, Patch), over member lists: the specification of the merge of
-- fastjson_decode.c. Where the RFC leaves duplicate names open, each object is canonical first.
pub mod Order
pub mod Rounds
use fastjson.Prelude.{
  Bool, true, false, Option, none, some, List, [], ◌∷◌, ◌++◌, ◌≡◌, refl, sym, ap, ◌∙◌, ◌||◌, ◌&&◌,
  not, Bytes, Bool-cases, inl, inr, arith, append_assoc, append-nil, Option-cases,
}
use fastjson.Doc.{
  Val, Members, Str, obj, end, member, null, bool, num, str, raw, arr, is_null, bytes_eq,
  bytes_eq_sound, bytes_eq_sym,
}
use fastjson.Merge.{Entry, entry, entries, members_of, orig_entries, has, lookup, removes}
use fastjson.Merge.Entries.{canon, map_values, distinct}

-- What a member of a patch does to the target's member: `none` removes it, `some f` gives it the
-- value that `f` makes of the old one.
abbrev pub Edit : Type 0
Edit = Option (Option Val → Val)

unfoldable pub remove : Bytes → List (Entry Val) → List (Entry Val)
remove k [] = []
remove k (e ∷ es) = elim (bytes_eq e.key.bytes k) [ true ↦ remove k es | false ↦ e ∷ remove k es ]

unfoldable pub update : Bytes → (Option Val → Val) → List (Entry Val) → List (Entry Val)
update k f [] = []
update k f (e ∷ es) = elim (bytes_eq e.key.bytes k) [
  | true ↦ entry e.key (f (some e.value)) ∷ update k f es
  | false ↦ e ∷ update k f es
]

-- One round of the RFC's `for each Name/Value pair in Patch`.
unfoldable pub apply_edit : Str → Edit → List (Entry Val) → List (Entry Val)
apply_edit k none es = remove k.bytes es
apply_edit k (some f) es = elim (has k.bytes es) [
  | true ↦ update k.bytes f es
  | false ↦ es ++ entry k (f none) ∷ []
]

unfoldable pub apply : List (Entry Edit) → List (Entry Val) → List (Entry Val)
apply [] es = es
apply (p ∷ ps) es = apply ps (apply_edit p.key p.value es)

-- MergePatch. A patch that is no object is the result; an object edits the target's members.
unfoldable mutual
  pub merge_patch : Val → Option Val → Val
  merge_patch (obj ms) target =
      obj (members_of (apply (canon (edits ms)) (canon (orig_entries target))))
  merge_patch null target = null
  merge_patch (bool b) target = bool b
  merge_patch (num n) target = num n
  merge_patch (str s) target = str s
  merge_patch (raw s) target = raw s
  merge_patch (arr xs) target = arr xs

  pub edits : Members → List (Entry Edit)
  edits end = []
  edits (member k v ms) =
      entry k (elim (is_null v) [ true ↦ none | false ↦ some (merge_patch v) ]) ∷ edits ms

unfoldable pub edit : Val → Edit
edit v = elim (is_null v) [ true ↦ none | false ↦ some (merge_patch v) ]

pub edits_lem : (ms : Members) → edits ms ≡ map_values edit (entries ms)
unfolding edits map_values edit
edits_lem end = refl
edits_lem (member k v ms) = ap (λ xs. entry k (edit v) ∷ xs) (edits_lem ms)

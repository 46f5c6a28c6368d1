-- ===== src/Merge/Patch/Order.antt =====
-- The order of a merged object in fastjson_decode.c: first what is kept of the target, then what
-- the patch adds. It is the order in which RFC 7396's rounds of assignments leave the members.
use fastjson.Prelude.{
  true, false, Option, none, some, List, [], ◌∷◌, ◌≡◌, refl, sym, ap, ◌∙◌, ◌||◌, Bytes, Bool-cases,
  inl, inr, arith,
}
use fastjson.Doc.{Val, is_null, bytes_eq, bytes_eq_sound, bytes_eq_sym}
use fastjson.Merge.{Entry, entry, has, lookup}
use fastjson.Merge.Patch.{remove, update, merge_patch}

-- What a patch member, which may be missing, leaves of a member of the target.
unfoldable pub keep : Option Val → Entry Val → List (Entry Val) → List (Entry Val)
keep none e rest = e ∷ rest
keep (some p) e rest = elim (is_null p) [
  | true ↦ rest
  | false ↦ entry e.key (merge_patch p (some e.value)) ∷ rest
]

unfoldable pub kept : (patch target : List (Entry Val)) → List (Entry Val)
kept patch [] = []
kept patch (e ∷ es) = keep (lookup e.key.bytes patch) e (kept patch es)

unfoldable pub added : (target patch : List (Entry Val)) → List (Entry Val)
added target [] = []
added target (p ∷ ps) = elim (is_null p.value || has p.key.bytes target) [
  | true ↦ added target ps
  | false ↦ entry p.key (merge_patch p.value none) ∷ added target ps
]

pub lookup_hit :
    (k : Bytes) (e : Entry Val) (es : List (Entry Val))
    → bytes_eq e.key.bytes k ≡ true
    → lookup k (e ∷ es) ≡ some e.value
unfolding lookup
lookup_hit k e es h = rw (lookup, h)

pub lookup_miss :
    (k : Bytes) (e : Entry Val) (es : List (Entry Val))
    → bytes_eq e.key.bytes k ≡ false
    → lookup k (e ∷ es) ≡ lookup k es
unfolding lookup
lookup_miss k e es h = rw (lookup, h)

pub lookup-none : (k : Bytes) (es : List (Entry Val)) → has k es ≡ false → lookup k es ≡ none
unfolding lookup has
lookup-none k [] h = refl
lookup-none k (e ∷ es) h = lookup_miss k e es (ground arith) ∙ lookup-none k es (ground arith)

pub remove_hit :
    (k : Bytes) (e : Entry Val) (es : List (Entry Val))
    → bytes_eq e.key.bytes k ≡ true
    → remove k (e ∷ es) ≡ remove k es
unfolding remove
remove_hit k e es h = rw (remove, h)

pub remove_miss :
    (k : Bytes) (e : Entry Val) (es : List (Entry Val))
    → bytes_eq e.key.bytes k ≡ false
    → remove k (e ∷ es) ≡ e ∷ remove k es
unfolding remove
remove_miss k e es h = rw (remove, h)

pub update_hit :
    (k : Bytes) (f : Option Val → Val) (e : Entry Val) (es : List (Entry Val))
    → bytes_eq e.key.bytes k ≡ true
    → update k f (e ∷ es) ≡ entry e.key (f (some e.value)) ∷ update k f es
unfolding update
update_hit k f e es h = rw (update, h)

pub update_miss :
    (k : Bytes) (f : Option Val → Val) (e : Entry Val) (es : List (Entry Val))
    → bytes_eq e.key.bytes k ≡ false
    → update k f (e ∷ es) ≡ e ∷ update k f es
unfolding update
update_miss k f e es h = rw (update, h)

pub keep_null :
    (p : Val) (e : Entry Val) (rest : List (Entry Val))
    → is_null p ≡ true
    → keep (some p) e rest ≡ rest
unfolding keep
keep_null p e rest h = rw (keep, h)

pub keep_merged :
    (p : Val) (e : Entry Val) (rest : List (Entry Val))
    → is_null p ≡ false
    → keep (some p) e rest ≡ entry e.key (merge_patch p (some e.value)) ∷ rest
unfolding keep
keep_merged p e rest h = rw (keep, h)

pub added_skip :
    (target : List (Entry Val)) (p : Entry Val) (ps : List (Entry Val))
    → is_null p.value || has p.key.bytes target ≡ true
    → added target (p ∷ ps) ≡ added target ps
unfolding added
added_skip target p ps h = rw (added, h)

pub added_new :
    (target : List (Entry Val)) (p : Entry Val) (ps : List (Entry Val))
    → is_null p.value || has p.key.bytes target ≡ false
    → added target (p ∷ ps) ≡ entry p.key (merge_patch p.value none) ∷ added target ps
unfolding added
added_new target p ps h = rw (added, h)

-- The name of a patch member and that of a target member, where they agree.
pub key_missing :
    (k j : Bytes) (ps : List (Entry Val))
    → bytes_eq j k ≡ true
    → has k ps ≡ false
    → has j ps ≡ false
key_missing k j ps e h = ap (λ s. has s ps) (bytes_eq_sound j k e) ∙ h

module _ (p : Entry Val) (ps : List (Entry Val)) (fresh : has p.key.bytes ps ≡ false) where
  same_name :
      (e : Entry Val)
      → bytes_eq e.key.bytes p.key.bytes ≡ true
      → lookup e.key.bytes (p ∷ ps) ≡ some p.value
  same_name e h = lookup_hit e.key.bytes p ps (bytes_eq_sym p.key.bytes e.key.bytes ∙ h)

  other_name :
      (e : Entry Val)
      → bytes_eq e.key.bytes p.key.bytes ≡ false
      → lookup e.key.bytes (p ∷ ps) ≡ lookup e.key.bytes ps
  other_name e h = lookup_miss e.key.bytes p ps (bytes_eq_sym p.key.bytes e.key.bytes ∙ h)

  pub kept-remove :
      (es : List (Entry Val))
      → is_null p.value ≡ true
      → kept (p ∷ ps) es ≡ kept ps (remove p.key.bytes es)
  unfolding kept remove
  kept-remove [] n = refl
  kept-remove (e ∷ es) n = elim (Bool-cases (bytes_eq e.key.bytes p.key.bytes)) [
    | inl h ↦
        ap (λ o. keep o e (kept (p ∷ ps) es)) (same_name e h)
        ∙ keep_null p.value e (kept (p ∷ ps) es) n
        ∙ kept-remove es n
        ∙ sym (ap (kept ps) (remove_hit p.key.bytes e es h))
    | inr h ↦
        ap (λ o. keep o e (kept (p ∷ ps) es)) (other_name e h)
        ∙ ap (keep (lookup e.key.bytes ps) e) (kept-remove es n)
        ∙ sym (ap (kept ps) (remove_miss p.key.bytes e es h))
  ]

  pub kept-update :
      (es : List (Entry Val))
      → is_null p.value ≡ false
      → kept (p ∷ ps) es ≡ kept ps (update p.key.bytes (merge_patch p.value) es)
  unfolding kept update keep
  kept-update [] n = refl
  kept-update (e ∷ es) n = elim (Bool-cases (bytes_eq e.key.bytes p.key.bytes)) [
    | inl h ↦
        ap (λ o. keep o e (kept (p ∷ ps) es)) (same_name e h)
        ∙ keep_merged p.value e (kept (p ∷ ps) es) n
        ∙ ap (λ xs. merged e ∷ xs) (kept-update es n)
        ∙ sym (
            ap (λ o. keep o (merged e) (kept ps (updated es)))
              (lookup-none e.key.bytes ps (key_missing p.key.bytes e.key.bytes ps h fresh)))
        ∙ sym (ap (kept ps) (update_hit p.key.bytes (merge_patch p.value) e es h))
    | inr h ↦
        ap (λ o. keep o e (kept (p ∷ ps) es)) (other_name e h)
        ∙ ap (keep (lookup e.key.bytes ps) e) (kept-update es n)
        ∙ sym (ap (kept ps) (update_miss p.key.bytes (merge_patch p.value) e es h))
  ]
    where
      merged : Entry Val → Entry Val
      merged x = entry x.key (merge_patch p.value (some x.value))

      updated : List (Entry Val) → List (Entry Val)
      updated xs = update p.key.bytes (merge_patch p.value) xs

  pub kept_absent :
      (es : List (Entry Val)) → has p.key.bytes es ≡ false → kept (p ∷ ps) es ≡ kept ps es
  unfolding kept has
  kept_absent [] n = refl
  kept_absent (e ∷ es) n =
      ap (λ o. keep o e (kept (p ∷ ps) es)) (other_name e (ground arith))
      ∙ ap (keep (lookup e.key.bytes ps) e) (kept_absent es (ground arith))

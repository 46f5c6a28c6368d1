-- ===== src/Merge/Patch/Rounds.antt =====
-- The rounds of RFC 7396 over distinct names give what is kept of the target and then what the
-- patch adds, the order in which fastjson_decode.c's merge makes the members.
use fastjson.Prelude.{
  true, false, Option, none, some, List, [], ◌∷◌, ◌++◌, ◌≡◌, refl, sym, ap, ◌∙◌, ◌||◌, Bytes,
  Bool-cases, inl, inr, arith, append_assoc, append-nil,
}
use fastjson.Doc.{Val, Str, is_null, bytes_eq, bytes_eq_sound, bytes_eq_sym}
use fastjson.Merge.{Entry, entry, has, lookup}
use fastjson.Merge.Entries.{map_values, distinct}
use fastjson.Merge.Patch.{remove, update, apply_edit, apply, merge_patch, edit}
use fastjson.Merge.Patch.Order.{
  keep, kept, added, keep_null, keep_merged, added_skip, added_new, lookup-none, remove_hit,
  remove_miss, update_hit, update_miss, kept-remove, kept-update, kept_absent,
}

-- Two targets have the same names, `k` aside.
Agree : Bytes → (a b : List (Entry Val)) → Type 0
Agree k a b = (j : Bytes) → bytes_eq k j ≡ false → has j a ≡ has j b

has-remove : (k : Bytes) (es : List (Entry Val)) → Agree k (remove k es) es
unfolding Agree has remove
has-remove k [] j n = refl
has-remove k (e ∷ es) j n = elim (Bool-cases (bytes_eq e.key.bytes k)) [
  | inl h ↦
      let a = ap (λ s. bytes_eq s j) (bytes_eq_sound e.key.bytes k h) in
      let i = has-remove k es j n in ap (has j) (remove_hit k e es h) ∙ ground arith
  | inr h ↦ let i = has-remove k es j n in ap (has j) (remove_miss k e es h) ∙ ground arith
]

has-update :
    (k : Bytes) (f : Option Val → Val) (es : List (Entry Val)) (j : Bytes)
    → has j (update k f es) ≡ has j es
unfolding has update
has-update k f [] j = refl
has-update k f (e ∷ es) j = elim (Bool-cases (bytes_eq e.key.bytes k)) [
  | inl h ↦ let i = has-update k f es j in ap (has j) (update_hit k f e es h) ∙ ground arith
  | inr h ↦ let i = has-update k f es j in ap (has j) (update_miss k f e es h) ∙ ground arith
]

has-append : (es : List (Entry Val)) (k : Str) (v : Val) → Agree k.bytes (es ++ entry k v ∷ []) es
unfolding Agree has
has-append [] k v j n = ground arith
has-append (e ∷ es) k v j n = ap (λ b. bytes_eq e.key.bytes j || b) (has-append es k v j n)

added-Agree :
    (k : Bytes) (a b ps : List (Entry Val))
    → Agree k a b
    → has k ps ≡ false
    → added a ps ≡ added b ps
unfolding Agree has added
added-Agree k a b [] g h = refl
added-Agree k a b (p ∷ ps) g h =
    let s = bytes_eq_sym p.key.bytes k in
    let e = g p.key.bytes (ground arith) in
    elim (Bool-cases (is_null p.value || has p.key.bytes b)) [
      | inl c ↦
          added_skip a p ps (ground arith)
          ∙ added-Agree k a b ps g (ground arith)
          ∙ sym (added_skip b p ps c)
      | inr c ↦
          added_new a p ps (ground arith)
          ∙ ap (λ xs. entry p.key (merge_patch p.value none) ∷ xs)
              (added-Agree k a b ps g (ground arith))
          ∙ sym (added_new b p ps c)
    ]

keep-append :
    (o : Option Val) (e : Entry Val) (rest more : List (Entry Val))
    → keep o e (rest ++ more) ≡ keep o e rest ++ more
unfolding keep
keep-append none e rest more = refl
keep-append (some p) e rest more = elim (Bool-cases (is_null p)) [
  | inl n ↦ keep_null p e (rest ++ more) n ∙ sym (ap (λ xs. xs ++ more) (keep_null p e rest n))
  | inr n ↦ keep_merged p e (rest ++ more) n ∙ sym (ap (λ xs. xs ++ more) (keep_merged p e rest n))
]

kept_append :
    (ps es : List (Entry Val)) (k : Str) (v : Val)
    → has k.bytes ps ≡ false
    → kept ps (es ++ entry k v ∷ []) ≡ kept ps es ++ entry k v ∷ []
unfolding kept keep
kept_append ps [] k v h = ap (λ o. keep o (entry k v) []) (lookup-none k.bytes ps h)
kept_append ps (e ∷ es) k v h =
    ap (keep (lookup e.key.bytes ps) e) (kept_append ps es k v h)
    ∙ keep-append (lookup e.key.bytes ps) e (kept ps es) (entry k v ∷ [])

edit_null : (v : Val) → is_null v ≡ true → edit v ≡ none
unfolding edit
edit_null v h = rw (edit, h)

edit_put : (v : Val) → is_null v ≡ false → edit v ≡ some (merge_patch v)
unfolding edit
edit_put v h = rw (edit, h)

apply_edit_there :
    (k : Str) (f : Option Val → Val) (es : List (Entry Val))
    → has k.bytes es ≡ true
    → apply_edit k (some f) es ≡ update k.bytes f es
unfolding apply_edit
apply_edit_there k f es h = rw (apply_edit, h)

apply_edit_new :
    (k : Str) (f : Option Val → Val) (es : List (Entry Val))
    → has k.bytes es ≡ false
    → apply_edit k (some f) es ≡ es ++ entry k (f none) ∷ []
unfolding apply_edit
apply_edit_new k f es h = rw (apply_edit, h)

-- One round, in the code's order.
round_lem :
    (p : Entry Val) (ps es : List (Entry Val))
    → has p.key.bytes ps ≡ false
    → (kept ps (apply_edit p.key (edit p.value) es)
        ++ added (apply_edit p.key (edit p.value) es) ps)
      ≡ kept (p ∷ ps) es ++ added es (p ∷ ps)
unfolding apply_edit Agree
round_lem p ps es h = elim (Bool-cases (is_null p.value)) [
  | inl n ↦
      ap after (ap (λ d. apply_edit p.key d es) (edit_null p.value n))
      ∙ cong2 (sym (kept-remove p ps h es n)) (
          added-Agree p.key.bytes (remove p.key.bytes es) es ps (has-remove p.key.bytes es) h
          ∙ sym (added_skip es p ps (ground arith)))
  | inr n ↦ elim (Bool-cases (has p.key.bytes es)) [
    | inl c ↦
        ap after (
          ap (λ d. apply_edit p.key d es) (edit_put p.value n)
          ∙ apply_edit_there p.key (merge_patch p.value) es c)
        ∙ cong2 (sym (kept-update p ps h es n)) (
            added-Agree p.key.bytes (update p.key.bytes (merge_patch p.value) es) es ps
              (λ j x. has-update p.key.bytes (merge_patch p.value) es j) h
            ∙ sym (added_skip es p ps (ground arith)))
    | inr c ↦
        ap after (
          ap (λ d. apply_edit p.key d es) (edit_put p.value n)
          ∙ apply_edit_new p.key (merge_patch p.value) es c)
        ∙ cong2
            (kept_append ps es p.key (merge_patch p.value none) h
              ∙ ap (λ xs. xs ++ new ∷ []) (sym (kept_absent p ps h es c)))
            (added-Agree p.key.bytes (es ++ new ∷ []) es ps
              (has-append es p.key (merge_patch p.value none)) h)
        ∙ append_assoc (kept (p ∷ ps) es) (new ∷ []) (added es ps)
        ∙ ap (λ xs. kept (p ∷ ps) es ++ xs) (sym (added_new es p ps (ground arith)))
  ]
]
  where
    new : Entry Val
    new = entry p.key (merge_patch p.value none)

    after : List (Entry Val) → List (Entry Val)
    after xs = kept ps xs ++ added xs ps

    cong2 : {a b c d : List (Entry Val)} → a ≡ b → c ≡ d → a ++ c ≡ b ++ d
    cong2 {b = b} {c = c} e g = ap (λ xs. xs ++ c) e ∙ ap (λ xs. b ++ xs) g

kept-nil : (es : List (Entry Val)) → kept [] es ≡ es
unfolding kept keep lookup
kept-nil [] = refl
kept-nil (e ∷ es) = ap (λ xs. e ∷ xs) (kept-nil es)

-- The rounds of a patch whose names are distinct.
pub apply_lem :
    (ps es : List (Entry Val))
    → distinct ps ≡ true
    → apply (map_values edit ps) es ≡ kept ps es ++ added es ps
unfolding apply map_values distinct added
apply_lem [] es h = sym (append-nil (kept [] es) ∙ kept-nil es)
apply_lem (p ∷ ps) es h =
    apply_lem ps (apply_edit p.key (edit p.value) es) (ground arith)
    ∙ round_lem p ps es (ground arith)

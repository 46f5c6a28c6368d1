-- ===== src/Merge/Entries.antt =====
-- Member lists of fastjson_decode.c's merge: assignment by name, the canonical form that it
-- builds (each name once, at its first place, with its last value), and names that are distinct.
use fastjson.Prelude.{
  Bool, true, false, List, [], ◌∷◌, ◌++◌, ◌≡◌, refl, sym, ap, ◌∙◌, ◌||◌, ◌&&◌, not, Bytes,
  Bool-cases, inl, inr, arith, append_assoc, append-nil,
}
use fastjson.Doc.{Val, Str, bytes_eq, bytes_eq_sound, bytes_eq_sym}
use fastjson.Merge.{Entry, entry, has, duplicate_loop, has_duplicate_keys}

-- `object[k] = v`: in place where the name is there, at the end where it is not.
unfoldable pub assign {ℓ} : {A : Type ℓ} → List (Entry A) → Str → A → List (Entry A)
assign [] k v = entry k v ∷ []
assign (e ∷ es) k v = elim (bytes_eq e.key.bytes k.bytes) [
  | true ↦ entry e.key v ∷ es
  | false ↦ e ∷ assign es k v
]

unfoldable pub canon_loop {ℓ} : {A : Type ℓ} → List (Entry A) → List (Entry A) → List (Entry A)
canon_loop acc [] = acc
canon_loop acc (e ∷ es) = canon_loop (assign acc e.key e.value) es

abbrev pub canon {ℓ} : {A : Type ℓ} → List (Entry A) → List (Entry A)
canon es = canon_loop [] es

unfoldable pub map_values {ℓ ℓ'} :
    {A : Type ℓ} {B : Type ℓ'} → (A → B) → List (Entry A) → List (Entry B)
map_values f [] = []
map_values f (e ∷ es) = entry e.key (f e.value) ∷ map_values f es

unfoldable pub distinct {ℓ} : {A : Type ℓ} → List (Entry A) → Bool
distinct [] = true
distinct (e ∷ es) = not (has e.key.bytes es) && distinct es

pub assign_hit {ℓ} :
    {A : Type ℓ} (e : Entry A) (es : List (Entry A)) (k : Str) (v : A)
    → bytes_eq e.key.bytes k.bytes ≡ true
    → assign (e ∷ es) k v ≡ entry e.key v ∷ es
unfolding assign
assign_hit e es k v h = rw (assign, h)

pub assign_miss {ℓ} :
    {A : Type ℓ} (e : Entry A) (es : List (Entry A)) (k : Str) (v : A)
    → bytes_eq e.key.bytes k.bytes ≡ false
    → assign (e ∷ es) k v ≡ e ∷ assign es k v
unfolding assign
assign_miss e es k v h = rw (assign, h)

assign-map_values {ℓ ℓ'} :
    {A : Type ℓ} {B : Type ℓ'} (f : A → B) (es : List (Entry A)) (k : Str) (v : A)
    → assign (map_values f es) k (f v) ≡ map_values f (assign es k v)
unfolding assign map_values
assign-map_values f [] k v = refl
assign-map_values f (e ∷ es) k v = elim (Bool-cases (bytes_eq e.key.bytes k.bytes)) [
  | inl h ↦
      assign_hit (entry e.key (f e.value)) (map_values f es) k (f v) h
      ∙ ap (map_values f) (sym (assign_hit e es k v h))
  | inr h ↦
      assign_miss (entry e.key (f e.value)) (map_values f es) k (f v) h
      ∙ ap (λ xs. entry e.key (f e.value) ∷ xs) (assign-map_values f es k v)
      ∙ ap (map_values f) (sym (assign_miss e es k v h))
]

canon_loop-map_values {ℓ ℓ'} :
    {A : Type ℓ} {B : Type ℓ'} (f : A → B) (acc es : List (Entry A))
    → canon_loop (map_values f acc) (map_values f es) ≡ map_values f (canon_loop acc es)
unfolding canon_loop map_values
canon_loop-map_values f acc [] = refl
canon_loop-map_values f acc (e ∷ es) =
    ap (λ xs. canon_loop xs (map_values f es)) (assign-map_values f acc e.key e.value)
    ∙ canon_loop-map_values f (assign acc e.key e.value) es

pub canon-map_values {ℓ ℓ'} :
    {A : Type ℓ} {B : Type ℓ'} (f : A → B) (es : List (Entry A))
    → canon (map_values f es) ≡ map_values f (canon es)
unfolding map_values
canon-map_values f es = canon_loop-map_values f [] es

has-map_values {ℓ ℓ'} :
    {A : Type ℓ} {B : Type ℓ'} (f : A → B) (k : Bytes) (es : List (Entry A))
    → has k (map_values f es) ≡ has k es
unfolding has map_values
has-map_values f k [] = refl
has-map_values f k (e ∷ es) = ap (λ b. bytes_eq e.key.bytes k || b) (has-map_values f k es)

-- A name that is there keeps the names as they are, a new one comes last.
assign_new {ℓ} :
    {A : Type ℓ} (es : List (Entry A)) (k : Str) (v : A)
    → has k.bytes es ≡ false
    → assign es k v ≡ es ++ entry k v ∷ []
unfolding assign has
assign_new [] k v h = refl
assign_new (e ∷ es) k v h = elim (Bool-cases (bytes_eq e.key.bytes k.bytes)) [
  | inl a ↦ absurd (ground arith)
  | inr a ↦ assign_miss e es k v a ∙ ap (λ xs. e ∷ xs) (assign_new es k v (ground arith))
]

has-assign {ℓ} :
    {A : Type ℓ} (es : List (Entry A)) (k : Str) (v : A) (j : Bytes)
    → has j (assign es k v) ≡ has j es || bytes_eq k.bytes j
unfolding assign has
has-assign [] k v j = ground arith
has-assign (e ∷ es) k v j = elim (Bool-cases (bytes_eq e.key.bytes k.bytes)) [
  | inl a ↦
      let p = ap (λ s. bytes_eq s j) (bytes_eq_sound e.key.bytes k.bytes a) in
      ap (has j) (assign_hit e es k v a) ∙ ground arith
  | inr a ↦ let i = has-assign es k v j in ap (has j) (assign_miss e es k v a) ∙ ground arith
]

distinct-assign {ℓ} :
    {A : Type ℓ} (es : List (Entry A)) (k : Str) (v : A)
    → distinct es ≡ true
    → distinct (assign es k v) ≡ true
unfolding assign distinct has
distinct-assign [] k v h = refl
distinct-assign (e ∷ es) k v h = elim (Bool-cases (bytes_eq e.key.bytes k.bytes)) [
  | inl a ↦ ap distinct (assign_hit e es k v a) ∙ h
  | inr a ↦
      let i = distinct-assign es k v (ground arith) in
      let j = has-assign es k v e.key.bytes in
      let s = bytes_eq_sym e.key.bytes k.bytes in
      ap distinct (assign_miss e es k v a) ∙ ground arith
]

canon_loop-distinct {ℓ} :
    {A : Type ℓ} (acc es : List (Entry A))
    → distinct acc ≡ true
    → distinct (canon_loop acc es) ≡ true
unfolding canon_loop
canon_loop-distinct acc [] h = h
canon_loop-distinct acc (e ∷ es) h =
    canon_loop-distinct (assign acc e.key e.value) es (distinct-assign acc e.key e.value h)

pub canon-distinct {ℓ} : {A : Type ℓ} (es : List (Entry A)) → distinct (canon es) ≡ true
unfolding distinct
canon-distinct es = canon_loop-distinct [] es refl

-- A run of fj_merge_has_duplicate_keys that finds none leaves nothing to canonicalise.
duplicate_loop_canon :
    (acc es : List (Entry Val)) → duplicate_loop acc es ≡ false → canon_loop acc es ≡ acc ++ es
unfolding duplicate_loop canon_loop
duplicate_loop_canon acc [] h = sym (append-nil acc)
duplicate_loop_canon acc (e ∷ es) h = elim (Bool-cases (has e.key.bytes acc)) [
  | inl a ↦ absurd (ground arith)
  | inr a ↦
      ap (λ xs. canon_loop xs es) (assign_new acc e.key e.value a)
      ∙ duplicate_loop_canon (acc ++ e ∷ []) es (ground arith)
      ∙ append_assoc acc (e ∷ []) es
]

pub canon_id : (es : List (Entry Val)) → has_duplicate_keys es ≡ false → canon es ≡ es
unfolding has_duplicate_keys
canon_id es h = duplicate_loop_canon [] es h

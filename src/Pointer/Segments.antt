-- ===== src/Pointer/Segments.antt =====
-- fj_pointer_fill_segments adds the unescaped parts of the pointer in order.
use mathlib.Core.Option
use fastjson.Prelude.{
  ℕ, ◌+◌, ◌≤◌, true, false, Option, none, some, List, [], ◌∷◌, ◌++◌, ◌≡◌, refl, ap, ◌∙◌, map, arith,
  append_assoc, append-nil, Bytes, length, length-append, take-append, drop-append, Bool-cases,
  Option-cases, inl, inr, ◌==◌,
}
use fastjson.Pointer.{
  Seg, seg_bytes, slash, tilde, unescaped, decode_raw, Fill, end_segment, fill_loop,
}
use fastjson.Pointer.Cut.{push_head, cut, unescape, unescape_all}

unescape-length : (raw u : Bytes) → unescape raw ≡ some u → length u ≤ length raw
unfolding unescape
unescape-length [] u h = ground arith
unescape-length (c ∷ []) u h = ground arith
unescape-length (c ∷ next ∷ t) u h = elim (Option-cases (unescape t)) [
  | inl e ↦ elim (Option-cases (unescape (next ∷ t))) [
    | inl e' ↦ ground arith
    | inr (u', e') ↦ ground (arith, unescape-length (next ∷ t) u' e')
  ]
  | inr (v, e) ↦ elim (Option-cases (unescape (next ∷ t))) [
    | inl e' ↦ ground (arith, unescape-length t v e)
    | inr (u', e') ↦ ground (arith, unescape-length t v e, unescape-length (next ∷ t) u' e')
  ]
]

-- The inner loop writes the unescaped segment behind what the storage holds.
decode_raw_lem :
    (limit : ℕ) (raw storage : Bytes) (out_len : ℕ)
    → length storage + length raw ≤ limit
    → decode_raw limit raw storage out_len
      ≡ Option.map (λ u. (storage ++ u, out_len + length u)) (unescape raw)
unfolding decode_raw unescape
decode_raw_lem limit [] storage out_len h = ground (arith, append-nil storage)
decode_raw_lem limit (c ∷ []) storage out_len h = ground arith
decode_raw_lem limit (c ∷ next ∷ t) storage out_len h =
    let escape = decode_raw_lem limit t (storage ++ unescaped next ∷ []) (out_len + 1) in
    let plain = decode_raw_lem limit (next ∷ t) (storage ++ c ∷ []) (out_len + 1) in
    let grown = length-append storage (unescaped next ∷ []) in
    let grown' = length-append storage (c ∷ []) in
    elim (Bool-cases (c == tilde)) [
      | inl is_tilde ↦ elim (Option-cases (unescape t)) [
        | inl e ↦ ground (arith, escape, grown)
        | inr (u, e) ↦ ground (arith, escape, grown, append_assoc storage (unescaped next ∷ []) u)
      ]
      | inr not_tilde ↦ elim (Option-cases (unescape (next ∷ t))) [
        | inl e ↦ ground (arith, plain, grown')
        | inr (u, e) ↦ ground (arith, plain, grown', append_assoc storage (c ∷ []) u)
      ]
    ]

-- What a segment adds to the plan.
abbrev pub add_key : Fill → Bytes → Fill
add_key fill key = record {
  segs = fill.segs ++ record { str = length fill.storage; len = length key } ∷ [];
  storage = fill.storage ++ key;
}

abbrev pub add_keys : Fill → List Bytes → Fill
add_keys fill [] = fill
add_keys fill (key ∷ keys) = add_keys (add_key fill key) keys

end_segment_lem :
    (limit : ℕ) (raw : Bytes) (fill : Fill)
    → length fill.storage + length raw ≤ limit
    → end_segment limit raw fill ≡ Option.map (add_key fill) (unescape raw)
unfolding end_segment
end_segment_lem limit raw fill h =
    let decoded = decode_raw_lem limit raw fill.storage 0 h in
    elim (Option-cases (unescape raw)) [
      | inl e ↦ ground (arith, decoded)
      | inr (u, e) ↦ ground (arith, decoded, length-append fill.storage u)
    ]

-- The current raw segment goes in front of the first part.
abbrev pub behind : Bytes → List Bytes → List Bytes
behind raw [] = raw ∷ []
behind raw (p ∷ ps) = (raw ++ p) ∷ ps

pub behind-cut : (t : Bytes) → behind [] (cut t) ≡ cut t
unfolding cut
behind-cut [] = refl
behind-cut (c ∷ t) = elim (Bool-cases (c == slash)) [
  | inl e ↦ rw e
  | inr e ↦ rw e (of_push (cut t))
]
  where
    of_push : (ps : List Bytes) → behind [] (push_head c ps) ≡ push_head c ps
    of_push [] = refl
    of_push (p ∷ ps) = refl

behind-push_head :
    (raw : Bytes) (c : ℕ) (ps : List Bytes)
    → behind (raw ++ c ∷ []) ps ≡ behind raw (push_head c ps)
behind-push_head raw c [] = refl
behind-push_head raw c (p ∷ ps) = ap (λ q. q ∷ ps) (append_assoc raw (c ∷ []) p)

pub cut-slash : (c : ℕ) (t : Bytes) → (c == slash) ≡ true → cut (c ∷ t) ≡ [] ∷ cut t
unfolding cut
cut-slash c t e = rw e

pub cut_plain : (c : ℕ) (t : Bytes) → (c == slash) ≡ false → cut (c ∷ t) ≡ push_head c (cut t)
unfolding cut
cut_plain c t e = rw e

pub unescape_all-none :
    (p : Bytes) (ps : List Bytes) → unescape p ≡ none → unescape_all (p ∷ ps) ≡ none
unfolding unescape_all
unescape_all-none p ps e = ground arith

pub unescape_all-some :
    (p : Bytes) (ps : List Bytes) {u : Bytes}
    → unescape p ≡ some u
    → unescape_all (p ∷ ps) ≡ Option.map (λ keys. u ∷ keys) (unescape_all ps)
unfolding unescape_all
unescape_all-some p ps e = ground arith

-- One part, and the keys behind it.
add_keys-cons :
    (fill : Fill) (u : Bytes) (rest : Option (List Bytes))
    → Option.map (add_keys fill) (Option.map (λ keys. u ∷ keys) rest)
      ≡ Option.map (add_keys (add_key fill u)) rest
add_keys-cons fill u none = refl
add_keys-cons fill u (some keys) = refl

fill_plain :
    (limit c : ℕ) (t raw : Bytes) (fill : Fill)
    → (c == slash) ≡ false
    → fill_loop limit (c ∷ t) raw fill ≡ fill_loop limit t (raw ++ c ∷ []) fill
unfolding fill_loop
fill_plain limit c t raw fill e = ground arith

fill_bad :
    (limit c : ℕ) (t raw : Bytes) (fill : Fill)
    → (c == slash) ≡ true
    → end_segment limit raw fill ≡ none
    → fill_loop limit (c ∷ t) raw fill ≡ none
unfolding fill_loop
fill_bad limit c t raw fill e h = ground arith

fill_good :
    (limit c : ℕ) (t raw : Bytes) (fill fill' : Fill)
    → (c == slash) ≡ true
    → end_segment limit raw fill ≡ some fill'
    → fill_loop limit (c ∷ t) raw fill ≡ fill_loop limit t [] fill'
unfolding fill_loop
fill_good limit c t raw fill fill' e h = ground arith

-- The outer loop adds the unescaped parts in order.
pub fill_loop_lem :
    (limit : ℕ) (t raw : Bytes) (fill : Fill)
    → length fill.storage + length raw + length t ≤ limit
    → fill_loop limit t raw fill ≡ Option.map (add_keys fill) (unescape_all (behind raw (cut t)))
unfolding fill_loop
fill_loop_lem limit [] raw fill h =
    let ended = end_segment_lem limit raw fill (omega arith) in
    let last : behind raw (cut []) ≡ raw ∷ [] = unfold cut in rw append-nil in
    elim (Option-cases (unescape raw)) [
      | inl e ↦ ended ∙ rw (e, last, unescape_all-none raw [] e)
      | inr (u, e) ↦ ended ∙ rw (e, last, unescape_all-some raw [] e) (unfold unescape_all in refl)
    ]
fill_loop_lem limit (c ∷ t) raw fill h = elim (Bool-cases (c == slash)) [
  | inl e ↦
      let ended = end_segment_lem limit raw fill (omega arith) in
      elim (Option-cases (unescape raw)) [
        | inl bad ↦
            fill_bad limit c t raw fill e (ended ∙ rw bad)
            ∙ rw (cut-slash c t e, append-nil, unescape_all-none raw (cut t) bad)
        | inr (u, good) ↦
            fill_good limit c t raw fill (add_key fill u) e (ended ∙ rw good)
            ∙ rw
                (
                  cut-slash c t e,
                  append-nil raw,
                  unescape_all-some raw (cut t) good,
                  add_keys-cons fill u,
                )
                (fill_loop_lem limit t [] (add_key fill u)
                    (omega (arith, length-append fill.storage u, unescape-length raw u good))
                  ∙ rw (behind-cut t))
      ]
  | inr e ↦
      fill_plain limit c t raw fill e
      ∙ rw (cut_plain c t e, ← behind-push_head raw c (cut t))
          (fill_loop_lem limit t (raw ++ c ∷ []) fill (omega (arith, length-append raw (c ∷ []))))
]

-- Every key is read back from the storage, also after more has been written to it.
abbrev pub Holds : Fill → List Bytes → Type 0
Holds fill keys = (more : Bytes) → map (seg_bytes (fill.storage ++ more)) fill.segs ≡ keys

map_snoc :
    (f : Seg → Bytes) (segs : List Seg) (seg : Seg)
    → map f (segs ++ seg ∷ []) ≡ map f segs ++ f seg ∷ []
map_snoc f [] seg = refl
map_snoc f (s ∷ segs) seg = ap (λ r. f s ∷ r) (map_snoc f segs seg)

add_key-Holds :
    (fill : Fill) (keys : List Bytes) (key : Bytes)
    → Holds fill keys
    → Holds (add_key fill key) (keys ++ key ∷ [])
add_key-Holds fill keys key h more =
    rw (map_snoc, append_assoc, h (key ++ more), drop-append, take-append)

pub add_keys-Holds :
    (fill : Fill) (done keys : List Bytes)
    → Holds fill done
    → Holds (add_keys fill keys) (done ++ keys)
add_keys-Holds fill done [] h = rw append-nil h
add_keys-Holds fill done (key ∷ keys) h =
    rw (← append_assoc done (key ∷ []) keys)
      (add_keys-Holds (add_key fill key) (done ++ key ∷ []) keys (add_key-Holds fill done key h))

pub length-add_keys :
    (fill : Fill) (keys : List Bytes)
    → length (add_keys fill keys).segs ≡ length fill.segs + length keys
length-add_keys fill [] = omega arith
length-add_keys fill (key ∷ keys) = omega (
  arith,
  length-add_keys (add_key fill key) keys,
  length-append fill.segs (record { str = length fill.storage; len = length key } ∷ []),
)

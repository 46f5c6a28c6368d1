-- ===== src/Pointer/Escapes.antt =====
-- Counting the segments, and the scan for a bad escape, against the grammar of Pointer/Cut.
use mathlib.Core.Option
use fastjson.Prelude.{
  ℕ, ◌+◌, ◌<◌, Bool, true, false, ◌||◌, Option, none, some, List, [], ◌∷◌, ◌≡◌, refl, ◌∙◌, arith,
  Bytes, length, Bool-cases, Option-cases, inl, inr, ◌==◌,
}
use fastjson.Pointer.{slash, tilde, count_loop, is_escape, bad_escape}
use fastjson.Pointer.Cut.{push_head, cut, unescape, unescape_all}
use fastjson.Pointer.Segments.{cut-slash, cut_plain, unescape_all-none, unescape_all-some}

cut-push_head : (c : ℕ) (t : Bytes) → length (push_head c (cut t)) ≡ length (cut t)
unfolding cut
cut-push_head c [] = refl
cut-push_head c (d ∷ t) = elim (Bool-cases (d == slash)) [
  | inl e ↦ rw e
  | inr e ↦ rw e (of_push (cut t))
]
  where
    of_push : (ps : List Bytes) → length (push_head c (push_head d ps)) ≡ length (push_head d ps)
    of_push [] = refl
    of_push (p ∷ ps) = refl

-- fastjson_pointer_count_segments counts the parts.
pub count_loop_lem : (t : Bytes) (n : ℕ) → count_loop t n ≡ n + length (cut t)
unfolding count_loop
count_loop_lem [] n = unfold cut in omega arith
count_loop_lem (c ∷ t) n = elim (Bool-cases (c == slash)) [
  | inl e ↦ rw (e, cut-slash c t e) (omega (arith, count_loop_lem t (n + 1)))
  | inr e ↦ rw (e, cut_plain c t e, cut-push_head) (count_loop_lem t n)
]

pub length-unescape_all :
    (ps : List Bytes) {keys : List Bytes} → unescape_all ps ≡ some keys → length keys ≡ length ps
length-unescape_all [] h = unfold unescape_all in ground arith
length-unescape_all (p ∷ ps) {keys} h = elim (Option-cases (unescape p)) [
  | inl e ↦ absurd (ground (arith, unescape_all-none p ps e))
  | inr (u, e) ↦ elim (Option-cases (unescape_all ps)) [
    | inl e' ↦ absurd (ground (arith, unescape_all-some p ps e))
    | inr (us, e') ↦ ground (arith, unescape_all-some p ps e, length-unescape_all ps e')
  ]
]

pub cut_pos : (t : Bytes) → 0 < length (cut t)
unfolding cut
cut_pos [] = omega arith
cut_pos (c ∷ t) = ground (arith, cut_pos t, cut-push_head c t)

abbrev pub is_none {ℓ} : {A : Type ℓ} → Option A → Bool
is_none none = true
is_none (some a) = false

unescape_plain :
    (c : ℕ) (p : Bytes) → (c == tilde) ≡ false → is_none (unescape (c ∷ p)) ≡ is_none (unescape p)
unfolding unescape
unescape_plain c [] e = ground arith
unescape_plain c (d ∷ p) e = elim (Option-cases (unescape (d ∷ p))) [
  | inl e' ↦ ground arith
  | inr (u, e') ↦ ground arith
]

unescape_pair :
    (c next : ℕ) (p : Bytes)
    → (c == tilde) ≡ true
    → is_escape next ≡ true
    → is_none (unescape (c ∷ next ∷ p)) ≡ is_none (unescape p)
unfolding unescape
unescape_pair c next p e e' = elim (Option-cases (unescape p)) [
  | inl h ↦ ground arith
  | inr (u, h) ↦ ground arith
]

unescape_bad :
    (c next : ℕ) (p : Bytes)
    → (c == tilde) ≡ true
    → is_escape next ≡ false
    → unescape (c ∷ next ∷ p) ≡ none
unfolding unescape
unescape_bad c next p e e' = ground arith

-- Whether there is a bad part depends on each part's own verdict.
bad_parts :
    (p : Bytes) (ps : List Bytes)
    → is_none (unescape_all (p ∷ ps)) ≡ (is_none (unescape p) || is_none (unescape_all ps))
bad_parts p ps = elim (Option-cases (unescape p)) [
  | inl e ↦ rw (unescape_all-none p ps e, e)
  | inr (u, e) ↦ rw (unescape_all-some p ps e, e) (of_map u (unescape_all ps))
]
  where
    of_map :
        (u : Bytes) (o : Option (List Bytes))
        → is_none (Option.map (λ keys. u ∷ keys) o) ≡ is_none o
    of_map u none = refl
    of_map u (some keys) = refl

bad_push_plain :
    (c : ℕ) (ps : List Bytes)
    → (c == tilde) ≡ false
    → is_none (unescape_all (push_head c ps)) ≡ is_none (unescape_all ps)
bad_push_plain c [] e = rw (bad_parts, unescape_plain c [] e) (unfold unescape in refl)
bad_push_plain c (p ∷ ps) e = rw (bad_parts (c ∷ p) ps, bad_parts p ps, unescape_plain c p e)

bad_push_pair :
    (c next : ℕ) (ps : List Bytes)
    → (c == tilde) ≡ true
    → is_escape next ≡ true
    → is_none (unescape_all (push_head c (push_head next ps))) ≡ is_none (unescape_all ps)
bad_push_pair c next [] e e' =
    rw (bad_parts, unescape_pair c next [] e e') (unfold unescape in refl)
bad_push_pair c next (p ∷ ps) e e' =
    rw (bad_parts (c ∷ next ∷ p) ps, bad_parts p ps, unescape_pair c next p e e')

bad_push_bad :
    (c next : ℕ) (ps : List Bytes)
    → (c == tilde) ≡ true
    → is_escape next ≡ false
    → is_none (unescape_all (push_head c (push_head next ps))) ≡ true
bad_push_bad c next [] e e' = rw (bad_parts, unescape_bad c next [] e e')
bad_push_bad c next (p ∷ ps) e e' = rw (bad_parts, unescape_bad c next p e e')

bad_single :
    (c : ℕ) (ps : List Bytes) → (c == tilde) ≡ true → is_none (unescape_all ((c ∷ []) ∷ ps)) ≡ true
bad_single c ps e = rw bad_parts (unfold unescape in rw e)

scan_pair :
    (c next : ℕ) (t : Bytes)
    → (c == tilde) ≡ true
    → is_escape next ≡ true
    → bad_escape (c ∷ next ∷ t) ≡ bad_escape t
unfolding bad_escape
scan_pair c next t e e' = ground arith

scan_bad :
    (c next : ℕ) (t : Bytes)
    → (c == tilde) ≡ true
    → is_escape next ≡ false
    → bad_escape (c ∷ next ∷ t) ≡ true
unfolding bad_escape
scan_bad c next t e e' = ground arith

scan_plain :
    (c next : ℕ) (t : Bytes)
    → (c == tilde) ≡ false
    → bad_escape (c ∷ next ∷ t) ≡ bad_escape (next ∷ t)
unfolding bad_escape
scan_plain c next t e = ground arith

-- The scan for a bad escape finds one exactly where a part cannot be unescaped.
pub bad_escape_lem : (t : Bytes) → bad_escape t ≡ is_none (unescape_all (cut t))
bad_escape_lem [] = unfold bad_escape cut unescape_all unescape in refl
bad_escape_lem (c ∷ []) = unfold bad_escape cut unescape_all unescape in ground arith
bad_escape_lem (c ∷ next ∷ t) = elim (Bool-cases (c == tilde)) [
  | inl is_tilde ↦
      let plain : (c == slash) ≡ false = ground arith in
      elim (Bool-cases (is_escape next)) [
        | inl good ↦
            let plain' : (next == slash) ≡ false = ground arith in
            rw
              (
                cut_plain c (next ∷ t) plain,
                cut_plain next t plain',
                bad_push_pair c next (cut t) is_tilde good,
              )
              (scan_pair c next t is_tilde good ∙ bad_escape_lem t)
        | inr bad ↦ elim (Bool-cases (next == slash)) [
          | inl e ↦
              rw (cut_plain c (next ∷ t) plain, cut-slash next t e, bad_single c (cut t) is_tilde)
                (scan_bad c next t is_tilde bad)
          | inr e ↦
              rw
                (
                  cut_plain c (next ∷ t) plain,
                  cut_plain next t e,
                  bad_push_bad c next (cut t) is_tilde bad,
                )
                (scan_bad c next t is_tilde bad)
        ]
      ]
  | inr not_tilde ↦ elim (Bool-cases (c == slash)) [
    | inl e ↦
        rw (cut-slash c (next ∷ t) e, bad_parts [] (cut (next ∷ t)))
          (scan_plain c next t not_tilde ∙ bad_escape_lem (next ∷ t) ∙ unfold unescape in refl)
    | inr e ↦
        rw (cut_plain c (next ∷ t) e, bad_push_plain c (cut (next ∷ t)) not_tilde)
          (scan_plain c next t not_tilde ∙ bad_escape_lem (next ∷ t))
  ]
]

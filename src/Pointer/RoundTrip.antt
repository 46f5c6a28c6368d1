-- ===== src/Pointer/RoundTrip.antt =====
-- Writing a pointer from keys and parsing it.
use fastjson.Prelude.{
  ℕ, true, false, some, List, [], ◌∷◌, ◌++◌, ◌≡◌, refl, sym, ◌∙◌, arith, append-nil, Bytes, length,
  Bool-cases, inl, inr, ◌==◌,
}
use fastjson.Pointer.{settable_fail, slash, tilde, is_escape, unescaped, pointer_parse}
use fastjson.Pointer.Cut.{push_head, cut, unescape, unescape_all, escape, pointer_of}
use fastjson.Pointer.Segments.{behind, behind-cut, cut-slash, cut_plain, unescape_all-some}
use fastjson.Pointer.Parse.{keys, view, within_limits, parse_spec, pointer_parse_lem}

behind-cons : (c : ℕ) (p : Bytes) (ps : List Bytes) → push_head c (behind p ps) ≡ behind (c ∷ p) ps
behind-cons c p [] = refl
behind-cons c p (q ∷ qs) = refl

-- An escaped key holds no slash, so it stays in one part.
cut-escape : (key r : Bytes) → cut (escape key ++ r) ≡ behind (escape key) (cut r)
unfolding escape
cut-escape [] r = sym (behind-cut r)
cut-escape (c ∷ t) r = elim (Bool-cases (c == tilde)) [
  | inl e ↦
      rw
        (e, cut_plain tilde _ refl, cut_plain b'0' _ refl, cut-escape t r, behind-cons, behind-cons)
  | inr e ↦ elim (Bool-cases (c == slash)) [
    | inl e' ↦ rw (
      e,
      e',
      cut_plain tilde _ refl,
      cut_plain b'1' _ refl,
      cut-escape t r,
      behind-cons,
      behind-cons,
    )
    | inr e' ↦ rw (e, e', cut_plain c _ e', cut-escape t r, behind-cons)
  ]
]

unescape_plain_lem :
    (c : ℕ) (p u : Bytes)
    → (c == tilde) ≡ false
    → unescape p ≡ some u
    → unescape (c ∷ p) ≡ some (c ∷ u)
unfolding unescape
unescape_plain_lem c [] u e h = ground arith
unescape_plain_lem c (d ∷ p) u e h = ground arith

unescape_pair_lem :
    (next : ℕ) (p u : Bytes)
    → is_escape next ≡ true
    → unescape p ≡ some u
    → unescape (tilde ∷ next ∷ p) ≡ some (unescaped next ∷ u)
unfolding unescape
unescape_pair_lem next p u e h = ground arith

unescape-escape : (key : Bytes) → unescape (escape key) ≡ some key
unfolding escape
unescape-escape [] = unfold unescape in refl
unescape-escape (c ∷ t) = elim (Bool-cases (c == tilde)) [
  | inl e ↦ rw (e, unescape_pair_lem b'0' _ t refl (unescape-escape t)) (ground arith)
  | inr e ↦ elim (Bool-cases (c == slash)) [
    | inl e' ↦ rw (e, e', unescape_pair_lem b'1' _ t refl (unescape-escape t)) (ground arith)
    | inr e' ↦ rw (e, e') (unescape_plain_lem c _ t e (unescape-escape t))
  ]
]

unescape_all-cut :
    (key : Bytes) (more : List Bytes)
    → unescape_all (cut (escape key ++ pointer_of more)) ≡ some (key ∷ more)
unfolding pointer_of
unescape_all-cut key [] =
    let last : cut [] ≡ [] ∷ [] = unfold cut in refl in
    rw (cut-escape, last, append-nil)
      (unescape_all-some (escape key) [] (unescape-escape key) ∙ unfold unescape_all in refl)
unescape_all-cut key (next ∷ more) =
    rw (cut-escape, cut-slash slash _ refl, append-nil)
      (rw (unescape_all-some (escape key) _ (unescape-escape key), unescape_all-cut next more))

-- A pointer that is written from keys, with `~` and `/` escaped, parses back to those keys, as
-- long as their number respects the limits.
pub pointer_parse-pointer_of :
    (found : List Bytes) (depth_limit : ℕ)
    → within_limits (length found) depth_limit ≡ true
    → view (pointer_parse (pointer_of found) depth_limit settable_fail) ≡ keys (length found) found
pointer_parse-pointer_of [] depth_limit h = unfold pointer_parse pointer_of in refl
pointer_parse-pointer_of (key ∷ more) depth_limit h =
    pointer_parse_lem (pointer_of (key ∷ more)) depth_limit
    ∙ (unfold pointer_of parse_spec in rw (unescape_all-cut key more, h))

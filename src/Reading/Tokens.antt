-- ===== src/Reading/Tokens.antt =====
-- The strings of a JSON text and a literal Inf or NaN outside of them, for the scan of fastjson.c's
-- fastjson_input_has_inf_nan_literal, and its test for the three letters.
use fastjson.Prelude.{
  ℕ, Bool, true, false, ◌||◌, [], ◌∷◌, Bytes, ◌==◌, ◌≡◌, refl, sym, ap, ◌∙◌, arith, ◌⊎◌, inl, inr,
  ◌+◌, ◌/◌, ◌%◌, Bool-cases,
}
use fastjson.Reading.{lower, is_word}

abbrev pub quote : ℕ
quote = b'"'

abbrev pub backslash : ℕ
backslash = b'\\'

-- Where a position of the text stands.
pub data Mode : Type 0 where
  outside in_string after_backslash : Mode

-- From a position of the text to a later one that is outside its strings.
pub data Reach : Mode → Bytes → Bytes → Type 0 where
  here : (s : Bytes) → Reach outside s s
  other : (c : ℕ) (s u : Bytes) → (c == quote) ≡ false → Reach outside s u → Reach outside (c ∷ s) u
  opens :
      (c : ℕ) (s u : Bytes) → (c == quote) ≡ true → Reach in_string s u → Reach outside (c ∷ s) u
  char :
      (c : ℕ) (s u : Bytes)
      → (c == quote) ≡ false
      → (c == backslash) ≡ false
      → Reach in_string s u
      → Reach in_string (c ∷ s) u
  escape :
      (c : ℕ) (s u : Bytes)
      → (c == backslash) ≡ true
      → Reach after_backslash s u
      → Reach in_string (c ∷ s) u
  escaped : (c : ℕ) (s u : Bytes) → Reach in_string s u → Reach after_backslash (c ∷ s) u
  closes :
      (c : ℕ) (s u : Bytes) → (c == quote) ≡ true → Reach outside s u → Reach in_string (c ∷ s) u

-- A letter in either case.
abbrev pub Letter : (upper lower c : ℕ) → Type 0
Letter upper lower c = (c ≡ upper) ⊎ (c ≡ lower)

-- The text starts with Inf or NaN, in any case of the letters.
pub data Literal : Bytes → Type 0 where
  inf :
      (a b c : ℕ) (t : Bytes)
      → Letter b'I' b'i' a
      → Letter b'N' b'n' b
      → Letter b'F' b'f' c
      → Literal (a ∷ b ∷ c ∷ t)
  nan :
      (a b c : ℕ) (t : Bytes)
      → Letter b'N' b'n' a
      → Letter b'A' b'a' b
      → Letter b'N' b'n' c
      → Literal (a ∷ b ∷ c ∷ t)

-- The test of a round.
abbrev pub is_literal : Bytes → Bool
is_literal s = is_word b'i' b'n' b'f' s || is_word b'n' b'a' b'n' s

Letter-sound :
    (upper lowercase c : ℕ)
    → upper + 0x20 ≡ lowercase
    → lowercase / 0x20 % 2 ≡ 1
    → (lower c == lowercase) ≡ true
    → Letter upper lowercase c
Letter-sound upper lowercase c u l h = ground arith

Letter-complete :
    (upper lowercase c : ℕ)
    → upper + 0x20 ≡ lowercase
    → lowercase / 0x20 % 2 ≡ 1
    → Letter upper lowercase c
    → (lower c == lowercase) ≡ true
Letter-complete upper lowercase c u l h = ground arith

module _ (x y z a b c : ℕ) (t : Bytes) where
  word_sound :
      is_word x y z (a ∷ b ∷ c ∷ t) ≡ true
      → ((lower a == x) ≡ true) × ((lower b == y) ≡ true) × ((lower c == z) ≡ true)
  word_sound h = ground arith

  word_complete :
      (lower a == x) ≡ true
      → (lower b == y) ≡ true
      → (lower c == z) ≡ true
      → is_word x y z (a ∷ b ∷ c ∷ t) ≡ true
  word_complete h k l = ground arith

-- The test finds what a literal is.
pub Literal-sound : (s : Bytes) → is_literal s ≡ true → Literal s
Literal-sound [] h = absurd (cc h)
Literal-sound (a ∷ []) h = absurd (cc h)
Literal-sound (a ∷ b ∷ []) h = absurd (cc h)
Literal-sound (a ∷ b ∷ c ∷ t) h = elim (Bool-cases (is_word b'i' b'n' b'f' (a ∷ b ∷ c ∷ t))) [
  | inl w ↦
      let (i, n, f) = word_sound b'i' b'n' b'f' a b c t w in
      inf a b c t (Letter-sound b'I' b'i' a refl refl i) (Letter-sound b'N' b'n' b refl refl n)
        (Letter-sound b'F' b'f' c refl refl f)
  | inr w ↦
      let (n, i, m) =
        word_sound b'n' b'a' b'n' a b c t
          (ap (λ x. x || is_word b'n' b'a' b'n' (a ∷ b ∷ c ∷ t)) (sym w) ∙ h) in
      nan a b c t (Letter-sound b'N' b'n' a refl refl n) (Letter-sound b'A' b'a' b refl refl i)
        (Letter-sound b'N' b'n' c refl refl m)
]

or_true : (b : Bool) → b || true ≡ true
or_true true = refl
or_true false = refl

pub Literal-complete : {s : Bytes} → Literal s → is_literal s ≡ true
Literal-complete (inf a b c t i n f) =
    ap (λ x. x || is_word b'n' b'a' b'n' (a ∷ b ∷ c ∷ t))
      (word_complete b'i' b'n' b'f' a b c t (Letter-complete b'I' b'i' a refl refl i)
        (Letter-complete b'N' b'n' b refl refl n) (Letter-complete b'F' b'f' c refl refl f))
Literal-complete (nan a b c t n i m) =
    ap (λ x. is_word b'i' b'n' b'f' (a ∷ b ∷ c ∷ t) || x)
      (word_complete b'n' b'a' b'n' a b c t (Letter-complete b'N' b'n' a refl refl n)
        (Letter-complete b'A' b'a' b refl refl i) (Letter-complete b'N' b'n' c refl refl m))
    ∙ or_true (is_word b'i' b'n' b'f' (a ∷ b ∷ c ∷ t))

-- Inf or NaN stands outside the strings of a text.
abbrev pub HasLiteral : Bytes → Type 0
HasLiteral s = (u : Bytes) × Reach outside s u × Literal u

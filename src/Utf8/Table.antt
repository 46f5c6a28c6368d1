-- ===== src/Utf8/Table.antt =====
-- The specification: well-formed UTF-8 as the Unicode standard's Table 3-7 gives it, independent
-- of the code's code-point arithmetic.
use fastjson.Prelude.{ℕ, ◌≤◌, ◌<◌, [], ◌∷◌, ◌++◌, ◌≡◌, Bytes}

abbrev pub IsTrail : ℕ → Type 0
IsTrail c = (0x80 ≤ c) × (c ≤ 0xBF)

-- One well-formed sequence.
abbrev pub IsSequence : Bytes → Type 0
IsSequence [] = ⊥
IsSequence (a ∷ []) = a < 0x80
IsSequence (a ∷ b ∷ []) = (0xC2 ≤ a) × (a ≤ 0xDF) × IsTrail b
IsSequence (a ∷ b ∷ c ∷ []) =
    (0xE0 ≤ a) × (a ≤ 0xEF) × IsTrail b × IsTrail c × (a ≡ 0xE0 → 0xA0 ≤ b) × (a ≡ 0xED → b ≤ 0x9F)
IsSequence (a ∷ b ∷ c ∷ d ∷ []) =
    (0xF0 ≤ a)
    × (a ≤ 0xF4)
    × IsTrail b
    × IsTrail c
    × IsTrail d
    × (a ≡ 0xF0 → 0x90 ≤ b)
    × (a ≡ 0xF4 → b ≤ 0x8F)
IsSequence (a ∷ b ∷ c ∷ d ∷ e ∷ r) = ⊥

-- A text: sequences one after the other.
pub data WellFormed : Bytes → Type 0 where
  empty : WellFormed []
  next : {s : Bytes} (q r : Bytes) → IsSequence q → WellFormed r → s ≡ q ++ r → WellFormed s

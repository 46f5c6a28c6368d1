-- ===== src/Pointer/Index/Decimal.antt =====
-- fj_seg_is_index accepts exactly the canonical decimal numbers of at most 19 digits that fit.
use fastjson.Prelude.{ℕ, ◌+◌, ◌-◌, ◌*◌, ◌≤◌, some, [], ◌∷◌, ◌≡◌, refl, arith, Bytes, length}
use fastjson.Pointer.Index.{index_loop, seg_is_index}

-- The number that digits spell behind `n`.
abbrev pub value : ℕ → Bytes → ℕ
value n [] = n
value n (c ∷ t) = value (n * 10 + (c - b'0')) t

abbrev pub AreDigits : Bytes → Type 0
AreDigits [] = Unit
AreDigits (c ∷ t) = (b'0' ≤ c) × (c ≤ b'9') × AreDigits t

-- A number as it is written: no leading zero, unless it is 0 itself.
abbrev pub IsCanonical : Bytes → Type 0
IsCanonical [] = ⊥
IsCanonical (c ∷ []) = (b'0' ≤ c) × (c ≤ b'9')
IsCanonical (c ∷ d ∷ t) = (b'1' ≤ c) × (c ≤ b'9') × AreDigits (d ∷ t)

index_loop_sound :
    (size_max : ℕ) (t : Bytes) (idx n : ℕ)
    → 9 ≤ size_max
    → idx ≤ size_max
    → index_loop size_max t idx ≡ some n
    → AreDigits t × (n ≡ value idx t) × (n ≤ size_max)
unfolding index_loop
index_loop_sound size_max [] idx n big fits h = ground arith
index_loop_sound size_max (c ∷ t) idx n big fits h =
    ground (arith, index_loop_sound size_max t (idx * 10 + (c - b'0')) n big)

le-value : (t : Bytes) (n : ℕ) → n ≤ value n t
le-value [] n = omega arith
le-value (c ∷ t) n = omega (arith, le-value t (n * 10 + (c - b'0')))

index_loop_complete :
    (size_max : ℕ) (t : Bytes) (idx : ℕ)
    → AreDigits t
    → value idx t ≤ size_max
    → index_loop size_max t idx ≡ some (value idx t)
unfolding index_loop
index_loop_complete size_max [] idx d fits = refl
index_loop_complete size_max (c ∷ t) idx d fits = ground (
  arith,
  index_loop_complete size_max t (idx * 10 + (c - b'0')) d.2 fits,
  le-value t (idx * 10 + (c - b'0')),
)

-- A segment that is taken for an index is a canonical decimal number of at most 19 digits, and the
-- index is its value: nothing has wrapped around.
pub seg_is_index_sound :
    (size_max : ℕ) (seg : Bytes) (n : ℕ)
    → 9 ≤ size_max
    → seg_is_index size_max seg ≡ some n
    → IsCanonical seg × (length seg ≤ 19) × (n ≡ value 0 seg) × (n ≤ size_max)
unfolding seg_is_index
seg_is_index_sound size_max [] n big h = ground arith
seg_is_index_sound size_max (c ∷ []) n big h =
    ground (arith, index_loop_sound size_max (c ∷ []) 0 n big (omega arith))
seg_is_index_sound size_max (c ∷ d ∷ t) n big h =
    ground (arith, index_loop_sound size_max (c ∷ d ∷ t) 0 n big (omega arith))

-- Every canonical decimal number of at most 19 digits that fits a size_t is taken for an index.
pub seg_is_index_complete :
    (size_max : ℕ) (seg : Bytes)
    → IsCanonical seg
    → length seg ≤ 19
    → value 0 seg ≤ size_max
    → seg_is_index size_max seg ≡ some (value 0 seg)
unfolding seg_is_index
seg_is_index_complete size_max [] canon short fits = absurd canon
seg_is_index_complete size_max (c ∷ []) canon short fits =
    ground (arith, index_loop_complete size_max (c ∷ []) 0 (ground arith) fits)
seg_is_index_complete size_max (c ∷ d ∷ t) canon short fits =
    ground (arith, index_loop_complete size_max (c ∷ d ∷ t) 0 (ground arith) fits)

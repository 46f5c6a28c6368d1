-- ===== src/Pointer/Index/RoundTrip.antt =====
-- The digits that fj_write_uint64_dec writes are read back by fj_seg_is_index.
use native.Mathlib.Nat.{pow-suc}
use fastjson.Prelude.{
  ℕ, zero, suc, ◌+◌, ◌/◌, ◌%◌, ◌^◌, ◌≤◌, ◌<◌, true, false, some, [], ◌∷◌, ◌≡◌, refl, ap, ◌∙◌, arith,
  Bytes, length, ◌==◌, Bool-cases, inl, inr,
}
use fastjson.Pointer.Index.{seg_is_index, dec_loop, write_uint64_dec}
use fastjson.Pointer.Index.Decimal.{value, AreDigits, IsCanonical, seg_is_index_complete}

abbrev digit_of : ℕ → ℕ
digit_of u = b'0' + u % 10

dec_last :
    (f u : ℕ) (tmp : Bytes) → (u / 10 == 0) ≡ true → dec_loop (suc f) u tmp ≡ digit_of u ∷ tmp
unfolding dec_loop
dec_last f u tmp e = rw e

dec_more :
    (f u : ℕ) (tmp : Bytes)
    → (u / 10 == 0) ≡ false
    → dec_loop (suc f) u tmp ≡ dec_loop f (u / 10) (digit_of u ∷ tmp)
unfolding dec_loop
dec_more f u tmp e = rw e

-- `k` digits are enough for a number below `10 ^ k`, and there is no spare zero in front.
abbrev Writes : ℕ → ℕ → Bytes → Bytes → Type 0
Writes k u tmp s =
    (value 0 s ≡ value u tmp)
    × (length s ≤ k + length tmp)
    × (0 < u → AreDigits tmp → IsCanonical s)

Writes-last :
    (f k u : ℕ) (tmp : Bytes) → (u / 10 == 0) ≡ true → Writes (suc k) u tmp (dec_loop (suc f) u tmp)
Writes-last f k u tmp e =
    rw (dec_last f u tmp e) (ap (λ m. value m tmp) (ground arith), omega arith, of_digit tmp)
  where
    of_digit : (tmp : Bytes) → 0 < u → AreDigits tmp → IsCanonical (digit_of u ∷ tmp)
    of_digit [] pos digits = ground arith
    of_digit (c ∷ t) pos digits = ground arith

dec_loop-Writes :
    (f k u : ℕ) (tmp : Bytes)
    → k ≤ f
    → u < 10 ^ suc k
    → Writes (suc k) u tmp (dec_loop (suc f) u tmp)
dec_loop-Writes f zero u tmp hk h = Writes-last f 0 u tmp (unary u h)
  where
    unary : (u : ℕ) → u < 10 ^ 1 → (u / 10 == 0) ≡ true
    unary u h = ground arith
dec_loop-Writes zero (suc k) u tmp hk h = absurd (omega arith)
dec_loop-Writes (suc f) (suc k) u tmp hk h = elim (Bool-cases (u / 10 == 0)) [
  | inl e ↦ Writes-last (suc f) (suc k) u tmp e
  | inr e ↦
      let (same, short, canon) =
        dec_loop-Writes f k (u / 10) (digit_of u ∷ tmp) (omega arith)
          (omega (arith, pow-suc 10 (suc k))) in
      rw (dec_more (suc f) u tmp e) (
        same ∙ ap (λ m. value m tmp) (omega arith),
        omega arith,
        λ pos digits. canon (ground arith) (omega arith, omega arith, digits),
      )
]

-- The decimal digits of a number below 10^19 (which the writer of big integers produces too) are
-- taken for that index, on every build whose size_t can hold the number.
pub seg_is_index-write_uint64_dec :
    (size_max n : ℕ)
    → n < 10 ^ 19
    → n ≤ size_max
    → seg_is_index size_max (write_uint64_dec n) ≡ some n
seg_is_index-write_uint64_dec size_max zero h fits = unfold seg_is_index write_uint64_dec in refl
seg_is_index-write_uint64_dec size_max (suc n) h fits =
    let (same, short, canon) = dec_loop-Writes 19 18 (suc n) [] (omega arith) h in
    let whole : value 0 (write_uint64_dec (suc n)) ≡ suc n = unfold write_uint64_dec in same in
    seg_is_index_complete size_max (write_uint64_dec (suc n))
      (unfold write_uint64_dec in canon (omega arith) tt) (unfold write_uint64_dec in short)
      (rw whole fits)
    ∙ ap some whole

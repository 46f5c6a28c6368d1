-- ===== src/Utf8/Steps.antt =====
-- One round of the UTF-8 loops against Table 3-7.
use fastjson.Prelude.{
  ℕ, suc, ◌≤◌, ◌<◌, ◌⊎◌, Bool, true, none, some, [], ◌∷◌, ◌++◌, ◌≡◌, arith, Bytes, length, take,
  if◌then◌else◌,
}
use fastjson.Utf8.{
  Round, SanitizeMode, encode, decode, fine, round, round2, round3, round4, well_formed_round,
  byte_is_valid_utf8_start, advance,
}
use fastjson.Utf8.Table.{IsSequence}

-- A good round has read one sequence of the table.
abbrev GoodRound : Round → Bytes → Type 0
GoodRound r s = r.good ≡ true → (r.adv ≤ length s) × IsSequence (take r.adv s)

round2_sound : (c : ℕ) (t : Bytes) → 0xC2 ≤ c → c < 0xE0 → GoodRound (round2 c t) (c ∷ t)
unfolding round2
round2_sound c [] h h' = ground arith
round2_sound c (a ∷ t) h h' = ground arith

round3_sound : (c : ℕ) (t : Bytes) → 0xE0 ≤ c → c < 0xF0 → GoodRound (round3 c t) (c ∷ t)
unfolding round3
round3_sound c [] h h' = ground arith
round3_sound c (a ∷ []) h h' = ground arith
round3_sound c (a ∷ b ∷ t) h h' = ground arith

round4_sound : (c : ℕ) (t : Bytes) → 0xF0 ≤ c → c < 0xF5 → GoodRound (round4 c t) (c ∷ t)
unfolding round4
round4_sound c [] h h' = ground arith
round4_sound c (a ∷ []) h h' = ground arith
round4_sound c (a ∷ b ∷ []) h h' = ground arith
round4_sound c (a ∷ b ∷ d ∷ t) h h' = ground arith

pub round_sound : (c : ℕ) (t : Bytes) → GoodRound (round c t) (c ∷ t)
unfolding round
round_sound c t = ground (arith, round2_sound c t, round3_sound c t, round4_sound c t)

-- Every sequence of the table makes a good round, whatever follows it.
pub round_complete :
    (c : ℕ) (u r : Bytes) → IsSequence (c ∷ u) → round c (u ++ r) ≡ fine (suc (length u))
unfolding round round2 round3 round4
round_complete c [] r h = ground arith
round_complete c (a ∷ []) r h = ground arith
round_complete c (a ∷ b ∷ []) r h = ground arith
round_complete c (a ∷ b ∷ d ∷ []) r h = ground arith
round_complete c (a ∷ b ∷ d ∷ e ∷ u) r h = absurd h

abbrev InBounds : Round → Bytes → Type 0
InBounds r s = (1 ≤ r.adv) × (r.adv ≤ length s)

round2_bounds : (c : ℕ) (t : Bytes) → InBounds (round2 c t) (c ∷ t)
unfolding round2
round2_bounds c [] = ground arith
round2_bounds c (a ∷ t) = ground arith

round3_bounds : (c : ℕ) (t : Bytes) → InBounds (round3 c t) (c ∷ t)
unfolding round3
round3_bounds c [] = ground arith
round3_bounds c (a ∷ []) = ground arith
round3_bounds c (a ∷ b ∷ t) = ground arith

round4_bounds : (c : ℕ) (t : Bytes) → InBounds (round4 c t) (c ∷ t)
unfolding round4
round4_bounds c [] = ground arith
round4_bounds c (a ∷ []) = ground arith
round4_bounds c (a ∷ b ∷ []) = ground arith
round4_bounds c (a ∷ b ∷ d ∷ t) = ground arith

-- A round goes on, and never past the end of the buffer.
pub round_bounds : (c : ℕ) (t : Bytes) → InBounds (round c t) (c ∷ t)
unfolding round
round_bounds c t = ground (arith, round2_bounds c t, round3_bounds c t, round4_bounds c t)

pub advance_bounds :
    (mode : SanitizeMode) (c : ℕ) (t : Bytes)
    → (1 ≤ advance mode (round c t)) × (advance mode (round c t) ≤ suc (length t))
unfolding advance
advance_bounds encode c t = round_bounds c t
advance_bounds decode c t = ground (arith, round_bounds c t)

-- The checker's round is the sanitizer's.
pub well_formed_round-round :
    (c : ℕ) (t : Bytes)
    → well_formed_round c t ≡ (if (round c t).good then some (round c t).adv else none)
unfolding well_formed_round round round2 round3 round4
well_formed_round-round c [] = ground arith
well_formed_round-round c (a ∷ []) = ground arith
well_formed_round-round c (a ∷ b ∷ []) = ground arith
well_formed_round-round c (a ∷ b ∷ d ∷ t) = ground arith

start2 :
    (c : ℕ) (t : Bytes) → 0xC2 ≤ c → c < 0xE0 → byte_is_valid_utf8_start (c ∷ t) ≡ (round2 c t).good
unfolding byte_is_valid_utf8_start round2
start2 c [] h h' = ground arith
start2 c (a ∷ t) h h' = ground arith

start3 :
    (c : ℕ) (t : Bytes) → 0xE0 ≤ c → c < 0xF0 → byte_is_valid_utf8_start (c ∷ t) ≡ (round3 c t).good
unfolding byte_is_valid_utf8_start round3
start3 c [] h h' = ground arith
start3 c (a ∷ []) h h' = ground arith
start3 c (a ∷ b ∷ t) h h' = ground arith

valid4_complete :
    (c a b d : ℕ) (t : Bytes)
    → IsSequence (c ∷ a ∷ b ∷ d ∷ [])
    → byte_is_valid_utf8_start (c ∷ a ∷ b ∷ d ∷ t) ≡ true
unfolding byte_is_valid_utf8_start
valid4_complete c a b d t h = ground arith

valid4_sound :
    (c a b d : ℕ) (t : Bytes)
    → 0xF0 ≤ c
    → c < 0xF5
    → byte_is_valid_utf8_start (c ∷ a ∷ b ∷ d ∷ t) ≡ true
    → IsSequence (c ∷ a ∷ b ∷ d ∷ [])
unfolding byte_is_valid_utf8_start
valid4_sound c a b d t h h' v = ground arith

valid4_good :
    (c a b d : ℕ) (t : Bytes)
    → IsSequence (c ∷ a ∷ b ∷ d ∷ [])
    → (round4 c (a ∷ b ∷ d ∷ t)).good ≡ true
unfolding round4
valid4_good c a b d t h = ground arith

good4-IsSequence :
    (c a b d : ℕ) (t : Bytes)
    → 0xF0 ≤ c
    → c < 0xF5
    → (round4 c (a ∷ b ∷ d ∷ t)).good ≡ true
    → IsSequence (c ∷ a ∷ b ∷ d ∷ [])
unfolding round4
good4-IsSequence c a b d t h h' g = ground arith

Bool-eq : (x y : Bool) → (x ≡ true → y ≡ true) → (y ≡ true → x ≡ true) → x ≡ y
Bool-eq x y f g = ground (arith)

start4 :
    (c : ℕ) (t : Bytes) → 0xF0 ≤ c → c < 0xF5 → byte_is_valid_utf8_start (c ∷ t) ≡ (round4 c t).good
start4 c [] h h' = unfold byte_is_valid_utf8_start round4 in ground arith
start4 c (a ∷ []) h h' = unfold byte_is_valid_utf8_start round4 in ground arith
start4 c (a ∷ b ∷ []) h h' = unfold byte_is_valid_utf8_start round4 in ground arith
start4 c (a ∷ b ∷ d ∷ t) h h' =
    Bool-eq _ _ (λ v. valid4_good c a b d t (valid4_sound c a b d t h h' v))
      (λ g. valid4_complete c a b d t (good4-IsSequence c a b d t h h' g))

start_other :
    (c : ℕ) (t : Bytes)
    → (c < 0xC2) ⊎ (0xF5 ≤ c)
    → byte_is_valid_utf8_start (c ∷ t) ≡ (round c t).good
unfolding byte_is_valid_utf8_start round
start_other c t h = ground arith

-- The test of a sequence's start accepts what makes a good round.
pub byte_is_valid_utf8_start-round :
    (c : ℕ) (t : Bytes) → byte_is_valid_utf8_start (c ∷ t) ≡ (round c t).good
unfolding round
byte_is_valid_utf8_start-round c t =
    ground (arith, start2 c t, start3 c t, start4 c t, start_other c t)

-- ===== src/Utf8/Checks.antt =====
-- fastjson_utf8_well_formed against Table 3-7, and against fastjson_byte_is_valid_utf8_start.
use fastjson.Prelude.{
  ℕ, zero, suc, ◌≤◌, ◌<◌, inl, inr, ◌↔◌, Bool, true, false, ◌&&◌, [], ◌∷◌, ◌++◌, ◌≡◌, refl, sym, ap,
  ◌∙◌, arith, Bytes, length, take, drop, length-drop, length-append, take-append-drop, drop-append,
  Bool-cases, leb,
}
use fastjson.Utf8.{
  fine, round, is_ascii, skip_ascii, well_formed_loop, utf8_well_formed, byte_is_valid_utf8_start,
}
use fastjson.Utf8.Table.{IsSequence, WellFormed, empty, next}
use fastjson.Utf8.Steps.{
  round_sound, round_complete, well_formed_round-round, byte_is_valid_utf8_start-round,
}

-- The loop's round, by the sanitizer's.
loop_step :
    (f c : ℕ) (t : Bytes)
    → well_formed_loop (suc f) (c ∷ t)
      ≡ ((round c t).good && well_formed_loop f (drop (round c t).adv (c ∷ t)))
unfolding well_formed_loop
loop_step f c t = ground (arith, well_formed_round-round c t)

take_next : (n : ℕ) (s : Bytes) → IsSequence (take n s) → WellFormed (drop n s) → WellFormed s
take_next n s q w = next (take n s) (drop n s) q w (sym (take-append-drop n s))

and_left : (a b : Bool) → (a && b) ≡ true → a ≡ true
and_left true b h = refl
and_left false b h = h

and_right : (a b : Bool) → (a && b) ≡ true → b ≡ true
and_right true b h = h
and_right false b h = cc

loop_sound : (f : ℕ) (s : Bytes) → well_formed_loop f s ≡ true → WellFormed s
loop_sound zero s h = absurd (unfold well_formed_loop in ground arith)
loop_sound (suc f) [] h = empty
loop_sound (suc f) (c ∷ t) h =
    let both = loop_step f c t in
    let h' = sym both ∙ h in
    take_next (round c t).adv (c ∷ t) (round_sound c t (and_left _ _ h')).1
      (loop_sound f (drop (round c t).adv (c ∷ t)) (and_right _ _ h'))

loop_sequence :
    (f : ℕ) (q r : Bytes) → IsSequence q → well_formed_loop (suc f) (q ++ r) ≡ well_formed_loop f r
loop_sequence f [] r h = absurd h
loop_sequence f (c ∷ u) r h = loop_step f c (u ++ r) ∙ rw (round_complete c u r h, drop-append)

sequence_pos : (q : Bytes) → IsSequence q → 0 < length q
sequence_pos [] h = absurd h
sequence_pos (c ∷ u) h = omega arith

loop_complete : (f : ℕ) (s : Bytes) → length s < f → WellFormed s → well_formed_loop f s ≡ true
loop_complete zero s h w = absurd (omega arith)
loop_complete (suc f) s h empty = unfold well_formed_loop in refl
loop_complete (suc f) s h (next q r hq hr e) =
    rw (e, loop_sequence f q r hq)
      (loop_complete f r (omega (arith, ap length e, length-append q r, sequence_pos q hq)) hr)

ascii_step : (c : ℕ) (s : Bytes) → c < 0x80 → WellFormed s → WellFormed (c ∷ s)
ascii_step c s h w = next (c ∷ []) s h w refl

-- Putting ASCII bytes in front changes nothing.
ascii_front :
    (n : ℕ) (s : Bytes) → is_ascii (take n s) ≡ true → WellFormed (drop n s) → WellFormed s
unfolding is_ascii
ascii_front zero s h w = w
ascii_front (suc n) [] h w = w
ascii_front (suc n) (c ∷ s) h w =
    ascii_step c s (ground arith) (ascii_front n s (and_right _ _ h) w)

round_ascii : (c : ℕ) (t : Bytes) → c < 0x80 → round c t ≡ fine 1
round_ascii c t h = round_complete c [] t h

-- A sequence that begins below 0x80 is that byte alone.
WellFormed-tail : (c : ℕ) (s : Bytes) → c < 0x80 → WellFormed (c ∷ s) → WellFormed s
WellFormed-tail c s h w =
    let n = length s in
    let all = loop_complete (suc (suc n)) (c ∷ s) (omega arith) w in
    loop_sound (suc n) s (and_right true _ (rw (loop_step, round_ascii c s h) at all))

ascii_back : (n : ℕ) (s : Bytes) → is_ascii (take n s) ≡ true → WellFormed s → WellFormed (drop n s)
unfolding is_ascii
ascii_back zero s h w = w
ascii_back (suc n) [] h w = w
ascii_back (suc n) (c ∷ s) h w =
    ascii_back n s (and_right _ _ h) (WellFormed-tail c s (ground arith) w)

skip_front : (f : ℕ) (s : Bytes) → WellFormed (skip_ascii f s) → WellFormed s
skip_front zero s w = unfold skip_ascii in w
skip_front (suc f) s w = elim (Bool-cases (leb 8 (length s) && is_ascii (take 8 s))) [
  | inl e ↦
      ascii_front 8 s (and_right _ _ e) (skip_front f (drop 8 s) (unfold skip_ascii in rw e at w))
  | inr e ↦ unfold skip_ascii in rw e at w
]

skip_back_round :
    (f : ℕ) (s : Bytes)
    → (WellFormed (drop 8 s) → WellFormed (skip_ascii f (drop 8 s)))
    → WellFormed s
    → WellFormed (skip_ascii (suc f) s)
unfolding skip_ascii
skip_back_round f s ih w = elim (Bool-cases (leb 8 (length s) && is_ascii (take 8 s))) [
  | inl e ↦ rw e (ih (ascii_back 8 s (and_right (leb 8 (length s)) _ e) w))
  | inr e ↦ rw e w
]

skip_back : (f : ℕ) (s : Bytes) → WellFormed s → WellFormed (skip_ascii f s)
skip_back zero s w = unfold skip_ascii in w
skip_back (suc f) s w = skip_back_round f s (skip_back f (drop 8 s)) w

length-skip_ascii : (f : ℕ) (s : Bytes) → length (skip_ascii f s) ≤ length s
unfolding skip_ascii
length-skip_ascii zero s = omega arith
length-skip_ascii (suc f) s = ground (arith, length-skip_ascii f (drop 8 s), length-drop 8 s)

-- fastjson_utf8_well_formed accepts exactly the texts that are well formed by Table 3-7, with
-- its eight-byte skip of ASCII runs.
pub utf8_well_formed_iff : (s : Bytes) → (utf8_well_formed s ≡ true) ↔ WellFormed s
unfolding utf8_well_formed
utf8_well_formed_iff s = (
  λ h. skip_front (length s) s (loop_sound (suc (length s)) _ h),
  λ w.
      loop_complete (suc (length s)) (skip_ascii (length s) s)
        (omega (arith, length-skip_ascii (length s) s)) (skip_back (length s) s w),
)

-- `s` begins with one sequence of the table.
abbrev pub StartsSequence : Bytes → Type 0
StartsSequence s = (q : Bytes) × (r : Bytes) × IsSequence q × (s ≡ q ++ r)

good_of_sequence : (q r : Bytes) → IsSequence q → byte_is_valid_utf8_start (q ++ r) ≡ true
good_of_sequence [] r h = absurd h
good_of_sequence (c ∷ u) r h =
    byte_is_valid_utf8_start-round c (u ++ r) ∙ rw (round_complete c u r h)

-- fastjson_byte_is_valid_utf8_start accepts exactly the positions at which a sequence of
-- Table 3-7 stands in full.
pub byte_is_valid_utf8_start_iff :
    (s : Bytes) → (byte_is_valid_utf8_start s ≡ true) ↔ StartsSequence s
byte_is_valid_utf8_start_iff [] = (
  λ h. absurd (unfold byte_is_valid_utf8_start in ground arith),
  λ (q, r, hq, e). rw e (good_of_sequence q r hq),
)
byte_is_valid_utf8_start_iff (c ∷ t) = (
  λ h.
      let n = (round c t).adv in
      (
        take n (c ∷ t),
        drop n (c ∷ t),
        (round_sound c t (sym (byte_is_valid_utf8_start-round c t) ∙ h)).1,
        sym (take-append-drop n (c ∷ t)),
      ),
  λ (q, r, hq, e). rw e (good_of_sequence q r hq),
)

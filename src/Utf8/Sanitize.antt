-- ===== src/Utf8/Sanitize.antt =====
-- fastjson_sanitize_utf8: its result is UTF-8, clean input comes back as it is, and the buffer
-- that is allocated for the result is large enough.
use fastjson.Prelude.{
  ℕ, zero, suc, ◌+◌, ◌*◌, ◌≤◌, Bool, true, false, [], ◌∷◌, ◌++◌, ◌≡◌, refl, ap, ◌∙◌, arith, Bytes,
  length, take, drop, length-append, length-drop, length-take, take-append, drop-append, Bool-cases,
  inl, inr, if◌then◌else◌,
}
use fastjson.Utf8.{
  SanitizeMode, encode, decode, fine, round, advance, written, replacement, wants_substitute,
  sanitize_loop, sanitize_utf8, sanitize_capacity,
}
use fastjson.Utf8.Table.{IsSequence, WellFormed, empty, next}
use fastjson.Utf8.Steps.{round_sound, round_complete, round_bounds, advance_bounds}

-- More fuel than bytes changes nothing.
loop_fuel :
    (f g : ℕ) (sub : Bool) (mode : SanitizeMode) (s : Bytes)
    → length s ≤ f
    → length s ≤ g
    → sanitize_loop f sub mode s ≡ sanitize_loop g sub mode s
unfolding sanitize_loop
loop_fuel zero zero sub mode s hf hg = refl
loop_fuel zero (suc g) sub mode [] hf hg = refl
loop_fuel zero (suc g) sub mode (c ∷ t) hf hg = absurd (omega arith)
loop_fuel (suc f) zero sub mode [] hf hg = refl
loop_fuel (suc f) zero sub mode (c ∷ t) hf hg = absurd (omega arith)
loop_fuel (suc f) (suc g) sub mode [] hf hg = refl
loop_fuel (suc f) (suc g) sub mode (c ∷ t) hf hg =
    let n = advance mode (round c t) in
    let short = length-drop n (c ∷ t) in
    ap (λ rest. written sub (round c t) (c ∷ t) ++ rest)
      (loop_fuel f g sub mode (drop n (c ∷ t)) (omega (arith, short, advance_bounds mode c t))
        (omega (arith, short, advance_bounds mode c t)))

-- The loop runs to the end of the input: each round's output is followed by that of the bytes
-- behind it.
pub sanitize_utf8_step :
    (ignore subst : Bool) (mode : SanitizeMode) (c : ℕ) (t : Bytes)
    → sanitize_utf8 ignore subst mode (c ∷ t)
      ≡ written (wants_substitute ignore subst mode) (round c t) (c ∷ t)
        ++ sanitize_utf8 ignore subst mode (drop (advance mode (round c t)) (c ∷ t))
unfolding sanitize_utf8
sanitize_utf8_step ignore subst mode c t =
    let n = advance mode (round c t) in
    ap (λ rest. written (wants_substitute ignore subst mode) (round c t) (c ∷ t) ++ rest)
      (loop_fuel (length t) (length (drop n (c ∷ t))) _ mode (drop n (c ∷ t))
        (omega (arith, length-drop n (c ∷ t), advance_bounds mode c t)) (omega arith))

written-WellFormed :
    (sub : Bool) (c : ℕ) (t rest : Bytes)
    → WellFormed rest
    → WellFormed (written sub (round c t) (c ∷ t) ++ rest)
written-WellFormed sub c t rest w = elim (Bool-cases (round c t).good) [
  | inl g ↦
      unfold written in rw g (next (take (round c t).adv (c ∷ t)) rest (round_sound c t g).1 w refl)
  | inr b ↦ unfold written in rw b (of_replacement sub)
]
  where
    of_replacement : (sub : Bool) → WellFormed (replacement sub ++ rest)
    of_replacement true = next (0xEF ∷ 0xBF ∷ 0xBD ∷ []) rest (ground arith) w refl
    of_replacement false = w

loop-WellFormed :
    (f : ℕ) (sub : Bool) (mode : SanitizeMode) (s : Bytes) → WellFormed (sanitize_loop f sub mode s)
unfolding sanitize_loop
loop-WellFormed zero sub mode s = empty
loop-WellFormed (suc f) sub mode [] = empty
loop-WellFormed (suc f) sub mode (c ∷ t) =
    written-WellFormed sub c t _
      (loop-WellFormed f sub mode (drop (advance mode (round c t)) (c ∷ t)))

-- Whatever the bytes, the flags and the mode, the sanitizer's result is well-formed UTF-8.
pub sanitize_utf8-WellFormed :
    (ignore subst : Bool) (mode : SanitizeMode) (s : Bytes)
    → WellFormed (sanitize_utf8 ignore subst mode s)
unfolding sanitize_utf8
sanitize_utf8-WellFormed ignore subst mode s =
    loop-WellFormed (length s) (wants_substitute ignore subst mode) mode s

advance-fine : (mode : SanitizeMode) (n : ℕ) → advance mode (fine n) ≡ n
unfolding advance
advance-fine encode n = refl
advance-fine decode n = refl

-- A sequence of the table is copied.
sequence_copied :
    (ignore subst : Bool) (mode : SanitizeMode) (q r : Bytes)
    → IsSequence q
    → sanitize_utf8 ignore subst mode (q ++ r) ≡ q ++ sanitize_utf8 ignore subst mode r
sequence_copied ignore subst mode [] r h = absurd h
sequence_copied ignore subst mode (c ∷ u) r h =
    sanitize_utf8_step ignore subst mode c (u ++ r)
    ∙ rw (round_complete c u r h, advance-fine, drop-append) (unfold written in rw take-append)

-- Well-formed UTF-8 comes back unchanged, under all flags and in both modes.
pub sanitize_utf8_id :
    (ignore subst : Bool) (mode : SanitizeMode) {s : Bytes}
    → WellFormed s
    → sanitize_utf8 ignore subst mode s ≡ s
sanitize_utf8_id ignore subst mode empty = unfold sanitize_utf8 sanitize_loop in refl
sanitize_utf8_id ignore subst mode (next q r hq hr e) =
    rw e (sequence_copied ignore subst mode q r hq ∙ rw (sanitize_utf8_id ignore subst mode hr))

length-written_sub :
    (mode : SanitizeMode) (c : ℕ) (t : Bytes)
    → length (written true (round c t) (c ∷ t)) ≤ 3 * advance mode (round c t)
unfolding written advance
length-written_sub encode c t =
    ground (arith, round_bounds c t, length-take (round c t).adv (c ∷ t))
length-written_sub decode c t =
    ground (arith, round_bounds c t, length-take (round c t).adv (c ∷ t))

length-written_ignore :
    (mode : SanitizeMode) (c : ℕ) (t : Bytes)
    → length (written false (round c t) (c ∷ t)) ≤ advance mode (round c t)
unfolding written advance
length-written_ignore encode c t =
    ground (arith, round_bounds c t, length-take (round c t).adv (c ∷ t))
length-written_ignore decode c t =
    ground (arith, round_bounds c t, length-take (round c t).adv (c ∷ t))

scaled : (k a b m r l : ℕ) → a ≤ k * m → b ≤ k * r → m + r ≡ l → a + b ≤ k * l
scaled k a b m r l ha hb e = rw (← e) (omega arith)

-- The growth of a round is that of the whole loop.
module _ (k : ℕ) (sub : Bool) (mode : SanitizeMode)
    (grows : (c : ℕ) (t : Bytes)
      → length (written sub (round c t) (c ∷ t)) ≤ k * advance mode (round c t)) where
  length-loop : (f : ℕ) (s : Bytes) → length (sanitize_loop f sub mode s) ≤ k * length s
  unfolding sanitize_loop
  length-loop zero s = omega arith
  length-loop (suc f) [] = omega arith
  length-loop (suc f) (c ∷ t) =
      let n = advance mode (round c t) in
      let w = written sub (round c t) (c ∷ t) in
      rw (length-append w) (
        scaled k _ _ n _ _ (grows c t) (length-loop f (drop n (c ∷ t)))
          (omega (arith, length-drop n (c ∷ t), advance_bounds mode c t)))

length-sanitize :
    (sub : Bool) (f : ℕ) (mode : SanitizeMode) (s : Bytes)
    → length (sanitize_loop f sub mode s) ≤ (if sub then 3 else 1) * length s
length-sanitize true f mode s = length-loop 3 true mode (length-written_sub mode) f s
length-sanitize false f mode s =
    length-loop 1 false mode (λ c t. omega (arith, length-written_ignore mode c t)) f s

-- The result fits the buffer that is allocated for it: three bytes for each input byte (and one)
-- where bad bytes are substituted, and else one for each.
pub sanitize_utf8_fits :
    (ignore subst : Bool) (mode : SanitizeMode) (s : Bytes)
    → length (sanitize_utf8 ignore subst mode s) ≤ sanitize_capacity ignore subst mode s
unfolding sanitize_utf8 sanitize_capacity
sanitize_utf8_fits ignore subst mode s =
    ground (arith, length-sanitize (wants_substitute ignore subst mode) (length s) mode s)

-- ===== src/StringWriter/Runs.antt =====
-- Runs of bytes that need no escape, which the string writer of fastjson.c copies.
use fastjson.Prelude.{
  ℕ, zero, suc, ◌+◌, Bool, true, false, not, ◌&&◌, ◌||◌, [], ◌∷◌, ◌++◌, ◌≡◌, refl, sym, ap, ◌∙◌,
  arith, Bytes, length, take, drop, leb, ◌==◌, if◌then◌else◌, Bool-cases, inl, inr,
  take-append-drop, length-drop, take-add, subst, ◌-◌, ◌/◌,
}
use fastjson.StringWriter.{
  WriteFlags, byte_needs_escape, word_needs_escape, plain_run, copyable_loop,
  string_is_copyable_ascii,
}
use fastjson.StringWriter.Large.{fused_run}

module _ (flags : WriteFlags) where
  pub word_needs_escape-append :
      (s t : Bytes)
      → word_needs_escape flags (s ++ t) ≡ word_needs_escape flags s || word_needs_escape flags t
  unfolding word_needs_escape
  word_needs_escape-append [] t = refl
  word_needs_escape-append (c ∷ s) t = let i = word_needs_escape-append s t in ground arith

  plain_run-take : (s : Bytes) → word_needs_escape flags (take (plain_run flags s) s) ≡ false
  unfolding word_needs_escape plain_run
  plain_run-take [] = refl
  plain_run-take (c ∷ t) = elim (Bool-cases (byte_needs_escape flags c)) [
    | inl h ↦ rw h refl
    | inr h ↦ rw h (rw h (plain_run-take t))
  ]

  plain_run_all :
      (s : Bytes) → (plain_run flags s == length s) ≡ true → word_needs_escape flags s ≡ false
  unfolding word_needs_escape plain_run
  plain_run_all [] h = refl
  plain_run_all (c ∷ t) h =
      let i = plain_run_all t in
      elim (Bool-cases (byte_needs_escape flags c)) [
        | inl e ↦ absurd (ground arith)
        | inr e ↦ ground (arith, plain_run_all t)
      ]

  -- What the scan for a copyable string reports of the bytes from `pos` on.
  abbrev pub Scanned : ℕ → Bytes → Bool × ℕ → Type 0
  Scanned pos s (copyable, p) =
      (k : ℕ) × (p ≡ pos + k)
      × (word_needs_escape flags (take k s) ≡ false)
      × (copyable ≡ true → word_needs_escape flags s ≡ false)

  plain-Scanned :
      (pos : ℕ) (s : Bytes) → Scanned pos s (plain_run flags s == length s, pos + plain_run flags s)
  plain-Scanned pos s = (plain_run flags s, refl, plain_run-take s, plain_run_all s)

  word-Scanned :
      (pos : ℕ) (s : Bytes) (late : Bool)
      → Scanned pos s (false, if late then pos + plain_run flags s else pos)
  unfolding word_needs_escape
  word-Scanned pos s true = (plain_run flags s, refl, plain_run-take s, λ e. cc)
  word-Scanned pos s false = (0, omega arith, refl, λ e. cc)

  escape_split :
      (n : ℕ) (s : Bytes)
      → word_needs_escape flags s
        ≡ word_needs_escape flags (take n s) || word_needs_escape flags (drop n s)
  escape_split n s =
      ap (word_needs_escape flags) (sym (take-append-drop n s))
      ∙ word_needs_escape-append (take n s) (drop n s)

  later-Scanned :
      (pos : ℕ) (s : Bytes) (b : Bool) (p : ℕ)
      → word_needs_escape flags (take 8 s) ≡ false
      → Scanned (pos + 8) (drop 8 s) (b, p)
      → Scanned pos s (b, p)
  later-Scanned pos s b p h (k, e, run, all) = (
    8 + k,
    omega arith,
    ap (word_needs_escape flags) (take-add 8 k s)
        ∙ word_needs_escape-append (take 8 s) (take k (drop 8 s))
        ∙ both (word_needs_escape flags (take 8 s)) h run,
    λ c. escape_split 8 s ∙ both (word_needs_escape flags (take 8 s)) h (all c),
  )
    where
      both : (x : Bool) {y : Bool} → x ≡ false → y ≡ false → x || y ≡ false
      both x e f = ground arith

  -- The test and the choice of a round over a word.
  loop_short :
      (n len pos : ℕ) (s : Bytes)
      → leb 8 (length s) ≡ false
      → copyable_loop (suc n) flags len pos s
        ≡ (plain_run flags s == length s, pos + plain_run flags s)
  unfolding copyable_loop
  loop_short n len pos s h = rw (copyable_loop, h)

  loop_escape :
      (n len pos : ℕ) (s : Bytes)
      → leb 8 (length s) ≡ true
      → word_needs_escape flags (take 8 s) ≡ true
      → copyable_loop (suc n) flags len pos s
        ≡ (false, if leb (len - len / 8) pos then pos + plain_run flags s else pos)
  unfolding copyable_loop
  loop_escape n len pos s h e = rw (copyable_loop, h, e)

  loop_on :
      (n len pos : ℕ) (s : Bytes)
      → leb 8 (length s) ≡ true
      → word_needs_escape flags (take 8 s) ≡ false
      → copyable_loop (suc n) flags len pos s ≡ copyable_loop n flags len (pos + 8) (drop 8 s)
  unfolding copyable_loop
  loop_on n len pos s h e = rw (copyable_loop, h, e)

  copyable_loop_lem : (n len pos : ℕ) (s : Bytes) → Scanned pos s (copyable_loop n flags len pos s)
  copyable_loop_lem zero len pos s = unfold copyable_loop in plain-Scanned pos s
  copyable_loop_lem (suc n) len pos s = elim (Bool-cases (leb 8 (length s))) [
    | inr h ↦ subst (Scanned pos s) (sym (loop_short n len pos s h)) (plain-Scanned pos s)
    | inl h ↦ elim (Bool-cases (word_needs_escape flags (take 8 s))) [
      | inl e ↦
          subst (Scanned pos s) (sym (loop_escape n len pos s h e))
            (word-Scanned pos s (leb (len - len / 8) pos))
      | inr e ↦ subst (Scanned pos s) (sym (loop_on n len pos s h e)) (
          later-Scanned pos s (copyable_loop n flags len (pos + 8) (drop 8 s)).0
            (copyable_loop n flags len (pos + 8) (drop 8 s)).1 e
            (copyable_loop_lem n len (pos + 8) (drop 8 s)))
    ]
  ]

  pub string_is_copyable_ascii_lem : (s : Bytes) → Scanned 0 s (string_is_copyable_ascii flags s)
  unfolding string_is_copyable_ascii
  string_is_copyable_ascii_lem s = copyable_loop_lem (length s) (length s) 0 s

  -- The fused scan stops at the end only where nothing needs an escape.
  fused_stop :
      (n : ℕ) (s : Bytes)
      → leb 8 (length s) && not (word_needs_escape flags (take 8 s)) ≡ false
      → fused_run (suc n) flags s ≡ plain_run flags s
  unfolding fused_run
  fused_stop n s h = rw (fused_run, h)

  fused_on :
      (n : ℕ) (s : Bytes)
      → leb 8 (length s) && not (word_needs_escape flags (take 8 s)) ≡ true
      → fused_run (suc n) flags s ≡ 8 + fused_run n flags (drop 8 s)
  unfolding fused_run
  fused_on n s h = rw (fused_run, h)

  pub fused_run_all :
      (n : ℕ) (s : Bytes)
      → (fused_run n flags s == length s) ≡ true
      → word_needs_escape flags s ≡ false
  fused_run_all zero s h = unfold fused_run in plain_run_all s h
  fused_run_all (suc n) s h =
      elim (Bool-cases (leb 8 (length s) && not (word_needs_escape flags (take 8 s)))) [
        | inr e ↦ plain_run_all s (ground (arith, fused_stop n s e))
        | inl e ↦
            let l = length-drop 8 s in
            let f = fused_on n s e in
            let i = fused_run_all n (drop 8 s) (ground arith) in escape_split 8 s ∙ ground arith
      ]

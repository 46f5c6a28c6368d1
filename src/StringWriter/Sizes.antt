-- ===== src/StringWriter/Sizes.antt =====
-- fastjson_json_string_size of fastjson.c: a string that it reports as copyable has nothing to
-- escape.
use fastjson.Prelude.{
  ℕ, zero, suc, ◌+◌, ◌-◌, Bool, true, false, not, ◌&&◌, [], ◌∷◌, ◌≡◌, refl, sym, ap, ◌∙◌, subst,
  arith, Bytes, length, drop, ltb, leb, Bool-cases, inl, inr, if◌then◌else◌,
}
use fastjson.Utf8.{byte_is_valid_utf8_start}
use fastjson.StringWriter.{
  WriteFlags, fits, invalid, too_large, byte_needs_escape, word_needs_escape,
  string_is_copyable_ascii, size_add, size_advance, Sized, sized, unsized, size_loop,
  json_string_size,
}
use fastjson.StringWriter.Runs.{string_is_copyable_ascii_lem}

-- What a size says of the bytes that were measured.
abbrev pub Measured : WriteFlags → Bytes → Bool → Sized → Type 0
Measured flags s copyable (unsized fits) = ⊥
Measured flags s copyable (unsized invalid) = Unit {0}
Measured flags s copyable (unsized too_large) = Unit {0}
Measured flags s copyable (sized size result) =
    result ≡ true → (copyable ≡ true) × (word_needs_escape flags s ≡ false)

module _ (max_len : ℕ) (flags : WriteFlags) where
  module _ (n c : ℕ) (t : Bytes) (size : ℕ) (copyable : Bool) where
    loop_invalid :
        leb 0x80 c && not (byte_is_valid_utf8_start (c ∷ t)) ≡ true
        → size_loop max_len (suc n) flags (c ∷ t) size copyable ≡ unsized invalid
    unfolding size_loop
    loop_invalid h = rw (size_loop, h)

    loop_large :
        leb 0x80 c && not (byte_is_valid_utf8_start (c ∷ t)) ≡ false
        → ltb (max_len - size) (size_add flags c) ≡ true
        → size_loop max_len (suc n) flags (c ∷ t) size copyable ≡ unsized too_large
    unfolding size_loop
    loop_large h l = rw (size_loop, h, l)

    loop_on :
        leb 0x80 c && not (byte_is_valid_utf8_start (c ∷ t)) ≡ false
        → ltb (max_len - size) (size_add flags c) ≡ false
        → size_loop max_len (suc n) flags (c ∷ t) size copyable
          ≡ size_loop max_len n flags
              (drop (size_advance c) (c ∷ t))
              (size + size_add flags c)
              (copyable && not (byte_needs_escape flags c))
    unfolding size_loop
    loop_on h l = rw (size_loop, h, l)

  -- A byte that needs no escape is ASCII, and goes on by itself.
  plain_advance :
      (c : ℕ) (t : Bytes) → byte_needs_escape flags c ≡ false → drop (size_advance c) (c ∷ t) ≡ t
  unfolding byte_needs_escape size_advance
  plain_advance c t h = rw low refl
    where
      low : ltb c 0x80 ≡ true
      low = ground arith

  step-Measured :
      (c : ℕ) (t : Bytes) (copyable : Bool) (o : Sized)
      → Measured flags
          (drop (size_advance c) (c ∷ t))
          (copyable && not (byte_needs_escape flags c))
          o
      → Measured flags (c ∷ t) copyable o
  unfolding word_needs_escape
  step-Measured c t copyable (unsized fits) m = m
  step-Measured c t copyable (unsized invalid) m = tt
  step-Measured c t copyable (unsized too_large) m = tt
  step-Measured c t copyable (sized size result) m = λ e.
      let (both, rest) = m e in
      let low : byte_needs_escape flags c ≡ false = ground arith in
      let tail : word_needs_escape flags t ≡ false =
        ap (word_needs_escape flags) (sym (plain_advance c t low)) ∙ rest in
      (ground arith, ground arith)

  size_loop_lem :
      (n : ℕ) (s : Bytes) (size : ℕ) (copyable : Bool)
      → Measured flags s copyable (size_loop max_len n flags s size copyable)
  size_loop_lem zero [] size copyable =
      unfold size_loop in λ e. (e, unfold word_needs_escape in refl)
  size_loop_lem (suc n) [] size copyable =
      unfold size_loop in λ e. (e, unfold word_needs_escape in refl)
  size_loop_lem zero (c ∷ t) size copyable = unfold size_loop in tt
  size_loop_lem (suc n) (c ∷ t) size copyable =
      elim (Bool-cases (leb 0x80 c && not (byte_is_valid_utf8_start (c ∷ t)))) [
        | inl h ↦
            subst (Measured flags (c ∷ t) copyable) (sym (loop_invalid n c t size copyable h)) tt
        | inr h ↦ elim (Bool-cases (ltb (max_len - size) (size_add flags c))) [
          | inl l ↦
              subst (Measured flags (c ∷ t) copyable) (sym (loop_large n c t size copyable h l)) tt
          | inr l ↦
              subst (Measured flags (c ∷ t) copyable) (sym (loop_on n c t size copyable h l)) (
                step-Measured c t copyable (later (byte_needs_escape flags c)) (
                  size_loop_lem n (drop (size_advance c) (c ∷ t)) (size + size_add flags c)
                    (copyable && not (byte_needs_escape flags c))))
        ]
      ]
    where
      later : Bool → Sized
      later b =
          size_loop max_len n flags (drop (size_advance c) (c ∷ t)) (size + size_add flags c)
            (copyable && not b)

  pub json_string_size_lem : (s : Bytes) → Measured flags s true (json_string_size max_len flags s)
  unfolding json_string_size
  json_string_size_lem s =
      choose (string_is_copyable_ascii flags s).0 (ltb (max_len - 2) (length s))
        ((string_is_copyable_ascii_lem flags s).3)
    where
      choose :
          (c l : Bool)
          → (c ≡ true → word_needs_escape flags s ≡ false)
          → Measured flags s true (
              if c
              then (if l then unsized too_large else sized (length s + 2) true)
              else size_loop max_len (length s) flags s 2 true)
      choose true true h = tt
      choose true false h = λ e. (refl, h refl)
      choose false l h = size_loop_lem (length s) s 2 true

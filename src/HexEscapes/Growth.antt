-- ===== src/HexEscapes/Growth.antt =====
-- The first pass of fastjson_apply_hex_escapes of fastjson.c over a string of tokens.
use fastjson.Prelude.{
  ℕ, zero, suc, ◌+◌, ◌-◌, ◌≤◌, ◌≡◌, refl, ap, ◌∙◌, true, false, ◌&&◌, some, List, [], ◌∷◌, ◌++◌,
  Bytes, length, ltb, ◌==◌, arith, Bool-cases, inl, inr, append_assoc,
}
use fastjson.HexEscapes.{HexFlags, quote, backslash, is_hexed, growth_loop}
use fastjson.HexEscapes.Tokens.{
  Token, plain, escaped, unicode, is_token, are_tokens, print, print_all, growth_of, growth_all,
}

length-print : (x : Token) (rest : Bytes) → suc (length rest) ≤ length (print x ++ rest)
length-print (plain c) rest = omega arith
length-print (escaped c) rest = omega arith
length-print (unicode a b c d) rest = omega arith

module _ (max_len : ℕ) (flags : HexFlags) where
  pub growth_skip :
      (n c : ℕ) (t : Bytes) (g : ℕ)
      → (c == backslash) ≡ false
      → is_hexed flags c ≡ false
      → growth_loop max_len flags (suc n) (c ∷ t) g ≡ growth_loop max_len flags n t g
  unfolding growth_loop
  growth_skip n c t g h e = rw (growth_loop, h, e)

  growth_hexed :
      (n c : ℕ) (t : Bytes) (g : ℕ)
      → (c == backslash) ≡ false
      → is_hexed flags c ≡ true
      → g + 5 ≤ max_len
      → growth_loop max_len flags (suc n) (c ∷ t) g ≡ growth_loop max_len flags n t (g + 5)
  unfolding growth_loop
  growth_hexed n c t g h e l = rw (growth_loop, h, e, roomy)
    where
      roomy : ltb (max_len - 5) g ≡ false
      roomy = ground arith

  growth_quote :
      (n c : ℕ) (t : Bytes) (g : ℕ)
      → flags.quot && c == quote ≡ true
      → g + 4 ≤ max_len
      → growth_loop max_len flags (suc n) (backslash ∷ c ∷ t) g
        ≡ growth_loop max_len flags n t (g + 4)
  unfolding growth_loop
  growth_quote n c t g e l = rw (growth_loop, longer, e, roomy)
    where
      roomy : ltb (max_len - 4) g ≡ false
      roomy = ground arith

      longer : ltb 1 (suc (suc (length t))) ≡ true
      longer = ground arith

  growth_escaped :
      (n c : ℕ) (t : Bytes) (g : ℕ)
      → flags.quot && c == quote ≡ false
      → (c == 117) ≡ false
      → growth_loop max_len flags (suc n) (backslash ∷ c ∷ t) g ≡ growth_loop max_len flags n t g
  unfolding growth_loop
  growth_escaped n c t g e u = rw (growth_loop, longer, e, u)
    where
      longer : ltb 1 (suc (suc (length t))) ≡ true
      longer = ground arith

  growth_unicode :
      (n a b c d : ℕ) (t : Bytes) (g : ℕ)
      → growth_loop max_len flags (suc n) (backslash ∷ 117 ∷ a ∷ b ∷ c ∷ d ∷ t) g
        ≡ growth_loop max_len flags n t g
  unfolding growth_loop
  growth_unicode n a b c d t g = rw (growth_loop, longer, no_quote, long)
    where
      rest : ℕ
      rest = suc (suc (suc (suc (length t))))

      longer : ltb 1 (suc (suc rest)) ≡ true
      longer = ground arith

      no_quote : flags.quot && false ≡ false
      no_quote = ground arith

      long : ltb 5 (suc (suc rest)) ≡ true
      long = ground arith

  growth_token :
      (n : ℕ) (t : Token) (rest : Bytes) (g : ℕ)
      → is_token t ≡ true
      → g + growth_of flags t ≤ max_len
      → growth_loop max_len flags (suc n) (print t ++ rest) g
        ≡ growth_loop max_len flags n rest (g + growth_of flags t)
  unfolding growth_of
  growth_token n (plain c) rest g h l = elim (Bool-cases (is_hexed flags c)) [
    | inl e ↦
        growth_hexed n c rest g (ground arith) e (ground arith)
        ∙ ap (growth_loop max_len flags n rest) (ground arith)
    | inr e ↦
        growth_skip n c rest g (ground arith) e
        ∙ ap (growth_loop max_len flags n rest) (ground arith)
  ]
  growth_token n (escaped c) rest g h l = elim (Bool-cases (flags.quot && c == quote)) [
    | inl e ↦
        growth_quote n c rest g e (ground arith)
        ∙ ap (growth_loop max_len flags n rest) (ground arith)
    | inr e ↦
        growth_escaped n c rest g e (ground arith)
        ∙ ap (growth_loop max_len flags n rest) (ground arith)
  ]
  growth_token n (unicode a b c d) rest g h l =
      growth_unicode n a b c d rest g ∙ ap (growth_loop max_len flags n rest) (ground arith)

  pub quote_kept : is_hexed flags quote ≡ false
  unfolding is_hexed
  quote_kept = ground arith

  -- The rounds over tokens and the closing quote.
  pub growth_tokens :
      (n : ℕ) (ts : List Token) (g : ℕ)
      → are_tokens ts ≡ true
      → g + growth_all flags ts ≤ max_len
      → length (print_all ts ++ quote ∷ []) ≤ n
      → growth_loop max_len flags n (print_all ts ++ quote ∷ []) g ≡ some (g + growth_all flags ts)
  unfolding print_all growth_all growth_loop
  growth_tokens zero [] g h l m = absurd (omega arith)
  growth_tokens (suc n) [] g h l m = growth_skip n quote [] g refl quote_kept ∙ at_end n
    where
      at_end : (k : ℕ) → growth_loop max_len flags k [] g ≡ some (g + 0)
      at_end zero = ap some (omega arith)
      at_end (suc k) = ap some (omega arith)
  growth_tokens zero (t ∷ ts) g h l m =
      let p = length-print t (print_all ts ++ quote ∷ []) in
      let e = ap length (append_assoc (print t) (print_all ts) (quote ∷ [])) in absurd (omega arith)
  growth_tokens (suc n) (t ∷ ts) g h l m =
      ap (λ s. growth_loop max_len flags (suc n) s g)
        (append_assoc (print t) (print_all ts) (quote ∷ []))
      ∙ growth_token n t (print_all ts ++ quote ∷ []) g (ground arith) (omega arith)
      ∙ growth_tokens n ts (g + growth_of flags t) (ground arith) (omega arith) shorter
      ∙ ap some (omega arith)
    where
      shorter : length (print_all ts ++ quote ∷ []) ≤ n
      shorter =
          let p = length-print t (print_all ts ++ quote ∷ []) in
          let e = ap length (append_assoc (print t) (print_all ts) (quote ∷ [])) in omega arith

-- ===== src/HexEscapes/Passes.antt =====
-- The two passes of fastjson_apply_hex_escapes of fastjson.c over a string of tokens.
use fastjson.Prelude.{
  ℕ, ◌≡◌, refl, sym, ap, ◌∙◌, Bool, true, false, ◌&&◌, ◌||◌, List, [], ◌∷◌, ◌++◌, Bytes, ◌==◌,
  if◌then◌else◌, arith, Bool-cases, inl, inr, append_assoc, append-nil,
}
use fastjson.HexEscapes.{
  HexFlags, quote, backslash, unicode_escape, rewritten, rewrite_loop, reverse,
}
use fastjson.HexEscapes.Tokens.{
  Token, plain, escaped, unicode, safe, is_token, are_tokens, print, print_all, hex, hex_all,
}

pub rewritten-safe :
    (flags : HexFlags) (c : ℕ) → safe c || c == quote ≡ true → rewritten flags c ≡ c ∷ []
unfolding rewritten
rewritten-safe flags c h = ground arith

rewritten-plain : (flags : HexFlags) (c : ℕ) → rewritten flags c ≡ print (hex flags (plain c))
unfolding rewritten hex
rewritten-plain flags c =
    ladder (flags.tag && c == 60) (flags.tag && c == 62) (flags.amp && c == 38)
      (flags.apos && c == 39)
  where
    ladder :
        (p q r s : Bool)
        → (if p
            then unicode_escape 51 67
            else if q
            then unicode_escape 51 69
            else if r
            then unicode_escape 50 54
            else if s
            then unicode_escape 50 55
            else c ∷ [])
          ≡ print (
              if p
              then unicode 48 48 51 67
              else if q
              then unicode 48 48 51 69
              else if r
              then unicode 48 48 50 54
              else if s
              then unicode 48 48 50 55
              else plain c)
    ladder true q r s = refl
    ladder false true r s = refl
    ladder false false true s = refl
    ladder false false false true = refl
    ladder false false false false = refl

module _ (flags : HexFlags) where
  -- A byte of the second loop that starts no escaped quote, and the string's last one.
  rewrite_one :
      (c : ℕ) (t out : Bytes)
      → (c == quote) ≡ false
      → rewrite_loop flags false (c ∷ t) out ≡ rewrite_loop flags false t (rewritten flags c ++ out)
  unfolding rewrite_loop
  rewrite_one c [] out h = refl
  rewrite_one c (b ∷ t) out h = rw (rewrite_loop, not_quote)
    where
      not_quote : flags.quot && c == quote && true && b == backslash ≡ false
      not_quote = ground arith

  pub rewrite_last :
      (c : ℕ) (t out : Bytes)
      → rewrite_loop flags true (c ∷ t) out ≡ rewrite_loop flags false t (rewritten flags c ++ out)
  unfolding rewrite_loop
  rewrite_last c [] out = refl
  rewrite_last c (b ∷ t) out = rw (rewrite_loop, not_last)
    where
      not_last : flags.quot && c == quote && false && b == backslash ≡ false
      not_last = ground arith

  rewrite_safe :
      (c : ℕ) (t out : Bytes)
      → safe c ≡ true
      → rewrite_loop flags false (c ∷ t) out ≡ rewrite_loop flags false t (c ∷ out)
  rewrite_safe c t out h =
      rewrite_one c t out (ground arith)
      ∙ ap (λ xs. rewrite_loop flags false t (xs ++ out)) (rewritten-safe flags c (ground arith))

  rewrite_quote :
      (t out : Bytes)
      → flags.quot ≡ true
      → rewrite_loop flags false (quote ∷ backslash ∷ t) out
        ≡ rewrite_loop flags false t (unicode_escape 50 50 ++ out)
  unfolding rewrite_loop
  rewrite_quote t out h = rw (rewrite_loop, h)

  rewrite_plain_quote :
      (t out : Bytes)
      → flags.quot ≡ false
      → rewrite_loop flags false (quote ∷ backslash ∷ t) out
        ≡ rewrite_loop flags false (backslash ∷ t) (rewritten flags quote ++ out)
  unfolding rewrite_loop rewritten
  rewrite_plain_quote t out h = rw (rewrite_loop, h)

  hex-quote :
      (c : ℕ) → flags.quot && c == quote ≡ true → hex flags (escaped c) ≡ unicode 48 48 50 50
  unfolding hex
  hex-quote c h = ground arith

  hex_escaped : (c : ℕ) → flags.quot && c == quote ≡ false → hex flags (escaped c) ≡ escaped c
  unfolding hex
  hex_escaped c h = ground arith

  rewrite_token :
      (t : Token) (rest out : Bytes)
      → is_token t ≡ true
      → rewrite_loop flags false (reverse (print t) ++ rest) out
        ≡ rewrite_loop flags false rest (print (hex flags t) ++ out)
  unfolding reverse hex
  rewrite_token (plain c) rest out h =
      rewrite_one c rest out (ground arith)
      ∙ ap (λ xs. rewrite_loop flags false rest (xs ++ out)) (rewritten-plain flags c)
  rewrite_token (unicode a b c d) rest out h =
      rewrite_safe d (c ∷ b ∷ a ∷ 117 ∷ backslash ∷ rest) out (ground arith)
      ∙ rewrite_safe c (b ∷ a ∷ 117 ∷ backslash ∷ rest) (d ∷ out) (ground arith)
      ∙ rewrite_safe b (a ∷ 117 ∷ backslash ∷ rest) (c ∷ d ∷ out) (ground arith)
      ∙ rewrite_safe a (117 ∷ backslash ∷ rest) (b ∷ c ∷ d ∷ out) (ground arith)
      ∙ rewrite_safe 117 (backslash ∷ rest) (a ∷ b ∷ c ∷ d ∷ out) refl
      ∙ rewrite_safe backslash rest (117 ∷ a ∷ b ∷ c ∷ d ∷ out) refl
  rewrite_token (escaped c) rest out h = elim (Bool-cases (c == quote)) [
    | inl q ↦ elim (Bool-cases flags.quot) [
      | inl f ↦ at_quote q ∙ rewrite_quote rest out f ∙ sym (ap into (hex-quote c (ground arith)))
      | inr f ↦
          at_quote q
          ∙ rewrite_plain_quote rest out f
          ∙ rewrite_safe backslash rest (rewritten flags quote ++ out) refl
          ∙ ap (λ xs. rewrite_loop flags false rest (backslash ∷ xs ++ out))
              (rewritten-safe flags quote refl)
          ∙ ap (λ x. rewrite_loop flags false rest (backslash ∷ x ∷ out)) (ground arith)
          ∙ sym (ap into (hex_escaped c (ground arith)))
    ]
    | inr q ↦
        rewrite_safe c (backslash ∷ rest) out (ground arith)
        ∙ rewrite_safe backslash rest (c ∷ out) refl
        ∙ sym (ap into (hex_escaped c (ground arith)))
  ]
    where
      into : Token → Bytes
      into x = rewrite_loop flags false rest (print x ++ out)

      at_quote :
          (c == quote) ≡ true
          → rewrite_loop flags false (c ∷ backslash ∷ rest) out
            ≡ rewrite_loop flags false (quote ∷ backslash ∷ rest) out
      at_quote q = ap (λ x. rewrite_loop flags false (x ∷ backslash ∷ rest) out) (ground arith)

  pub reverse-append : (s t : Bytes) → reverse (s ++ t) ≡ reverse t ++ reverse s
  unfolding reverse
  reverse-append [] t = sym (append-nil (reverse t))
  reverse-append (c ∷ s) t =
      ap (λ xs. xs ++ c ∷ []) (reverse-append s t) ∙ append_assoc (reverse t) (reverse s) (c ∷ [])

  pub rewrite_all :
      (ts : List Token) (rest out : Bytes)
      → are_tokens ts ≡ true
      → rewrite_loop flags false (reverse (print_all ts) ++ rest) out
        ≡ rewrite_loop flags false rest (print_all (hex_all flags ts) ++ out)
  unfolding print_all hex_all reverse
  rewrite_all [] rest out h = refl
  rewrite_all (t ∷ ts) rest out h =
      ap (λ xs. rewrite_loop flags false (xs ++ rest) out) (reverse-append (print t) (print_all ts))
      ∙ ap (λ xs. rewrite_loop flags false xs out)
          (append_assoc (reverse (print_all ts)) (reverse (print t)) rest)
      ∙ rewrite_all ts (reverse (print t) ++ rest) out (ground arith)
      ∙ rewrite_token t rest (print_all (hex_all flags ts) ++ out) (ground arith)
      ∙ ap (rewrite_loop flags false rest)
          (sym (append_assoc (print (hex flags t)) (print_all (hex_all flags ts)) out))

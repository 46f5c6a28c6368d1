-- ===== src/HexEscapes/Rewrite.antt =====
-- fastjson_apply_hex_escapes of fastjson.c against the rewrite of a string's tokens.
use fastjson.Prelude.{
  ℕ, ◌+◌, ◌-◌, ◌≤◌, ◌≡◌, refl, sym, ap, ◌∙◌, Bool, true, false, ◌&&◌, ◌||◌, none, some, List, [],
  ◌∷◌, ◌++◌, Bytes, length, ltb, ◌==◌, if◌then◌else◌, arith, Bool-cases, inl, inr, length-append,
}
use fastjson.HexEscapes.{
  HexFlags, quote, is_hexed, growth_loop, rewrite_loop, reverse, apply_hex_escapes,
}
use fastjson.HexEscapes.Tokens.{
  Token, plain, escaped, unicode, are_tokens, print, print_all, hex, hex_all, growth_of, growth_all,
}
use fastjson.HexEscapes.Passes.{rewrite_all, rewrite_last, reverse-append, rewritten-safe}
use fastjson.HexEscapes.Growth.{growth_skip, growth_tokens, quote_kept}

some_inj {ℓ} : {A : Type ℓ} {x y : A} → some x ≡ some y → x ≡ y
some_inj {x = x} e = ap (λ o. elim o [ none ↦ x | some z ↦ z ]) e

-- The string as it stands in the output, with its quotes.
abbrev pub json_string : List Token → Bytes
json_string ts = quote ∷ print_all ts ++ quote ∷ []

module _ (flags : HexFlags) where
  hex_same : (t : Token) → growth_of flags t ≡ 0 → hex flags t ≡ t
  unfolding growth_of hex is_hexed
  hex_same (plain c) h = ground arith
  hex_same (escaped c) h = ground arith
  hex_same (unicode a b c d) h = refl

  hex_all_same : (ts : List Token) → growth_all flags ts ≡ 0 → hex_all flags ts ≡ ts
  unfolding growth_all hex_all
  hex_all_same [] h = refl
  hex_all_same (t ∷ ts) h =
      ap (λ x. x ∷ hex_all flags ts) (hex_same t (omega arith))
      ∙ ap (λ xs. t ∷ xs) (hex_all_same ts (omega arith))

  length-hex : (t : Token) → length (print (hex flags t)) ≡ length (print t) + growth_of flags t
  unfolding growth_of hex is_hexed
  length-hex (plain c) =
      ladder (flags.tag && c == 60) (flags.tag && c == 62) (flags.amp && c == 38)
        (flags.apos && c == 39)
      ∙ ap (λ b. 1 + (if b then 5 else 0)) (ground arith)
    where
      ladder :
          (p q r s : Bool)
          → length (
              print (
                if p
                then unicode 48 48 51 67
                else if q
                then unicode 48 48 51 69
                else if r
                then unicode 48 48 50 54
                else if s
                then unicode 48 48 50 55
                else plain c))
            ≡ 1 + (if p || q || r || s then 5 else 0)
      ladder true q r s = refl
      ladder false true r s = refl
      ladder false false true s = refl
      ladder false false false true = refl
      ladder false false false false = refl
  length-hex (escaped c) = choice (flags.quot && c == quote)
    where
      choice :
          (b : Bool)
          → length (print (if b then unicode 48 48 50 50 else escaped c)) ≡ 2 + (if b then 4 else 0)
      choice true = refl
      choice false = refl
  length-hex (unicode a b c d) = omega arith

  -- The flags lengthen the string by what the first pass counts.
  length-hex_all :
      (ts : List Token)
      → length (print_all (hex_all flags ts)) ≡ length (print_all ts) + growth_all flags ts
  unfolding print_all hex_all growth_all
  length-hex_all [] = refl
  length-hex_all (t ∷ ts) =
      let a = length-append (print (hex flags t)) (print_all (hex_all flags ts)) in
      let b = length-append (print t) (print_all ts) in
      let e = length-hex t in let i = length-hex_all ts in omega arith

  rewrite_string :
      (ts : List Token)
      → are_tokens ts ≡ true
      → rewrite_loop flags true (reverse (json_string ts)) [] ≡ json_string (hex_all flags ts)
  unfolding reverse rewrite_loop
  rewrite_string ts h =
      ap (λ xs. rewrite_loop flags true (xs ++ quote ∷ []) [])
        (reverse-append flags (print_all ts) (quote ∷ []))
      ∙ rewrite_last flags quote (reverse (print_all ts) ++ quote ∷ []) []
      ∙ ap (λ xs. rewrite_loop flags false (reverse (print_all ts) ++ quote ∷ []) (xs ++ []))
          (rewritten-safe flags quote refl)
      ∙ rewrite_all flags ts (quote ∷ []) (quote ∷ []) h
      ∙ ap (λ xs. xs ++ (print_all (hex_all flags ts) ++ quote ∷ []))
          (rewritten-safe flags quote refl)

apply_step :
    (max_len start_pos : ℕ) (flags : HexFlags) (s : Bytes) (growth : ℕ)
    → growth_loop max_len flags (length s) s 0 ≡ some growth
    → apply_hex_escapes max_len start_pos flags s ≡ (
        if growth == 0
        then some s
        else if ltb (max_len - start_pos - length s) growth
        then none
        else some (rewrite_loop flags true (reverse s) []))
unfolding apply_hex_escapes
apply_step max_len start_pos flags s growth e = rw (apply_hex_escapes, e)

counted :
    (max_len start_pos : ℕ) (flags : HexFlags) (ts : List Token)
    → are_tokens ts ≡ true
    → start_pos + length (json_string ts) + growth_all flags ts ≤ max_len
    → growth_loop max_len flags (length (json_string ts)) (json_string ts) 0
      ≡ some (growth_all flags ts)
counted max_len start_pos flags ts h l =
    growth_skip max_len flags (length (print_all ts ++ quote ∷ [])) quote
      (print_all ts ++ quote ∷ []) 0 refl (quote_kept max_len flags)
    ∙ growth_tokens max_len flags (length (print_all ts ++ quote ∷ [])) ts 0 h (omega arith)
        (omega arith)
    ∙ ap some (omega arith)

-- Where the buffer has room for the result, the HEX flags rewrite exactly the bytes that they name:
-- a string made of plain bytes and escapes becomes the string of the rewritten tokens, in which
-- `<`, `>`, `&`, `'` and an escaped quote are six-byte escapes if their flag is set, and every
-- other token stays as it is.
pub apply_hex_escapes_lem :
    (max_len start_pos : ℕ) (flags : HexFlags) (ts : List Token)
    → are_tokens ts ≡ true
    → start_pos + length (json_string ts) + growth_all flags ts ≤ max_len
    → apply_hex_escapes max_len start_pos flags (json_string ts)
      ≡ some (json_string (hex_all flags ts))
apply_hex_escapes_lem max_len start_pos flags ts h l =
    apply_step max_len start_pos flags (json_string ts) (growth_all flags ts)
      (counted max_len start_pos flags ts h l)
    ∙ elim (Bool-cases (growth_all flags ts == 0)) [
      | inl z ↦ rw z (ap (λ xs. some (json_string xs)) (sym (hex_all_same flags ts (ground arith))))
      | inr z ↦ rw (z, roomy) (ap some (rewrite_string flags ts h))
    ]
  where
    roomy : ltb (max_len - start_pos - length (json_string ts)) (growth_all flags ts) ≡ false
    roomy = ground arith

-- Under the same conditions the second pass writes exactly as many bytes as the first one counted
-- on top of the string: `write` comes to stand at the start, as the code asserts.
pub length-apply_hex_escapes :
    (max_len start_pos : ℕ) (flags : HexFlags) (ts : List Token) (growth : ℕ) (result : Bytes)
    → are_tokens ts ≡ true
    → start_pos + length (json_string ts) + growth_all flags ts ≤ max_len
    → growth_loop max_len flags (length (json_string ts)) (json_string ts) 0 ≡ some growth
    → apply_hex_escapes max_len start_pos flags (json_string ts) ≡ some result
    → length result ≡ length (json_string ts) + growth
length-apply_hex_escapes max_len start_pos flags ts growth result h l g r =
    let a = some_inj (sym (counted max_len start_pos flags ts h l) ∙ g) in
    let b = some_inj (sym (apply_hex_escapes_lem max_len start_pos flags ts h l) ∙ r) in
    sym (ap length b) ∙ length_string ∙ ap (λ n. length (json_string ts) + n) a
  where
    length_string :
        length (json_string (hex_all flags ts)) ≡ length (json_string ts) + growth_all flags ts
    length_string =
        let a = length-append (print_all (hex_all flags ts)) (quote ∷ []) in
        let b = length-append (print_all ts) (quote ∷ []) in
        let c = length-hex_all flags ts in omega arith

-- ===== src/HexEscapes.antt =====
-- fastjson_apply_hex_escapes of fastjson.c: the rewrite of a JSON string just written at the end
-- of the output buffer under the HEX_TAG, HEX_AMP, HEX_APOS and HEX_QUOT flags. The string is a
-- list of bytes. The second pass runs from its end, so it reads the reversed list and writes the
-- result in front of what is written; the index arithmetic of the shared buffer is left out.
pub mod Tokens
pub mod Passes
pub mod Growth
pub mod Rewrite
mod Examples
use fastjson.Prelude.{
  ℕ, zero, suc, ◌+◌, ◌-◌, Bool, true, false, not, ◌&&◌, ◌||◌, Option, none, some, [], ◌∷◌, ◌++◌,
  Bytes, length, drop, get_or, ltb, leb, ◌==◌, if◌then◌else◌,
}

-- The four flags of an encode call.
pub record HexFlags : Type 0 where
  pub tag : Bool
  pub amp : Bool
  pub apos : Bool
  pub quot : Bool

abbrev pub quote : ℕ
quote = 34

abbrev pub backslash : ℕ
backslash = 92

-- The bytes that are rewritten wherever they stand.
unfoldable pub is_hexed : HexFlags → ℕ → Bool
is_hexed flags c =
    flags.tag && (c == 60 || c == 62) || flags.amp && c == 38 || flags.apos && c == 39

-- The first loop, from the byte at `i` on: how much the string grows. `none` is `return false`.
-- Every round goes on by a byte at least, so the length is fuel enough.
unfoldable pub growth_loop : (max_len : ℕ) → HexFlags → ℕ → Bytes → ℕ → Option ℕ
growth_loop max_len flags zero s growth = some growth
growth_loop max_len flags (suc n) [] growth = some growth
growth_loop max_len flags (suc n) (c ∷ t) growth = elim (c == backslash && ltb 1 (length (c ∷ t))) [
  | true ↦ elim (flags.quot && get_or t 0 0 == quote) [
    | true ↦ elim (ltb (max_len - 4) growth) [
      | true ↦ none
      | false ↦ growth_loop max_len flags n (drop 1 t) (growth + 4)
    ]
    | false ↦ elim (get_or t 0 0 == 117 && ltb 5 (length (c ∷ t))) [
      | true ↦ growth_loop max_len flags n (drop 5 t) growth
      | false ↦ growth_loop max_len flags n (drop 1 t) growth
    ]
  ]
  | false ↦ elim (is_hexed flags c) [
    | true ↦ elim (ltb (max_len - 5) growth) [
      | true ↦ none
      | false ↦ growth_loop max_len flags n t (growth + 5)
    ]
    | false ↦ growth_loop max_len flags n t growth
  ]
]

-- The six bytes that stand for a rewritten one.
abbrev pub unicode_escape : ℕ → ℕ → Bytes
unicode_escape high low = 92 ∷ 117 ∷ 48 ∷ 48 ∷ high ∷ low ∷ []

-- What the second loop writes for a byte that no flag on escaped quotes concerns.
unfoldable pub rewritten : HexFlags → ℕ → Bytes
rewritten flags c =
    if flags.tag && c == 60
    then unicode_escape 51 67
    else if flags.tag && c == 62
    then unicode_escape 51 69
    else if flags.amp && c == 38
    then unicode_escape 50 54
    else if flags.apos && c == 39
    then unicode_escape 50 55
    else c ∷ []

-- The second loop. `last` says that the byte at hand is the string's last one, and `out` is what
-- is written so far.
unfoldable pub rewrite_loop : HexFlags → (last : Bool) → (reversed out : Bytes) → Bytes
rewrite_loop flags last [] out = out
rewrite_loop flags last (c ∷ []) out = rewritten flags c ++ out
rewrite_loop flags last (c ∷ b ∷ t) out =
    elim (flags.quot && c == quote && not last && b == backslash) [
      | true ↦ rewrite_loop flags false t (unicode_escape 50 50 ++ out)
      | false ↦ rewrite_loop flags false (b ∷ t) (rewritten flags c ++ out)
    ]

unfoldable pub reverse : Bytes → Bytes
reverse [] = []
reverse (c ∷ t) = reverse t ++ c ∷ []

-- `start_pos` is where the string starts in the buffer, and `max_len` is ZSTR_MAX_LEN.
unfoldable pub apply_hex_escapes : (max_len start_pos : ℕ) → HexFlags → Bytes → Option Bytes
unfolding growth_loop rewrite_loop reverse is_hexed rewritten
apply_hex_escapes max_len start_pos flags s = elim (growth_loop max_len flags (length s) s 0) [
  | none ↦ none
  | some growth ↦
      if growth == 0
      then some s
      else if ltb (max_len - start_pos - length s) growth
      then none
      else some (rewrite_loop flags true (reverse s) [])
]

-- ===== src/HexEscapes/Tokens.antt =====
-- A JSON string as fastjson.c's writer prints it, in tokens, and what the HEX flags make of it.
use fastjson.Prelude.{
  ℕ, ◌+◌, Bool, true, not, ◌&&◌, ◌||◌, List, [], ◌∷◌, ◌++◌, Bytes, ◌==◌, if◌then◌else◌,
}
use fastjson.HexEscapes.{HexFlags, quote, backslash, is_hexed}

-- A byte that stands for itself, a backslash and a byte, or `\u` and four bytes.
pub data Token : Type 0 where
  plain : ℕ → Token
  escaped : ℕ → Token
  unicode : (a b c d : ℕ) → Token

-- A plain byte is no quote and no backslash. None of the four bytes is a letter of the flags'.
abbrev pub safe : ℕ → Bool
safe c = not (c == 34) && not (c == 60) && not (c == 62) && not (c == 38) && not (c == 39)

abbrev pub is_token : Token → Bool
is_token (plain c) = not (c == quote) && not (c == backslash)
is_token (escaped c) = (c == quote || safe c) && not (c == 117)
is_token (unicode a b c d) = safe a && safe b && safe c && safe d

abbrev pub are_tokens : List Token → Bool
are_tokens [] = true
are_tokens (t ∷ ts) = is_token t && are_tokens ts

abbrev pub print : Token → Bytes
print (plain c) = c ∷ []
print (escaped c) = backslash ∷ c ∷ []
print (unicode a b c d) = backslash ∷ 117 ∷ a ∷ b ∷ c ∷ d ∷ []

unfoldable pub print_all : List Token → Bytes
print_all [] = []
print_all (t ∷ ts) = print t ++ print_all ts

-- A token under the flags.
unfoldable pub hex : HexFlags → Token → Token
hex flags (plain c) =
    if flags.tag && c == 60
    then unicode 48 48 51 67
    else if flags.tag && c == 62
    then unicode 48 48 51 69
    else if flags.amp && c == 38
    then unicode 48 48 50 54
    else if flags.apos && c == 39
    then unicode 48 48 50 55
    else plain c
hex flags (escaped c) = if flags.quot && c == quote then unicode 48 48 50 50 else escaped c
hex flags (unicode a b c d) = unicode a b c d

unfoldable pub hex_all : HexFlags → List Token → List Token
hex_all flags [] = []
hex_all flags (t ∷ ts) = hex flags t ∷ hex_all flags ts

-- How much a token grows.
unfoldable pub growth_of : HexFlags → Token → ℕ
growth_of flags (plain c) = if is_hexed flags c then 5 else 0
growth_of flags (escaped c) = if flags.quot && c == quote then 4 else 0
growth_of flags (unicode a b c d) = 0

unfoldable pub growth_all : HexFlags → List Token → ℕ
growth_all flags [] = 0
growth_all flags (t ∷ ts) = growth_of flags t + growth_all flags ts

-- ===== src/HexEscapes/Examples.antt =====
-- Runs of fastjson_apply_hex_escapes of fastjson.c.
use fastjson.Prelude.{true, none, some, List, [], ◌∷◌, ◌+◌, ◌≡◌, refl, length, arith}
use fastjson.HexEscapes.{HexFlags, is_hexed, apply_hex_escapes, growth_loop}
use fastjson.HexEscapes.Tokens.{
  Token, plain, escaped, unicode, hex, hex_all, growth_of, growth_all, print_all,
}
use fastjson.HexEscapes.Rewrite.{json_string, apply_hex_escapes_lem, length-apply_hex_escapes}

abbrev all_flags : HexFlags
all_flags = record { tag = true; amp = true; apos = true; quot = true }

-- "<\\\"a\u00e9"
abbrev sample : List Token
sample = plain 60 ∷ escaped 92 ∷ escaped 34 ∷ plain 97 ∷ unicode 48 48 101 57 ∷ []

grows_by_nine : growth_loop 1000 all_flags 14 (json_string sample) 0 ≡ some 9
unfolding growth_loop print_all is_hexed
grows_by_nine = refl

rewrites :
    apply_hex_escapes 1000 5 all_flags (json_string sample)
    ≡ some (json_string (hex_all all_flags sample))
unfolding apply_hex_escapes hex_all print_all hex
rewrites = refl

no_room : apply_hex_escapes 20 5 all_flags (json_string sample) ≡ none
unfolding apply_hex_escapes print_all
no_room = refl

apply_hex_escapes_lem_example :
    apply_hex_escapes 1000 5 all_flags (json_string sample)
    ≡ some (json_string (hex_all all_flags sample))
unfolding growth_all print_all growth_of is_hexed
apply_hex_escapes_lem_example = apply_hex_escapes_lem 1000 5 all_flags sample refl (omega arith)

length-apply_hex_escapes_example :
    length (json_string (hex_all all_flags sample)) ≡ length (json_string sample) + 9
unfolding growth_all print_all growth_of is_hexed
length-apply_hex_escapes_example =
    length-apply_hex_escapes 1000 5 all_flags sample 9 (json_string (hex_all all_flags sample)) refl
      (omega arith) grows_by_nine rewrites

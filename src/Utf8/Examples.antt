-- ===== src/Utf8/Examples.antt =====
-- Runs of the UTF-8 functions, and the theorems at concrete bytes.
use fastjson.Prelude.{◌≤◌, true, false, [], ◌∷◌, ◌++◌, ◌≡◌, ◌↔◌, refl, arith, Bytes, codes, length}
use fastjson.Utf8.{
  encode, decode, round, round4, advance, written, wants_substitute, sanitize_utf8,
  sanitize_capacity, utf8_well_formed, byte_is_valid_utf8_start,
}
use fastjson.Utf8.Table.{WellFormed, empty, next}
use fastjson.Utf8.Checks.{StartsSequence, utf8_well_formed_iff, byte_is_valid_utf8_start_iff}
use fastjson.Utf8.Sanitize.{sanitize_utf8-WellFormed, sanitize_utf8_id, sanitize_utf8_fits}

-- F0 80 80 41: an overlong lead with two trails, and an `A`.
abbrev broken : Bytes
broken = 0xF0 ∷ 0x80 ∷ 0x80 ∷ 0x41 ∷ []

-- The two bytes of `é`.
abbrev accent : Bytes
accent = 0xC3 ∷ 0xA9 ∷ []

-- The encoder's sanitizer writes one U+FFFD for the ill-formed subpart.
encode_substitutes_once : sanitize_utf8 false true encode broken ≡ 0xEF ∷ 0xBF ∷ 0xBD ∷ 0x41 ∷ []
unfolding sanitize_utf8 round round4 advance written wants_substitute
encode_substitutes_once = refl

-- The decoder's writes one for each byte.
decode_substitutes_each :
    sanitize_utf8 true true decode (0x80 ∷ 0x80 ∷ []) ≡ 0xEF ∷ 0xBF ∷ 0xBD ∷ 0xEF ∷ 0xBF ∷ 0xBD ∷ []
unfolding sanitize_utf8 round advance written wants_substitute
decode_substitutes_each = refl

encode_ignores : sanitize_utf8 true true encode broken ≡ 0x41 ∷ []
unfolding sanitize_utf8 round round4 advance written wants_substitute
encode_ignores = refl

long_ascii : utf8_well_formed (codes "0123456789" ++ accent) ≡ true
unfolding utf8_well_formed
long_ascii = refl

utf8_well_formed_iff_example : (utf8_well_formed broken ≡ true) ↔ WellFormed broken
utf8_well_formed_iff_example = utf8_well_formed_iff broken

byte_is_valid_utf8_start_iff_example :
    (byte_is_valid_utf8_start accent ≡ true) ↔ StartsSequence accent
byte_is_valid_utf8_start_iff_example = byte_is_valid_utf8_start_iff accent

sanitize_utf8-WellFormed_example : WellFormed (sanitize_utf8 true false decode broken)
sanitize_utf8-WellFormed_example = sanitize_utf8-WellFormed true false decode broken

accent-WellFormed : WellFormed accent
accent-WellFormed = next accent [] (omega arith) empty refl

sanitize_utf8_id_example : sanitize_utf8 true true decode accent ≡ accent
sanitize_utf8_id_example = sanitize_utf8_id true true decode accent-WellFormed

sanitize_utf8_fits_example :
    length (sanitize_utf8 false true encode broken) ≤ sanitize_capacity false true encode broken
sanitize_utf8_fits_example = sanitize_utf8_fits false true encode broken

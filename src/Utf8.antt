-- ===== src/Utf8.antt =====
-- UTF-8 handling of fastjson.c: fastjson_sanitize_utf8, fastjson_utf8_well_formed and
-- fastjson_byte_is_valid_utf8_start. A loop at index `i` of the buffer `s` is a function of the
-- bytes from `i` on, so `s[i]` is the head and `len - i` the length. A mask by `2^k - 1` is
-- written `% 2^k`, a shift `* 2^k`, and `|` of fields that do not overlap `+`.
pub mod Table
pub mod Steps
pub mod Checks
pub mod Sanitize
mod Examples
use fastjson.Prelude.{
  ℕ, zero, suc, ◌+◌, ◌*◌, ◌/◌, ◌%◌, Bool, true, false, not, ◌&&◌, ◌||◌, Option, none, some, [], ◌∷◌,
  ◌++◌, Bytes, length, get_or, take, drop, ltb, leb, ◌==◌, if◌then◌else◌,
}

-- FJ_UTF8_TRAIL
abbrev pub is_trail : ℕ → Bool
is_trail c = leb 0x80 c && leb c 0xBF

-- FJ_UTF8_LEAD
abbrev pub is_lead : ℕ → Bool
is_lead c = ltb c 0x80 || (leb 0xC2 c && leb c 0xF4)

-- The encode and decode rules of fj_sanitize_mode.
pub data SanitizeMode : Type 0 where
  encode decode : SanitizeMode

-- What one round of the sanitizer computes: how many bytes it looks at, and whether they are good.
pub record Round : Type 0 where
  pub adv : ℕ
  pub good : Bool

abbrev pub code_point2 : ℕ → ℕ → ℕ
code_point2 c c1 = c % 0x20 * 0x40 + c1 % 0x40

abbrev pub code_point3 : ℕ → ℕ → ℕ → ℕ
code_point3 c c1 c2 = c % 0x10 * 0x1000 + c1 % 0x40 * 0x40 + c2 % 0x40

abbrev pub code_point4 : ℕ → ℕ → ℕ → ℕ → ℕ
code_point4 c c1 c2 c3 = c % 8 * 0x40000 + c1 % 0x40 * 0x1000 + c2 % 0x40 * 0x40 + c3 % 0x40

abbrev pub bad : ℕ → Round
bad n = record { adv = n; good = false }

abbrev pub fine : ℕ → Round
fine n = record { adv = n; good = true }

-- The bodies of the branches of fastjson_sanitize_utf8's loop. `t` is what follows the byte `c`.
unfoldable pub round2 : ℕ → Bytes → Round
round2 c t =
    let c1 = get_or t 0 0 in
    if leb (length t) 0 || not (is_trail c1)
    then bad (if leb (length t) 0 || is_lead c1 then 1 else 2)
    else if ltb (code_point2 c c1) 0x80
    then bad 2
    else fine 2

unfoldable pub round3 : ℕ → Bytes → Round
round3 c t =
    let c1 = get_or t 0 0 in
    let c2 = get_or t 1 0 in
    let avail = suc (length t) in
    if ltb avail 3 || not (is_trail c1) || not (is_trail c2)
    then bad (if ltb avail 2 || is_lead c1 then 1 else if ltb avail 3 || is_lead c2 then 2 else 3)
    else if ltb (code_point3 c c1 c2) 0x800
    then bad 3
    else if leb 0xD800 (code_point3 c c1 c2) && leb (code_point3 c c1 c2) 0xDFFF
    then bad 3
    else fine 3

unfoldable pub round4 : ℕ → Bytes → Round
round4 c t =
    let c1 = get_or t 0 0 in
    let c2 = get_or t 1 0 in
    let c3 = get_or t 2 0 in
    let avail = suc (length t) in
    if ltb avail 4 || not (is_trail c1) || not (is_trail c2) || not (is_trail c3)
    then bad (
        if ltb avail 2 || is_lead c1
        then 1
        else if ltb avail 3 || is_lead c2
        then 2
        else if ltb avail 4 || is_lead c3
        then 3
        else 4)
    else if ltb (code_point4 c c1 c2 c3) 0x10000 || ltb 0x10FFFF (code_point4 c c1 c2 c3)
    then bad 4
    else fine 4

unfoldable pub round : ℕ → Bytes → Round
round c t =
    if ltb c 0x80
    then fine 1
    else if ltb c 0xC2
    then bad 1
    else if ltb c 0xE0
    then round2 c t
    else if ltb c 0xF0
    then round3 c t
    else if ltb c 0xF5
    then round4 c t
    else bad 1

-- U+FFFD, which stands for bytes that are not UTF-8 under SUBSTITUTE.
abbrev pub replacement : Bool → Bytes
replacement substitute = if substitute then 0xEF ∷ 0xBF ∷ 0xBD ∷ [] else []

-- The precedence of the two flags: encode prefers IGNORE, decode prefers SUBSTITUTE.
unfoldable pub wants_substitute : (ignore subst : Bool) → SanitizeMode → Bool
wants_substitute ignore subst decode = subst
wants_substitute ignore subst encode = subst && not ignore

-- How far the loop goes on after a round: decode goes on by one byte after bad ones.
unfoldable pub advance : SanitizeMode → Round → ℕ
advance encode r = r.adv
advance decode r = if r.good then r.adv else 1

-- What a round writes.
unfoldable pub written : Bool → Round → Bytes → Bytes
written substitute r s = if r.good then take r.adv s else replacement substitute

-- The while loop. Every round goes on by at least one byte, so the length is fuel enough.
pub sanitize_loop : ℕ → Bool → SanitizeMode → Bytes → Bytes
sanitize_loop zero substitute mode s = []
sanitize_loop (suc f) substitute mode [] = []
sanitize_loop (suc f) substitute mode (c ∷ t) =
    let r = round c t in
    written substitute r (c ∷ t) ++ sanitize_loop f substitute mode (drop (advance mode r) (c ∷ t))

unfoldable pub sanitize_utf8 : (ignore subst : Bool) → SanitizeMode → Bytes → Bytes
unfolding sanitize_loop
sanitize_utf8 ignore subst mode s =
    sanitize_loop (length s) (wants_substitute ignore subst mode) mode s

-- The bytes that fastjson_sanitize_utf8 allocates for its result.
unfoldable pub sanitize_capacity : (ignore subst : Bool) → SanitizeMode → Bytes → ℕ
sanitize_capacity ignore subst mode s =
    if wants_substitute ignore subst mode
    then length s * 3 + 1
    else if ltb 0 (length s)
    then length s
    else 1

-- `(chunk & 0x8080808080808080) == 0`: no byte of the chunk has its high bit.
unfoldable pub is_ascii : Bytes → Bool
is_ascii [] = true
is_ascii (c ∷ t) = ltb c 0x80 && is_ascii t

-- The first loop of fastjson_utf8_well_formed, eight bytes a round.
unfoldable pub skip_ascii : ℕ → Bytes → Bytes
skip_ascii zero s = s
skip_ascii (suc f) s =
    let rest = skip_ascii f (drop 8 s) in
    if leb 8 (length s) && is_ascii (take 8 s) then rest else s

-- The body of its second loop: `none` is `return false`, and `some n` is `i += n`.
unfoldable pub well_formed_round : ℕ → Bytes → Option ℕ
well_formed_round c t =
    let c1 = get_or t 0 0 in
    let c2 = get_or t 1 0 in
    let c3 = get_or t 2 0 in
    if ltb c 0x80
    then some 1
    else if ltb c 0xC2
    then none
    else if ltb c 0xE0
    then (if leb (length t) 0
        then none
        else if not (is_trail c1)
        then none
        else if ltb (code_point2 c c1) 0x80
        then none
        else some 2)
    else if ltb c 0xF0
    then (if ltb (suc (length t)) 3
        then none
        else if not (is_trail c1) || not (is_trail c2)
        then none
        else if ltb (code_point3 c c1 c2) 0x800
        then none
        else if leb 0xD800 (code_point3 c c1 c2) && leb (code_point3 c c1 c2) 0xDFFF
        then none
        else some 3)
    else if ltb c 0xF5
    then (if ltb (suc (length t)) 4
        then none
        else if not (is_trail c1) || not (is_trail c2) || not (is_trail c3)
        then none
        else if ltb (code_point4 c c1 c2 c3) 0x10000 || ltb 0x10FFFF (code_point4 c c1 c2 c3)
        then none
        else some 4)
    else none

unfoldable pub well_formed_loop : ℕ → Bytes → Bool
well_formed_loop zero s = false
well_formed_loop (suc f) [] = true
well_formed_loop (suc f) (c ∷ t) = elim (well_formed_round c t) [
  | none ↦ false
  | some n ↦ well_formed_loop f (drop n (c ∷ t))
]

unfoldable pub utf8_well_formed : Bytes → Bool
unfolding skip_ascii well_formed_loop is_ascii well_formed_round
utf8_well_formed s = well_formed_loop (suc (length s)) (skip_ascii (length s) s)

-- How many trail bytes the lead byte `c0` announces; `none` where it is no lead byte.
unfoldable pub trail_count : ℕ → Option ℕ
trail_count c0 =
    if ltb c0 0xC2
    then none
    else if ltb c0 0xE0
    then some 1
    else if ltb c0 0xF0
    then some 2
    else if ltb c0 0xF5
    then some 3
    else none

-- `(c & 0xC0) == 0x80` for the first `n` bytes of `t`.
unfoldable pub all_trail : ℕ → Bytes → Bool
all_trail zero t = true
all_trail (suc n) [] = false
all_trail (suc n) (c ∷ t) = c / 0x40 == 2 && all_trail n t

-- The range restrictions for `need` trail bytes after `c0`.
unfoldable pub in_range : ℕ → ℕ → ℕ → Bool
in_range need c0 c1 =
    if need == 2
    then not (c0 == 0xE0 && ltb c1 0xA0) && not (c0 == 0xED && leb 0xA0 c1)
    else if need == 3
    then not (c0 == 0xF0 && ltb c1 0x90) && not (c0 == 0xF4 && leb 0x90 c1)
    else true

-- fastjson_byte_is_valid_utf8_start, for the bytes from `pos` on.
unfoldable pub byte_is_valid_utf8_start : Bytes → Bool
unfolding trail_count all_trail in_range
byte_is_valid_utf8_start [] = false
byte_is_valid_utf8_start (c0 ∷ t) = if ltb c0 0x80 then true else elim (trail_count c0) [
  | none ↦ false
  | some need ↦ ltb need (suc (length t)) && all_trail need t && in_range need c0 (get_or t 0 0)
]

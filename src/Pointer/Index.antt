-- ===== src/Pointer/Index.antt =====
-- Array indexes: fj_seg_is_index of fastjson_pointer_splice.c, and the decimal digits that
-- fj_write_uint64_dec of fastjson_decode.c writes. `size_max` is the build's `(size_t)-1`.
pub mod Decimal
pub mod RoundTrip
use fastjson.Prelude.{
  ℕ, zero, suc, ◌+◌, ◌-◌, ◌*◌, ◌/◌, ◌%◌, Bool, not, ◌&&◌, ◌||◌, Option, none, some, [], ◌∷◌, Bytes,
  length, ltb, leb, ◌==◌, if◌then◌else◌,
}

abbrev pub is_digit : ℕ → Bool
is_digit c = leb b'0' c && leb c b'9'

-- The loop of fj_seg_is_index.
unfoldable pub index_loop : ℕ → Bytes → ℕ → Option ℕ
index_loop size_max [] idx = some idx
index_loop size_max (c ∷ t) idx =
    let digit = c - b'0' in
    let rest = index_loop size_max t (idx * 10 + digit) in
    if not (is_digit c) then none else if ltb ((size_max - digit) / 10) idx then none else rest

unfoldable pub seg_is_index : ℕ → Bytes → Option ℕ
unfolding index_loop
seg_is_index size_max [] = none
seg_is_index size_max (c ∷ t) =
    if ltb 19 (length (c ∷ t))
    then none
    else if c == b'0'
    then (if ltb 1 (length (c ∷ t)) then none else some 0)
    else index_loop size_max (c ∷ t) 0

-- The do-while loop of fj_write_uint64_dec: `tmp` holds the digits so far, the last first, which is
-- the order in which they are copied to the output. A 64-bit number takes 20 rounds at most.
unfoldable pub dec_loop : ℕ → ℕ → Bytes → Bytes
dec_loop zero u tmp = tmp
dec_loop (suc f) u tmp =
    let more = dec_loop f (u / 10) ((b'0' + u % 10) ∷ tmp) in
    let last = (b'0' + u % 10) ∷ tmp in if u / 10 == 0 then last else more

unfoldable pub write_uint64_dec : ℕ → Bytes
unfolding dec_loop
write_uint64_dec u = dec_loop 20 u []

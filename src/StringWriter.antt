-- ===== src/StringWriter.antt =====
-- Large JSON strings in fastjson.c and fastjson_internal.h: whether a string can be copied, its
-- exact size, chunks that end with a UTF-8 sequence, and fastjson_write_large_json_string, which
-- chooses between a copy, a copied prefix, chunks and an exact reserve. A test of a 64-bit word is
-- written as what it tests of the eight bytes.
pub mod Chunks
pub mod Large
pub mod Runs
pub mod Laws
pub mod Sizes
pub mod Rounds
pub mod Appends
pub mod Examples
use fastjson.Prelude.{
  ℕ, zero, suc, ◌+◌, ◌-◌, ◌*◌, ◌/◌, min, Bool, true, false, not, ◌&&◌, ◌||◌, Option, none, some, [],
  ◌∷◌, ◌++◌, Bytes, length, take, drop, get_or, ltb, leb, ◌==◌, if◌then◌else◌,
}
use fastjson.Utf8.{byte_is_valid_utf8_start}

-- A smart_str: its bytes, and the capacity `a` of the allocation.
pub record Buf : Type 0 where
  pub bytes : Bytes
  pub room : ℕ

-- YYJSON_WRITE_ESCAPE_SLASHES and YYJSON_WRITE_ESCAPE_UNICODE.
pub record WriteFlags : Type 0 where
  pub slashes : Bool
  pub unicode : Bool

-- What the writer takes from outside: ZSTR_MAX_LEN, the capacity that smart_str_alloc leaves when
-- a capacity has to hold a length, the estimate in floating point of how much the chunks that are
-- left need (of the bytes left, the bytes written and the bytes read), and
-- yyjson_write_string_to_buf, `none` for NULL.
pub record Env : Type 0 where
  pub max_len : ℕ
  pub grow : ℕ → ℕ → ℕ
  pub project : ℕ → ℕ → ℕ → ℕ
  pub write_string : WriteFlags → Bytes → Option Bytes

-- smart_str_alloc and smart_str_appendl
abbrev pub alloc : Env → ℕ → Buf → Buf
alloc env add buf = record { bytes = buf.bytes; room = env.grow buf.room (length buf.bytes + add) }

abbrev pub append : Env → Bytes → Buf → Buf
append env s buf = record {
  bytes = buf.bytes ++ s;
  room = env.grow buf.room (length buf.bytes + length s);
}

-- Bytes written into reserved room, where ZSTR_LEN is set behind them.
abbrev pub put : Bytes → Buf → Buf
put s buf = record { bytes = buf.bytes ++ s; room = buf.room }

-- fj_string_size_status
pub data SizeStatus : Type 0 where
  fits invalid too_large : SizeStatus

abbrev pub quote : ℕ
quote = b'"'

abbrev pub threshold : ℕ
threshold = 8 * 1024

abbrev pub always : ℕ
always = 256 * 1024

abbrev pub nonascii_threshold : ℕ
nonascii_threshold = 8 * 1024 * 1024

abbrev pub chunk_size : ℕ
chunk_size = 2048

-- fastjson_string_wants_sized_writer
unfoldable pub wants_sized_writer : Buf → ℕ → Bool
wants_sized_writer buf len =
    if ltb len threshold
    then false
    else if leb always len
    then true
    else ltb buf.room (length buf.bytes) || leb (buf.room - length buf.bytes) (len * 6 + 2)

-- fastjson_ascii_byte_needs_escape, and fastjson_ascii_word_needs_escape of the bytes of a word.
unfoldable pub byte_needs_escape : WriteFlags → ℕ → Bool
byte_needs_escape flags c =
    ltb c 0x20 || leb 0x80 c || c == quote || c == b'\\' || c == b'/' && flags.slashes

unfoldable pub word_needs_escape : WriteFlags → Bytes → Bool
word_needs_escape flags [] = false
word_needs_escape flags (c ∷ t) = byte_needs_escape flags c || word_needs_escape flags t

-- How far a loop over bytes goes that stops at the first one that needs an escape.
unfoldable pub plain_run : WriteFlags → Bytes → ℕ
plain_run flags [] = 0
plain_run flags (c ∷ t) = if byte_needs_escape flags c then 0 else suc (plain_run flags t)

-- fastjson_string_is_copyable_ascii from `pos` on: the result and `*prefix_len`. The length is
-- fuel enough for the rounds over words.
unfoldable pub copyable_loop : ℕ → WriteFlags → (len pos : ℕ) → Bytes → Bool × ℕ
copyable_loop zero flags len pos s = (plain_run flags s == length s, pos + plain_run flags s)
copyable_loop (suc n) flags len pos s = elim (leb 8 (length s)) [
  | false ↦ (plain_run flags s == length s, pos + plain_run flags s)
  | true ↦ elim (word_needs_escape flags (take 8 s)) [
    | true ↦ (false, if leb (len - len / 8) pos then pos + plain_run flags s else pos)
    | false ↦ copyable_loop n flags len (pos + 8) (drop 8 s)
  ]
]

unfoldable pub string_is_copyable_ascii : WriteFlags → Bytes → Bool × ℕ
unfolding copyable_loop plain_run word_needs_escape byte_needs_escape
string_is_copyable_ascii flags s = copyable_loop (length s) flags (length s) 0 s

-- The exact size of the written string, and whether it can be copied.
pub data Sized : Type 0 where
  sized : ℕ → Bool → Sized
  unsized : SizeStatus → Sized

-- How many bytes the byte `c` at the head of `s` goes on by, and how many it is written as.
unfoldable pub size_advance : ℕ → ℕ
size_advance c = if ltb c 0x80 then 1 else if ltb c 0xE0 then 2 else if ltb c 0xF0 then 3 else 4

abbrev pub has_short_escape : ℕ → Bool
has_short_escape c = c == 8 || c == 9 || c == 10 || c == 12 || c == 13

unfoldable pub size_add : WriteFlags → ℕ → ℕ
unfolding size_advance
size_add flags c =
    if ltb c 0x20
    then (if has_short_escape c then 2 else 6)
    else if c == quote || c == b'\\' || c == b'/' && flags.slashes
    then 2
    else if ltb c 0x80
    then 1
    else if flags.unicode
    then (if size_advance c == 4 then 12 else 6)
    else size_advance c

-- The loop of fastjson_json_string_size. Every round goes on by a byte at least.
unfoldable pub size_loop : ℕ → ℕ → WriteFlags → Bytes → ℕ → Bool → Sized
size_loop max_len fuel flags [] size copyable = sized size copyable
size_loop max_len zero flags (c ∷ t) size copyable = unsized invalid
size_loop max_len (suc n) flags (c ∷ t) size copyable =
    elim (leb 0x80 c && not (byte_is_valid_utf8_start (c ∷ t))) [
      | true ↦ unsized invalid
      | false ↦ elim (ltb (max_len - size) (size_add flags c)) [
        | true ↦ unsized too_large
        | false ↦
            size_loop max_len n flags (drop (size_advance c) (c ∷ t)) (size + size_add flags c)
              (copyable && not (byte_needs_escape flags c))
      ]
    ]

unfoldable pub json_string_size : ℕ → WriteFlags → Bytes → Sized
unfolding size_loop size_add size_advance
json_string_size max_len flags s =
    let (copyable, prefix) = string_is_copyable_ascii flags s in
    if copyable
    then (if ltb (max_len - 2) (length s) then unsized too_large else sized (length s + 2) true)
    else size_loop max_len (length s) flags s 2 true

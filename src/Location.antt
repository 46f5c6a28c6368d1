-- ===== src/Location.antt =====
-- fastjson_locate_ascii_pos of fastjson.c: the line and the column of a byte offset, for the
-- location of a read error. The bytes from `start` up to `pos` are a list. The word tests are
-- written as what they test of the eight bytes: `word & highs` that one has its high bit, and the
-- test on `x` that one is a newline.
pub mod Rounds
pub mod Lines
mod Examples
use fastjson.Prelude.{
  ℕ, zero, suc, ◌+◌, ◌-◌, Bool, true, false, not, ◌&&◌, ◌||◌, Option, none, some, [], ◌∷◌, Bytes,
  length, take, drop, get_or, ltb, leb, ◌==◌, if◌then◌else◌,
}
use fastjson.Utf8.{is_ascii}

abbrev pub newline : ℕ
newline = 10

-- `line_count` and `line_start`.
pub record Scan : Type 0 where
  pub line_count : ℕ
  pub line_start : ℕ

-- A byte at `i` is a newline, or not.
abbrev pub scan_byte : ℕ → ℕ → Scan → Scan
scan_byte i c st =
    if c == newline then record { line_count = suc st.line_count; line_start = suc i } else st

-- The loop over the bytes of a word.
unfoldable pub scan_word : ℕ → Bytes → Scan → Scan
scan_word i [] st = st
scan_word i (c ∷ t) st = scan_word (suc i) t (scan_byte i c st)

unfoldable pub has_newline : Bytes → Bool
has_newline [] = false
has_newline (c ∷ t) = c == newline || has_newline t

-- The second loop; `none` is `return false`.
unfoldable pub scan_bytes : ℕ → Bytes → Scan → Option Scan
scan_bytes i [] st = some st
scan_bytes i (c ∷ t) st = elim (leb 0x80 c) [
  | true ↦ none
  | false ↦ scan_bytes (suc i) t (scan_byte i c st)
]

-- The first loop, eight bytes a round, and the second one after it. The number of bytes is fuel
-- enough.
unfoldable pub scan_words : ℕ → ℕ → Bytes → Scan → Option Scan
scan_words zero i s st = scan_bytes i s st
scan_words (suc n) i s st = elim (leb 8 (length s)) [
  | false ↦ scan_bytes i s st
  | true ↦ elim (is_ascii (take 8 s)) [
    | false ↦ none
    | true ↦ elim (has_newline (take 8 s)) [
      | true ↦ scan_words n (i + 8) (drop 8 s) (scan_word i (take 8 s) st)
      | false ↦ scan_words n (i + 8) (drop 8 s) st
    ]
  ]
]

-- A byte order mark is no part of the first line.
unfoldable pub locate_start : Bytes → ℕ → ℕ
locate_start json pos =
    if leb 3 pos && get_or json 0 0 == 0xEF && get_or json 1 0 == 0xBB && get_or json 2 0 == 0xBF
    then 3
    else 0

-- A line and a column, from 1 on.
pub record Place : Type 0 where
  pub line : ℕ
  pub col : ℕ

unfoldable pub locate_ascii_pos : Bytes → ℕ → Option Place
unfolding scan_words scan_bytes scan_word has_newline locate_start
locate_ascii_pos json pos =
    let start = locate_start json pos in
    elim (scan_words pos start (drop start (take pos json))
      (record { line_count = 0; line_start = start })) [
        | none ↦ none
        | some st ↦ some (record { line = st.line_count + 1; col = pos - st.line_start + 1 })
      ]

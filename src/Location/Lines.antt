-- ===== src/Location/Lines.antt =====
-- The line and the column that fastjson.c's fastjson_locate_ascii_pos finds, counted one byte
-- after the other.
use fastjson.Prelude.{
  ℕ, suc, ◌+◌, ◌-◌, ◌≤◌, ◌≡◌, refl, ap, ◌∙◌, Bool, true, false, ◌&&◌, Option, none, some, [], ◌∷◌,
  Bytes, length, take, drop, ltb, ◌==◌, zero, if◌then◌else◌, arith, Bool-cases, inl, inr,
  length-drop, length-take,
}
use fastjson.Utf8.{is_ascii}
use fastjson.Location.{newline, Scan, scan_byte, scan_word, locate_start, Place, locate_ascii_pos}
use fastjson.Location.Rounds.{reached, byte_newline, byte_other, scan_words_lem}

-- How many newlines some bytes have, and how many bytes stand behind the last one, or behind
-- `col` others of the same line.
unfoldable pub newlines : Bytes → ℕ
newlines [] = 0
newlines (c ∷ t) = if c == b'\n' then suc (newlines t) else newlines t

unfoldable pub column : ℕ → Bytes → ℕ
column col [] = col
column col (c ∷ t) = if c == b'\n' then column 0 t else column (suc col) t

-- What stands behind a prefix, where a text has that prefix.
unfoldable pub behind : (prefix s : Bytes) → Option Bytes
behind [] s = some s
behind (p ∷ ps) [] = none
behind (p ∷ ps) (c ∷ t) = if p == c then behind ps t else none

-- U+FEFF in UTF-8.
abbrev pub byte_order_mark : Bytes
byte_order_mark = 0xEF ∷ 0xBB ∷ 0xBF ∷ []

abbrev or_whole : Bytes → Option Bytes → Bytes
or_whole s none = s
or_whole s (some t) = t

-- A text without the byte order mark that it may start with.
unfoldable pub unmarked : Bytes → Bytes
unfolding behind
unmarked s = or_whole s (behind byte_order_mark s)

-- No byte has its high bit.
unfoldable pub all_below_128 : Bytes → Bool
all_below_128 [] = true
all_below_128 (c ∷ t) = ltb c 128 && all_below_128 t

-- What the scan adds up to.
line_count_lem :
    (i : ℕ) (s : Bytes) (st : Scan) → (scan_word i s st).line_count ≡ st.line_count + newlines s
unfolding scan_word newlines
line_count_lem i [] st = omega arith
line_count_lem i (c ∷ t) st =
    let e = line_count_lem (suc i) t (scan_byte i c st) in e ∙ one (c == newline)
  where
    one :
        (b : Bool)
        → (if b
              then record { line_count = suc st.line_count; line_start = suc i }
              else st).line_count
            + newlines t
          ≡ st.line_count + (if b then suc (newlines t) else newlines t)
    one true = omega arith
    one false = refl

line_start_lem :
    (i col : ℕ) (s : Bytes) (st : Scan)
    → st.line_start + col ≡ i
    → (scan_word i s st).line_start + column col s ≡ i + length s
unfolding scan_word column
line_start_lem i col [] st h = omega arith
line_start_lem i col (c ∷ t) st h = elim (Bool-cases (c == newline)) [
  | inl e ↦
      ap (λ n. (scan_word (suc i) t (scan_byte i c st)).line_start + n) (column_newline e)
      ∙ line_start_lem (suc i) 0 t (scan_byte i c st)
          (ap (λ x. x.line_start + 0) (byte_newline i c st e) ∙ omega arith)
      ∙ omega arith
  | inr e ↦
      ap (λ n. (scan_word (suc i) t (scan_byte i c st)).line_start + n) (column_other e)
      ∙ line_start_lem (suc i) (suc col) t (scan_byte i c st)
          (ap (λ x. x.line_start + suc col) (byte_other i c st e) ∙ omega arith)
      ∙ omega arith
]
  where
    column_newline : (c == newline) ≡ true → column col (c ∷ t) ≡ column 0 t
    column_newline e = rw e

    column_other : (c == newline) ≡ false → column col (c ∷ t) ≡ column (suc col) t
    column_other e = rw e

-- The text of the lines in front of `pos`, without a byte order mark.
abbrev pub line_text : Bytes → ℕ → Bytes
line_text json pos = unmarked (take pos json)

is_ascii_lem : (s : Bytes) → is_ascii s ≡ all_below_128 s
unfolding is_ascii all_below_128
is_ascii_lem [] = refl
is_ascii_lem (c ∷ t) = ap (λ b. ltb c 128 && b) (is_ascii_lem t)

-- What the code cuts off is the mark.
start_text :
    (json : Bytes) (pos : ℕ) → drop (locate_start json pos) (take pos json) ≡ line_text json pos
unfolding locate_start unmarked
start_text [] zero = ground arith
start_text [] (suc n) = ground arith
start_text (a ∷ []) zero = ground arith
start_text (a ∷ []) (suc zero) = ground arith
start_text (a ∷ []) (suc (suc n)) = ground arith
start_text (a ∷ b ∷ []) zero = ground arith
start_text (a ∷ b ∷ []) (suc zero) = ground arith
start_text (a ∷ b ∷ []) (suc (suc zero)) = ground arith
start_text (a ∷ b ∷ []) (suc (suc (suc n))) = ground arith
start_text (a ∷ b ∷ c ∷ t) zero = ground arith
start_text (a ∷ b ∷ c ∷ t) (suc zero) = ground arith
start_text (a ∷ b ∷ c ∷ t) (suc (suc zero)) = ground arith
start_text (a ∷ b ∷ c ∷ t) (suc (suc (suc n))) = ground arith

locate_start_fits : (json : Bytes) (pos : ℕ) → locate_start json pos ≤ pos
unfolding locate_start
locate_start_fits json pos = ground arith

abbrev place_at : ℕ → ℕ → Place
place_at lines cols = record { line = lines + 1; col = cols + 1 }

place_of : Option Scan → ℕ → Option Place
place_of o pos = elim o [
  | none ↦ none
  | some st ↦ some (record { line = st.line_count + 1; col = pos - st.line_start + 1 })
]

-- The location of an offset in a document is one more than the number of newlines in front of it
-- and one more than the number of bytes after the last of them, the bytes of a byte order mark at
-- the start of the document aside where all three stand in front of the offset, where the bytes
-- counted are ASCII; where they are not, the function reports no location. The eight-byte rounds
-- and the skipped words do not change it.
pub locate_ascii_pos_lem :
    (json : Bytes) (pos : ℕ)
    → pos ≤ length json
    → locate_ascii_pos json pos ≡ (
        if all_below_128 (line_text json pos)
        then some (record {
          line = newlines (line_text json pos) + 1;
          col = column 0 (line_text json pos) + 1;
        })
        else none)
unfolding locate_ascii_pos place_of
locate_ascii_pos_lem json pos h =
    ap (λ o. place_of o pos) (scan_words_lem pos start text first)
    ∙ by_cases (is_ascii text)
    ∙ ap (λ p. if is_ascii text then some p else none) place
    ∙ ap located (start_text json pos)
    ∙ ap (λ b. if b then some (counted (line_text json pos)) else none)
        (is_ascii_lem (line_text json pos))
  where
    start : ℕ
    start = locate_start json pos

    text : Bytes
    text = drop (locate_start json pos) (take pos json)

    first : Scan
    first = record { line_count = 0; line_start = start }

    last : Scan
    last = scan_word start text first

    counted : Bytes → Place
    counted s = place_at (newlines s) (column 0 s)

    located : Bytes → Option Place
    located s = if is_ascii s then some (counted s) else none

    by_cases :
        (b : Bool)
        → place_of (reached b last) pos ≡ (
            if b
            then some (record { line = last.line_count + 1; col = pos - last.line_start + 1 })
            else none)
    by_cases true = refl
    by_cases false = refl

    col_lem : pos - last.line_start ≡ column 0 text
    col_lem =
        let a = line_start_lem start 0 text first (omega arith) in
        let b = length-drop start (take pos json) in
        let c = length-take pos json h in let d = locate_start_fits json pos in omega arith

    place :
        place_at last.line_count (pos - last.line_start) ≡ place_at (newlines text) (column 0 text)
    place =
        ap (λ n. place_at n (pos - last.line_start)) (line_count_lem start text first ∙ omega arith)
        ∙ ap (place_at (newlines text)) col_lem

-- ===== src/Location/Rounds.antt =====
-- The two loops of fastjson_locate_ascii_pos in fastjson.c: eight bytes at a time or one.
use fastjson.Prelude.{
  ℕ, zero, suc, ◌+◌, ◌≡◌, refl, sym, ap, ◌∙◌, Bool, true, false, ◌&&◌, Option, none, some, [], ◌∷◌,
  ◌++◌, Bytes, length, take, drop, ltb, leb, ◌==◌, if◌then◌else◌, arith, Bool-cases, inl, inr,
  length-take,
}
use fastjson.Utf8.{is_ascii}
use fastjson.Location.{newline, Scan, scan_byte, scan_word, has_newline, scan_bytes, scan_words}

abbrev pub reached : Bool → Scan → Option Scan
reached true st = some st
reached false st = none

pub byte_newline :
    (i c : ℕ) (st : Scan)
    → (c == newline) ≡ true
    → scan_byte i c st ≡ record { line_count = suc st.line_count; line_start = suc i }
byte_newline i c st h = rw h

pub byte_other : (i c : ℕ) (st : Scan) → (c == newline) ≡ false → scan_byte i c st ≡ st
byte_other i c st h = rw h

bytes_high : (i c : ℕ) (t : Bytes) (st : Scan) → leb 0x80 c ≡ true → scan_bytes i (c ∷ t) st ≡ none
unfolding scan_bytes
bytes_high i c t st h = rw (scan_bytes, h)

bytes_low :
    (i c : ℕ) (t : Bytes) (st : Scan)
    → leb 0x80 c ≡ false
    → scan_bytes i (c ∷ t) st ≡ scan_bytes (suc i) t (scan_byte i c st)
unfolding scan_bytes
bytes_low i c t st h = rw (scan_bytes, h)

scan_bytes_lem :
    (i : ℕ) (s : Bytes) (st : Scan) → scan_bytes i s st ≡ reached (is_ascii s) (scan_word i s st)
unfolding is_ascii scan_word
scan_bytes_lem i [] st = unfold scan_bytes in refl
scan_bytes_lem i (c ∷ t) st = elim (Bool-cases (leb 0x80 c)) [
  | inl h ↦ bytes_high i c t st h ∙ ap into (not_ascii h)
  | inr h ↦
      bytes_low i c t st h ∙ scan_bytes_lem (suc i) t (scan_byte i c st) ∙ ap into (still_ascii h)
]
  where
    into : Bool → Option Scan
    into b = reached b (scan_word (suc i) t (scan_byte i c st))

    not_ascii : leb 0x80 c ≡ true → false ≡ ltb c 0x80 && is_ascii t
    not_ascii h = ground arith

    still_ascii : leb 0x80 c ≡ false → is_ascii t ≡ ltb c 0x80 && is_ascii t
    still_ascii h = ground arith

scan_word-append :
    (i : ℕ) (s t : Bytes) (st : Scan)
    → scan_word i (s ++ t) st ≡ scan_word (i + length s) t (scan_word i s st)
unfolding scan_word
scan_word-append i [] t st = ap (λ n. scan_word n t st) (omega arith)
scan_word-append i (c ∷ s) t st =
    scan_word-append (suc i) s t (scan_byte i c st)
    ∙ ap (λ n. scan_word n t (scan_word (suc i) s (scan_byte i c st))) (omega arith)

-- A word without a newline changes nothing.
scan_word-has_newline :
    (i : ℕ) (s : Bytes) (st : Scan) → has_newline s ≡ false → scan_word i s st ≡ st
unfolding scan_word has_newline
scan_word-has_newline i [] st h = refl
scan_word-has_newline i (c ∷ t) st h =
    ap (scan_word (suc i) t) (skips (c == newline) (ground arith))
    ∙ scan_word-has_newline (suc i) t st (ground arith)
  where
    skips :
        (b : Bool)
        → b ≡ false
        → (if b then record { line_count = suc st.line_count; line_start = suc i } else st) ≡ st
    skips true e = absurd (ground arith)
    skips false e = refl

is_ascii-append : (s t : Bytes) → is_ascii (s ++ t) ≡ is_ascii s && is_ascii t
unfolding is_ascii
is_ascii-append [] t = refl
is_ascii-append (c ∷ s) t = let i = is_ascii-append s t in ground arith

take-drop : (n : ℕ) (s : Bytes) → take n s ++ drop n s ≡ s
take-drop zero s = refl
take-drop (suc n) [] = refl
take-drop (suc n) (c ∷ t) = ap (λ xs. c ∷ xs) (take-drop n t)

words_short :
    (n i : ℕ) (s : Bytes) (st : Scan)
    → leb 8 (length s) ≡ false
    → scan_words (suc n) i s st ≡ scan_bytes i s st
unfolding scan_words
words_short n i s st h = rw (scan_words, h)

words_high :
    (n i : ℕ) (s : Bytes) (st : Scan)
    → leb 8 (length s) ≡ true
    → is_ascii (take 8 s) ≡ false
    → scan_words (suc n) i s st ≡ none
unfolding scan_words
words_high n i s st h a = rw (scan_words, h, a)

words_lines :
    (n i : ℕ) (s : Bytes) (st : Scan)
    → leb 8 (length s) ≡ true
    → is_ascii (take 8 s) ≡ true
    → has_newline (take 8 s) ≡ true
    → scan_words (suc n) i s st ≡ scan_words n (i + 8) (drop 8 s) (scan_word i (take 8 s) st)
unfolding scan_words
words_lines n i s st h a l = rw (scan_words, h, a, l)

words_plain :
    (n i : ℕ) (s : Bytes) (st : Scan)
    → leb 8 (length s) ≡ true
    → is_ascii (take 8 s) ≡ true
    → has_newline (take 8 s) ≡ false
    → scan_words (suc n) i s st ≡ scan_words n (i + 8) (drop 8 s) st
unfolding scan_words
words_plain n i s st h a l = rw (scan_words, h, a, l)

-- Eight bytes at a time give what one byte at a time gives.
pub scan_words_lem :
    (n i : ℕ) (s : Bytes) (st : Scan)
    → scan_words n i s st ≡ reached (is_ascii s) (scan_word i s st)
scan_words_lem zero i s st = unfold scan_words in scan_bytes_lem i s st
scan_words_lem (suc n) i s st = elim (Bool-cases (leb 8 (length s))) [
  | inr h ↦ words_short n i s st h ∙ scan_bytes_lem i s st
  | inl h ↦ elim (Bool-cases (is_ascii (take 8 s))) [
    | inr a ↦
        words_high n i s st h a ∙ ap (λ b. reached b (scan_word i s st)) (sym (halves false a))
    | inl a ↦ elim (Bool-cases (has_newline (take 8 s))) [
      | inl l ↦
          words_lines n i s st h a l
          ∙ rest h a (scan_words_lem n (i + 8) (drop 8 s) (scan_word i (take 8 s) st))
      | inr l ↦
          words_plain n i s st h a l
          ∙ ap (scan_words n (i + 8) (drop 8 s)) (sym (scan_word-has_newline i (take 8 s) st l))
          ∙ rest h a (scan_words_lem n (i + 8) (drop 8 s) (scan_word i (take 8 s) st))
    ]
  ]
]
  where
    halves : (b : Bool) → is_ascii (take 8 s) ≡ b → is_ascii s ≡ b && is_ascii (drop 8 s)
    halves b a =
        ap is_ascii (sym (take-drop 8 s))
        ∙ is_ascii-append (take 8 s) (drop 8 s)
        ∙ ap (λ x. x && is_ascii (drop 8 s)) a

    joined :
        leb 8 (length s) ≡ true
        → scan_word (i + 8) (drop 8 s) (scan_word i (take 8 s) st) ≡ scan_word i s st
    joined h =
        ap (λ k. scan_word (i + k) (drop 8 s) (scan_word i (take 8 s) st))
          (sym (length-take 8 s (ground arith)))
        ∙ sym (scan_word-append i (take 8 s) (drop 8 s) st)
        ∙ ap (λ x. scan_word i x st) (take-drop 8 s)

    rest :
        leb 8 (length s) ≡ true
        → is_ascii (take 8 s) ≡ true
        → scan_words n (i + 8) (drop 8 s) (scan_word i (take 8 s) st)
          ≡ reached (is_ascii (drop 8 s)) (scan_word (i + 8) (drop 8 s) (scan_word i (take 8 s) st))
        → scan_words n (i + 8) (drop 8 s) (scan_word i (take 8 s) st)
          ≡ reached (is_ascii s) (scan_word i s st)
    rest h a ih =
        ih
        ∙ ap (λ b. reached b (scan_word (i + 8) (drop 8 s) (scan_word i (take 8 s) st)))
            (sym (halves true a))
        ∙ ap (reached (is_ascii s)) (joined h)

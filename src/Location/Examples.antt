-- ===== src/Location/Examples.antt =====
-- Runs of fastjson_locate_ascii_pos of fastjson.c.
use fastjson.Prelude.{none, some, [], ◌∷◌, ◌+◌, ◌≡◌, refl, Bytes, arith, if◌then◌else◌}
use fastjson.Utf8.{is_ascii}
use fastjson.Location.{locate_ascii_pos}
use fastjson.Location.Lines.{line_text, all_below_128, newlines, column, locate_ascii_pos_lem}

-- A byte order mark, then `[1,2,3,4,`, a newline, `5`, a newline and `6]`.
abbrev document : Bytes
document =
    0xEF ∷ 0xBB ∷ 0xBF ∷ 91 ∷ 49 ∷ 44 ∷ 50 ∷ 44 ∷ 51 ∷ 44 ∷ 52 ∷ 44 ∷ 10 ∷ 53 ∷ 10 ∷ 54 ∷ 93 ∷ []

third_line : locate_ascii_pos document 16 ≡ some (record { line = 3; col = 2 })
unfolding locate_ascii_pos is_ascii
third_line = refl

locate_ascii_pos_lem_example : locate_ascii_pos document 16 ≡ (
    if all_below_128 (line_text document 16)
    then some (record {
      line = newlines (line_text document 16) + 1;
      col = column 0 (line_text document 16) + 1;
    })
    else none)
locate_ascii_pos_lem_example = locate_ascii_pos_lem document 16 (omega arith)

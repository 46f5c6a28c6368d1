-- ===== src/Splice/Containers.antt =====
-- Strings, separators and brackets of the splice writer of fastjson_pointer_splice.c: each appends
-- bytes, and a bracket moves the indentation.
use fastjson.Prelude.{
  ℕ, suc, ◌+◌, ◌*◌, ◌/◌, ◌-◌, Bool, true, false, Option, none, some, [], ◌∷◌, ◌++◌, Bytes, length,
  take, drop, ltb, ◌≡◌, refl, sym, ap, ◌∙◌, arith, if◌then◌else◌, append-nil, take-append,
}
use fastjson.StringWriter.{Buf, put, SizeStatus, fits, invalid, wants_sized_writer}
use fastjson.StringWriter.Large.{write_large_json_string}
use fastjson.StringWriter.Laws.{WriterLaws, Outcome}
use fastjson.StringWriter.Appends.{write_large_json_string_lem}
use fastjson.HexEscapes.{apply_hex_escapes}
use fastjson.Pointer.{too_large}
use fastjson.Splice.{
  Setting, Ctx, Written, Writer, and_then, ◌>>◌, done, ok, stop, fail_if, reserve, text,
  newline_indent, splice_hex_escapes, put_rewritten, put_sized, put_string, write_string, has_hex,
  rewritten_buf,
}
use fastjson.Splice.Full.{separator, colon, open_bracket, close_bracket, indent_by}
use fastjson.Splice.Steps.{success}
use fastjson.Splice.Moves.{
  After, Moves, same_indent, After-trans, After-self, ok-Moves, then-Moves, done-Moves, if-Moves,
  text-Moves, reserve-Moves, newline-Moves,
}

module _ (s : Setting) where
  -- The rewrite of the string behind the bytes of `c`.
  hex-After :
      (c d e : Ctx)
      → After same_indent c d
      → success (splice_hex_escapes s (length c.buf.bytes) d) ≡ some e
      → After same_indent c e
  unfolding splice_hex_escapes
  hex-After c d e a h =
      choose (has_hex s)
        (apply_hex_escapes s.env.max_len (length c.buf.bytes) s.hex
          (drop (length c.buf.bytes) d.buf.bytes))
        h
    where
      kept :
          (t w : Bytes)
          → d.buf.bytes ≡ c.buf.bytes ++ t
          → take (length c.buf.bytes) d.buf.bytes ++ w ≡ c.buf.bytes ++ w
      kept t w e' =
          ap (λ x. take (length c.buf.bytes) x ++ w) e'
          ∙ ap (λ x. x ++ w) (take-append c.buf.bytes t)

      rewritten :
          (w : Bytes)
          → After same_indent c d
          → success (put_rewritten s (length c.buf.bytes) (some w) d) ≡ some e
          → After same_indent c e
      rewritten w ((t, b), i, st, se) =
          ok-Moves same_indent c (record d { buf = rewritten_buf s (length c.buf.bytes) w d.buf }) e
            ((w, kept t w b), i, st, se)

      choose :
          (x : Bool) (o : Option Bytes)
          → success (if x then put_rewritten s (length c.buf.bytes) o d else ok d) ≡ some e
          → After same_indent c e
      choose true none p = absurd (cc p)
      choose true (some w) p = rewritten w a p
      choose false o p = ok-Moves same_indent c d e a p

  module _ (laws : WriterLaws s.env s.yflags) where
    sized-After :
        (t : Bytes) (c e : Ctx) (x : SizeStatus × Buf)
        → Outcome s.env s.yflags t c.buf.bytes x
        → success (put_sized s (length c.buf.bytes) x c) ≡ some e
        → After same_indent c e
    unfolding put_sized
    sized-After t c e (fits, buf) (w, h, b) p =
        hex-After c (record c { buf = buf }) e ((w, b), refl, refl, refl) p
    sized-After t c e (invalid, buf) o p = absurd (cc p)
    sized-After t c e (SizeStatus.too_large, buf) o p = absurd (cc p)

    put-After :
        (c d e : Ctx) (o : Option Bytes)
        → After same_indent c d
        → success (put_string s (length c.buf.bytes) o d) ≡ some e
        → After same_indent c e
    unfolding put_string
    put-After c d e none a p = absurd (cc p)
    put-After c d e (some w) a p =
        hex-After c (record d { buf = put w d.buf }) e
          (After-trans same_indent same_indent c d (record d { buf = put w d.buf }) a
            ((w, refl), refl, refl, refl))
          p

    one_pass :
        (n : ℕ) (o : Option Bytes) (b : Bool) (c e : Ctx)
        → success ((fail_if b too_large >> reserve s n >> put_string s (length c.buf.bytes) o) c)
          ≡ some e
        → After same_indent c e
    one_pass n o true c e p = absurd (cc p)
    one_pass n o false c e p = go (reserve s n c) (reserve-Moves s n c) p
      where
        go :
            (x : Written)
            → ((d : Ctx) → success x ≡ some d → After same_indent c d)
            → success (and_then x (put_string s (length c.buf.bytes) o)) ≡ some e
            → After same_indent c e
        go (ok d) h q = put-After c d e o (h d refl) q
        go (stop d) h q = absurd (cc q)

    pub string-Moves : (t : Bytes) → Moves same_indent (write_string s t)
    unfolding write_string
    string-Moves t c e = choose (wants_sized_writer c.buf (length t))
      where
        choose :
            (b : Bool)
            → success (
                if b
                then put_sized s
                    (length c.buf.bytes)
                    (write_large_json_string s.env s.yflags t c.buf)
                    c
                else (fail_if (ltb ((s.env.max_len - 2) / 6) (length t)) too_large
                      >> reserve s (length t * 6 + 2)
                      >> put_string s (length c.buf.bytes) (s.env.write_string s.yflags t))
                    c)
              ≡ some e
            → After same_indent c e
        choose true =
            sized-After t c e (write_large_json_string s.env s.yflags t c.buf)
              (write_large_json_string_lem s.env s.yflags laws t c.buf)
        choose false =
            one_pass (length t * 6 + 2) (s.env.write_string s.yflags t)
              (ltb ((s.env.max_len - 2) / 6) (length t)) c e

    pub separator-Moves : (first : Bool) → Moves same_indent (separator s first)
    unfolding separator
    separator-Moves first c =
        then-Moves same_indent same_indent (if first then done else text s (b',' ∷ []))
          (if s.pretty then newline_indent s else done) (comma first)
          (if-Moves s.pretty (newline_indent s) (newline-Moves s)) c
      where
        comma : (b : Bool) → Moves same_indent (if b then done else text s (b',' ∷ []))
        comma true = done-Moves
        comma false = text-Moves s (b',' ∷ [])

    pub colon-Moves : Moves same_indent (colon s)
    unfolding colon
    colon-Moves c =
        then-Moves same_indent same_indent (text s (b':' ∷ []))
          (if s.pretty then text s (b' ' ∷ []) else done) (text-Moves s (b':' ∷ []))
          (if-Moves s.pretty (text s (b' ' ∷ [])) (text-Moves s (b' ' ∷ []))) c

    abbrev step : Bool → (ℕ → ℕ) → ℕ → ℕ
    step b f n = if b then f n else n

    pub indent-Moves : (b : Bool) (f : ℕ → ℕ) → Moves (step b f) (indent_by b f)
    indent-Moves true f c d p =
        ok-Moves f c (record c { indent = f c.indent }) d
          (([], sym (append-nil c.buf.bytes)), refl, refl, refl) p
    indent-Moves false f c d p = ok-Moves same_indent c c d (After-self c) p

    pub bracketed-Moves :
        (front back : ℕ) (b : Bool) (m : Writer)
        → Moves same_indent m
        → Moves same_indent (open_bracket s front b >> m >> close_bracket s back b)
    unfolding open_bracket close_bracket
    bracketed-Moves front back b m h c d p = level (
        then-Moves (step b suc) (step b (λ n. n - 1)) (open_bracket s front b)
          (m >> close_bracket s back b) opened
          (then-Moves same_indent (step b (λ n. n - 1)) m (close_bracket s back b) h closed) c d p)
      where
        opened : Moves (step b suc) (open_bracket s front b)
        opened =
            then-Moves same_indent (step b suc) (text s (front ∷ [])) (indent_by b suc)
              (text-Moves s (front ∷ [])) (indent-Moves b suc)

        closed : Moves (step b (λ n. n - 1)) (close_bracket s back b)
        closed =
            then-Moves (step b (λ n. n - 1)) same_indent (indent_by b (λ n. n - 1))
              ((if b then newline_indent s else done) >> text s (back ∷ []))
              (indent-Moves b (λ n. n - 1))
              (then-Moves same_indent same_indent (if b then newline_indent s else done)
                (text s (back ∷ [])) (if-Moves b (newline_indent s) (newline-Moves s))
                (text-Moves s (back ∷ [])))

        flat : (b : Bool) (n : ℕ) → step b (λ n. n - 1) (step b suc n) ≡ n
        flat true n = omega arith
        flat false n = refl

        level : After (λ n. step b (λ n. n - 1) (step b suc n)) c d → After same_indent c d
        level (t, i, st, se) = (t, i ∙ flat b c.indent, st, se)

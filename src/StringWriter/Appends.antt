-- ===== src/StringWriter/Appends.antt =====
-- fastjson_write_large_json_string of fastjson.c appends what the one-pass writer appends.
use fastjson.Prelude.{
  ℕ, ◌+◌, ◌-◌, ◌*◌, ◌/◌, Bool, true, false, ◌||◌, Option, none, some, [], ◌∷◌, ◌++◌, ◌≡◌, refl, sym,
  ap, ◌∙◌, subst, arith, Bytes, length, take, drop, leb, ltb, ◌==◌, if◌then◌else◌, take-append-drop,
  append_assoc,
}
use fastjson.StringWriter.{
  Buf, WriteFlags, Env, alloc, put, fits, invalid, too_large, quote, nonascii_threshold,
  word_needs_escape, string_is_copyable_ascii, Sized, sized, unsized, json_string_size,
}
use fastjson.StringWriter.Chunks.{write_json_string_chunked}
use fastjson.StringWriter.Large.{
  quoted, copy_string, put_written, put_tail, write_prefix_tail, write_below, fused_run,
  write_sized, write_above, write_large_json_string,
}
use fastjson.StringWriter.Runs.{Scanned, string_is_copyable_ascii_lem, fused_run_all}
use fastjson.StringWriter.Laws.{WriterLaws, Outcome}
use fastjson.StringWriter.Rounds.{chunked}
use fastjson.StringWriter.Sizes.{Measured, json_string_size_lem}

module _ (env : Env) (flags : WriteFlags) (laws : WriterLaws env flags) where
  copied :
      (s before : Bytes) (buf : Buf)
      → word_needs_escape flags s ≡ false
      → buf.bytes ≡ before
      → Outcome env flags s before (fits, put (quoted s) buf)
  copied s before buf h e = (quoted s, laws.plain s h, ap (λ b. b ++ quoted s) e)

  written :
      (s : Bytes) (buf : Buf) (o : Option Bytes)
      → env.write_string flags s ≡ o
      → Outcome env flags s buf.bytes (put_written buf o)
  unfolding put_written
  written s buf none e = refl
  written s buf (some w) e = (w, e, refl)

  tail_written :
      (k : ℕ) (s : Bytes) (buf : Buf) (o : Option Bytes)
      → word_needs_escape flags (take k s) ≡ false
      → env.write_string flags (drop k s) ≡ o
      → Outcome env flags s buf.bytes (put_tail (take k s) buf o)
  unfolding put_tail
  tail_written k s buf none h e = refl
  tail_written k s buf (some w) h e =
      let (x, q) = laws.between (drop k s) w e in
      (
        quoted (take k s ++ x),
        ap (env.write_string flags) (sym (take-append-drop k s))
            ∙ laws.joined (take k s) (drop k s) (take k s) x (laws.plain (take k s) h)
                (e ∙ ap some q),
        ap (λ v. buf.bytes ++ (quote ∷ (take k s ++ drop 1 v))) q
            ∙ ap (λ v. buf.bytes ++ (quote ∷ v)) (sym (append_assoc (take k s) x (quote ∷ []))),
      )

  prefixed :
      (k : ℕ) (s : Bytes) (buf : Buf)
      → word_needs_escape flags (take k s) ≡ false
      → Outcome env flags s buf.bytes (write_prefix_tail env flags k s buf)
  unfolding write_prefix_tail
  prefixed k s buf h = choose (ltb ((env.max_len - length buf.bytes - k - 3) / 6) (length s - k))
    where
      choose :
          (b : Bool)
          → Outcome env flags s buf.bytes (
              if b
              then (too_large, buf)
              else put_tail
                  (take k s)
                  (alloc env (k + (length s - k) * 6 + 3) buf)
                  (env.write_string flags (drop k s)))
      choose true = refl
      choose false =
          tail_written k s (alloc env (k + (length s - k) * 6 + 3) buf)
            (env.write_string flags (drop k s)) h refl

  below : (s : Bytes) (buf : Buf) → Outcome env flags s buf.bytes (write_below env flags s buf)
  unfolding write_below copy_string
  below s buf =
      choose (string_is_copyable_ascii flags s).0 (string_is_copyable_ascii flags s).1
        (leb (length s - length s / 8) (string_is_copyable_ascii flags s).1)
        (string_is_copyable_ascii_lem flags s)
    where
      choose :
          (c : Bool) (k : ℕ) (b : Bool)
          → Scanned flags 0 s (c, k)
          → Outcome env flags s buf.bytes (
              if c
              then copy_string env s buf
              else if b
              then write_prefix_tail env flags k s buf
              else write_json_string_chunked env flags s buf)
      choose true k b (j, e, run, all) =
          copied s buf.bytes (alloc env (length s + 2) buf) (all refl) refl
      choose false k true (j, e, run, all) =
          prefixed k s buf
            (subst (λ m. word_needs_escape flags (take m s) ≡ false) (omega (arith, e)) run)
      choose false k false scanned = chunked env flags laws s buf

  sized_lem :
      (s : Bytes) (buf : Buf) (o : Sized)
      → Measured flags s true o
      → Outcome env flags s buf.bytes (write_sized env flags s buf o)
  unfolding write_sized
  sized_lem s buf (unsized fits) m = absurd m
  sized_lem s buf (unsized invalid) m = refl
  sized_lem s buf (unsized too_large) m = refl
  sized_lem s buf (sized size copyable) m =
      choose (ltb (env.max_len - length buf.bytes) size) copyable m
    where
      choose :
          (l c : Bool)
          → Measured flags s true (sized size c)
          → Outcome env flags s buf.bytes (
              if l
              then (too_large, buf)
              else if c
              then (fits, put (quoted s) (alloc env size buf))
              else put_written (alloc env size buf) (env.write_string flags s))
      choose true c h = refl
      choose false true h = copied s buf.bytes (alloc env size buf) (h refl).1 refl
      choose false false h = written s (alloc env size buf) (env.write_string flags s) refl

  above : (s : Bytes) (buf : Buf) → Outcome env flags s buf.bytes (write_above env flags s buf)
  unfolding write_above
  above s buf = choose (fused_run (length s) flags s == length s) (fused_run_all flags (length s) s)
    where
      reserved : Buf
      reserved = alloc env (length s + 2) buf

      choose :
          (b : Bool)
          → (b ≡ true → word_needs_escape flags s ≡ false)
          → Outcome env flags s buf.bytes (
              if b
              then (fits, put (quoted s) reserved)
              else write_sized env flags s reserved (json_string_size env.max_len flags s))
      choose true h = copied s buf.bytes reserved (h refl) refl
      choose false h =
          sized_lem s reserved (json_string_size env.max_len flags s)
            (json_string_size_lem env.max_len flags s)

  -- With a one-pass writer that obeys WriterLaws: whichever way a large string is written (copied,
  -- with a copied prefix, in chunks, or with an exact reserve), what is appended is what the
  -- one-pass writer makes of the string; where the status is another, the bytes of the buffer are
  -- as they were.
  pub write_large_json_string_lem :
      (s : Bytes) (buf : Buf)
      → Outcome env flags s buf.bytes (write_large_json_string env flags s buf)
  unfolding write_large_json_string
  write_large_json_string_lem s buf =
      choose
        (ltb (env.max_len - 2) (length buf.bytes)
          || ltb (env.max_len - length buf.bytes - 2) (length s))
        (ltb (length s) nonascii_threshold)
    where
      choose :
          (l b : Bool)
          → Outcome env flags s buf.bytes (
              if l
              then (too_large, buf)
              else if b
              then write_below env flags s buf
              else write_above env flags s buf)
      choose true b = refl
      choose false true = below s buf
      choose false false = above s buf

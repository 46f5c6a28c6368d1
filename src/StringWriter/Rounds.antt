-- ===== src/StringWriter/Rounds.antt =====
-- The chunked writer of fastjson.c appends what the one-pass writer appends.
use fastjson.Prelude.{
  ℕ, zero, suc, ◌+◌, ◌-◌, ◌*◌, Bool, true, false, ◌||◌, Option, none, some, [], ◌∷◌, ◌++◌, ◌≡◌,
  refl, sym, ap, ◌∙◌, subst, arith, Bytes, length, take, drop, ltb, ◌==◌, if◌then◌else◌, Bool-cases,
  Option-cases, inl, inr, take-append-drop, length-append, append_assoc, append-nil, take-append,
}
use fastjson.StringWriter.{
  Buf, WriteFlags, Env, alloc, put, SizeStatus, fits, invalid, too_large, quote, chunk_size,
  word_needs_escape,
}
use fastjson.StringWriter.Chunks.{
  json_chunk_len, body, reset, chunk_room, chunk_body, chunk_loop, write_json_string_chunked,
}
use fastjson.StringWriter.Large.{quoted}
use fastjson.StringWriter.Laws.{WriterLaws, Outcome}

body-quoted : (x : Bytes) → body (quoted x) ≡ x
body-quoted x = ap (λ n. take n (x ++ quote ∷ [])) same ∙ take-append x (quote ∷ [])
  where
    same : length (quoted x) - 2 ≡ length x
    same = omega (arith, length-append x (quote ∷ []))

module _ (env : Env) (flags : WriteFlags) (laws : WriterLaws env flags) where
  -- The rounds over chunks.
  chunk_room_bytes :
      (read left n : ℕ) (before : Bytes) (buf : Buf)
      → (chunk_room env read left n before buf).bytes ≡ buf.bytes
  unfolding chunk_room
  chunk_room_bytes read left n before buf = choice (ltb (buf.room - length buf.bytes) (n * 6 + 2)) _
    where
      choice : (b : Bool) (more : ℕ) → (if b then alloc env more buf else buf).bytes ≡ buf.bytes
      choice true more = refl
      choice false more = refl

  -- The string read so far is written as `x`, and `s` is left.
  abbrev Reading : Bytes → Bytes → Bytes → Buf → Type 0
  Reading before done x buf =
      (env.write_string flags done ≡ some (quoted x)) × (buf.bytes ≡ before ++ (quote ∷ x))

  chunk_body-quoted : (x : Bytes) → chunk_body (some (quoted x)) ≡ some x
  unfolding chunk_body
  chunk_body-quoted x = rw long (ap some (body-quoted x))
    where
      long : ltb (length (quoted x)) 2 ≡ false
      long = ground (arith, length-append x (quote ∷ []))

  chunk_body_lem :
      (s b : Bytes) (o : Option Bytes)
      → env.write_string flags s ≡ o
      → chunk_body o ≡ some b
      → env.write_string flags s ≡ some (quoted b)
  chunk_body_lem s b none e h = absurd (unfold chunk_body in cc)
  chunk_body_lem s b (some w) e h = let (x, q) = laws.between s w e in cc (chunk_body-quoted x)

  module _ (f read : ℕ) (c : ℕ) (t before : Bytes) (buf : Buf) where
    abbrev n : ℕ
    n = json_chunk_len (c ∷ t) chunk_size

    abbrev roomy : Buf
    roomy = chunk_room env read (length (c ∷ t) - n) n before buf

    step_none :
        (n == 0) ≡ true
        → chunk_loop (suc f) env flags read (c ∷ t) before buf ≡ (invalid, reset before buf)
    unfolding chunk_loop
    step_none h = rw (chunk_loop, h)

    step_large :
        (n == 0) ≡ false
        → ltb (env.max_len - length buf.bytes) (n * 6 + 2) ≡ true
        → chunk_loop (suc f) env flags read (c ∷ t) before buf ≡ (too_large, reset before buf)
    unfolding chunk_loop
    step_large h l = rw (chunk_loop, h, l)

    step_bad :
        (n == 0) ≡ false
        → ltb (env.max_len - length buf.bytes) (n * 6 + 2) ≡ false
        → chunk_body (env.write_string flags (take n (c ∷ t))) ≡ none
        → chunk_loop (suc f) env flags read (c ∷ t) before buf ≡ (invalid, reset before roomy)
    unfolding chunk_loop
    step_bad h l e = rw (chunk_loop, h, l, e)

    step_on :
        (n == 0) ≡ false
        → ltb (env.max_len - length buf.bytes) (n * 6 + 2) ≡ false
        → (b : Bytes) → chunk_body (env.write_string flags (take n (c ∷ t))) ≡ some b
        → chunk_loop (suc f) env flags read (c ∷ t) before buf
          ≡ chunk_loop f env flags (read + n) (drop n (c ∷ t)) before (put b roomy)
    unfolding chunk_loop
    step_on h l b e = rw (chunk_loop, h, l, e)

  -- The closing quote.
  finished :
      (before done x : Bytes) (buf : Buf)
      → Reading before done x buf
      → Outcome env flags (done ++ []) before (fits, put (quote ∷ []) buf)
  finished before done x buf (e, h) = (
    quoted x,
    ap (env.write_string flags) (append-nil done) ∙ e,
    ap (λ b. b ++ quote ∷ []) h ∙ append_assoc before (quote ∷ x) (quote ∷ []),
  )

  -- One more chunk.
  read_on :
      (read left n : ℕ) (before done x chunk b : Bytes) (buf : Buf)
      → Reading before done x buf
      → env.write_string flags chunk ≡ some (quoted b)
      → Reading before (done ++ chunk) (x ++ b) (put b (chunk_room env read left n before buf))
  read_on read left n before done x chunk b buf (e, h) w = (
    laws.joined done chunk x b e w,
    ap (λ s. s ++ b) (chunk_room_bytes read left n before buf ∙ h)
        ∙ append_assoc before (quote ∷ x) b,
  )

  chunk_loop_lem :
      (f read : ℕ) (s before done x : Bytes) (buf : Buf)
      → Reading before done x buf
      → Outcome env flags (done ++ s) before (chunk_loop f env flags read s before buf)
  chunk_loop_lem zero read [] before done x buf r =
      unfold chunk_loop in finished before done x buf r
  chunk_loop_lem (suc f) read [] before done x buf r =
      unfold chunk_loop in finished before done x buf r
  chunk_loop_lem zero read (c ∷ t) before done x buf r = unfold chunk_loop in refl
  chunk_loop_lem (suc f) read (c ∷ t) before done x buf r = elim (Bool-cases (k == 0)) [
    | inl h ↦ subst P (sym (step_none f read c t before buf h)) refl
    | inr h ↦ elim (Bool-cases (ltb (env.max_len - length buf.bytes) (k * 6 + 2))) [
      | inl l ↦ subst P (sym (step_large f read c t before buf h l)) refl
      | inr l ↦ elim (Option-cases (chunk_body (env.write_string flags (take k (c ∷ t))))) [
        | inl e ↦ subst P (sym (step_bad f read c t before buf h l e)) refl
        | inr (b, e) ↦ subst P (sym (step_on f read c t before buf h l b e)) (
            subst (λ s. Outcome env flags s before (later b)) (whole k)
              (chunk_loop_lem f (read + k) (drop k (c ∷ t)) before (done ++ take k (c ∷ t)) (x ++ b)
                (put b (chunk_room env read (length (c ∷ t) - k) k before buf))
                (read_on read (length (c ∷ t) - k) k before done x (take k (c ∷ t)) b buf r (
                  chunk_body_lem (take k (c ∷ t)) b (env.write_string flags (take k (c ∷ t))) refl
                    e))))
      ]
    ]
  ]
    where
      k : ℕ
      k = json_chunk_len (c ∷ t) chunk_size

      P : SizeStatus × Buf → Type 0
      P = Outcome env flags (done ++ c ∷ t) before

      later : Bytes → SizeStatus × Buf
      later b =
          chunk_loop f env flags (read + k) (drop k (c ∷ t)) before
            (put b (chunk_room env read (length (c ∷ t) - k) k before buf))

      whole : (n : ℕ) → (done ++ take n (c ∷ t)) ++ drop n (c ∷ t) ≡ done ++ c ∷ t
      whole n =
          append_assoc done (take n (c ∷ t)) (drop n (c ∷ t))
          ∙ ap (λ xs. done ++ xs) (take-append-drop n (c ∷ t))

  pub chunked :
      (s : Bytes) (buf : Buf)
      → Outcome env flags s buf.bytes (write_json_string_chunked env flags s buf)
  unfolding write_json_string_chunked
  chunked s buf =
      choose
        (ltb (env.max_len - 2) (length buf.bytes)
          || ltb (env.max_len - length buf.bytes - 2) (length s))
        (ltb (env.max_len - length buf.bytes - 2 - length s) (chunk_size * 6))
    where
      started : SizeStatus × Buf
      started =
          chunk_loop (length s) env flags 0 s buf.bytes
            (put (quote ∷ []) (alloc env (length s + 2 + chunk_size * 6) buf))

      choose :
          (a b : Bool)
          → Outcome env flags s buf.bytes
              (if a then (too_large, buf) else if b then (too_large, buf) else started)
      choose true b = refl
      choose false true = refl
      choose false false =
          chunk_loop_lem (length s) 0 s buf.bytes [] []
            (put (quote ∷ []) (alloc env (length s + 2 + chunk_size * 6) buf))
            (laws.plain [] (unfold word_needs_escape in refl), refl)

-- ===== src/StringWriter/Chunks.antt =====
-- fastjson_json_chunk_len and fastjson_write_json_string_chunked of fastjson.c. A chunk is written
-- with its opening quote over the last byte of the output, which is restored, and the closing
-- quote is written over by the next chunk: what stays of it is its body.
use fastjson.Prelude.{
  ℕ, zero, suc, ◌+◌, ◌-◌, ◌*◌, ◌/◌, min, true, false, ◌||◌, Option, none, some, [], ◌∷◌, Bytes,
  length, take, drop, get_or, ltb, leb, ◌==◌, if◌then◌else◌,
}
use fastjson.StringWriter.{
  Buf, WriteFlags, Env, alloc, put, SizeStatus, fits, invalid, too_large, quote, chunk_size,
}

-- `i - pos` of the loop that goes back over the continuation bytes, from `i` on.
unfoldable pub back_loop : Bytes → ℕ → ℕ
back_loop s zero = zero
back_loop s (suc i) = let rest = back_loop s i in if get_or s i 0 / 0x40 == 2 then rest else suc i

-- How many bytes the sequence has that a lead byte above ASCII starts.
unfoldable pub lead_len : ℕ → ℕ
lead_len lead = if ltb lead 0xE0 then 2 else if ltb lead 0xF0 then 3 else 4

-- The end of fastjson_json_chunk_len: the lead byte before the cut at `n` stands at `at`.
unfoldable pub chunk_at : Bytes → (n at : ℕ) → ℕ
unfolding lead_len
chunk_at s n at =
    let lead = get_or s at 0 in
    if ltb lead 0x80
    then n
    else if leb (lead_len lead) (n - at)
    then n
    else if ltb 0 at
    then at
    else if leb (lead_len lead) (length s)
    then lead_len lead
    else n

unfoldable pub chunk_before : Bytes → (n i : ℕ) → ℕ
chunk_before s n zero = n
chunk_before s n (suc at) = chunk_at s n at

-- fastjson_json_chunk_len, where `s` is the string from `pos` on.
unfoldable pub json_chunk_len : Bytes → ℕ → ℕ
unfolding back_loop chunk_before chunk_at
json_chunk_len s want =
    let n = min want (length s) in
    if n == 0 || leb (length s) n then n else chunk_before s n (back_loop s n)

-- A written string without its two quotes.
abbrev pub body : Bytes → Bytes
body w = take (length w - 2) (drop 1 w)

-- The buffer as it was, at the capacity that it has by now.
abbrev pub reset : Bytes → Buf → Buf
reset before buf = record { bytes = before; room = buf.room }

-- The headroom of one chunk. `read` and `left` are the bytes behind and before the chunk, and
-- `before` is the output without the string.
unfoldable pub chunk_room : Env → (read left n : ℕ) → (before : Bytes) → Buf → Buf
chunk_room env read left n before buf =
    if ltb (buf.room - length buf.bytes) (n * 6 + 2)
    then alloc env
        (if leb (env.max_len - length buf.bytes)
            (n * 6 + 2 + env.project left (length buf.bytes - length before) read)
          then env.max_len - length buf.bytes
          else n * 6 + 2 + env.project left (length buf.bytes - length before) read)
        buf
    else buf

-- What a round makes of the chunk that was written: its body, unless it is NULL or too short.
unfoldable pub chunk_body : Option Bytes → Option Bytes
chunk_body none = none
chunk_body (some w) = if ltb (length w) 2 then none else some (body w)

-- The rounds over the string, of which `s` is left. The string's length is fuel enough.
unfoldable pub chunk_loop :
    ℕ → Env → WriteFlags → (read : ℕ) → Bytes → (before : Bytes) → Buf → SizeStatus × Buf
chunk_loop fuel env flags read [] before buf = (fits, put (quote ∷ []) buf)
chunk_loop zero env flags read (c ∷ t) before buf = (invalid, reset before buf)
chunk_loop (suc f) env flags read (c ∷ t) before buf =
    let s = c ∷ t in
    let n = json_chunk_len s chunk_size in
    elim (n == 0) [
      | true ↦ (invalid, reset before buf)
      | false ↦ elim (ltb (env.max_len - length buf.bytes) (n * 6 + 2)) [
        | true ↦ (too_large, reset before buf)
        | false ↦ elim (chunk_body (env.write_string flags (take n s))) [
          | none ↦ (invalid, reset before (chunk_room env read (length s - n) n before buf))
          | some written ↦
              chunk_loop f env flags (read + n) (drop n s) before
                (put written (chunk_room env read (length s - n) n before buf))
        ]
      ]
    ]

unfoldable pub write_json_string_chunked : Env → WriteFlags → Bytes → Buf → SizeStatus × Buf
unfolding chunk_loop chunk_body chunk_room json_chunk_len
write_json_string_chunked env flags s buf =
    let current = length buf.bytes in
    let started = put (quote ∷ []) (alloc env (length s + 2 + chunk_size * 6) buf) in
    if ltb (env.max_len - 2) current || ltb (env.max_len - current - 2) (length s)
    then (too_large, buf)
    else if ltb (env.max_len - current - 2 - length s) (chunk_size * 6)
    then (too_large, buf)
    else chunk_loop (length s) env flags 0 s buf.bytes started

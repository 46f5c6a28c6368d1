-- ===== src/StringWriter/Large.antt =====
-- fastjson_write_large_json_string of fastjson.c.
use fastjson.Prelude.{
  ℕ, zero, suc, ◌+◌, ◌-◌, ◌*◌, ◌/◌, true, false, not, ◌&&◌, ◌||◌, Option, none, some, [], ◌∷◌, ◌++◌,
  Bytes, length, take, drop, ltb, leb, ◌==◌, if◌then◌else◌,
}
use fastjson.StringWriter.{
  Buf, WriteFlags, Env, alloc, put, SizeStatus, fits, invalid, too_large, quote, nonascii_threshold,
  word_needs_escape, plain_run, string_is_copyable_ascii, Sized, sized, unsized, json_string_size,
}
use fastjson.StringWriter.Chunks.{write_json_string_chunked}

-- A string between two quotes, unchanged.
abbrev pub quoted : Bytes → Bytes
quoted s = quote ∷ (s ++ quote ∷ [])

unfoldable pub copy_string : Env → Bytes → Buf → SizeStatus × Buf
copy_string env s buf = (fits, put (quoted s) (alloc env (length s + 2) buf))

-- What yyjson wrote, or NULL, at the end of the buffer.
unfoldable pub put_written : Buf → Option Bytes → SizeStatus × Buf
put_written buf none = (invalid, buf)
put_written buf (some w) = (fits, put w buf)

-- A copied prefix, and the rest written by yyjson, whose opening quote is moved over.
unfoldable pub put_tail : Bytes → Buf → Option Bytes → SizeStatus × Buf
put_tail prefix buf none = (invalid, buf)
put_tail prefix buf (some w) = (fits, put (quote ∷ (prefix ++ drop 1 w)) buf)

unfoldable pub write_prefix_tail : Env → WriteFlags → ℕ → Bytes → Buf → SizeStatus × Buf
unfolding put_tail
write_prefix_tail env flags prefix_len s buf =
    let current = length buf.bytes in
    let tail_len = length s - prefix_len in
    if ltb ((env.max_len - current - prefix_len - 3) / 6) tail_len
    then (too_large, buf)
    else put_tail (take prefix_len s) (alloc env (prefix_len + tail_len * 6 + 3) buf)
        (env.write_string flags (drop prefix_len s))

-- Below FASTJSON_EXACT_NONASCII_THRESHOLD.
unfoldable pub write_below : Env → WriteFlags → Bytes → Buf → SizeStatus × Buf
unfolding copy_string write_prefix_tail
write_below env flags s buf =
    let (copyable, prefix_len) = string_is_copyable_ascii flags s in
    if copyable
    then copy_string env s buf
    else if leb (length s - length s / 8) prefix_len
    then write_prefix_tail env flags prefix_len s buf
    else write_json_string_chunked env flags s buf

-- The fused scan and copy: how far it goes.
unfoldable pub fused_run : ℕ → WriteFlags → Bytes → ℕ
fused_run zero flags s = plain_run flags s
fused_run (suc n) flags s = elim (leb 8 (length s) && not (word_needs_escape flags (take 8 s))) [
  | true ↦ 8 + fused_run n flags (drop 8 s)
  | false ↦ plain_run flags s
]

-- The second scan measures the string, and the writer fills an exact reserve.
unfoldable pub write_sized : Env → WriteFlags → Bytes → Buf → Sized → SizeStatus × Buf
write_sized env flags s buf (unsized status) = (status, buf)
write_sized env flags s buf (sized exact_len copyable) =
    if ltb (env.max_len - length buf.bytes) exact_len
    then (too_large, buf)
    else if copyable
    then (fits, put (quoted s) (alloc env exact_len buf))
    else put_written (alloc env exact_len buf) (env.write_string flags s)

unfoldable pub write_above : Env → WriteFlags → Bytes → Buf → SizeStatus × Buf
unfolding fused_run write_sized put_written
write_above env flags s buf =
    let reserved = alloc env (length s + 2) buf in
    if fused_run (length s) flags s == length s
    then (fits, put (quoted s) reserved)
    else write_sized env flags s reserved (json_string_size env.max_len flags s)

unfoldable pub write_large_json_string : Env → WriteFlags → Bytes → Buf → SizeStatus × Buf
unfolding write_below write_above
write_large_json_string env flags s buf =
    if ltb (env.max_len - 2) (length buf.bytes)
      || ltb (env.max_len - length buf.bytes - 2) (length s)
    then (too_large, buf)
    else if ltb (length s) nonascii_threshold
    then write_below env flags s buf
    else write_above env flags s buf

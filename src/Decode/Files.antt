-- ===== src/Decode/Files.antt =====
-- fastjson_file_decode of fastjson_decode.c, with fastjson_read_stream. A bailout of the engine ends
-- the request, and is not part of the model.
use fastjson.Prelude.{
  ℕ, zero, suc, Bool, true, false, not, ◌||◌, Option, none, some, [], ◌∷◌, ◌++◌, Bytes, codes,
  if◌then◌else◌,
}
use fastjson.Reading.{no_extra, read_doc_ex}
use fastjson.Errors.{
  ErrorState, error_state_set, error_syntax, Reply, returned, value_error, throw_mode_init,
}
use fastjson.Walk.{Decoded, null}
use fastjson.Encode.{Outcome, reply, userland_exception}
use fastjson.Decode.{Engine, Options, valid_depth, decode_into}

-- A stream to read, with the state `S`: whether it is a plain file, which is read at once (none for
-- NULL) by php_stream_copy_to_mem; a read of up to 8192 bytes, which gives bytes, or no byte for an answer
-- of 0 or, with `true`, less; the end; and what closing leaves.
pub record Source {ℓ} (S : Type ℓ) : Type ℓ where
  pub is_stdio : Bool
  pub copy_to_mem : S → Option Bytes × S
  pub read : S → Bytes × (Bool × S)
  pub eof : S → Bool
  pub close : S → S
  -- whether an exception is pending
  pub threw : S → Bool

module _ {ℓ} {S : Type ℓ} (source : Source S) where
  abbrev contents_of : Option Bytes → Bytes
  contents_of (some t) = t
  contents_of none = []

  -- The loop over php_stream_read: what it has read, and whether it failed. The fuel bounds how
  -- often the stream answers with bytes.
  unfoldable pub read_loop : ℕ → (buf : Bytes) → S → Bytes × (Bool × S)
  read_loop zero buf st = (buf, (true, st))
  read_loop (suc n) buf st =
      let (chunk, (negative, st')) = source.read st in
      elim chunk [
        | [] ↦ (buf, (negative || not (source.eof st'), st'))
        | c ∷ t ↦ read_loop n (buf ++ c ∷ t) st'
      ]

  -- fastjson_read_stream
  unfoldable pub read_stream : ℕ → S → Bytes × (Bool × S)
  unfolding read_loop
  read_stream fuel st =
      if source.is_stdio
      then (let (o, st') = source.copy_to_mem st in (contents_of o, (not (source.eof st'), st')))
      else read_loop fuel [] st

-- What opening the file gives: a stream, or NULL, with an exception or not.
pub data Opened {ℓ} (S : Type ℓ) : Type ℓ where
  opened : S → Opened S
  unopened : (threw : Bool) → Opened S

-- An error that is recorded and not thrown, with null.
abbrev pub io_failed : Bytes → Outcome Decoded × ErrorState
io_failed msg = (reply (returned null), error_state_set error_syntax (some msg))

module _ {ℓ} {S : Type ℓ} (e : Engine) (source : Source S) where
  -- fastjson_finish_decode restores the saved error in throw mode, as fastjson_decode_into does.
  abbrev pub replied : Reply Decoded × ErrorState → Outcome Decoded × ErrorState
  replied (r, err) = (reply r, err)

  -- What the stream gave, after it was closed.
  unfoldable pub contents_read :
      Options
      → (depth : ℕ) → (saved : ErrorState) → Bytes × (Bool × S)
      → Outcome Decoded × ErrorState
  unfolding decode_into
  contents_read o depth saved (contents, (failed, st)) =
      if source.threw (source.close st)
      then (userland_exception, saved)
      else if failed
      then io_failed (codes "Failed to read file")
      else replied
          (decode_into e o contents depth saved (read_doc_ex e.lib.parse contents o.flags no_extra))

  -- The error state before the stream is touched: saved in throw mode, and cleared otherwise.
  unfoldable pub file_read :
      ℕ → Options → (depth : ℕ) → (saved : ErrorState) → Opened S → Outcome Decoded × ErrorState
  unfolding contents_read read_stream
  file_read fuel o depth saved (unopened true) = (userland_exception, saved)
  file_read fuel o depth saved (unopened false) =
      io_failed (codes "Failed to open file for reading")
  file_read fuel o depth saved (opened st) =
      contents_read o depth saved (read_stream source fuel st)

  -- fastjson_file_decode
  unfoldable pub file_decode :
      (fuel : ℕ) → Opened S → Options → ErrorState → Outcome Decoded × ErrorState
  unfolding file_read throw_mode_init valid_depth
  file_decode fuel file o state = elim (valid_depth o.depth) [
    | none ↦ (reply value_error, throw_mode_init o.flags.throw_on_error state)
    | some depth ↦ file_read fuel o depth (throw_mode_init o.flags.throw_on_error state) file
  ]

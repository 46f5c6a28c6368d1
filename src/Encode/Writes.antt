-- ===== src/Encode/Writes.antt =====
-- The write of an encoded text to a stream, and fastjson_file_encode of fastjson_encode.c. A bailout
-- of the engine ends the request, and is not part of the model.
use fastjson.Prelude.{
  ℕ, zero, suc, Bool, true, false, not, ◌&&◌, Option, none, some, List, [], ◌∷◌, Bytes, codes,
  length, drop, leb, ◌==◌, if◌then◌else◌,
}
use fastjson.Errors.{ErrorState, error_state_set, error_syntax, returned, thrown, value_error}
use fastjson.Entry.{ℤ, pos, negsuc}
use fastjson.Zval.{Zval, Globals}
use fastjson.Encoder.{Setting, Guard}
use fastjson.Encode.{
  Outcome, reply, userland_exception, with_error, published, throws, encode_depth_in_range, begun,
  directwrite_encode,
}

-- A stream with the state `S`: a write is given the bytes that are left and answers how many it
-- took; whether flushing can be checked; and the results of a flush and of a close, where 0 is
-- success.
pub record Stream {ℓ} (S : Type ℓ) : Type ℓ where
  pub write : S → Bytes → ℤ × S
  pub can_flush : Bool
  pub flush : S → ℤ × S
  pub close : S → ℤ × S
  -- whether an exception is pending
  pub threw : S → Bool

module _ {ℓ} {S : Type ℓ} (stream : Stream S) where
  -- What a write of the bytes `t` leaves of them, and whether the loop goes on.
  unfoldable pub after_write : Bytes → ℤ → Option Bytes
  after_write t (negsuc n) = none
  after_write t (pos n) = if n == 0 then none else some (if leb (length t) n then [] else drop n t)

  -- The loop over php_stream_write: the bytes that are left behind it, and the stream. Each round
  -- but the last goes on by a byte at least, so the length is fuel enough.
  unfoldable pub write_loop : ℕ → Bytes → S → Bytes × S
  unfolding after_write
  write_loop zero t st = (t, st)
  write_loop (suc fuel) [] st = ([], st)
  write_loop (suc fuel) (c ∷ t) st =
      let (n, st') = stream.write st (c ∷ t) in
      elim (after_write (c ∷ t) n) [ none ↦ (c ∷ t, st') | some rest ↦ write_loop fuel rest st' ]

  abbrev pub is_empty : Bytes → Bool
  is_empty [] = true
  is_empty (c ∷ t) = false

  abbrev pub is_zero : ℤ → Bool
  is_zero (pos n) = n == 0
  is_zero (negsuc n) = false

  -- wrote_all, flush_res and close_res are those of success, and the stream after the close.
  unfoldable pub flushed : Bytes × S → Bool × S
  flushed (rest, st) =
      if is_empty rest && stream.can_flush && not (stream.threw st)
      then (let (res, st') = stream.flush st in (is_zero res, st'))
      else (is_empty rest, st)

  unfoldable pub closed : Bool × S → Bool × S
  closed (fine, st) = let (res, st') = stream.close st in (fine && is_zero res, st')

  unfoldable pub write_and_close : Bytes → S → Bool × S
  unfolding write_loop flushed closed
  write_and_close t st = closed (flushed (write_loop (length t) t st))

-- What opening the file gives: a stream, or NULL, with an exception or not.
pub data Opened {ℓ} (S : Type ℓ) : Type ℓ where
  opened : S → Opened S
  unopened : (threw : Bool) → Opened S

abbrev pub io_failed : Globals → Bytes → Outcome Bool × Globals
io_failed g msg = (reply (returned false), with_error g (error_state_set error_syntax (some msg)))

module _ {ℓ} {S : Type ℓ} (stream : Stream S) where
  -- Behind the close. `kept` is the error state that success restores.
  unfoldable pub reported : (kept : ErrorState) → Globals → Bool × S → Outcome Bool × Globals
  reported kept g (fine, st) =
      if stream.threw st
      then (userland_exception, with_error g kept)
      else if fine
      then (reply (returned true), with_error g kept)
      else io_failed g (codes "Failed to write file")

  unfoldable pub written_to :
      (kept : ErrorState) → Globals → Bytes → Opened S → Outcome Bool × Globals
  unfolding write_and_close reported
  written_to kept g t (unopened true) = (userland_exception, with_error g kept)
  written_to kept g t (unopened false) = io_failed g (codes "Failed to open file for writing")
  written_to kept g t (opened st) = reported kept g (write_and_close stream t st)

  -- What fastjson_do_encode left; its error state stands in the globals where it succeeded.
  unfoldable pub encoded_to : Opened S → Outcome (Option Bytes) × Globals → Outcome Bool × Globals
  unfolding written_to
  encoded_to file (userland_exception, g) = (userland_exception, g)
  encoded_to file (reply value_error, g) = (reply value_error, g)
  encoded_to file (reply (thrown code msg), g) = (reply (thrown code msg), g)
  encoded_to file (reply (returned none), g) = (reply (returned false), g)
  encoded_to file (reply (returned (some t)), g) = written_to g.last_err g t file

  -- fastjson_file_encode. Userland code of a stream does not change the recorded error for good:
  -- every way out sets it.
  unfoldable pub file_encode :
      Setting
      → (throw_on_error : Bool) → Opened S
      → Zval
      → ℤ
      → List Guard
      → Globals
      → Outcome Bool × Globals
  unfolding encoded_to published directwrite_encode encode_depth_in_range
  file_encode s throw_on_error file z depth guards g =
      if encode_depth_in_range depth
      then encoded_to file (
          published (throws s throw_on_error) g.last_err (codes "fastjson_file_encode failed")
            (directwrite_encode s z depth guards (begun (throws s throw_on_error) g)))
      else (reply value_error, g)

-- ===== src/Splice/Appends.antt =====
-- What fj_splice_write_full of fastjson_pointer_splice.c leaves of its context.
use fastjson.Prelude.{ℕ, ◌-◌, ◌&&◌, ◌==◌, leb, not, true, false, Bool, some, codes, ◌≡◌}
use fastjson.Doc.{
  Val, Items, Members, null, bool, num, str, raw, arr, obj, nil, item, end, member, arr_size,
  obj_size,
}
use fastjson.StringWriter.Laws.{WriterLaws}
use fastjson.Splice.{
  Setting, Ctx, Writer, ◌>>◌, stack_ok, text, write_string, write_number, write_raw,
}
use fastjson.Splice.Full.{
  guarded, nested, separator, colon, open_bracket, close_bracket, write_full, write_items,
  write_members, bool_text,
}
use fastjson.Splice.Steps.{success}
use fastjson.Splice.Moves.{
  After, Moves, same_indent, then-Moves, done-Moves, deep-Moves, text-Moves, stack-Moves,
  number-Moves, raw-Moves,
}
use fastjson.Splice.Containers.{string-Moves, separator-Moves, colon-Moves, bracketed-Moves}

module _ (s : Setting) (laws : WriterLaws s.env s.yflags) where
  both-Moves :
      (m k : Writer) → Moves same_indent m → Moves same_indent k → Moves same_indent (m >> k)
  both-Moves m k = then-Moves same_indent same_indent m k

  guarded-Moves : (r : ℕ) (m : Writer) → Moves same_indent m → Moves same_indent (guarded s r m)
  guarded-Moves r m h =
      deep-Moves (r == 0) (stack_ok s r >> m) (both-Moves (stack_ok s r) m (stack-Moves s r) h)

  container-Moves :
      (r front back : ℕ) (b : Bool) (m : Writer)
      → Moves same_indent m
      → Moves same_indent (
          guarded s r
            (nested s r (stack_ok s r >> open_bracket s front b >> m >> close_bracket s back b)))
  container-Moves r front back b m h = guarded-Moves r (nested s r body) (
      deep-Moves (leb r 1) body (
        both-Moves (stack_ok s r) inner (stack-Moves s r)
          (bracketed-Moves s laws front back b m h)))
    where
      inner : Writer
      inner = open_bracket s front b >> m >> close_bracket s back b

      body : Writer
      body = stack_ok s r >> inner

  mutual
    unfolding write_full

    full-Moves : (v : Val) (r : ℕ) → Moves same_indent (write_full s v r)
    full-Moves null r = guarded-Moves r (text s (codes "null")) (text-Moves s (codes "null"))
    full-Moves (bool b) r = guarded-Moves r (text s (bool_text b)) (text-Moves s (bool_text b))
    full-Moves (num n) r = guarded-Moves r (write_number s n) (number-Moves s n)
    full-Moves (str t) r = guarded-Moves r (write_string s t.bytes) (string-Moves s laws t.bytes)
    full-Moves (raw t) r = guarded-Moves r (write_raw s t) (raw-Moves s t)
    full-Moves (arr xs) r =
        container-Moves r b'[' b']' (s.pretty && not (arr_size xs == 0))
          (write_items s xs true (r - 1)) (items-Moves xs true (r - 1))
    full-Moves (obj ms) r =
        container-Moves r b'{' b'}' (s.pretty && not (obj_size ms == 0))
          (write_members s ms true (r - 1)) (members-Moves ms true (r - 1))

    items-Moves : (xs : Items) (first : Bool) (r : ℕ) → Moves same_indent (write_items s xs first r)
    items-Moves nil first r = done-Moves
    items-Moves (item v xs) first r =
        both-Moves (separator s first) (write_full s v r >> write_items s xs false r)
          (separator-Moves s laws first)
          (both-Moves (write_full s v r) (write_items s xs false r) (full-Moves v r)
            (items-Moves xs false r))

    members-Moves :
        (ms : Members) (first : Bool) (r : ℕ) → Moves same_indent (write_members s ms first r)
    members-Moves end first r = done-Moves
    members-Moves (member k v ms) first r =
        both-Moves (separator s first) (write_string s k.bytes >> colon s >> later)
          (separator-Moves s laws first)
          (both-Moves (write_string s k.bytes) (colon s >> later) (string-Moves s laws k.bytes) (
            both-Moves (colon s) later (colon-Moves s laws) (
              both-Moves (write_full s v r) (write_members s ms false r) (full-Moves v r)
                (members-Moves ms false r))))
      where
        later : Writer
        later = write_full s v r >> write_members s ms false r

  -- With a one-pass writer that obeys WriterLaws: where fj_splice_write_full succeeds, it has
  -- appended bytes to the buffer, whatever way each string was written and rewritten, and the level
  -- of indentation, the status and the settable mark are as before.
  pub write_full-After :
      (v : Val) (r : ℕ) (c d : Ctx) → success (write_full s v r c) ≡ some d → After same_indent c d
  write_full-After v r = full-Moves v r

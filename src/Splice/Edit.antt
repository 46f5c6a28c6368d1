-- ===== src/Splice/Edit.antt =====
-- Writing a document with one value replaced: fj_splice_write_replacement, fj_splice_write_at,
-- fj_splice_write_array, fj_splice_write_object, fj_splice_build_suffix and
-- fastjson_imut_pointer_set_write of fastjson_pointer_splice.c. The segments from `seg_idx` on are
-- the list of their keys.
use fastjson.Prelude.{
  ℕ, zero, suc, ◌+◌, ◌-◌, ◌*◌, Bool, true, false, not, ◌||◌, Option, none, some, List, [], ◌∷◌,
  ◌++◌, Bytes, length, leb, ◌==◌, if◌then◌else◌,
}
use fastjson.Doc.{
  Val, Items, Members, Str, null, bool, num, str, raw, arr, obj, nil, item, end, member, arr_size,
}
use fastjson.Pointer.{Status, write_fail, settable_fail, ambiguous, Plan, plan_keys}
use fastjson.Pointer.Index.{seg_is_index}
use fastjson.Pointer.Walk.{no_utf8_flags, seg_key_eq, is_blocked}
use fastjson.StringWriter.{put}
use fastjson.Splice.{
  Setting, Ctx, Written, ok, stop, Writer, ◌>>◌, done, modify, reserve, stack_ok, text, spaces,
  newline_indent, write_string, Replacement, value, encoded,
}
use fastjson.Splice.Full.{
  separator, colon, open_bracket, close_bracket, nested, write_full, write_items,
}

abbrev pub newline : ℕ
newline = b'\n'

unfoldable pub has_newline : Bytes → Bool
has_newline [] = false
has_newline (c ∷ t) = c == newline || has_newline t

-- `ctx->settable = false; return false`
abbrev pub not_settable : Writer
not_settable c = stop (record c { settable = false })

-- The name that is written: the segment's at the last one, the member's own before.
abbrev pub target_name : Bytes → List Bytes → Str → Bytes
target_name seg [] key = seg
target_name seg (k ∷ ks) key = key.bytes

-- The text, or the status.
pub data SetResult : Type 0 where
  written : Bytes → SetResult
  failed : Status → SetResult

-- The status of a run that failed.
unfoldable pub status_of_root : Status → Status
status_of_root Status.ok = write_fail
status_of_root status = status

unfoldable pub status_of_edit : (settable : Bool) → Status → Status
status_of_edit settable Status.ok = if settable then write_fail else settable_fail
status_of_edit settable status = status

unfoldable pub root_result : Written → SetResult
unfolding status_of_root
root_result (ok c) = written c.buf.bytes
root_result (stop c) = failed (status_of_root c.status)

unfoldable pub edit_result : Written → SetResult
unfolding status_of_edit
edit_result (ok c) = written c.buf.bytes
edit_result (stop c) = failed (status_of_edit c.settable c.status)

module _ (s : Setting) (size_max : ℕ) (replacement : Replacement) where
  -- The loop that indents an encoded replacement; `chunk` are the bytes from `start` on.
  unfoldable pub indent_lines : Bytes → (chunk : Bytes) → Writer
  indent_lines [] [] c = ok c
  indent_lines [] (b ∷ chunk) c = (reserve s (length (b ∷ chunk)) >> text s (b ∷ chunk)) c
  indent_lines (b ∷ t) chunk c = elim (b == newline) [
    | false ↦ indent_lines t (chunk ++ b ∷ []) c
    | true ↦
        (reserve s (length (chunk ++ b ∷ []) + c.indent * 4)
            >> text s (chunk ++ b ∷ [])
            >> modify (put (spaces (c.indent * 4)))
            >> indent_lines t [])
          c
  ]

  unfoldable pub write_encoded : Bytes → Writer
  unfolding indent_lines has_newline
  write_encoded t c =
      if not s.pretty || c.indent == 0 || not (has_newline t)
      then (reserve s (length t) >> text s t) c
      else indent_lines t [] c

  -- fj_splice_write_replacement
  unfoldable pub put_replacement : Replacement → ℕ → Writer
  unfolding write_encoded
  put_replacement (value v) r = write_full s v r
  put_replacement (encoded t) r = write_encoded t

  abbrev pub write_replacement : ℕ → Writer
  write_replacement = put_replacement replacement

  -- fj_splice_build_suffix, with the segments behind `seg_idx`.
  unfoldable pub build_suffix : List Bytes → ℕ → Writer
  build_suffix [] r = stack_ok s r >> write_replacement r
  build_suffix (k ∷ ks) r =
      stack_ok s r
      >> nested s r (
          open_bracket s b'{' s.pretty
          >> (if s.pretty then newline_indent s else done)
          >> write_string s k
          >> colon s
          >> build_suffix ks (r - 1)
          >> close_bracket s b'}' s.pretty)

  -- The value of a member that the object did not have.
  unfoldable pub write_new : List Bytes → ℕ → Writer
  unfolding build_suffix
  write_new [] r = write_replacement r
  write_new (k ∷ ks) r = build_suffix (k ∷ ks) r

  -- The value at the segment: the replacement behind the last one, or the edited child. `at` is
  -- fj_splice_write_at for the segments behind it.
  unfoldable pub write_child : List Bytes → (at : Val → ℕ → Writer) → Val → ℕ → Writer
  write_child [] at v r = write_replacement r
  write_child (k ∷ ks) at v r = at v r

  -- The loop of fj_splice_write_object, and what follows it where no member matched.
  unfoldable pub edit_members :
      (seg : Bytes)
      → List Bytes
      → (at : Val → ℕ → Writer) → Members
      → (first matched : Bool) → ℕ
      → Writer
  unfolding write_new write_child
  edit_members seg ks at end first true r = done
  edit_members seg ks at end first false r =
      separator s first >> write_string s seg >> colon s >> write_new ks r
  edit_members seg ks at (member key v ms) first matched r =
      elim (seg_key_eq no_utf8_flags key seg) [
        | false ↦
            separator s first
            >> write_string s key.bytes
            >> colon s
            >> write_full s v r
            >> edit_members seg ks at ms false matched r
        | true ↦ elim matched [
          | true ↦ λ c. stop (record c { status = ambiguous; settable = false })
          | false ↦ elim (is_blocked ks v) [
            | true ↦ not_settable
            | false ↦
                separator s first
                >> write_string s (target_name seg ks key)
                >> colon s
                >> write_child ks at v r
                >> edit_members seg ks at ms false true r
          ]
        ]
      ]

  -- The loop of fj_splice_write_array, `want` elements before the one at the index.
  unfoldable pub edit_items :
      List Bytes → (at : Val → ℕ → Writer) → (want : ℕ) → Items → (first : Bool) → ℕ → Writer
  unfolding write_child
  edit_items ks at want nil first r = done
  edit_items ks at zero (item v xs) first r =
      separator s first >> write_child ks at v r >> write_items s xs false r
  edit_items ks at (suc want) (item v xs) first r =
      separator s first >> write_full s v r >> edit_items ks at want xs false r

  -- fj_splice_write_array, with what fj_seg_is_index gives.
  unfoldable pub write_array : List Bytes → (at : Val → ℕ → Writer) → Option ℕ → Items → ℕ → Writer
  unfolding edit_items
  write_array ks at none xs r = stack_ok s r >> not_settable
  write_array ks at (some want) xs r = stack_ok s r >> (elim (leb (arr_size xs) want) [
    | true ↦ not_settable
    | false ↦
        open_bracket s b'[' s.pretty
        >> edit_items ks at want xs true (r - 1)
        >> close_bracket s b']' s.pretty
  ])

  -- fj_splice_write_object
  unfoldable pub write_object :
      (seg : Bytes) → List Bytes → (at : Val → ℕ → Writer) → Members → ℕ → Writer
  unfolding edit_members
  write_object seg ks at ms r =
      stack_ok s r
      >> open_bracket s b'{' s.pretty
      >> edit_members seg ks at ms true false (r - 1)
      >> close_bracket s b'}' s.pretty

  -- A segment's container, or a scalar that has no segment below it.
  unfoldable pub write_segment :
      (seg : Bytes) → List Bytes → (at : Val → ℕ → Writer) → Val → ℕ → Writer
  unfolding write_array write_object
  write_segment seg ks at (obj ms) r = write_object seg ks at ms r
  write_segment seg ks at (arr xs) r = write_array ks at (seg_is_index size_max seg) xs r
  write_segment seg ks at null r = not_settable
  write_segment seg ks at (bool b) r = not_settable
  write_segment seg ks at (num n) r = not_settable
  write_segment seg ks at (str t) r = not_settable
  write_segment seg ks at (raw t) r = not_settable

  -- fj_splice_write_at
  unfoldable pub write_at : List Bytes → Val → ℕ → Writer
  unfolding write_segment
  write_at [] v r = nested s r (stack_ok s r >> write_full s v r)
  write_at (seg ∷ ks) v r = nested s r (stack_ok s r >> write_segment seg ks (write_at ks) v r)

  -- The context at the start, with room for 256 bytes.
  abbrev pub start_ctx : (settable : Bool) → Ctx
  start_ctx settable = record {
    buf = record { bytes = []; room = s.env.grow 0 256 };
    indent = 0;
    status = Status.ok;
    settable = settable;
  }

  -- fastjson_imut_pointer_set_write
  unfoldable pub imut_pointer_set_write : Val → Plan → ℕ → SetResult
  unfolding root_result edit_result write_at put_replacement
  imut_pointer_set_write root plan depth_limit =
      if plan.nsegs == 0
      then root_result (write_replacement depth_limit (start_ctx false))
      else edit_result (write_at (plan_keys plan) root depth_limit (start_ctx true))

-- ===== src/Splice/Full.antt =====
-- Writing a whole value: fj_splice_write_full, fj_splice_write_array_full and
-- fj_splice_write_object_full of fastjson_pointer_splice.c.
use fastjson.Prelude.{
  ℕ, suc, ◌-◌, Bool, true, false, not, ◌&&◌, [], ◌∷◌, Bytes, codes, leb, ◌==◌, if◌then◌else◌,
}
use fastjson.Doc.{
  Val, Items, Members, null, bool, num, str, raw, arr, obj, nil, item, end, member, arr_size,
  obj_size,
}
use fastjson.Pointer.{depth_fail}
use fastjson.Splice.{
  Setting, ok, Writer, ◌>>◌, done, fail, stack_ok, text, newline_indent, write_string, write_number,
  write_raw,
}

abbrev pub bool_text : Bool → Bytes
bool_text true = codes "true"
bool_text false = codes "false"

abbrev pub indent_by : Bool → (ℕ → ℕ) → Writer
indent_by b f c = ok (if b then record c { indent = f c.indent } else c)

abbrev pub if_deep : Bool → Writer → Writer
if_deep true m = fail depth_fail
if_deep false m = m

module _ (s : Setting) where
  -- The guards of fj_splice_write_full: no depth is left, or not enough of it for a container.
  abbrev pub guarded : ℕ → Writer → Writer
  guarded remaining m = if_deep (remaining == 0) (stack_ok s remaining >> m)

  abbrev pub nested : ℕ → Writer → Writer
  nested remaining m = if_deep (leb remaining 1) m

  -- What stands in front of an element or a member, and behind a member's name.
  unfoldable pub separator : Bool → Writer
  separator first c =
      ((if first then done else text s (b',' ∷ []))
          >> (if s.pretty then newline_indent s else done))
        c

  unfoldable pub colon : Writer
  colon c = (text s (b':' ∷ []) >> (if s.pretty then text s (b' ' ∷ []) else done)) c

  -- An opening and a closing bracket, indented where the container is pretty and not empty.
  unfoldable pub open_bracket : ℕ → Bool → Writer
  open_bracket bracket deeper c = (text s (bracket ∷ []) >> indent_by deeper suc) c

  unfoldable pub close_bracket : ℕ → Bool → Writer
  close_bracket bracket deeper c =
      (indent_by deeper (λ n. n - 1)
          >> (if deeper then newline_indent s else done)
          >> text s (bracket ∷ []))
        c

  unfoldable mutual
    unfolding separator colon open_bracket close_bracket

    pub write_full : Val → ℕ → Writer
    write_full null r = guarded r (text s (codes "null"))
    write_full (bool b) r = guarded r (text s (bool_text b))
    write_full (num n) r = guarded r (write_number s n)
    write_full (str t) r = guarded r (write_string s t.bytes)
    write_full (raw t) r = guarded r (write_raw s t)
    write_full (arr xs) r = guarded r (
        nested r (
          stack_ok s r
          >> open_bracket b'[' (s.pretty && not (arr_size xs == 0))
          >> write_items xs true (r - 1)
          >> close_bracket b']' (s.pretty && not (arr_size xs == 0))))
    write_full (obj ms) r = guarded r (
        nested r (
          stack_ok s r
          >> open_bracket b'{' (s.pretty && not (obj_size ms == 0))
          >> write_members ms true (r - 1)
          >> close_bracket b'}' (s.pretty && not (obj_size ms == 0))))

    -- The loop over the elements of an array.
    pub write_items : Items → (first : Bool) → ℕ → Writer
    write_items nil first r = done
    write_items (item v xs) first r = separator first >> write_full v r >> write_items xs false r

    -- The loop over the members of an object.
    pub write_members : Members → (first : Bool) → ℕ → Writer
    write_members end first r = done
    write_members (member k v ms) first r =
        separator first
        >> write_string s k.bytes
        >> colon
        >> write_full v r
        >> write_members ms false r

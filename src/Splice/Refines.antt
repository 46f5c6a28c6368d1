-- ===== src/Splice/Refines.antt =====
-- fj_splice_write_at of fastjson_pointer_splice.c against the edit of a document, where the C stack
-- does not overflow.
use fastjson.Prelude.{
  ℕ, ◌-◌, Bool, true, false, Option, none, some, List, [], ◌∷◌, Bytes, ◌≡◌, refl, sym, ◌∙◌, arith,
  ◌==◌,
}
use fastjson.Doc.{
  Val, Members, null, bool, num, str, raw, arr, obj, end, member, obj_size, bytes_eq,
}
use fastjson.Pointer.Index.{seg_is_index}
use fastjson.Pointer.Walk.{is_blocked}
use fastjson.Splice.{Setting, Writer, ◌>>◌, stack_ok, value}
use fastjson.Splice.Full.{nested, open_bracket, close_bracket, write_full, write_members}
use fastjson.Splice.Edit.{
  write_new, write_child, edit_members, put_replacement, write_array, write_object, write_segment,
  write_at,
}
use fastjson.Splice.SetAt.{
  wrap, has_name, set_member, set_child, set_at, member_first, in_member, as_obj,
}
use fastjson.Splice.Steps.{◌≈◌, given}
use fastjson.Splice.Wholes.{
  stack_step, nested_cong, nested_given, object_of, write_full-obj, write_new-wrap,
}
use fastjson.Splice.ObjectEdits.{edit_members-set_member}
use fastjson.Splice.ArrayEdits.{bracketed, no_container, write_array-set_index}

module _ (s : Setting) (safe : (r : ℕ) → s.overflowed r ≡ false) (size_max : ℕ) (new : Val) where
  abbrev members_of : Option Members → ℕ
  members_of none = 1
  members_of (some ms) = obj_size ms

  set_member-filled :
      (seg : Bytes) (edit : Val → Option Val) (fresh : Val) (ms : Members)
      → (members_of (set_member seg edit fresh ms) == 0) ≡ false
  unfolding set_member
  set_member-filled seg edit fresh end = ground arith
  set_member-filled seg edit fresh (member key v ms) =
      choose (bytes_eq key.bytes seg) (has_name seg ms) (edit v) (set_member seg edit fresh ms)
    where
      choose :
          (b h : Bool) (e : Option Val) (o : Option Members)
          → (members_of (elim b [
            | true ↦ elim h [ true ↦ none | false ↦ member_first key e ms ]
            | false ↦ in_member key v o
          ])
              == 0)
            ≡ false
      choose true true e o = ground arith
      choose true false none o = ground arith
      choose true false (some e) o = ground arith
      choose false h e none = ground arith
      choose false h e (some ms') = ground arith

  -- An object with its edited members.
  whole_object :
      (o : Option Members) (m : Writer) (r : ℕ)
      → (members_of o == 0) ≡ false
      → m ≈ given o (λ ms. write_members s ms true (r - 1))
      → nested s r (object_of s s.pretty m) ≈ given (as_obj o) (λ e. write_full s e r)
  whole_object o m r filled h c =
      nested_cong s safe r (object_of s s.pretty m) (given o write)
        (bracketed s safe size_max new (open_bracket s b'{' s.pretty)
          (close_bracket s b'}' s.pretty) m o (λ ms. write_members s ms true (r - 1)) h)
        c
      ∙ nested_given s safe r o write c
      ∙ finish o filled c
    where
      write : Members → Writer
      write ms = object_of s s.pretty (write_members s ms true (r - 1))

      finish :
          (p : Option Members)
          → (members_of p == 0) ≡ false
          → given p (λ ms. nested s r (write ms)) ≈ given (as_obj p) (λ e. write_full s e r)
      finish none f c' = refl
      finish (some end) f c' = absurd (ground arith)
      finish (some (member k v ms)) f c' = sym (write_full-obj s safe k v ms r c')

  write_segment-set_child :
      (seg : Bytes) (ks : List Bytes) (at : Val → ℕ → Writer) (edit : Val → Option Val)
      (fresh : Val) (r : ℕ)
      → ((v : Val)
          → write_child s size_max (value new) ks at v (r - 1)
            ≈ given (edit v) (λ e. write_full s e (r - 1)))
      → ((v : Val) → is_blocked ks v ≡ true → edit v ≡ none)
      → write_new s size_max (value new) ks (r - 1) ≈ write_full s fresh (r - 1)
      → (v : Val)
      → nested s r (stack_ok s r >> write_segment s size_max (value new) seg ks at v r)
        ≈ given (set_child size_max seg edit fresh v) (λ e. write_full s e r)
  unfolding write_segment write_object set_child
  write_segment-set_child seg ks at edit fresh r place blocked new_eq (obj ms) = λ c.
      nested_cong s safe r (stack_ok s r >> stack_ok s r >> edited) edited
        (λ c'. stack_step s safe r (stack_ok s r >> edited) c' ∙ stack_step s safe r edited c') c
      ∙ whole_object (set_member seg edit fresh ms)
          (edit_members s size_max (value new) seg ks at ms true false (r - 1)) r
          (set_member-filled seg edit fresh ms)
          (edit_members-set_member s safe size_max new seg ks at edit fresh (r - 1) (λ v b. place v)
            blocked new_eq ms true)
          c
    where
      edited : Writer
      edited =
          object_of s s.pretty (edit_members s size_max (value new) seg ks at ms true false (r - 1))
  write_segment-set_child seg ks at edit fresh r place blocked new_eq (arr xs) = λ c.
      nested_cong s safe r
        (stack_ok s r >> write_array s size_max (value new) ks at (seg_is_index size_max seg) xs r)
        (write_array s size_max (value new) ks at (seg_is_index size_max seg) xs r)
        (stack_step s safe r
          (write_array s size_max (value new) ks at (seg_is_index size_max seg) xs r))
        c
      ∙ write_array-set_index s safe size_max new ks at edit r place (seg_is_index size_max seg) xs
          c
  write_segment-set_child seg ks at edit fresh r place blocked new_eq null =
      no_container s safe size_max new r
  write_segment-set_child seg ks at edit fresh r place blocked new_eq (bool b) =
      no_container s safe size_max new r
  write_segment-set_child seg ks at edit fresh r place blocked new_eq (num n) =
      no_container s safe size_max new r
  write_segment-set_child seg ks at edit fresh r place blocked new_eq (str t) =
      no_container s safe size_max new r
  write_segment-set_child seg ks at edit fresh r place blocked new_eq (raw t) =
      no_container s safe size_max new r

  set_at-blocked :
      (ks : List Bytes) (v : Val) → is_blocked ks v ≡ true → set_at size_max ks new v ≡ none
  unfolding set_at set_child
  set_at-blocked [] v b = absurd (ground arith)
  set_at-blocked (k ∷ ks) null b = refl
  set_at-blocked (k ∷ ks) (bool x) b = refl
  set_at-blocked (k ∷ ks) (num n) b = refl
  set_at-blocked (k ∷ ks) (str t) b = refl
  set_at-blocked (k ∷ ks) (raw t) b = refl
  set_at-blocked (k ∷ ks) (arr xs) b = absurd (ground arith)
  set_at-blocked (k ∷ ks) (obj ms) b = absurd (ground arith)

  write_child-set_at :
      (ks : List Bytes) (v : Val) (r : ℕ)
      → write_child s size_max (value new) ks (write_at s size_max (value new) ks) v r
        ≈ given (set_at size_max ks new v) (λ e. write_full s e r)
  unfolding write_child write_at set_at put_replacement
  write_child-set_at [] v r = λ c. refl
  write_child-set_at (k ∷ ks) v r =
      write_segment-set_child k ks (write_at s size_max (value new) ks) (set_at size_max ks new)
        (wrap ks new) r (λ v'. write_child-set_at ks v' (r - 1)) (set_at-blocked ks)
        (write_new-wrap s safe size_max new ks (r - 1)) v

  -- fj_splice_write_at writes the document that `set_at` makes.
  pub write_at-set_at :
      (k : Bytes) (ks : List Bytes) (v : Val) (r : ℕ)
      → write_at s size_max (value new) (k ∷ ks) v r
        ≈ given (set_at size_max (k ∷ ks) new v) (λ e. write_full s e r)
  unfolding write_child
  write_at-set_at k ks v r = write_child-set_at (k ∷ ks) v r

-- ===== src/Splice/MemberSteps.antt =====
-- One round of the loop of fj_splice_write_object of fastjson_pointer_splice.c, and of the edit of
-- the members of a document.
use fastjson.Prelude.{ℕ, Bool, true, false, Option, none, List, [], ◌∷◌, Bytes, ◌≡◌, refl, sym}
use fastjson.Doc.{Val, Members, Str, member, bytes_eq, bytes_eq_sound}
use fastjson.Pointer.Walk.{seg_key_eq, is_blocked}
use fastjson.Splice.{Setting, Writer, ◌>>◌, stop, value}
use fastjson.Splice.Full.{write_full}
use fastjson.Splice.Edit.{write_child, target_name, edit_members}
use fastjson.Splice.SetAt.{has_name, set_member, member_first, in_member}
use fastjson.Splice.Steps.{◌≈◌}
use fastjson.Splice.Wholes.{named}

pub has_name_step :
    (seg : Bytes) (key : Str) (v : Val) (ms : Members) (b : Bool)
    → bytes_eq key.bytes seg ≡ b
    → has_name seg (member key v ms) ≡ (elim b [ true ↦ true | false ↦ has_name seg ms ])
unfolding has_name
has_name_step seg key v ms b e = rw (has_name, e)

pub set_member_step :
    (seg : Bytes) (edit : Val → Option Val) (fresh : Val) (key : Str) (v : Val) (ms : Members)
    (b : Bool)
    → bytes_eq key.bytes seg ≡ b
    → set_member seg edit fresh (member key v ms) ≡ elim b [
      | true ↦ elim (has_name seg ms) [ true ↦ none | false ↦ member_first key (edit v) ms ]
      | false ↦ in_member key v (set_member seg edit fresh ms)
    ]
unfolding set_member
set_member_step seg edit fresh key v ms b e = rw (set_member, e)

pub set_member_hit :
    (seg : Bytes) (edit : Val → Option Val) (fresh : Val) (key : Str) (v : Val) (ms : Members)
    → bytes_eq key.bytes seg ≡ true
    → set_member seg edit fresh (member key v ms)
      ≡ elim (has_name seg ms) [ true ↦ none | false ↦ member_first key (edit v) ms ]
set_member_hit seg edit fresh key v ms e = set_member_step seg edit fresh key v ms true e

module _ (s : Setting) (safe : (r : ℕ) → s.overflowed r ≡ false) (size_max : ℕ) (new : Val) where
  -- The member at the head is another, or the one that the segment names.
  pub edit_other :
      (seg : Bytes) (ks : List Bytes) (at : Val → ℕ → Writer) (key : Str) (v : Val) (ms : Members)
      (first matched : Bool) (r : ℕ)
      → bytes_eq key.bytes seg ≡ false
      → edit_members s size_max (value new) seg ks at (member key v ms) first matched r
        ≡ named s first key.bytes
            (write_full s v r >> edit_members s size_max (value new) seg ks at ms false matched r)
  unfolding edit_members seg_key_eq
  edit_other seg ks at key v ms first matched r e = rw (edit_members, seg_key_eq, e)

  pub edit_again :
      (seg : Bytes) (ks : List Bytes) (at : Val → ℕ → Writer) (key : Str) (v : Val) (ms : Members)
      (first : Bool) (r : ℕ)
      → bytes_eq key.bytes seg ≡ true
      → edit_members s size_max (value new) seg ks at (member key v ms) first true r ≈ (λ c. stop c)
  unfolding edit_members seg_key_eq
  edit_again seg ks at key v ms first r e c = rw (edit_members, seg_key_eq, e)

  pub edit_blocked :
      (seg : Bytes) (ks : List Bytes) (at : Val → ℕ → Writer) (key : Str) (v : Val) (ms : Members)
      (first : Bool) (r : ℕ)
      → bytes_eq key.bytes seg ≡ true
      → is_blocked ks v ≡ true
      → edit_members s size_max (value new) seg ks at (member key v ms) first false r
        ≈ (λ c. stop c)
  unfolding edit_members seg_key_eq
  edit_blocked seg ks at key v ms first r e b c = rw (edit_members, seg_key_eq, e, b)

  pub edit_hit :
      (seg : Bytes) (ks : List Bytes) (at : Val → ℕ → Writer) (key : Str) (v : Val) (ms : Members)
      (first : Bool) (r : ℕ)
      → bytes_eq key.bytes seg ≡ true
      → is_blocked ks v ≡ false
      → edit_members s size_max (value new) seg ks at (member key v ms) first false r
        ≡ named s first (target_name seg ks key) (
            write_child s size_max (value new) ks at v r
            >> edit_members s size_max (value new) seg ks at ms false true r)
  unfolding edit_members seg_key_eq
  edit_hit seg ks at key v ms first r e b = rw (edit_members, seg_key_eq, e, b)

  pub target_name_lem :
      (seg : Bytes) (ks : List Bytes) (key : Str)
      → bytes_eq key.bytes seg ≡ true
      → target_name seg ks key ≡ key.bytes
  target_name_lem seg [] key e = sym (bytes_eq_sound key.bytes seg e)
  target_name_lem seg (k ∷ ks) key e = refl

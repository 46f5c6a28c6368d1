-- ===== src/Splice/ObjectEdits.antt =====
-- The loop of fj_splice_write_object of fastjson_pointer_splice.c, where the C stack does not
-- overflow.
use fastjson.Prelude.{
  ℕ, Bool, true, false, Option, none, some, List, Bytes, ◌≡◌, refl, sym, ap, ◌∙◌, Bool-cases, inl,
  inr,
}
use fastjson.Doc.{Val, Members, Str, end, member, bytes_eq}
use fastjson.Pointer.Walk.{is_blocked}
use fastjson.Splice.{Setting, Writer, ◌>>◌, done, stop, value}
use fastjson.Splice.Full.{write_full, write_members}
use fastjson.Splice.Edit.{write_new, write_child, edit_members}
use fastjson.Splice.SetAt.{has_name, set_member, member_first, in_member}
use fastjson.Splice.Steps.{
  success, ◌≈◌, then_eq, eq_then, then_done, given, given_step, given_then, then_given, given_path,
}
use fastjson.Splice.Wholes.{named, named_cong, named_given}
use fastjson.Splice.MemberSteps.{
  edit_other, edit_again, edit_blocked, edit_hit, target_name_lem, has_name_step, set_member_step,
  set_member_hit,
}

module _ (s : Setting) (safe : (r : ℕ) → s.overflowed r ≡ false) (size_max : ℕ) (new : Val) where
  abbrev once : Bool → Members → Option Members
  once true ms = none
  once false ms = some ms

  -- The members behind the one that was edited.
  edit_members-matched :
      (seg : Bytes) (ks : List Bytes) (at : Val → ℕ → Writer) (ms : Members) (first : Bool) (r : ℕ)
      → edit_members s size_max (value new) seg ks at ms first true r
        ≈ given (once (has_name seg ms) ms) (λ ms'. write_members s ms' first r)
  unfolding edit_members has_name write_members
  edit_members-matched seg ks at end first r = λ c. refl
  edit_members-matched seg ks at (member key v ms) first r = λ c.
      elim (Bool-cases (bytes_eq key.bytes seg)) [
        | inl e ↦
            edit_again s safe size_max new seg ks at key v ms first r e c
            ∙ ap
                (λ b.
                  success (given (once b (member key v ms)) (λ ms'. write_members s ms' first r) c))
                (sym (has_name_step seg key v ms true e))
        | inr e ↦
            ap (λ w. success (w c))
              (edit_other s safe size_max new seg ks at key v ms first true r e)
            ∙ named_given s safe first key.bytes (write_full s v r >> rest)
                (once (has_name seg ms) ms) (λ ms'. write_full s v r >> write_members s ms' false r)
                (given_step (write_full s v r) rest (once (has_name seg ms) ms)
                  (λ ms'. write_members s ms' false r) (edit_members-matched seg ks at ms false r))
                c
            ∙ regive (has_name seg ms) c
            ∙ ap
                (λ b.
                  success (given (once b (member key v ms)) (λ ms'. write_members s ms' first r) c))
                (sym (has_name_step seg key v ms false e))
      ]
    where
      rest : Writer
      rest = edit_members s size_max (value new) seg ks at ms false true r

      regive :
          (b : Bool)
          → given (once b ms) (λ ms'. write_members s (member key v ms') first r)
            ≈ given (once b (member key v ms)) (λ ms'. write_members s ms' first r)
      regive true c = refl
      regive false c = refl

  -- A member that is edited, and the members behind it.
  edit_one :
      (seg : Bytes) (ks : List Bytes) (at : Val → ℕ → Writer) (edit : Val → Option Val) (key : Str)
      (v : Val) (ms : Members) (first : Bool) (r : ℕ)
      → write_child s size_max (value new) ks at v r ≈ given (edit v) (λ e. write_full s e r)
      → named s first key.bytes (
          write_child s size_max (value new) ks at v r
          >> edit_members s size_max (value new) seg ks at ms false true r)
        ≈ given
            (elim (has_name seg ms) [ true ↦ none | false ↦ member_first key (edit v) ms ])
            (λ ms'. write_members s ms' first r)
  unfolding write_members
  edit_one seg ks at edit key v ms first r place c =
      named_cong s safe first key.bytes (child >> rest)
        (child >> given (once (has_name seg ms) ms) whole)
        (then_eq child rest (given (once (has_name seg ms) ms) whole)
          (edit_members-matched seg ks at ms false r))
        c
      ∙ choose (has_name seg ms) c
    where
      child : Writer
      child = write_child s size_max (value new) ks at v r

      rest : Writer
      rest = edit_members s size_max (value new) seg ks at ms false true r

      whole : Members → Writer
      whole ms' = write_members s ms' false r

      put_first :
          (o : Option Val)
          → given o (λ e. named s first key.bytes (write_full s e r >> whole ms))
            ≈ given (member_first key o ms) (λ ms'. write_members s ms' first r)
      put_first none c' = refl
      put_first (some e) c' = refl

      choose :
          (b : Bool)
          → named s first key.bytes (child >> given (once b ms) whole)
            ≈ given
                (elim b [ true ↦ none | false ↦ member_first key (edit v) ms ])
                (λ ms'. write_members s ms' first r)
      choose true c' =
          named_given s safe first key.bytes (child >> given none whole) none whole
            (then_given child none whole) c'
      choose false c' =
          named_given s safe first key.bytes (child >> whole ms) (edit v)
            (λ e. write_full s e r >> whole ms)
            (λ c''.
              eq_then child (given (edit v) (λ e. write_full s e r)) (whole ms) place c''
              ∙ given_then (edit v) (λ e. write_full s e r) (whole ms) c'')
            c'
          ∙ put_first (edit v) c'

  -- The loop of fj_splice_write_object writes the members that `set_member` makes.
  pub edit_members-set_member :
      (seg : Bytes) (ks : List Bytes) (at : Val → ℕ → Writer) (edit : Val → Option Val)
      (fresh : Val) (r : ℕ)
      → ((v : Val)
          → is_blocked ks v ≡ false
          → write_child s size_max (value new) ks at v r ≈ given (edit v) (λ e. write_full s e r))
      → ((v : Val) → is_blocked ks v ≡ true → edit v ≡ none)
      → write_new s size_max (value new) ks r ≈ write_full s fresh r
      → (ms : Members) (first : Bool)
      → edit_members s size_max (value new) seg ks at ms first false r
        ≈ given (set_member seg edit fresh ms) (λ ms'. write_members s ms' first r)
  unfolding edit_members set_member write_members
  edit_members-set_member seg ks at edit fresh r place blocked new_eq end first = λ c.
      named_cong s safe first seg (write_new s size_max (value new) ks r)
        (write_full s fresh r >> done) (λ c'. new_eq c' ∙ sym (then_done (write_full s fresh r) c'))
        c
  edit_members-set_member seg ks at edit fresh r place blocked new_eq (member key v ms) first = λ c.
      elim (Bool-cases (bytes_eq key.bytes seg)) [
        | inl e ↦ elim (Bool-cases (is_blocked ks v)) [
          | inl b ↦
              edit_blocked s safe size_max new seg ks at key v ms first r e b c
              ∙ no_child (has_name seg ms) (blocked v b) c
              ∙ back_to e c
          | inr b ↦
              ap (λ w. success (w c))
                (edit_hit s safe size_max new seg ks at key v ms first r e b
                  ∙ ap (λ n. named s first n (child >> rest))
                      (target_name_lem s safe size_max new seg ks key e))
              ∙ edit_one seg ks at edit key v ms first r (place v b) c
              ∙ back_to e c
        ]
        | inr e ↦
            ap (λ w. success (w c))
              (edit_other s safe size_max new seg ks at key v ms first false r e)
            ∙ named_given s safe first key.bytes (write_full s v r >> later)
                (set_member seg edit fresh ms)
                (λ ms'. write_full s v r >> write_members s ms' false r)
                (given_step (write_full s v r) later (set_member seg edit fresh ms)
                  (λ ms'. write_members s ms' false r)
                  (edit_members-set_member seg ks at edit fresh r place blocked new_eq ms false))
                c
            ∙ regive (set_member seg edit fresh ms) c
            ∙ given_path (λ ms'. write_members s ms' first r)
                (sym (set_member_step seg edit fresh key v ms false e)) c
      ]
    where
      child : Writer
      child = write_child s size_max (value new) ks at v r

      rest : Writer
      rest = edit_members s size_max (value new) seg ks at ms false true r

      later : Writer
      later = edit_members s size_max (value new) seg ks at ms false false r

      back_to :
          bytes_eq key.bytes seg ≡ true
          → given
              (elim (has_name seg ms) [ true ↦ none | false ↦ member_first key (edit v) ms ])
              (λ ms'. write_members s ms' first r)
            ≈ given
                (set_member seg edit fresh (member key v ms))
                (λ ms'. write_members s ms' first r)
      back_to e =
          given_path (λ ms'. write_members s ms' first r)
            (sym (set_member_hit seg edit fresh key v ms e))

      no_child :
          (h : Bool)
          → edit v ≡ none
          → (λ c. stop c)
            ≈ given
                (elim h [ true ↦ none | false ↦ member_first key (edit v) ms ])
                (λ ms'. write_members s ms' first r)
      no_child true n c = refl
      no_child false n c = rw n refl

      regive :
          (o : Option Members)
          → given o (λ ms'. write_members s (member key v ms') first r)
            ≈ given (in_member key v o) (λ ms'. write_members s ms' first r)
      regive none c = refl
      regive (some ms') c = refl

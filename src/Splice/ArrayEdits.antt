-- ===== src/Splice/ArrayEdits.antt =====
-- fj_splice_write_array of fastjson_pointer_splice.c, where the C stack does not overflow.
use fastjson.Prelude.{
  ℕ, zero, suc, ◌-◌, Bool, true, false, Option, none, some, List, Bytes, ◌≡◌, refl, sym, ap, ◌∙◌,
  subst, arith, leb, ◌==◌, Bool-cases, inl, inr,
}
use fastjson.Doc.{Val, Items, nil, item, arr_size}
use fastjson.Splice.{Setting, Writer, ◌>>◌, stop, stack_ok, value}
use fastjson.Splice.Full.{nested, separator, open_bracket, close_bracket, write_full, write_items}
use fastjson.Splice.Edit.{write_child, edit_items, write_array, not_settable}
use fastjson.Splice.SetAt.{set_item, set_index, in_item, as_arr}
use fastjson.Splice.Steps.{success, ◌≈◌, eq_then, given, given_step, given_then, given_path}
use fastjson.Splice.Wholes.{stack_step, nested_cong, nested_given, array_of, write_full-arr}

module _ (s : Setting) (safe : (r : ℕ) → s.overflowed r ≡ false) (size_max : ℕ) (new : Val) where
  -- A container whose contents may not be there.
  pub bracketed {ℓ} :
      {A : Type ℓ} (front back : Writer) (m : Writer) (o : Option A) (f : A → Writer)
      → m ≈ given o f
      → (front >> m >> back) ≈ given o (λ a. front >> f a >> back)
  bracketed front back m o f h =
      given_step front (m >> back) o (λ a. f a >> back)
        (λ c. eq_then m (given o f) back h c ∙ given_then o f back c)

  -- An element that is edited, in front of the rest.
  item_at :
      (xs : Items) (first : Bool) (r : ℕ) (child : Writer) (o : Option Val)
      → child ≈ given o (λ e. write_full s e r)
      → (separator s first >> child >> write_items s xs false r)
        ≈ given
            (elim o [ none ↦ none | some e ↦ some (item e xs) ])
            (λ xs'. write_items s xs' first r)
  unfolding write_items
  item_at xs first r child o place c =
      given_step (separator s first) (child >> later) o (λ e. write_full s e r >> later)
        (λ c'.
          eq_then child (given o (λ e. write_full s e r)) later place c'
          ∙ given_then o (λ e. write_full s e r) later c')
        c
      ∙ regive o c
    where
      later : Writer
      later = write_items s xs false r

      regive :
          (o : Option Val)
          → given o (λ e. separator s first >> write_full s e r >> later)
            ≈ given
                (elim o [ none ↦ none | some e ↦ some (item e xs) ])
                (λ xs'. write_items s xs' first r)
      regive none c' = refl
      regive (some e) c' = refl

  -- The loop of fj_splice_write_array writes the elements that `set_item` makes.
  edit_items-set_item :
      (ks : List Bytes) (at : Val → ℕ → Writer) (edit : Val → Option Val) (r : ℕ)
      → ((v : Val)
          → write_child s size_max (value new) ks at v r ≈ given (edit v) (λ e. write_full s e r))
      → (want : ℕ) (xs : Items) (first : Bool) → leb (arr_size xs) want ≡ false
      → edit_items s size_max (value new) ks at want xs first r
        ≈ given (set_item edit want xs) (λ xs'. write_items s xs' first r)
  unfolding edit_items set_item write_items
  edit_items-set_item ks at edit r place want nil first inside = absurd (ground arith)
  edit_items-set_item ks at edit r place zero (item v xs) first inside =
      item_at xs first r (write_child s size_max (value new) ks at v r) (edit v) (place v)
  edit_items-set_item ks at edit r place (suc want) (item v xs) first inside = λ c.
      given_step (separator s first) (write_full s v r >> rest) (set_item edit want xs)
        (λ xs'. write_full s v r >> write_items s xs' false r)
        (given_step (write_full s v r) rest (set_item edit want xs)
          (λ xs'. write_items s xs' false r)
          (edit_items-set_item ks at edit r place want xs false (ground arith)))
        c
      ∙ regive (set_item edit want xs) c
    where
      rest : Writer
      rest = edit_items s size_max (value new) ks at want xs false r

      regive :
          (o : Option Items)
          → given o (λ xs'. separator s first >> write_full s v r >> write_items s xs' false r)
            ≈ given (in_item v o) (λ xs'. write_items s xs' first r)
      regive none c = refl
      regive (some xs') c = refl

  set_item_outside :
      (edit : Val → Option Val) (want : ℕ) (xs : Items)
      → leb (arr_size xs) want ≡ true
      → set_item edit want xs ≡ none
  unfolding set_item
  set_item_outside edit want nil h = refl
  set_item_outside edit zero (item v xs) h = absurd (ground arith)
  set_item_outside edit (suc want) (item v xs) h =
      ap (in_item v) (set_item_outside edit want xs (ground arith))

  abbrev items_of : Option Items → ℕ
  items_of none = 1
  items_of (some xs) = arr_size xs

  set_item-filled :
      (edit : Val → Option Val) (want : ℕ) (xs : Items)
      → (items_of (set_item edit want xs) == 0) ≡ false
  unfolding set_item
  set_item-filled edit want nil = ground arith
  set_item-filled edit zero (item v xs) = choose (edit v)
    where
      choose :
          (o : Option Val)
          → (items_of (elim o [ none ↦ none | some e ↦ some (item e xs) ]) == 0) ≡ false
      choose none = ground arith
      choose (some e) = ground arith
  set_item-filled edit (suc want) (item v xs) = choose (set_item edit want xs)
    where
      choose : (o : Option Items) → (items_of (in_item v o) == 0) ≡ false
      choose none = ground arith
      choose (some e) = ground arith

  -- An array with its edited elements.
  whole_array :
      (o : Option Items) (m : Writer) (r : ℕ)
      → (items_of o == 0) ≡ false
      → m ≈ given o (λ xs. write_items s xs true (r - 1))
      → nested s r (array_of s s.pretty m) ≈ given (as_arr o) (λ e. write_full s e r)
  whole_array o m r filled h c =
      nested_cong s safe r (array_of s s.pretty m) (given o write)
        (bracketed (open_bracket s b'[' s.pretty) (close_bracket s b']' s.pretty) m o
          (λ xs. write_items s xs true (r - 1)) h)
        c
      ∙ nested_given s safe r o write c
      ∙ finish o filled c
    where
      write : Items → Writer
      write xs = array_of s s.pretty (write_items s xs true (r - 1))

      finish :
          (p : Option Items)
          → (items_of p == 0) ≡ false
          → given p (λ xs. nested s r (write xs)) ≈ given (as_arr p) (λ e. write_full s e r)
      finish none f c' = refl
      finish (some nil) f c' = absurd (ground arith)
      finish (some (item v xs)) f c' = sym (write_full-arr s safe v xs r c')

  nested_stop : (r : ℕ) (m : Writer) → m ≈ (λ c. stop c) → nested s r m ≈ (λ c. stop c)
  nested_stop r m h c =
      nested_cong s safe r m (given none whole) h c ∙ nested_given s safe r none whole c
    where
      whole : Val → Writer
      whole e = write_full s e r

  pub no_container : (r : ℕ) → nested s r (stack_ok s r >> not_settable) ≈ (λ c. stop c)
  no_container r = nested_stop r (stack_ok s r >> not_settable) (stack_step s safe r not_settable)

  pub write_array-set_index :
      (ks : List Bytes) (at : Val → ℕ → Writer) (edit : Val → Option Val) (r : ℕ)
      → ((v : Val)
          → write_child s size_max (value new) ks at v (r - 1)
            ≈ given (edit v) (λ e. write_full s e (r - 1)))
      → (index : Option ℕ) (xs : Items)
      → nested s r (write_array s size_max (value new) ks at index xs r)
        ≈ given (set_index edit index xs) (λ e. write_full s e r)
  unfolding write_array set_index
  write_array-set_index ks at edit r place none xs = no_container r
  write_array-set_index ks at edit r place (some want) xs = λ c.
      nested_cong s safe r (stack_ok s r >> inside (leb (arr_size xs) want))
        (inside (leb (arr_size xs) want)) (stack_step s safe r (inside (leb (arr_size xs) want))) c
      ∙ elim (Bool-cases (leb (arr_size xs) want)) [
        | inl h ↦
            subst (λ b. success (nested s r (inside b) c) ≡ none) (sym h)
              (nested_stop r not_settable (λ c'. refl) c)
            ∙ sym
                (given_path (λ e. write_full s e r) (ap as_arr (set_item_outside edit want xs h)) c)
        | inr h ↦
            subst
              (λ b.
                success (nested s r (inside b) c)
                ≡ success (given (as_arr (set_item edit want xs)) (λ e. write_full s e r) c))
              (sym h)
              (whole_array (set_item edit want xs)
                (edit_items s size_max (value new) ks at want xs true (r - 1)) r
                (set_item-filled edit want xs)
                (edit_items-set_item ks at edit (r - 1) place want xs true h) c)
      ]
    where
      inside : Bool → Writer
      inside b = elim b [
        | true ↦ not_settable
        | false ↦ array_of s s.pretty (edit_items s size_max (value new) ks at want xs true (r - 1))
      ]

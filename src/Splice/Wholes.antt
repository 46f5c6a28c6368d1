-- ===== src/Splice/Wholes.antt =====
-- Guards, brackets and new members of the splice writer of fastjson_pointer_splice.c, where the C
-- stack does not overflow.
use fastjson.Prelude.{
  ℕ, zero, suc, ◌-◌, Bool, true, false, not, ◌&&◌, Option, none, some, List, [], ◌∷◌, Bytes, ◌≡◌,
  refl, sym, ap, subst, ◌∙◌, arith, leb, ◌==◌,
}
use fastjson.Doc.{Val, Items, Members, Str, obj, arr, item, end, member, arr_size, obj_size}
use fastjson.Splice.{Setting, Writer, ◌>>◌, done, stop, stack_ok, write_string, value}
use fastjson.Splice.Full.{
  if_deep, guarded, nested, separator, colon, open_bracket, close_bracket, write_full, write_items,
  write_members,
}
use fastjson.Splice.Edit.{build_suffix, write_new, put_replacement}
use fastjson.Splice.SetAt.{wrap, name}
use fastjson.Splice.Steps.{success, ◌≈◌, given_step, then_eq, eq_then, then_done, regroup, given}

is_suc : (n : ℕ) → (suc n == 0) ≡ false
is_suc n = ground arith

module _ (s : Setting) where
  -- An array and an object with elements, and their contents.
  abbrev pub array_of : Bool → Writer → Writer
  array_of deeper m = open_bracket s b'[' deeper >> m >> close_bracket s b']' deeper

  abbrev pub object_of : Bool → Writer → Writer
  object_of deeper m = open_bracket s b'{' deeper >> m >> close_bracket s b'}' deeper

  -- A named member that is written, and what is written behind the name.
  abbrev pub named : Bool → Bytes → Writer → Writer
  named first k m = separator s first >> write_string s k >> colon s >> m

module _ (s : Setting) (safe : (r : ℕ) → s.overflowed r ≡ false) where
  pub stack_step : (r : ℕ) (m : Writer) → (stack_ok s r >> m) ≈ m
  unfolding stack_ok
  stack_step r m c = ap success (rw safe)

  pretty_step : (n : ℕ) → (s.pretty && not (suc n == 0)) ≡ s.pretty
  pretty_step n = go s.pretty (is_suc n)
    where
      go : (p : Bool) → (suc n == 0) ≡ false → (p && not (suc n == 0)) ≡ p
      go p e = ground (arith, e)

  pub nested_cong : (r : ℕ) (m k : Writer) → m ≈ k → nested s r m ≈ nested s r k
  nested_cong r m k h = choose (leb r 1)
    where
      choose : (b : Bool) → if_deep b m ≈ if_deep b k
      choose true c = refl
      choose false c = h c

  pub nested_given {ℓ} :
      {A : Type ℓ} (r : ℕ) (o : Option A) (f : A → Writer)
      → nested s r (given o f) ≈ given o (λ a. nested s r (f a))
  nested_given r none f = choose (leb r 1)
    where
      choose : (b : Bool) → if_deep b (λ c. stop c) ≈ (λ c. stop c)
      choose true c = refl
      choose false c = refl
  nested_given r (some a) f = λ c. refl

  past_zero : (r : ℕ) (m : Writer) → (r == 0) ≡ false → guarded s r m ≈ m
  past_zero r m e c =
      subst (λ b. success (if_deep b (stack_ok s r >> m) c) ≡ success (m c)) (sym e)
        (stack_step r m c)

  guarded_nested : (r : ℕ) (m : Writer) → guarded s r (nested s r m) ≈ nested s r m
  guarded_nested zero m c = refl
  guarded_nested (suc r) m c = past_zero (suc r) (nested s (suc r) m) (is_suc r) c

  container : (r : ℕ) (m : Writer) → guarded s r (nested s r (stack_ok s r >> m)) ≈ nested s r m
  container r m c =
      guarded_nested r (stack_ok s r >> m) c
      ∙ nested_cong r (stack_ok s r >> m) m (stack_step r m) c

  nonempty :
      (r n : ℕ) (of : Bool → Writer)
      → guarded s r (nested s r (stack_ok s r >> of (s.pretty && not (suc n == 0))))
        ≈ nested s r (of s.pretty)
  nonempty r n of =
      subst
        (λ b.
          guarded s r (nested s r (stack_ok s r >> of (s.pretty && not (suc n == 0))))
          ≈ nested s r (of b))
        (pretty_step n) (container r (of (s.pretty && not (suc n == 0))))

  pub write_full-obj :
      (k : Str) (v : Val) (ms : Members) (r : ℕ)
      → write_full s (obj (member k v ms)) r
        ≈ nested s r (object_of s s.pretty (write_members s (member k v ms) true (r - 1)))
  unfolding write_full
  write_full-obj k v ms r =
      nonempty r (obj_size ms) (λ b. object_of s b (write_members s (member k v ms) true (r - 1)))

  pub write_full-arr :
      (v : Val) (xs : Items) (r : ℕ)
      → write_full s (arr (item v xs)) r
        ≈ nested s r (array_of s s.pretty (write_items s (item v xs) true (r - 1)))
  unfolding write_full
  write_full-arr v xs r =
      nonempty r (arr_size xs) (λ b. array_of s b (write_items s (item v xs) true (r - 1)))

  pub named_cong :
      (first : Bool) (k : Bytes) (m n : Writer) → m ≈ n → named s first k m ≈ named s first k n
  named_cong first k m n h =
      then_eq (separator s first) (write_string s k >> colon s >> m)
        (write_string s k >> colon s >> n)
        (then_eq (write_string s k) (colon s >> m) (colon s >> n) (then_eq (colon s) m n h))

  pub named_given {ℓ} :
      {A : Type ℓ} (first : Bool) (k : Bytes) (m : Writer) (o : Option A) (f : A → Writer)
      → m ≈ given o f
      → named s first k m ≈ given o (λ a. named s first k (f a))
  named_given first k m o f h =
      given_step (separator s first) (write_string s k >> colon s >> m) o
        (λ a. write_string s k >> colon s >> f a)
        (given_step (write_string s k) (colon s >> m) o (λ a. colon s >> f a)
          (given_step (colon s) m o f h))

  named_then :
      (first : Bool) (k : Bytes) (m l : Writer)
      → (named s first k m >> l) ≈ named s first k (m >> l)
  named_then first k m l c =
      regroup (separator s first) x l c
      ∙ then_eq (separator s first) (x >> l) (write_string s k >> colon s >> m >> l)
          (λ c'.
            regroup (write_string s k) (colon s >> m) l c'
            ∙ then_eq (write_string s k) ((colon s >> m) >> l) (colon s >> m >> l)
                (regroup (colon s) m l) c')
          c
    where
      x : Writer
      x = write_string s k >> colon s >> m

  -- A single member in front of the closing bracket.
  member_then :
      (k : Bytes) (m whole l : Writer)
      → m ≈ whole
      → named s true k (m >> l) ≈ (named s true k (whole >> done) >> l)
  member_then k m whole l h c =
      named_cong true k (m >> l) ((whole >> done) >> l)
        (eq_then m (whole >> done) l (λ c'. h c' ∙ sym (then_done whole c'))) c
      ∙ sym (named_then true k (whole >> done) l c)

  -- The value behind the segments that the document does not have.
  pub build_suffix-wrap :
      (size_max : ℕ) (new : Val) (ks : List Bytes) (r : ℕ)
      → build_suffix s size_max (value new) ks r ≈ write_full s (wrap ks new) r
  unfolding build_suffix put_replacement wrap separator write_members
  build_suffix-wrap size_max new [] r c = stack_step r (write_full s new r) c
  build_suffix-wrap size_max new (k ∷ ks) r c =
      stack_step r (nested s r (front >> m)) c
      ∙ nested_cong r (front >> m) (front >> single)
          (then_eq front m single (
            member_then k part whole (close_bracket s b'}' s.pretty)
              (build_suffix-wrap size_max new ks (r - 1))))
          c
      ∙ sym (write_full-obj (name k) (wrap ks new) end r c)
    where
      part : Writer
      part = build_suffix s size_max (value new) ks (r - 1)

      whole : Writer
      whole = write_full s (wrap ks new) (r - 1)

      m : Writer
      m = named s true k (part >> close_bracket s b'}' s.pretty)

      single : Writer
      single = named s true k (whole >> done) >> close_bracket s b'}' s.pretty

      front : Writer
      front = open_bracket s b'{' s.pretty

  pub write_new-wrap :
      (size_max : ℕ) (new : Val) (ks : List Bytes) (r : ℕ)
      → write_new s size_max (value new) ks r ≈ write_full s (wrap ks new) r
  unfolding write_new put_replacement wrap
  write_new-wrap size_max new [] r c = refl
  write_new-wrap size_max new (k ∷ ks) r c = build_suffix-wrap size_max new (k ∷ ks) r c

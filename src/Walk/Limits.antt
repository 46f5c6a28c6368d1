-- ===== src/Walk/Limits.antt =====
-- The steps of the walk of fastjson_walk.inc where a part of it is too deep.
use fastjson.Prelude.{
  ℕ, suc, ◌-◌, ◌≤◌, max, Bool, true, false, ◌&&◌, ◌||◌, leb, ◌==◌, if◌then◌else◌, ◌≡◌, refl, ap,
  ◌∙◌, arith,
}
use fastjson.Zval.{index}
use fastjson.Walk.{
  Decoded, Fields, field, Setting, too_deep, Result, made, failed, Cache, with_value, first_field,
  wrapped, scalar, container,
}

-- A walk that fails for its depth where the test holds.
abbrev pub unless_deep {ℓ} : {A : Type ℓ} → Bool → A → Result A
unless_deep true x = failed too_deep
unless_deep false x = made x

module _ (s : Setting) where
  pub with_value-unless_deep {ℓ} :
      {A : Type ℓ} (a b : Bool) (z : Decoded) (t : A) (x : Result Decoded × Cache)
      → (k : Decoded → Cache → Result A × Cache) → x.0 ≡ unless_deep a z
      → ((c : Cache) → (k z c).0 ≡ unless_deep b t)
      → (with_value s x k).0 ≡ unless_deep (a || b) t
  with_value-unless_deep true b z t (made u, c) k h hk = absurd (cc h)
  with_value-unless_deep false b z t (failed e, c) k h hk = absurd (cc h)
  with_value-unless_deep {A = A} true b z t (failed e, c) k h hk = ap moved h
    where
      moved : Result Decoded → Result A
      moved (failed e) = failed e
      moved (made u) = failed too_deep
  with_value-unless_deep false b z t (made u, c) k h hk = ap (λ y. (k (held y) c).0) h ∙ hk c
    where
      held : Result Decoded → Decoded
      held (made y) = y
      held (failed e) = z

  pub first_field-unless_deep :
      (i : ℕ) (z : Decoded) (b : Bool) (t : Fields) (x : Result Fields × Cache)
      → x.0 ≡ unless_deep b t
      → (first_field s i z x).0 ≡ unless_deep b (field (index i) z t)
  first_field-unless_deep i z b t x h = behind x ∙ ap put h ∙ at b
    where
      put : Result Fields → Result Fields
      put (made u) = made (field (index i) z u)
      put (failed e) = failed e

      behind : (y : Result Fields × Cache) → (first_field s i z y).0 ≡ put y.0
      behind (made u, c) = refl
      behind (failed e, c) = refl

      at : (b : Bool) → put (unless_deep b t) ≡ unless_deep b (field (index i) z t)
      at true = refl
      at false = refl

  wrapped-unless_deep :
      (f : Fields → Decoded) (b : Bool) (t : Fields) (x : Result Fields × Cache)
      → x.0 ≡ unless_deep b t
      → (wrapped s f x).0 ≡ unless_deep b (f t)
  wrapped-unless_deep f b t x h = behind x ∙ ap put h ∙ at b
    where
      put : Result Fields → Result Decoded
      put (made u) = made (f u)
      put (failed e) = failed e

      behind : (y : Result Fields × Cache) → (wrapped s f y).0 ≡ put y.0
      behind (made u, c) = refl
      behind (failed e, c) = refl

      at : (b : Bool) → put (unless_deep b t) ≡ unless_deep b (f t)
      at true = refl
      at false = refl

  pub leb-max : (r a b : ℕ) → leb r a || leb r b ≡ leb r (max a b)
  leb-max r a b = ground arith

  pub and_fst : (a b : Bool) → a && b ≡ true → a ≡ true
  and_fst true b h = refl
  and_fst false b h = absurd (cc h)

  pub and_snd : (a b : Bool) → a && b ≡ true → b ≡ true
  and_snd true b h = h
  and_snd false b h = absurd (cc h)

  module _ (room : (r : ℕ) → s.overflowed r ≡ false) where
    pub scalar_lem :
        (r : ℕ) (z : Decoded) (c : Cache) → (scalar s r z c).0 ≡ unless_deep (leb r 0) z
    scalar_lem r z c = choose (r == 0) (leb r 0) (ground arith)
      where
        choose :
            (a b : Bool)
            → a ≡ b
            → (if◌then◌else◌ {A = Result Decoded × Cache} a (failed too_deep, c) (made z, c)).0
              ≡ unless_deep b z
        choose true true h = refl
        choose false false h = refl
        choose true false h = absurd (cc h)
        choose false true h = absurd (cc h)

    pub container_lem :
        (r h : ℕ) (f : Fields → Decoded) (t : Fields) (m : Cache → Result Fields × Cache)
        → (c : Cache) → (2 ≤ r → (m c).0 ≡ unless_deep (leb (r - 1) h) t)
        → (container s r f m c).0 ≡ unless_deep (leb r (suc h)) (f t)
    container_lem r h f t m c hm =
        choose (r == 0 || s.overflowed r || leb r 1) (leb r (suc h)) refl refl
      where
        o : s.overflowed r ≡ false
        o = room r

        deep : (r == 0 || s.overflowed r || leb r 1) ≡ true → leb r (suc h) ≡ true
        deep p = ground (arith, o, p)

        fits : (r == 0 || s.overflowed r || leb r 1) ≡ false → 2 ≤ r
        fits p = ground (arith, o, p)

        same : 2 ≤ r → leb (r - 1) h ≡ leb r (suc h)
        same p = ground (arith, p)

        choose :
            (a b : Bool)
            → (r == 0 || s.overflowed r || leb r 1) ≡ a
            → leb r (suc h) ≡ b
            → (if◌then◌else◌ {A = Result Decoded × Cache} a
                (failed too_deep, c)
                (wrapped s f (m c))).0
              ≡ unless_deep b (f t)
        choose true true p q = refl
        choose true false p q = absurd (cc (deep p, q))
        choose false b p q =
            wrapped-unless_deep f b t (m c)
              (hm (fits p) ∙ ap (λ x. unless_deep x t) (same (fits p) ∙ q))

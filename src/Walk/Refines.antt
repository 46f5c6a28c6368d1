-- ===== src/Walk/Refines.antt =====
-- The walk of fastjson_walk.inc builds the value that the document stands for, whatever the cache
-- of keys holds, and fails exactly where the document is too deep.
use fastjson.Prelude.{
  ℕ, ◌+◌, ◌-◌, ◌≤◌, Bool, true, false, not, ◌&&◌, ◌||◌, leb, if◌then◌else◌, ◌≡◌, ap, ◌∙◌, arith,
}
use fastjson.Doc.{Str, Val, Items, Members, nil, item, end, member}
use fastjson.Depth.Height.{height, item_height, member_height}
use fastjson.Zval.{index}
use fastjson.Walk.{
  Decoded, array, Fields, no_fields, field, Setting, invalid_name, Result, failed, Cache,
  string_bytes, is_refused, insert, with_value, first_field, built, walk, walk_items, walk_members,
}
use fastjson.Walk.Build.{
  build, build_items, build_members, names_fit, item_names_fit, member_names_fit, key_of,
  insert_lem,
}
use fastjson.Walk.Limits.{
  unless_deep, with_value-unless_deep, first_field-unless_deep, leb-max, and_fst, and_snd,
  scalar_lem, container_lem,
}

module _ (s : Setting) (room : (r : ℕ) → s.overflowed r ≡ false) where
  -- A member, with what holds of its value and of the members behind it.
  member_lem :
      (k : Str) (v : Val) (ms : Members) (ht : Fields) (r : ℕ) (c : Cache)
      → not (is_refused s k) ≡ true
      → (walk s v r c).0 ≡ unless_deep (leb r (height v)) (build s v)
      → ((t : Fields) (c' : Cache)
          → (walk_members s ms t r c').0
            ≡ unless_deep (leb r (member_height ms)) (build_members s ms t))
      → (walk_members s (member k v ms) ht r c).0
        ≡ unless_deep
            (leb r (height v) || leb r (member_height ms))
            (build_members s (member k v ms) ht)
  unfolding walk_members build_members
  member_lem k v ms ht r c fits hv hms = choose (is_refused s k) fits
    where
      next : Fields
      next = s.update ht (key_of s (string_bytes s k)) (build s v)

      after : Decoded → Cache → Result Fields × Cache
      after z c' =
          walk_members s ms (insert s ht (string_bytes s k) z c').0 r
            (insert s ht (string_bytes s k) z c').1

      choose :
          (b : Bool)
          → not b ≡ true
          → (if◌then◌else◌ {A = Result Fields × Cache} b
              (failed invalid_name, c)
              (with_value s (walk s v r c) after)).0
            ≡ unless_deep (leb r (height v) || leb r (member_height ms)) (build_members s ms next)
      choose true e = absurd (cc e)
      choose false e =
          with_value-unless_deep s (leb r (height v)) (leb r (member_height ms)) (build s v)
            (build_members s ms next) (walk s v r c) after hv
            (λ c'.
              hms (insert s ht (string_bytes s k) (build s v) c').0
                (insert s ht (string_bytes s k) (build s v) c').1
              ∙ ap (λ x. unless_deep (leb r (member_height ms)) (build_members s ms x))
                  (insert_lem s ht (string_bytes s k) (build s v) c'))

  mutual
    unfolding walk walk_items walk_members build build_items build_members height item_height
        member_height names_fit item_names_fit member_names_fit

    walk_lem :
        (v : Val) (r : ℕ) (c : Cache)
        → names_fit s v ≡ true
        → (walk s v r c).0 ≡ unless_deep (leb r (height v)) (build s v)
    walk_lem Val.null r c h = scalar_lem s room r (build s Val.null) c
    walk_lem (Val.bool b) r c h = scalar_lem s room r (build s (Val.bool b)) c
    walk_lem (Val.num n) r c h = scalar_lem s room r (build s (Val.num n)) c
    walk_lem (Val.raw t) r c h = scalar_lem s room r (build s (Val.raw t)) c
    walk_lem (Val.str t) r c h = scalar_lem s room r (build s (Val.str t)) c
    walk_lem (Val.arr xs) r c h =
        container_lem s room r (item_height xs) array (build_items s xs 0)
          (walk_items s xs 0 (r - 1)) c (λ p. walk_items_lem xs 0 (r - 1) c (omega (arith, p)) h)
    walk_lem (Val.obj ms) r c h =
        container_lem s room r (member_height ms) (built s) (build_members s ms no_fields)
          (walk_members s ms no_fields (r - 1)) c
          (λ p. walk_members_lem ms no_fields (r - 1) c (omega (arith, p)) h)

    walk_items_lem :
        (xs : Items) (i r : ℕ) (c : Cache)
        → 1 ≤ r
        → item_names_fit s xs ≡ true
        → (walk_items s xs i r c).0 ≡ unless_deep (leb r (item_height xs)) (build_items s xs i)
    walk_items_lem nil i r c p h = ap (λ b. unless_deep b no_fields) (pos r p)
      where
        pos : (r : ℕ) → 1 ≤ r → false ≡ leb r 0
        pos r p = ground (arith, p)
    walk_items_lem (item v xs) i r c p h =
        with_value-unless_deep s (leb r (height v)) (leb r (item_height xs)) (build s v)
          (field (index i) (build s v) (build_items s xs (i + 1))) (walk s v r c)
          (λ z c'. first_field s i z (walk_items s xs (i + 1) r c'))
          (walk_lem v r c (and_fst s (names_fit s v) (item_names_fit s xs) h))
          (λ c'.
            first_field-unless_deep s i (build s v) (leb r (item_height xs))
              (build_items s xs (i + 1)) (walk_items s xs (i + 1) r c')
              (walk_items_lem xs (i + 1) r c' p
                (and_snd s (names_fit s v) (item_names_fit s xs) h)))
        ∙ ap (λ b. unless_deep b (build_items s (item v xs) i))
            (leb-max s r (height v) (item_height xs))

    walk_members_lem :
        (ms : Members) (ht : Fields) (r : ℕ) (c : Cache)
        → 1 ≤ r
        → member_names_fit s ms ≡ true
        → (walk_members s ms ht r c).0
          ≡ unless_deep (leb r (member_height ms)) (build_members s ms ht)
    walk_members_lem end ht r c p h = ap (λ b. unless_deep b ht) (pos r p)
      where
        pos : (r : ℕ) → 1 ≤ r → false ≡ leb r 0
        pos r p = ground (arith, p)
    walk_members_lem (member k v ms) ht r c p h =
        member_lem k v ms ht r c (and_fst s (not (is_refused s k)) rest h)
          (walk_lem v r c (and_fst s (names_fit s v) (member_names_fit s ms) fits))
          (λ ht' c'.
            walk_members_lem ms ht' r c' p (and_snd s (names_fit s v) (member_names_fit s ms) fits))
        ∙ ap (λ b. unless_deep b (build_members s (member k v ms) ht))
            (leb-max s r (height v) (member_height ms))
      where
        rest : Bool
        rest = names_fit s v && member_names_fit s ms

        fits : rest ≡ true
        fits = and_snd s (not (is_refused s k)) rest h

  -- Where the C stack is large enough, and no name of a document that becomes objects starts with a
  -- NUL byte: the walk gives the value that the document stands for if its containers nest less
  -- deep than the depth that remains, and otherwise fails for its depth. The cache of keys, present
  -- or not and whatever it holds, changes nothing in that.
  pub walk-build :
      (v : Val) (r : ℕ) (c : Cache)
      → names_fit s v ≡ true
      → (walk s v r c).0 ≡ unless_deep (leb r (height v)) (build s v)
  walk-build v r c h = walk_lem v r c h

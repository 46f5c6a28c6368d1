-- ===== src/Walk/Build.antt =====
-- The value that a document stands for, without the depth limit and the cache of keys of the walk
-- in fastjson_walk.inc, and the update of a hash table with a member.
use fastjson.Prelude.{
  ℕ, ◌+◌, Bool, true, false, not, ◌&&◌, Option, none, some, Bytes, if◌then◌else◌, ◌≡◌, refl, ap,
}
use fastjson.Doc.{Val, Items, Members, nil, item, end, member}
use fastjson.KeyCache.{KeyCache, KeyString, share_key}
use fastjson.KeyCache.Transparent.{Names, share_key-Names}
use fastjson.Zval.{Key, index, name}
use fastjson.Walk.{
  Decoded, null, bool, string, array, Fields, no_fields, field, Setting, Cache, num_to_zval,
  raw_to_zval, string_bytes, is_refused, stored_name, shared_name, insert_named, insert, built,
}

module _ (s : Setting) where
  -- The key of a member: an index in place of a numeric name of an array.
  unfoldable pub key_of : Bytes → Key
  key_of t = if s.assoc then elim (s.numeric_key t) [ none ↦ name t | some i ↦ index i ] else name t

  -- The value of a document, without a limit and without a cache.
  unfoldable mutual
    unfolding num_to_zval raw_to_zval string_bytes key_of

    pub build : Val → Decoded
    build Val.null = null
    build (Val.bool b) = bool b
    build (Val.num n) = num_to_zval s n
    build (Val.raw t) = raw_to_zval s t
    build (Val.str t) = string (string_bytes s t)
    build (Val.arr xs) = array (build_items xs 0)
    build (Val.obj ms) = built s (build_members ms no_fields)

    pub build_items : Items → ℕ → Fields
    build_items nil i = no_fields
    build_items (item v xs) i = field (index i) (build v) (build_items xs (i + 1))

    pub build_members : Members → Fields → Fields
    build_members end ht = ht
    build_members (member k v ms) ht =
        build_members ms (s.update ht (key_of (string_bytes s k)) (build v))

  -- No member of a document that becomes objects has a name that starts with a NUL byte.
  unfoldable mutual
    unfolding is_refused

    pub names_fit : Val → Bool
    names_fit Val.null = true
    names_fit (Val.bool b) = true
    names_fit (Val.num n) = true
    names_fit (Val.raw t) = true
    names_fit (Val.str t) = true
    names_fit (Val.arr xs) = item_names_fit xs
    names_fit (Val.obj ms) = member_names_fit ms

    pub item_names_fit : Items → Bool
    item_names_fit nil = true
    item_names_fit (item v xs) = names_fit v && item_names_fit xs

    pub member_names_fit : Members → Bool
    member_names_fit end = true
    member_names_fit (member k v ms) = not (is_refused s k) && (names_fit v && member_names_fit ms)

  shared_name_lem : (t : Bytes) (c : Cache) → (shared_name s t c).0 ≡ t
  unfolding shared_name
  shared_name_lem t none = refl
  shared_name_lem t (some cache) =
      choose (share_key s.hash cache t) (share_key-Names s.hash t cache)
    where
      choose : (x : Option KeyString × KeyCache) → Names s.hash t x.0 → (stored_name s t x).0 ≡ t
      choose (none, cache') h = refl
      choose (some shared, cache') (h, g) = h

  named_lem :
      (ht : Fields) (t : Bytes) (z : Decoded) (c : Cache)
      → (insert_named s ht t z c).0 ≡ s.update ht (name t) z
  unfolding insert_named
  named_lem ht t z c = ap (λ u. s.update ht (name u) z) (shared_name_lem t c)

  pub insert_lem :
      (ht : Fields) (t : Bytes) (z : Decoded) (c : Cache)
      → (insert s ht t z c).0 ≡ s.update ht (key_of t) z
  unfolding insert key_of
  insert_lem ht t z c = choose s.assoc (s.numeric_key t)
    where
      choose :
          (b : Bool) (o : Option ℕ)
          → (if◌then◌else◌ {A = Fields × Cache} b
              (elim o as (λ _. Fields × Cache) [
                | none ↦ insert_named s ht t z c
                | some i ↦ (s.update ht (index i) z, c)
              ])
              (insert_named s ht t z c)).0
            ≡ s.update ht
                (if b then elim o as (λ _. Key) [ none ↦ name t | some i ↦ index i ] else name t)
                z
      choose true none = named_lem ht t z c
      choose true (some i) = refl
      choose false o = named_lem ht t z c

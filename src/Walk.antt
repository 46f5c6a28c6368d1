-- ===== src/Walk.antt =====
-- The walk that turns a document into a PHP value: the functions of fastjson_walk.inc and the
-- number conversions of fastjson_decode.c. The four walkers that the file is compiled to differ in
-- the tree they read and in whether they sanitize strings.
pub mod Build
pub mod Limits
pub mod Refines
pub mod Lookup
pub mod Examples
use fastjson.Prelude.{
  ℕ, zero, suc, ◌+◌, ◌-◌, ◌^◌, Bool, true, false, not, ◌&&◌, ◌||◌, Option, none, some, [], ◌∷◌,
  Bytes, ltb, leb, ◌==◌, if◌then◌else◌,
}
use fastjson.Doc.{Str, Num, uint, sint, real, Val, Items, Members, nil, item, end, member}
use fastjson.Doc
use fastjson.Utf8.{sanitize_utf8, SanitizeMode}
use fastjson.Pointer.Index.{write_uint64_dec}
use fastjson.Splice.{has_float_mark}
use fastjson.Reading.{DecodeFlags}
use fastjson.KeyCache.{KeyCache, KeyString, share_key}
use fastjson.Zval.{Key, index, name}

-- A PHP value as the walk builds it: a zend_long and a double are their 64-bit patterns.
mutual
  pub data Decoded : Type 0 where
    null : Decoded
    bool : Bool → Decoded
    long : ℕ → Decoded
    double : ℕ → Decoded
    string : Bytes → Decoded
    array : Fields → Decoded
    object : Fields → Decoded

  -- The elements of a hash table in their order.
  pub data Fields : Type 0 where
    no_fields : Fields
    field : Key → Decoded → Fields → Fields

-- What stays the same in a walk: `$associative`, the flags, and what is taken from the engine:
-- ZEND_LONG_MAX, the conversions to a double, ZEND_HANDLE_NUMERIC_STR (`none` for a name that is
-- no index), the hash of a string, the update of a hash table, and whether the C stack has
-- overflowed where so much depth remains.
pub record Setting : Type 0 where
  pub assoc : Bool
  pub flags : DecodeFlags
  pub long_max : ℕ
  pub uint_to_double : ℕ → ℕ
  pub sint_to_double : ℕ → ℕ
  pub strtod : Bytes → ℕ
  pub numeric_key : Bytes → Option ℕ
  pub hash : Bytes → ℕ
  pub update : Fields → Key → Decoded → Fields
  pub overflowed : ℕ → Bool

-- What a walk records where it fails.
pub data Failure : Type 0 where
  too_deep invalid_name : Failure

pub data Result {ℓ} (A : Type ℓ) : Type ℓ where
  made : A → Result A
  failed : Failure → Result A

-- The cache of object keys, where one is installed.
abbrev pub Cache : Type 0
Cache = Option KeyCache

-- fj_write_sint64_dec
unfoldable pub write_sint64_dec : ℕ → Bytes
unfolding write_uint64_dec
write_sint64_dec p =
    if leb (2 ^ 63) p then b'-' ∷ write_uint64_dec (2 ^ 64 - p) else write_uint64_dec p

module _ (s : Setting) where
  -- fj_num_to_zval: a sint is at least ZEND_LONG_MIN, or it is negative and below.
  unfoldable pub num_to_zval : Num → Decoded
  unfolding write_sint64_dec
  num_to_zval (real d) = double d
  num_to_zval (uint u) =
      if leb u s.long_max
      then long u
      else if s.flags.bigint_as_string
      then string (write_uint64_dec u)
      else double (s.uint_to_double u)
  num_to_zval (sint p) =
      if ltb p (2 ^ 63) || leb (2 ^ 64 - p) (s.long_max + 1)
      then long p
      else if s.flags.bigint_as_string
      then string (write_sint64_dec p)
      else double (s.sint_to_double p)

  -- fj_raw_to_zval
  unfoldable pub raw_to_zval : Bytes → Decoded
  unfolding has_float_mark
  raw_to_zval t = if has_float_mark t then double (s.strtod t) else string t

  -- The bytes of a string or a key: FASTJSON_HAS_UTF8_HANDLING_FLAG selects the walker that
  -- sanitizes those that the parser has marked.
  unfoldable pub string_bytes : Str → Bytes
  string_bytes t =
      if (s.flags.ignore || s.flags.subst) && t.invalid
      then sanitize_utf8 s.flags.ignore s.flags.subst SanitizeMode.decode t.bytes
      else t.bytes

  abbrev pub starts_with_nul : Bytes → Bool
  starts_with_nul [] = false
  starts_with_nul (c ∷ t) = c == 0

  -- A member's name that is no property name of an object.
  unfoldable pub is_refused : Str → Bool
  unfolding string_bytes
  is_refused k = not s.assoc && starts_with_nul (string_bytes k)

  -- fj_share_key: the name under which a member is stored, and the cache.
  abbrev pub stored_name : Bytes → Option KeyString × KeyCache → Bytes × Cache
  stored_name t (none, cache) = (t, some cache)
  stored_name t (some shared, cache) = (shared.bytes, some cache)

  unfoldable pub shared_name : Bytes → Cache → Bytes × Cache
  shared_name t none = (t, none)
  shared_name t (some cache) = stored_name t (share_key s.hash cache t)

  unfoldable pub insert_named : Fields → Bytes → Decoded → Cache → Fields × Cache
  unfolding shared_name
  insert_named ht t z c = let (u, c') = shared_name t c in (s.update ht (name u) z, c')

  -- The update of the hash table with a member.
  unfoldable pub insert : Fields → Bytes → Decoded → Cache → Fields × Cache
  unfolding insert_named
  insert ht t z c =
      if s.assoc
      then elim (s.numeric_key t) [
        | none ↦ insert_named ht t z c
        | some i ↦ (s.update ht (index i) z, c)
      ]
      else insert_named ht t z c

  abbrev pub with_value {ℓ} :
      {A : Type ℓ}
      → Result Decoded × Cache
      → (Decoded → Cache → Result A × Cache)
      → Result A × Cache
  with_value (made z, c) k = k z c
  with_value (failed e, c) k = (failed e, c)

  abbrev pub first_field : ℕ → Decoded → Result Fields × Cache → Result Fields × Cache
  first_field i z (made t, c) = (made (field (index i) z t), c)
  first_field i z (failed e, c) = (failed e, c)

  abbrev pub wrapped : (Fields → Decoded) → Result Fields × Cache → Result Decoded × Cache
  wrapped f (made t, c) = (made (f t), c)
  wrapped f (failed e, c) = (failed e, c)

  -- What is tested in front of every value, and in front of a container.
  abbrev pub scalar : ℕ → Decoded → Cache → Result Decoded × Cache
  scalar remaining z c = if remaining == 0 then (failed too_deep, c) else (made z, c)

  abbrev pub container :
      ℕ → (Fields → Decoded) → (Cache → Result Fields × Cache) → Cache → Result Decoded × Cache
  container remaining f m c =
      if remaining == 0 || s.overflowed remaining || leb remaining 1
      then (failed too_deep, c)
      else wrapped f (m c)

  abbrev pub built : Fields → Decoded
  built t = if s.assoc then array t else object t

  unfoldable mutual
    unfolding num_to_zval raw_to_zval string_bytes is_refused insert

    pub walk : Val → ℕ → Cache → Result Decoded × Cache
    walk Val.null r = scalar r null
    walk (Val.bool b) r = scalar r (bool b)
    walk (Val.num n) r = scalar r (num_to_zval n)
    walk (Val.raw t) r = scalar r (raw_to_zval t)
    walk (Val.str t) r = scalar r (string (string_bytes t))
    walk (Val.arr xs) r = container r array (walk_items xs 0 (r - 1))
    walk (Val.obj ms) r = container r built (walk_members ms no_fields (r - 1))

    -- The loop over an array from the element `i` on.
    pub walk_items : Items → (i : ℕ) → ℕ → Cache → Result Fields × Cache
    walk_items nil i r c = (made no_fields, c)
    walk_items (item v xs) i r c =
        with_value (walk v r c) (λ z c'. first_field i z (walk_items xs (i + 1) r c'))

    -- The loop over an object, with the hash table so far.
    pub walk_members : Members → Fields → ℕ → Cache → Result Fields × Cache
    walk_members end ht r c = (made ht, c)
    walk_members (member k v ms) ht r c =
        if is_refused k
        then (failed invalid_name, c)
        else with_value (walk v r c)
            (λ z c'. let (ht', c'') = insert ht (string_bytes k) z c' in walk_members ms ht' r c'')

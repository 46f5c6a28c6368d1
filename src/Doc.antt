-- ===== src/Doc.antt =====
-- The document model: a parsed yyjson value as the extension reads it through the accessors of
-- the vendored parser (yyjson_get_type, the array and object iterators, yyjson_get_str and
-- yyjson_get_len, …). An immutable and a mutable tree read alike. A string carries the tag bit
-- YYJSON_RESERVED_INVALID_UNICODE, which the patched parser sets on malformed UTF-8. A real is
-- the 64-bit pattern of the double.
use fastjson.Prelude.{
  ℕ, zero, suc, Bool, true, false, ◌&&◌, [], ◌∷◌, Option, none, some, ◌≡◌, refl, arith, Bytes, ◌==◌,
}

pub record Str : Type 0 where
  pub bytes : Bytes
  pub invalid : Bool

-- YYJSON_TYPE_NUM with its subtypes. `sint` holds the two's complement pattern of an int64_t.
pub data Num : Type 0 where
  uint : ℕ → Num
  sint : ℕ → Num
  real : ℕ → Num

mutual
  pub data Val : Type 0 where
    null : Val
    bool : Bool → Val
    num : Num → Val
    str : Str → Val
    raw : Bytes → Val
    arr : Items → Val
    obj : Members → Val

  pub data Items : Type 0 where
    nil : Items
    item : Val → Items → Items

  pub data Members : Type 0 where
    end : Members
    member : Str → Val → Members → Members

-- yyjson_is_ctn, yyjson_is_obj, yyjson_is_null
abbrev pub is_ctn : Val → Bool
is_ctn (arr xs) = true
is_ctn (obj ms) = true
is_ctn _ = false

abbrev pub is_obj : Val → Bool
is_obj (obj ms) = true
is_obj _ = false

abbrev pub is_null : Val → Bool
is_null null = true
is_null _ = false

-- yyjson_arr_size, yyjson_obj_size, yyjson_arr_get
abbrev pub arr_size : Items → ℕ
arr_size nil = 0
arr_size (item v xs) = suc (arr_size xs)

abbrev pub obj_size : Members → ℕ
obj_size end = 0
obj_size (member k v ms) = suc (obj_size ms)

abbrev pub arr_get : Items → ℕ → Option Val
arr_get nil i = none
arr_get (item v xs) zero = some v
arr_get (item v xs) (suc i) = arr_get xs i

-- Two byte strings are equal: the lengths agree and memcmp is 0.
unfoldable pub bytes_eq : Bytes → Bytes → Bool
bytes_eq [] [] = true
bytes_eq (a ∷ s) (b ∷ t) = a == b && bytes_eq s t
bytes_eq _ _ = false

pub bytes_eq_sound : (s t : Bytes) → bytes_eq s t ≡ true → s ≡ t
unfolding bytes_eq
bytes_eq_sound [] [] h = refl
bytes_eq_sound [] (b ∷ t) h = absurd (ground arith)
bytes_eq_sound (a ∷ s) [] h = absurd (ground arith)
bytes_eq_sound (a ∷ s) (b ∷ t) h = ground (arith, bytes_eq_sound s t)

pub bytes_eq_self : (s : Bytes) → bytes_eq s s ≡ true
unfolding bytes_eq
bytes_eq_self [] = refl
bytes_eq_self (a ∷ s) = ground (arith, bytes_eq_self s)

pub bytes_eq_sym : (s t : Bytes) → bytes_eq s t ≡ bytes_eq t s
unfolding bytes_eq
bytes_eq_sym [] [] = refl
bytes_eq_sym [] (b ∷ t) = refl
bytes_eq_sym (a ∷ s) [] = refl
bytes_eq_sym (a ∷ s) (b ∷ t) = ground (arith, bytes_eq_sym s t)

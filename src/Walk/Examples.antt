-- ===== src/Walk/Examples.antt =====
-- Runs of the walk of fastjson_walk.inc, with a hash table that replaces a value in its place.
use fastjson.Prelude.{
  ℕ, Bool, true, false, Option, none, some, Bytes, codes, length, leb, if◌then◌else◌, ◌≡◌, refl,
  sym, ap, ◌∙◌, ==_iff,
}
use fastjson.Doc.{
  Str, Val, uint, Members, nil, end, member, bytes_eq, bytes_eq_sound, bytes_eq_self,
}
use fastjson.Depth.Height.{height}
use fastjson.Reading.{DecodeFlags}
use fastjson.KeyCache.{key_share_push, share_key}
use fastjson.Zval.{Key, index, name}
use fastjson.Walk.{Decoded, long, array, Fields, no_fields, field, Setting, made, built, walk}
use fastjson.Walk.Build.{names_fit}
use fastjson.Walk.Lookup.{key_eq, find, last_value, walk-last_value}

unfoldable pub update : Fields → Key → Decoded → Fields
update no_fields k z = field k z no_fields
update (field j y t) k z = if key_eq j k then field j z t else field j y (update t k z)

key_eq_sound : (a b : Key) → key_eq a b ≡ true → a ≡ b
key_eq_sound (index i) (index j) h = ap index ((==_iff i j).0 h)
key_eq_sound (name t) (name u) h = ap name (bytes_eq_sound t u h)
key_eq_sound (index i) (name t) h = absurd (cc h)
key_eq_sound (name t) (index i) h = absurd (cc h)

key_eq_self : (k : Key) → key_eq k k ≡ true
key_eq_self (index i) = (==_iff i i).1 refl
key_eq_self (name t) = bytes_eq_self t

pub update_lem :
    (t : Fields) (k j : Key) (z : Decoded)
    → find (update t k z) j ≡ (if key_eq k j then some z else find t j)
unfolding update
update_lem no_fields k j z = refl
update_lem (field i y t) k j z = choose (key_eq i k) refl (update_lem t k j z)
  where
    same :
        (a b : Bool)
        → a ≡ b
        → (if a then some z else find t j)
          ≡ (if b then some z else (if a then some y else find t j))
    same true true h = refl
    same false false h = refl
    same true false h = absurd (cc h)
    same false true h = absurd (cc h)

    other :
        (a b : Bool)
        → (a ≡ true → b ≡ true → i ≡ k)
        → key_eq i k ≡ false
        → find (update t k z) j ≡ (if b then some z else find t j)
        → (if a then some y else find (update t k z) j)
          ≡ (if b then some z else (if a then some y else find t j))
    other true true h e g = absurd (cc (sym e ∙ ap (λ x. key_eq x k) (h refl refl) ∙ key_eq_self k))
    other true false h e g = refl
    other false b h e g = g ∙ step b
      where
        step : (b : Bool) → (if b then some z else find t j) ≡ (if b then some z else find t j)
        step b = refl

    choose :
        (b : Bool)
        → key_eq i k ≡ b
        → find (update t k z) j ≡ (if key_eq k j then some z else find t j)
        → find (if b then field i z t else field i y (update t k z)) j
          ≡ (if key_eq k j then some z else (if key_eq i j then some y else find t j))
    choose true e g = same (key_eq i j) (key_eq k j) (ap (λ x. key_eq x j) (key_eq_sound i k e))
    choose false e g =
        other (key_eq i j) (key_eq k j) (λ p q. key_eq_sound i j p ∙ sym (key_eq_sound k j q)) e g

-- A walk into arrays, with the name "0" for the index 0.
abbrev numeric : Bytes → Option ℕ
numeric t = if bytes_eq t (codes "0") then some 0 else none

abbrev pub some_setting : (assoc : Bool) → DecodeFlags → Setting
some_setting assoc flags = record {
  assoc = assoc;
  flags = flags;
  long_max = 9223372036854775807;
  uint_to_double = λ u. 0;
  sint_to_double = λ p. 0;
  strtod = λ t. 0;
  numeric_key = numeric;
  hash = λ t. length t;
  update = update;
  overflowed = λ r. false;
}

abbrev no_flags : DecodeFlags
no_flags = record {
  bigint_as_string = false;
  ignore = false;
  subst = false;
  relaxed = false;
  throw_on_error = false;
}

abbrev arrays : Setting
arrays = some_setting true no_flags

abbrev plain : Bytes → Str
plain t = record { bytes = t; invalid = false }

-- {"a":1,"0":[],"a":2}
abbrev repeated : Members
repeated =
    member (plain (codes "a")) (Val.num (uint 1))
      (member (plain (codes "0")) (Val.arr nil) (member (plain (codes "a")) (Val.num (uint 2)) end))

walked_text :
    (walk arrays (Val.obj repeated) 3 (key_share_push 5000)).0
    ≡ made (array (field (name (codes "a")) (long 2) (field (index 0) (array no_fields) no_fields)))
unfolding walk key_share_push share_key update bytes_eq
walked_text = refl

names : names_fit arrays (Val.obj repeated) ≡ true
unfolding names_fit
names = refl

shallow : leb 3 (height (Val.obj repeated)) ≡ false
unfolding height
shallow = refl

walk-last_value_example :
    (t : Fields) × ((walk arrays (Val.obj repeated) 3 none).0 ≡ made (built arrays t))
    × ((j : Key) → find t j ≡ last_value arrays j repeated)
walk-last_value_example =
    walk-last_value arrays update_lem repeated 3 none (λ r. refl) names shallow

-- ===== src/Walk/Lookup.antt =====
-- What an object or an array holds under a name, after the walk of fastjson_walk.inc: the value of
-- the last member with that name.
use fastjson.Prelude.{
  ℕ, Bool, true, false, Option, none, some, leb, ◌==◌, if◌then◌else◌, ◌≡◌, refl, ap, ◌∙◌,
}
use fastjson.Doc.{Val, Members, end, member, bytes_eq}
use fastjson.Depth.Height.{height}
use fastjson.Zval.{Key, index, name}
use fastjson.Walk.{
  Decoded, Fields, no_fields, field, Setting, made, Cache, string_bytes, built, walk,
}
use fastjson.Walk.Build.{build, build_members, names_fit, key_of}
use fastjson.Walk.Limits.{unless_deep}
use fastjson.Walk.Refines.{walk-build}

abbrev pub key_eq : Key → Key → Bool
key_eq (index i) (index j) = i == j
key_eq (name t) (name u) = bytes_eq t u
key_eq (index i) (name t) = false
key_eq (name t) (index i) = false

-- The value under a key of a hash table.
abbrev pub find : Fields → Key → Option Decoded
find no_fields j = none
find (field k z t) j = if key_eq k j then some z else find t j

abbrev pub or_else : Option Decoded → Option Decoded → Option Decoded
or_else (some z) o = some z
or_else none o = o

module _ (s : Setting) where
  -- The value of the last member that is stored under a key.
  unfoldable pub last_value : Key → Members → Option Decoded
  last_value j end = none
  last_value j (member k v ms) =
      or_else (last_value j ms)
        (if key_eq (key_of s (string_bytes s k)) j then some (build s v) else none)

  -- The engine's update of a hash table: the value is found under its key, and the others stay.
  module _
      (update : (t : Fields) (k j : Key) (z : Decoded)
        → find (s.update t k z) j ≡ (if key_eq k j then some z else find t j)) where
    find-build_members :
        (ms : Members) (t : Fields) (j : Key)
        → find (build_members s ms t) j ≡ or_else (last_value j ms) (find t j)
    unfolding build_members last_value
    find-build_members end t j = refl
    find-build_members (member k v ms) t j =
        find-build_members ms (s.update t key (build s v)) j
        ∙ ap (λ o. or_else (last_value j ms) o) (update t key j (build s v))
        ∙ choose (last_value j ms) (key_eq key j)
      where
        key : Key
        key = key_of s (string_bytes s k)

        choose :
            (o : Option Decoded) (b : Bool)
            → or_else o (if b then some (build s v) else find t j)
              ≡ or_else (or_else o (if b then some (build s v) else none)) (find t j)
        choose (some z) b = refl
        choose none true = refl
        choose none false = refl

    or_else-none : (o : Option Decoded) → or_else o none ≡ o
    or_else-none (some z) = refl
    or_else-none none = refl

    -- Where an object is walked with depth enough, it becomes a hash table in which every key has
    -- the value of the last member with that name, and a key without a member has none: of
    -- duplicate members the last one wins, in arrays by the number that a numeric name stands for.
    pub walk-last_value :
        (ms : Members) (r : ℕ) (c : Cache)
        → ((n : ℕ) → s.overflowed n ≡ false)
        → names_fit s (Val.obj ms) ≡ true
        → leb r (height (Val.obj ms)) ≡ false
        → (t : Fields) × ((walk s (Val.obj ms) r c).0 ≡ made (built s t))
          × ((j : Key) → find t j ≡ last_value j ms)
    unfolding build
    walk-last_value ms r c room h deep = (
      build_members s ms no_fields,
      walk-build s room (Val.obj ms) r c h ∙ ap (λ b. unless_deep b (build s (Val.obj ms))) deep,
      λ j. find-build_members ms no_fields j ∙ or_else-none (last_value j ms),
    )

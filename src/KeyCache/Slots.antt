-- ===== src/KeyCache/Slots.antt =====
-- The occupied slots of the cache of object keys of fastjson_decode.c.
use fastjson.Prelude.{
  ℕ, zero, suc, ◌+◌, ◌%◌, ◌≤◌, Bool, true, false, ◌&&◌, ◌||◌, Option, none, some, List, [], ◌∷◌,
  map, Bytes, length, ltb, leb, ◌==◌, if◌then◌else◌, ◌≡◌, refl, sym, ap, ◌∙◌, subst, arith,
}
use fastjson.Doc.{bytes_eq}
use fastjson.KeyCache.{
  KeyString, KeyCache, key_new, fill_slot, miss, hit, probe_loop, share_key_slow, share_key,
  key_share_push, released, share_slots, share_key_cap, share_miss_margin, share_key_max,
  share_min_input,
}

abbrev pub is_taken : Option KeyString → Bool
is_taken none = false
is_taken (some z) = true

unfoldable pub occurs : ℕ → List ℕ → Bool
occurs i [] = false
occurs i (j ∷ js) = i == j || occurs i js

abbrev pub Distinct : List ℕ → Type 0
Distinct [] = Unit
Distinct (i ∷ is) = (occurs i is ≡ false) × Distinct is

-- The indexes that `used` lists are those of the occupied slots, each once, and `count` is their
-- number, which is within the array.
abbrev pub WellFormed : KeyCache → Type 0
WellFormed share =
    ((i : ℕ) → is_taken (share.slots i) ≡ occurs i share.used)
    × Distinct share.used
    × (share.count ≡ length share.used)
    × (share.count ≤ share_key_cap)

module _ (hash : Bytes → ℕ) (str : Bytes) where
  abbrev Leaves : Option KeyString × KeyCache → Type 0
  Leaves r = WellFormed r.1

  miss-WellFormed :
      (share : KeyCache) (full : Bool) → WellFormed share → Leaves (miss hash share full str)
  unfolding miss
  miss-WellFormed share full w = w

  hit-WellFormed :
      (share : KeyCache) (full : Bool) (slot : KeyString)
      → WellFormed share
      → Leaves (hit hash share full slot)
  unfolding hit
  hit-WellFormed share full slot w = w

  fill_slot-WellFormed :
      (share : KeyCache) (i : ℕ)
      → share.slots i ≡ none
      → leb share_key_cap share.count ≡ false
      → WellFormed share
      → Leaves (fill_slot hash share str i)
  unfolding fill_slot occurs
  fill_slot-WellFormed share i free room (taken, distinct, counted, capped) = (
    λ j. choose j (j == i),
    (sym (taken i) ∙ ap is_taken free, distinct),
    ground arith,
    ground arith,
  )
    where
      choose :
          (j : ℕ) (b : Bool)
          → is_taken (if b then some (key_new hash str) else share.slots j)
            ≡ (b || occurs j share.used)
      choose j true = refl
      choose j false = taken j

  probe_loop-WellFormed :
      (n : ℕ) (share : KeyCache) (i : ℕ)
      → WellFormed share
      → Leaves (probe_loop hash n share (leb share_key_cap share.count) str i)
  unfolding probe_loop
  probe_loop-WellFormed zero share i w = miss-WellFormed share (leb share_key_cap share.count) w
  probe_loop-WellFormed (suc n) share i w =
      choose (share.slots i) refl (probe_loop-WellFormed n share ((i + 1) % share_slots) w)
    where
      full : Bool
      full = leb share_key_cap share.count

      next : Option KeyString × KeyCache
      next = probe_loop hash n share (leb share_key_cap share.count) str ((i + 1) % share_slots)

      empty :
          share.slots i ≡ none
          → (b : Bool) → leb share_key_cap share.count ≡ b
          → Leaves (if b then miss hash share b str else fill_slot hash share str i)
      empty e true f = miss-WellFormed share true w
      empty e false f = fill_slot-WellFormed share i e f w

      taken :
          (slot : KeyString) (b : Bool)
          → Leaves next
          → Leaves (elim b [ true ↦ hit hash share full slot | false ↦ next ])
      taken slot true p = hit-WellFormed share full slot w
      taken slot false p = p

      choose :
          (o : Option KeyString)
          → share.slots i ≡ o
          → Leaves next
          → Leaves (elim o [
            | none ↦ if full then miss hash share full str else fill_slot hash share str i
            | some slot ↦ elim (slot.h == hash str && bytes_eq slot.bytes str) [
              | true ↦ hit hash share full slot
              | false ↦ next
            ]
          ])
      choose none e p = empty e full refl
      choose (some slot) e p = taken slot (slot.h == hash str && bytes_eq slot.bytes str) p

  share_key-WellFormed :
      (share : KeyCache) → WellFormed share → WellFormed (share_key hash share str).1
  unfolding share_key share_key_slow
  share_key-WellFormed share w =
      choose share.off (ltb share_key_max (length str)) (
        leb share_key_cap share.count
        && ltb (share.full_hits + share_miss_margin) share.full_misses)
    where
      choose :
          (a b c : Bool)
          → Leaves (
              if a
              then (none, share)
              else if b
              then (none, share)
              else if c
              then (none, record share { off = true })
              else probe_loop hash 8 share
                  (leb share_key_cap share.count)
                  str
                  (hash str % share_slots))
      choose true b c = w
      choose false true c = w
      choose false false true = w
      choose false false false = probe_loop-WellFormed 8 share (hash str % share_slots) w

-- The cache after the names of a walk.
unfoldable pub share_keys : (Bytes → ℕ) → KeyCache → List Bytes → KeyCache
share_keys hash share [] = share
share_keys hash share (str ∷ strs) = share_keys hash (share_key hash share str).1 strs

share_keys-WellFormed :
    (hash : Bytes → ℕ) (strs : List Bytes) (share : KeyCache)
    → WellFormed share
    → WellFormed (share_keys hash share strs)
unfolding share_keys
share_keys-WellFormed hash [] share w = w
share_keys-WellFormed hash (str ∷ strs) share w =
    share_keys-WellFormed hash strs (share_key hash share str).1
      (share_key-WellFormed hash str share w)

abbrev pub AllTaken : List (Option KeyString) → Type 0
AllTaken [] = Unit
AllTaken (o ∷ os) = (is_taken o ≡ true) × AllTaken os

all_taken :
    (slots : ℕ → Option KeyString) (js : List ℕ)
    → ((i : ℕ) → occurs i js ≡ true → is_taken (slots i) ≡ true)
    → AllTaken (map slots js)
unfolding occurs
all_taken slots [] h = tt
all_taken slots (j ∷ js) h =
    (h j (ground arith), all_taken slots js (λ i e. h i (later i (i == j) e)))
  where
    later : (i : ℕ) (b : Bool) → occurs i js ≡ true → (b || occurs i js) ≡ true
    later i true e = refl
    later i false e = e

released-AllTaken : (share : KeyCache) → WellFormed share → AllTaken (released share)
unfolding released
released-AllTaken share (taken, distinct, counted, capped) =
    all_taken share.slots share.used (λ i e. taken i ∙ e)

Pushed : Option KeyCache → Type 0
Pushed none = Unit
Pushed (some share) = WellFormed share

-- A cache that fj_key_share_push installs is well formed after any number of calls of fj_share_key:
-- `used` lists every occupied slot exactly once, and there are at most FJ_SHARE_KEY_CAP of them, as
-- many as `count` says; each slot that the loop of fj_key_share_pop then releases holds a string.
pub key_share_push-WellFormed :
    (hash : Bytes → ℕ) (input_len : ℕ) (share : KeyCache) (strs : List Bytes)
    → key_share_push input_len ≡ some share
    → WellFormed (share_keys hash share strs) × AllTaken (released (share_keys hash share strs))
unfolding key_share_push occurs Pushed
key_share_push-WellFormed hash input_len share strs h =
    let w =
      share_keys-WellFormed hash strs share
        (subst Pushed h (choose (ltb input_len share_min_input))) in
    (w, released-AllTaken (share_keys hash share strs) w)
  where
    choose :
        (b : Bool)
        → Pushed (
            if b
            then none
            else some (record {
              slots = λ i. none;
              used = [];
              count = 0;
              full_hits = 0;
              full_misses = 0;
              off = false;
            }))
    choose true = tt
    choose false = ((λ i. refl), tt, refl, omega arith)

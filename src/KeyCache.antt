-- ===== src/KeyCache.antt =====
-- The cache of object keys of fastjson_decode.c, which lets equal names of a document share one
-- string: fj_key_new, fj_share_key_slow, fj_share_key, fj_key_share_push and the loop of
-- fj_key_share_pop. The hash of the engine is a parameter.
pub mod Transparent
pub mod Slots
mod Examples
use fastjson.Prelude.{
  ℕ, zero, suc, ◌+◌, ◌%◌, Bool, true, false, ◌&&◌, Option, none, some, List, [], ◌∷◌, map, Bytes,
  length, ltb, leb, ◌==◌, if◌then◌else◌,
}
use fastjson.Doc.{bytes_eq}

abbrev pub share_key_max : ℕ
share_key_max = 64

abbrev pub share_slots : ℕ
share_slots = 512

abbrev pub share_key_cap : ℕ
share_key_cap = 256

abbrev pub share_miss_margin : ℕ
share_miss_margin = 1024

abbrev pub share_min_input : ℕ
share_min_input = 4096

-- A zend_string with its hash. An occupied slot holds one, and the same hash beside it.
pub record KeyString : Type 0 where
  pub bytes : Bytes
  pub h : ℕ

-- fj_key_cache: the slots by their index, and the occupied indexes, the last one first.
pub record KeyCache : Type 0 where
  pub slots : ℕ → Option KeyString
  pub used : List ℕ
  pub count : ℕ
  pub full_hits : ℕ
  pub full_misses : ℕ
  pub off : Bool

-- `share->full_hits += full`
abbrev pub add_if : Bool → ℕ → ℕ
add_if true n = n + 1
add_if false n = n

module _ (hash : Bytes → ℕ) where
  -- fj_key_new
  unfoldable pub key_new : Bytes → KeyString
  key_new str = record { bytes = str; h = hash str }

  -- An empty slot is filled with a new string.
  unfoldable pub fill_slot : KeyCache → Bytes → ℕ → Option KeyString × KeyCache
  unfolding key_new
  fill_slot share str i = (
    some (key_new str),
    record share {
      slots = λ j. if j == i then some (key_new str) else share.slots j;
      used = i ∷ share.used;
      count = share.count + 1;
    },
  )

  -- Behind the loop: a string that is not shared.
  unfoldable pub miss : KeyCache → (full : Bool) → Bytes → Option KeyString × KeyCache
  unfolding key_new
  miss share full str =
      (some (key_new str), record share { full_misses = add_if full share.full_misses })

  unfoldable pub hit : KeyCache → (full : Bool) → KeyString → Option KeyString × KeyCache
  hit share full slot = (some slot, record share { full_hits = add_if full share.full_hits })

  -- The loop over `n` slots from `i` on.
  unfoldable pub probe_loop : ℕ → KeyCache → (full : Bool) → Bytes → ℕ → Option KeyString × KeyCache
  unfolding fill_slot miss hit
  probe_loop zero share full str i = miss share full str
  probe_loop (suc n) share full str i = elim (share.slots i) [
    | none ↦ if full then miss share full str else fill_slot share str i
    | some slot ↦ elim (slot.h == hash str && bytes_eq slot.bytes str) [
      | true ↦ hit share full slot
      | false ↦ probe_loop n share full str ((i + 1) % share_slots)
    ]
  ]

  -- fj_share_key_slow
  unfoldable pub share_key_slow : KeyCache → Bytes → Option KeyString × KeyCache
  unfolding probe_loop
  share_key_slow share str =
      if leb share_key_cap share.count
        && ltb (share.full_hits + share_miss_margin) share.full_misses
      then (none, record share { off = true })
      else probe_loop 8 share (leb share_key_cap share.count) str (hash str % share_slots)

  -- fj_share_key, where a cache is installed.
  unfoldable pub share_key : KeyCache → Bytes → Option KeyString × KeyCache
  unfolding share_key_slow
  share_key share str =
      if share.off
      then (none, share)
      else if ltb share_key_max (length str)
      then (none, share)
      else share_key_slow share str

-- fj_key_share_push: the cache that is installed for an input.
unfoldable pub key_share_push : (input_len : ℕ) → Option KeyCache
key_share_push input_len =
    if ltb input_len share_min_input
    then none
    else some (record {
      slots = λ i. none;
      used = [];
      count = 0;
      full_hits = 0;
      full_misses = 0;
      off = false;
    })

-- What the loop of fj_key_share_pop releases.
unfoldable pub released : KeyCache → List (Option KeyString)
released share = map share.slots share.used

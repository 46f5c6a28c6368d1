-- ===== src/KeyCache/Examples.antt =====
-- Runs of the cache of object keys of fastjson_decode.c, with the length as the hash.
use fastjson.Prelude.{false, none, [], ◌∷◌, codes, length, ◌≡◌, refl}
use fastjson.Doc.{bytes_eq}
use fastjson.KeyCache.{KeyCache, share_key, key_share_push, released}
use fastjson.KeyCache.Transparent.{Names, share_key-Names}
use fastjson.KeyCache.Slots.{WellFormed, AllTaken, share_keys, key_share_push-WellFormed}

abbrev empty_cache : KeyCache
empty_cache = record {
  slots = λ i. none;
  used = [];
  count = 0;
  full_hits = 0;
  full_misses = 0;
  off = false;
}

-- Two names of one length are in neighbouring slots, and a name that comes again takes none.
shared_slots :
    (share_keys length empty_cache (codes "id" ∷ codes "ab" ∷ codes "id" ∷ [])).used ≡ 3 ∷ 2 ∷ []
unfolding share_keys share_key bytes_eq
shared_slots = refl

share_key-Names_example : Names length (codes "id") (share_key length empty_cache (codes "id")).0
share_key-Names_example = share_key-Names length (codes "id") empty_cache

key_share_push-WellFormed_example :
    WellFormed (share_keys length empty_cache (codes "id" ∷ codes "ab" ∷ codes "id" ∷ []))
    × AllTaken
        (released (share_keys length empty_cache (codes "id" ∷ codes "ab" ∷ codes "id" ∷ [])))
unfolding key_share_push
key_share_push-WellFormed_example =
    key_share_push-WellFormed length 5000 empty_cache (codes "id" ∷ codes "ab" ∷ codes "id" ∷ [])
      refl

-- ===== src/KeyCache/Transparent.antt =====
-- A shared key is the name that was asked for.
use fastjson.Prelude.{
  ℕ, zero, suc, ◌+◌, ◌%◌, Bool, true, false, ◌&&◌, Option, none, some, Bytes, length, ltb, leb,
  ◌==◌, if◌then◌else◌, ◌≡◌, refl, arith,
}
use fastjson.Doc.{bytes_eq, bytes_eq_sound}
use fastjson.KeyCache.{
  KeyString, KeyCache, key_new, fill_slot, miss, hit, probe_loop, share_key_slow, share_key,
  share_slots, share_key_cap, share_miss_margin, share_key_max,
}

-- No string, or the name with its hash.
abbrev pub Names : (Bytes → ℕ) → Bytes → Option KeyString → Type 0
Names hash str none = Unit
Names hash str (some z) = (z.bytes ≡ str) × (z.h ≡ hash str)

module _ (hash : Bytes → ℕ) (str : Bytes) where
  abbrev Gives : Option KeyString × KeyCache → Type 0
  Gives r = Names hash str r.0

  hit-Names :
      (slot : KeyString)
      → (slot.h == hash str && bytes_eq slot.bytes str) ≡ true
      → Names hash str (some slot)
  hit-Names slot e = (bytes_eq_sound slot.bytes str (ground arith), ground arith)

  probe_loop-Names :
      (n : ℕ) (share : KeyCache) (full : Bool) (i : ℕ)
      → Names hash str (probe_loop hash n share full str i).0
  unfolding probe_loop miss fill_slot hit key_new
  probe_loop-Names zero share full i = (refl, refl)
  probe_loop-Names (suc n) share full i =
      choose (share.slots i) (probe_loop-Names n share full ((i + 1) % share_slots))
    where
      empty :
          (b : Bool) → Gives (if b then miss hash share full str else fill_slot hash share str i)
      empty true = (refl, refl)
      empty false = (refl, refl)

      taken :
          (slot : KeyString)
          → Names hash str (probe_loop hash n share full str ((i + 1) % share_slots)).0
          → (b : Bool) → (slot.h == hash str && bytes_eq slot.bytes str) ≡ b
          → Gives (elim b [
            | true ↦ hit hash share full slot
            | false ↦ probe_loop hash n share full str ((i + 1) % share_slots)
          ])
      taken slot p true e = hit-Names slot e
      taken slot p false e = p

      choose :
          (o : Option KeyString)
          → Names hash str (probe_loop hash n share full str ((i + 1) % share_slots)).0
          → Gives (elim o [
            | none ↦ if full then miss hash share full str else fill_slot hash share str i
            | some slot ↦ elim (slot.h == hash str && bytes_eq slot.bytes str) [
              | true ↦ hit hash share full slot
              | false ↦ probe_loop hash n share full str ((i + 1) % share_slots)
            ]
          ])
      choose none p = empty full
      choose (some slot) p = taken slot p (slot.h == hash str && bytes_eq slot.bytes str) refl

  -- Whatever the cache holds, fj_share_key gives no string, or one that has the bytes and the hash of
  -- the name that was asked for, so that the insert with it is the insert by the name.
  pub share_key-Names : (share : KeyCache) → Names hash str (share_key hash share str).0
  unfolding share_key share_key_slow
  share_key-Names share =
      choose share.off (ltb share_key_max (length str)) (
        leb share_key_cap share.count
        && ltb (share.full_hits + share_miss_margin) share.full_misses)
    where
      choose :
          (a b c : Bool)
          → Gives (
              if a
              then (none, share)
              else if b
              then (none, share)
              else if c
              then (none, record share { off = true })
              else probe_loop hash 8 share
                  (leb share_key_cap share.count)
                  str
                  (hash str % share_slots))
      choose true b c = tt
      choose false true c = tt
      choose false false true = tt
      choose false false false =
          probe_loop-Names 8 share (leb share_key_cap share.count) (hash str % share_slots)

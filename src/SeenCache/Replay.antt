-- ===== src/SeenCache/Replay.antt =====
-- An accepted key stays rejected for its whole lifetime.
use signedpulse.Base.{
  ℕ, ◌≡◌, true, false, some, List, [], ◌∷◌, arith, All, Bytes, ℤ, ◌≤ℤ◌, leb_ℤ, nat_key, bytes_key,
  ip_key, get, get-insert, get-insert_self, get-retain, IsMap, insert-IsMap, retain-IsMap,
}
use signedpulse.SeenCache.{SeenCache, expiry, insert_if_absent, purge_expired}

-- A call on the cache, with its clock reading.
pub data Call : Type 0 where
  inserts : Bytes → ℤ → ℕ → Call
  purges : ℤ → Call

abbrev pub clock : Call → ℤ
clock (inserts _ now _) = now
clock (purges now) = now

unfoldable pub after : Call → SeenCache → SeenCache
after (inserts key now ttl) s = (insert_if_absent key now ttl s).0
after (purges now) s = (purge_expired now s).0

unfoldable pub run : List Call → SeenCache → SeenCache
run [] s = s
run (c ∷ cs) s = run cs (after c s)

pub after-IsMap : (c : Call) (s : SeenCache) → IsMap s.entries → IsMap (after c s).entries
unfolding after insert_if_absent purge_expired
after-IsMap (inserts key now ttl) s h =
    ground (arith, h, insert-IsMap key (expiry now ttl) s.entries h)
after-IsMap (purges now) s h = retain-IsMap _ s.entries h

-- The cache holds the key until `x`.
pub record Holds (key : Bytes) (x : ℤ) (s : SeenCache) : Type 0 where
  pub found : get key s.entries ≡ some x
  pub distinct : IsMap s.entries

pub after-Holds :
    (key : Bytes) (x : ℤ) (c : Call) (s : SeenCache)
    → clock c ≤ℤ x
    → Holds key x s
    → Holds key x (after c s)
unfolding after insert_if_absent purge_expired
after-Holds key x (inserts k now ttl) s h v = record {
  found = ground (arith, v.found, get-insert k key (expiry now ttl) s.entries);
  distinct = after-IsMap (inserts k now ttl) s v.distinct;
}
after-Holds key x (purges now) s h v = record {
  found = ground (arith, v.found, get-retain (λ (e : ℤ). leb_ℤ now e) key s.entries v.distinct);
  distinct = retain-IsMap _ s.entries v.distinct;
}

pub run-Holds :
    (key : Bytes) (x : ℤ) (cs : List Call) (s : SeenCache)
    → All (λ c. clock c ≤ℤ x) cs
    → Holds key x s
    → Holds key x (run cs s)
unfolding run
run-Holds key x [] s h v = v
run-Holds key x (c ∷ cs) s h v = run-Holds key x cs (after c s) h.1 (after-Holds key x c s h.0 v)

-- In a cache with distinct keys, a key accepted at `now` for `ttl` seconds is rejected at every
-- clock reading up to its expiry, after any inserts and purges in between whose clock readings are
-- not past that expiry, and the rejection leaves the cache as it was.
pub seen_key_is_rejected :
    (key : Bytes) (now : ℤ) (ttl : ℕ) (s : SeenCache)
    → IsMap s.entries
    → (insert_if_absent key now ttl s).1 ≡ true
    → (cs : List Call) → All (λ c. clock c ≤ℤ expiry now ttl) cs
    → (now' : ℤ) (ttl' : ℕ) → now' ≤ℤ expiry now ttl
    → let t = run cs (insert_if_absent key now ttl s).0 in
      insert_if_absent key now' ttl' t ≡ (t, false)
unfolding insert_if_absent after
seen_key_is_rejected key now ttl s h fresh cs past now' ttl' late = ground (arith, kept.found)
  where
    held : Holds key (expiry now ttl) (insert_if_absent key now ttl s).0
    held = record {
      found = ground (arith, fresh, get-insert_self key (expiry now ttl) s.entries);
      distinct = after-IsMap (inserts key now ttl) s h;
    }

    kept : Holds key (expiry now ttl) (run cs (insert_if_absent key now ttl s).0)
    kept = run-Holds key (expiry now ttl) cs _ past held

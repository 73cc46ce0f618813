-- ===== src/SeenCache.antt =====
-- The replay cache of HELLOs, crates/signedpulse-server/src/seen_cache.rs. Sums of clock readings
-- and lifetimes are taken in `i128` and cut at `i64::MAX`, as in the source.
pub mod Replay
use signedpulse.Base
use signedpulse.Base.{
  ℕ, ◌-◌, Bool, true, false, Option, none, some, [], if◌then◌else◌, length, Bytes, ℤ, pos, ◌+ℤ◌,
  leb_ℤ, min_ℤ, i64_max, nat_key, bytes_key, ip_key, Map, get, retain,
}

pub record SeenCache : Type 0 where
  pub entries : Map Bytes ℤ

abbrev pub new : SeenCache
new = record { entries = [] }

-- A live entry, whose expiry the clock has not passed.
abbrev is_live : Option ℤ → ℤ → Bool
is_live none now = false
is_live (some expires_at) now = leb_ℤ now expires_at

abbrev pub expiry : ℤ → ℕ → ℤ
expiry now ttl_seconds = min_ℤ (now +ℤ pos ttl_seconds) i64_max

unfoldable pub insert_if_absent : Bytes → ℤ → ℕ → SeenCache → SeenCache × Bool
insert_if_absent key now ttl_seconds s =
    if is_live (get key s.entries) now
    then (s, false)
    else (record { entries = Base.insert key (expiry now ttl_seconds) s.entries }, true)

unfoldable pub purge_expired : ℤ → SeenCache → SeenCache × ℕ
purge_expired now s =
    let kept = retain (λ (expires_at : ℤ). leb_ℤ now expires_at) s.entries in
    (record { entries = kept }, length s.entries - length kept)

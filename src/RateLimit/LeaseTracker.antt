-- ===== src/RateLimit/LeaseTracker.antt =====
-- `LeaseTracker`: the access lease of each client, keyed by its hex id.
pub mod Bounded
pub mod Renewal
pub mod Expiry
pub mod Roaming
use signedpulse.Base
use signedpulse.Base.{
  ℕ, suc, ◌+◌, ◌-◌, ◌/◌, max, Bool, true, not, ◌&&◌, ◌||◌, Option, none, some, List, [], ◌∷◌, map,
  ltb, leb, if◌then◌else◌, length, Bytes, nat_key, bytes_key, ip_key, eq, Map, get, contains_key,
  IpAddr, Instant, Duration,
}

pub record Lease : Type 0 where
  pub expires_at : Instant
  pub ip : IpAddr
  pub source_port : ℕ
  pub param : Option Bytes

pub record ExpiredLease : Type 0 where
  pub ip : IpAddr
  pub client_id : Bytes
  pub source_port : ℕ
  pub param : Option Bytes

pub record LeaseTracker : Type 0 where
  pub max_entries : ℕ
  pub leases : Map Bytes Lease

abbrev pub new : ℕ → LeaseTracker
new max_entries = record { max_entries = max max_entries 1; leases = [] }

abbrev pub is_expired : Instant → Lease → Bool
is_expired now l = leb l.expires_at now

abbrev pub is_live : Instant → Lease → Bool
is_live now l = ltb now l.expires_at

abbrev is_new : Instant → Option Lease → Bool
is_new now none = true
is_new now (some l) = is_expired now l

unfoldable pub renew_at :
    Bytes → IpAddr → ℕ → Option Bytes → Duration → Instant → LeaseTracker → LeaseTracker × Bool
renew_at client_id ip source_port param ttl now s =
    let lease : Lease = record {
      expires_at = now + ttl;
      ip = ip;
      source_port = source_port;
      param = param;
    } in
    (
      (if contains_key client_id s.leases || ltb (length s.leases) s.max_entries
          then record s { leases = Base.insert client_id lease s.leases }
          else s),
      is_new now (get client_id s.leases),
    )

-- `iter().filter(p).count()`
unfoldable pub count : (Bytes → Lease → Bool) → Map Bytes Lease → ℕ
count p [] = 0
count p ((k, l) ∷ m) = let rest = count p m in if p k l then suc rest else rest

abbrev pub ended : Bytes → Lease → ExpiredLease
ended client_id l = record {
  ip = l.ip;
  client_id = client_id;
  source_port = l.source_port;
  param = l.param;
}

release_found : Bytes → Lease → Instant → LeaseTracker → LeaseTracker × Option (ExpiredLease × ℕ)
release_found client_id l now s =
    let rest = Base.remove client_id s.leases in
    (
      record s { leases = rest },
      some (ended client_id l, count (λ _ o. is_live now o && eq o.ip l.ip) rest),
    )

unfoldable pub release_at :
    Bytes → Instant → LeaseTracker → LeaseTracker × Option (ExpiredLease × ℕ)
unfolding release_found
release_at client_id now s = elim (get client_id s.leases) [
  | none ↦ (s, none)
  | some l ↦ release_found client_id l now s
]

unfoldable pub others_on_ip : IpAddr → Bytes → Instant → LeaseTracker → ℕ
others_on_ip ip client_id now s =
    count (λ cid l. is_live now l && eq l.ip ip && not (eq cid client_id)) s.leases

-- The keys of the expired entries.
expired_keys : Instant → Map Bytes Lease → List Bytes
expired_keys now [] = []
expired_keys now ((k, l) ∷ m) =
    let rest = expired_keys now m in if is_expired now l then k ∷ rest else rest

-- The loop that removes each key: the removed leases with their keys, and the map that is left.
drain : List Bytes → Map Bytes Lease → List (Bytes × Lease) × Map Bytes Lease
drain [] m = ([], m)
drain (k ∷ ks) m =
    let (taken, rest) = drain ks (Base.remove k m) in
    elim (get k m) [ none ↦ (taken, rest) | some l ↦ ((k, l) ∷ taken, rest) ]

-- The report on each drained lease, with the leases that are left on its address.
report : Map Bytes Lease → Bytes × Lease → ExpiredLease × ℕ
report left (cid, l) = (ended cid l, count (λ _ o. eq o.ip l.ip) left)

unfoldable pub take_expired_at : Instant → LeaseTracker → LeaseTracker × List (ExpiredLease × ℕ)
unfolding expired_keys drain report
take_expired_at now s =
    let (taken, left) = drain (expired_keys now s.leases) s.leases in
    (record s { leases = left }, map (report left) taken)

unfoldable pub active_count : Instant → LeaseTracker → ℕ
active_count now s = count (λ _ l. is_live now l) s.leases

-- Each live lease with the whole seconds that it has left.
snapshot : Instant → Map Bytes Lease → List (IpAddr × Bytes × ℕ)
snapshot now [] = []
snapshot now ((cid, l) ∷ m) =
    let rest = snapshot now m in
    if is_live now l then (l.ip, cid, (l.expires_at - now) / 1_000_000_000) ∷ rest else rest

unfoldable pub live_snapshot : Instant → LeaseTracker → List (IpAddr × Bytes × ℕ)
unfolding snapshot
live_snapshot now s = snapshot now s.leases

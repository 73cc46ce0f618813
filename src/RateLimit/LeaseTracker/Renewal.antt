-- ===== src/RateLimit/LeaseTracker/Renewal.antt =====
-- Renewal, release and the counts of other clients on an address.
use signedpulse.Base.{
  ℕ, ◌+◌, ◌≡◌, refl, Bool, false, not, ◌&&◌, ◌||◌, Option, none, some, [], ◌∷◌, arith, ltb,
  if◌then◌else◌, is_some, length, Bytes, nat_key, bytes_key, ip_key, eq, Map, get, get-insert,
  get-remove, IpAddr, Instant, Duration,
}
use signedpulse.Base
use signedpulse.RateLimit.LeaseTracker.{
  Lease, LeaseTracker, is_live, count, renew_at, release_at, release_found, others_on_ip,
  active_count, live_snapshot, snapshot, ended,
}

abbrev live_until : Instant → Option Lease → Bool
live_until now none = false
live_until now (some l) = is_live now l

-- The client holds a lease that has not run out.
pub holds : Bytes → Instant → LeaseTracker → Bool
holds cid now s = live_until now (get cid s.leases)

-- A renewal says "new" exactly if the client holds no live lease. Where the client is tracked or
-- the table has room, the client then holds a lease for exactly the TTL; otherwise nothing
-- changes. Other clients keep or lack their leases as before.
pub renew_at_lem :
    (cid cid' : Bytes) (ip : IpAddr) (port : ℕ) (param : Option Bytes) (ttl : Duration)
    (now later : Instant) (s : LeaseTracker)
    → let r = renew_at cid ip port param ttl now s in
      (r.1 ≡ not (holds cid now s))
      × (holds cid' later r.0 ≡ (
          if eq cid cid' && (is_some (get cid s.leases) || ltb (length s.leases) s.max_entries)
          then ltb later (now + ttl)
          else holds cid' later s))
unfolding renew_at holds
renew_at_lem cid cid' ip port param ttl now later s =
    let lease : Lease = record {
      expires_at = now + ttl;
      ip = ip;
      source_port = port;
      param = param;
    } in
    (ground arith, ground (arith, get-insert cid cid' lease s.leases))

count-remove :
    (cid : Bytes) (ip : IpAddr) (now : Instant) (m : Map Bytes Lease)
    → count (λ _ o. is_live now o && eq o.ip ip) (Base.remove cid m)
      ≡ count (λ k l. is_live now l && eq l.ip ip && not (eq k cid)) m
unfolding count Base.remove
count-remove cid ip now [] = refl
count-remove cid ip now ((k, l) ∷ m) = ground (arith, count-remove cid ip now m)

-- For a client with a lease, a release reports the lease's data and as many clients as
-- `others_on_ip` counts for its address just before, and removes that lease; other clients' leases
-- stay.
pub release_at_lem :
    (cid cid' : Bytes) (now : Instant) (s : LeaseTracker) (l : Lease)
    → get cid s.leases ≡ some l
    → let r = release_at cid now s in
      (r.1 ≡ some (ended cid l, others_on_ip l.ip cid now s))
      × (get cid' r.0.leases ≡ (if eq cid cid' then none else get cid' s.leases))
unfolding release_at release_found others_on_ip
release_at_lem cid cid' now s l found =
    ground (arith, found, count-remove cid l.ip now s.leases, get-remove cid cid' s.leases)

length-snapshot :
    (now : Instant) (m : Map Bytes Lease) → length (snapshot now m) ≡ count (λ _ l. is_live now l) m
unfolding snapshot count
length-snapshot now [] = refl
length-snapshot now ((k, l) ∷ m) = ground (arith, length-snapshot now m)

-- The status lists as many leases as `active_count` counts.
pub length-live_snapshot :
    (now : Instant) (s : LeaseTracker) → length (live_snapshot now s) ≡ active_count now s
unfolding live_snapshot active_count
length-live_snapshot now s = length-snapshot now s.leases

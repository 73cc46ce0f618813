-- ===== src/RateLimit/LeaseTracker/Bounded.antt =====
-- How large the table of leases gets.
use signedpulse.Base.{
  ℕ, ◌+◌, ◌≤◌, ◌≡◌, Option, List, [], ◌∷◌, arith, length, Bytes, nat_key, bytes_key, ip_key, Map,
  remove, length-insert, length-remove-le, IsMap, insert-IsMap, remove-IsMap, IpAddr, Instant,
  Duration,
}
use signedpulse.RateLimit.LeaseTracker.{
  LeaseTracker, Lease, renew_at, release_at, release_found, take_expired_at, expired_keys, drain,
}

-- The table has distinct keys and is within the cap `n`.
pub record IsBounded (n : ℕ) (s : LeaseTracker) : Type 0 where
  pub cap : s.max_entries ≡ n
  pub distinct : IsMap s.leases
  pub small : length s.leases ≤ n

pub renew_at-IsBounded :
    (n : ℕ) (client_id : Bytes) (ip : IpAddr) (port : ℕ) (param : Option Bytes) (ttl : Duration)
    (now : Instant) (s : LeaseTracker)
    → IsBounded n s
    → IsBounded n (renew_at client_id ip port param ttl now s).0
unfolding renew_at
renew_at-IsBounded n client_id ip port param ttl now s v =
    let lease : Lease = record {
      expires_at = now + ttl;
      ip = ip;
      source_port = port;
      param = param;
    } in
    record {
      cap = ground (arith, v.cap);
      distinct = ground (arith, v.distinct, insert-IsMap client_id lease s.leases v.distinct);
      small = ground (arith, v.cap, v.small, length-insert client_id lease s.leases);
    }

pub release_at-IsBounded :
    (n : ℕ) (client_id : Bytes) (now : Instant) (s : LeaseTracker)
    → IsBounded n s
    → IsBounded n (release_at client_id now s).0
unfolding release_at release_found
release_at-IsBounded n client_id now s v = record {
  cap = ground (arith, v.cap);
  distinct = ground (arith, v.distinct, remove-IsMap client_id s.leases v.distinct);
  small = ground (arith, v.small, length-remove-le client_id s.leases);
}

drain-IsMap : (ks : List Bytes) (m : Map Bytes Lease) → IsMap m → IsMap (drain ks m).1
unfolding drain
drain-IsMap [] m h = h
drain-IsMap (k ∷ ks) m h = ground (arith, drain-IsMap ks (remove k m) (remove-IsMap k m h))

length-drain : (ks : List Bytes) (m : Map Bytes Lease) → length (drain ks m).1 ≤ length m
unfolding drain
length-drain [] m = omega arith
length-drain (k ∷ ks) m = ground (arith, length-drain ks (remove k m), length-remove-le k m)

pub take_expired_at-IsBounded :
    (n : ℕ) (now : Instant) (s : LeaseTracker)
    → IsBounded n s
    → IsBounded n (take_expired_at now s).0
unfolding take_expired_at
take_expired_at-IsBounded n now s v = record {
  cap = v.cap;
  distinct = drain-IsMap (expired_keys now s.leases) s.leases v.distinct;
  small = omega (arith, v.small, length-drain (expired_keys now s.leases) s.leases);
}

-- ===== src/RateLimit/ActiveIps/Bounded.antt =====
-- How large the table of active addresses gets.
use signedpulse.Base.{
  ℕ, ◌≤◌, ◌≡◌, arith, ltb, length, nat_key, bytes_key, ip_key, length-insert, length-retain-le,
  IsMap, insert-IsMap, retain-IsMap, IpAddr, Instant, duration_since,
}
use signedpulse.RateLimit.ActiveIps.{ActiveIps, mark, purge_stale}

-- The table has distinct keys and is within the cap `n`.
pub record IsBounded (n : ℕ) (s : ActiveIps) : Type 0 where
  pub cap : s.max_entries ≡ n
  pub distinct : IsMap s.seen
  pub small : length s.seen ≤ n

pub mark-IsBounded :
    (n : ℕ) (ip : IpAddr) (now : Instant) (s : ActiveIps)
    → IsBounded n s
    → IsBounded n (mark ip now s)
unfolding mark
mark-IsBounded n ip now s v = record {
  cap = ground (arith, v.cap);
  distinct = ground (arith, v.distinct, insert-IsMap ip now s.seen v.distinct);
  small = ground (arith, v.cap, v.small, length-insert ip now s.seen);
}

pub purge_stale-IsBounded :
    (n : ℕ) (now : Instant) (s : ActiveIps) → IsBounded n s → IsBounded n (purge_stale now s)
unfolding purge_stale
purge_stale-IsBounded n now s v = record {
  cap = v.cap;
  distinct = retain-IsMap _ s.seen v.distinct;
  small =
      omega (
        arith,
        v.small,
        length-retain-le (λ (t : Instant). ltb (duration_since now t) s.ttl) s.seen,
      );
}

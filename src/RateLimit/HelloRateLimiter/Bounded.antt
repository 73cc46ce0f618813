-- ===== src/RateLimit/HelloRateLimiter/Bounded.antt =====
-- How large the table of the rate limiter gets.
use signedpulse.Base.{
  ℕ, ◌≤◌, ◌<◌, ◌≡◌, arith, ltb, length, nat_key, bytes_key, ip_key, get, length-retain-le, IsMap,
  insert-IsMap, retain-IsMap, IpAddr, Instant, duration_since,
}
use signedpulse.RateLimit.HelloRateLimiter.{
  HelloRateLimiter, Window, current, check_at, purge_stale,
}
use signedpulse.RateLimit.HelloRateLimiter.Budget.{bumped, check_at-capped}

-- The table has distinct keys and is within the cap `n`.
pub record IsBounded (n : ℕ) (s : HelloRateLimiter) : Type 0 where
  pub cap : s.max_entries ≡ n
  pub distinct : IsMap s.state
  pub small : length s.state ≤ n

module _ (n : ℕ) (capped : 0 < n) where
  pub check_at-IsBounded :
      (ip : IpAddr) (now : Instant) (s : HelloRateLimiter)
      → IsBounded n s
      → IsBounded n (check_at ip now s).0
  unfolding check_at
  check_at-IsBounded ip now s v = record {
    cap = ground (arith, v.cap);
    distinct = ground (
      arith,
      v.distinct,
      insert-IsMap ip (current (get ip s.state) s.window now) s.state v.distinct,
      insert-IsMap ip (bumped (current (get ip s.state) s.window now)) s.state v.distinct,
    );
    small = ground (arith, v.cap, v.small, check_at-capped ip now s);
  }

pub purge_stale-IsBounded :
    (n : ℕ) (now : Instant) (s : HelloRateLimiter) → IsBounded n s → IsBounded n (purge_stale now s)
unfolding purge_stale
purge_stale-IsBounded n now s v = record {
  cap = v.cap;
  distinct = retain-IsMap _ s.state v.distinct;
  small = omega (
    arith,
    v.small,
    length-retain-le (λ (w : Window). ltb (duration_since now w.window_start) s.window) s.state,
  );
}

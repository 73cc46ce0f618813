-- ===== src/RateLimit/HelloRateLimiter/Budget.antt =====
-- How many HELLOs the limiter lets through, and how many addresses it tracks.
use signedpulse.Base.{
  ℕ, ◌+◌, ◌≤◌, ◌<◌, ◌≡◌, refl, sym, subst, ◌&&◌, some, List, [], ◌∷◌, arith, dec_lt, ltb,
  if◌then◌else◌, length, All, nat_key, bytes_key, ip_key, eq, get, get-insert_self, get-insert_ne,
  get-retain, length-insert, IsMap, insert-IsMap, retain-IsMap, IpAddr, ip_dec, Instant, Duration,
  duration_since,
}
use signedpulse.RateLimit.HelloRateLimiter.{
  HelloRateLimiter, Window, current, check_at, purge_stale,
}

pub data Call : Type 0 where
  checks : IpAddr → Instant → Call
  purges : Instant → Call

abbrev pub clock : Call → Instant
clock (checks _ now) = now
clock (purges now) = now

unfoldable pub after : Call → HelloRateLimiter → HelloRateLimiter
after (checks ip now) s = (check_at ip now s).0
after (purges now) s = purge_stale now s

-- Whether the call lets a HELLO of the address through.
pub passes : IpAddr → Call → HelloRateLimiter → ℕ
passes ip (checks ip' now) s = if eq ip' ip && (check_at ip' now s).1 then 1 else 0
passes ip (purges now) s = 0

pub passed : IpAddr → List Call → HelloRateLimiter → ℕ
passed ip [] s = 0
passed ip (c ∷ cs) s = passes ip c s + passed ip cs (after c s)

record IsOpen (ip : IpAddr) (start : Instant) (m w n : ℕ) (s : HelloRateLimiter) : Type 0 where
  limit : s.max_per_window ≡ m
  window : s.window ≡ w
  entry : get ip s.state ≡ some (record { window_start = start; count = n })
  within : n ≤ m
  distinct : IsMap s.state

abbrev pub InWindow : Instant → Duration → Call → Type 0
InWindow start w c = duration_since (clock c) start < w

abbrev pub bumped : Window → Window
bumped e = record e { count = e.count + 1 }

abbrev Stays : IpAddr → Instant → ℕ → ℕ → ℕ → Call → HelloRateLimiter → Type 0
Stays ip start m w n c s = (k : ℕ) × IsOpen ip start m w k (after c s) × (n + passes ip c s ≤ k)

own-Stays :
    (ip : IpAddr) (start : Instant) (m w n : ℕ) (now : Instant) (s : HelloRateLimiter)
    → 0 < m
    → InWindow start w (checks ip now)
    → IsOpen ip start m w n s
    → Stays ip start m w n (checks ip now) s
unfolding after check_at passes
own-Stays ip start m w n now s some_budget h v =
    let here : Window = record { window_start = start; count = n } in
    elim (dec_lt n m) [
      | yes room ↦ (
        n + 1,
        record {
          limit = ground (arith, v.limit);
          window = ground (arith, v.window);
          entry =
              ground (arith, v.entry, v.limit, v.window, get-insert_self ip (bumped here) s.state);
          within = omega arith;
          distinct = ground (
            arith,
            v.entry,
            v.limit,
            v.window,
            v.distinct,
            insert-IsMap ip (bumped here) s.state v.distinct,
          );
        },
        ground arith,
      )
      | no full ↦ (
        n,
        record {
          limit = ground (arith, v.limit);
          window = ground (arith, v.window);
          entry = ground (arith, v.entry, v.limit, v.window, get-insert_self ip here s.state);
          within = v.within;
          distinct = ground (
            arith,
            v.entry,
            v.limit,
            v.window,
            v.distinct,
            insert-IsMap ip here s.state v.distinct,
          );
        },
        ground (arith, v.entry, v.limit, v.window),
      )
    ]

step-IsOpen :
    (ip : IpAddr) (start : Instant) (m w n : ℕ) (c : Call) (s : HelloRateLimiter)
    → 0 < m
    → InWindow start w c
    → IsOpen ip start m w n s
    → Stays ip start m w n c s
unfolding after check_at purge_stale passes
step-IsOpen ip start m w n (purges now) s some_budget h v = (
  n,
  record {
    limit = v.limit;
    window = v.window;
    entry = ground (
      arith,
      v.entry,
      v.window,
      get-retain (λ (x : Window). ltb (duration_since now x.window_start) s.window) ip s.state
          v.distinct,
    );
    within = v.within;
    distinct = retain-IsMap _ s.state v.distinct;
  },
  omega arith,
)
step-IsOpen ip start m w n (checks ip' now) s some_budget h v = elim (ip_dec ip' ip) [
  | yes same ↦
      subst (λ x. Stays ip start m w n (checks x now) s) (sym same)
        (own-Stays ip start m w n now s some_budget (ground (arith, h)) v)
  | no other ↦ (
    n,
    record {
      limit = ground (arith, v.limit);
      window = ground (arith, v.window);
      entry = ground (
        arith,
        v.entry,
        get-insert_ne ip' ip (current (get ip' s.state) s.window now) s.state other,
        get-insert_ne ip' ip (bumped (current (get ip' s.state) s.window now)) s.state other,
      );
      within = v.within;
      distinct = ground (
        arith,
        v.distinct,
        insert-IsMap ip' (current (get ip' s.state) s.window now) s.state v.distinct,
        insert-IsMap ip' (bumped (current (get ip' s.state) s.window now)) s.state v.distinct,
      );
    },
    ground (arith, other),
  )
]

passed-le :
    (ip : IpAddr) (start : Instant) (m w n : ℕ) (cs : List Call) (s : HelloRateLimiter)
    → 0 < m
    → All (InWindow start w) cs
    → IsOpen ip start m w n s
    → n + passed ip cs s ≤ m
unfolding passed
passed-le ip start m w n [] s some_budget h v = omega (arith, v.within)
passed-le ip start m w n (c ∷ cs) s some_budget h v =
    let (k, v', more) = step-IsOpen ip start m w n c s some_budget h.0 v in
    omega (arith, passed-le ip start m w k cs (after c s) some_budget h.1 v')

-- For a limiter with distinct keys and a positive budget, and an address whose window started at
-- `start` with some count within the budget: in any history of checks (of any addresses) and
-- purges whose clock readings all lie in that window, the count plus the HELLOs of the address
-- that pass is at most the budget.
pub window_budget :
    (ip : IpAddr) (entry : Window) (cs : List Call) (s : HelloRateLimiter)
    → IsMap s.state
    → 0 < s.max_per_window
    → get ip s.state ≡ some entry
    → entry.count ≤ s.max_per_window
    → All (InWindow entry.window_start s.window) cs
    → entry.count + passed ip cs s ≤ s.max_per_window
window_budget ip entry cs s distinct some_budget found within inside =
    passed-le ip entry.window_start s.max_per_window s.window entry.count cs s some_budget inside
      (record { limit = refl; window = refl; entry = found; within = within; distinct = distinct })

-- Where the cap on the entries is positive, a check keeps a table that is within the cap within
-- it.
pub check_at-capped :
    (ip : IpAddr) (now : Instant) (s : HelloRateLimiter)
    → 0 < s.max_entries
    → length s.state ≤ s.max_entries
    → length (check_at ip now s).0.state ≤ s.max_entries
unfolding check_at
check_at-capped ip now s cap h = ground (
  arith,
  length-insert ip (current (get ip s.state) s.window now) s.state,
  length-insert ip (bumped (current (get ip s.state) s.window now)) s.state,
)

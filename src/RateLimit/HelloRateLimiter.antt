-- ===== src/RateLimit/HelloRateLimiter.antt =====
-- `HelloRateLimiter`: a fixed-window counter for each source IP.
pub mod Bounded
pub mod Budget
use signedpulse.Base
use signedpulse.Base.{
  ℕ, ◌+◌, max, Bool, true, false, not, ◌&&◌, Option, none, some, [], ltb, leb, ◌==◌, if◌then◌else◌,
  length, nat_key, bytes_key, ip_key, Map, get, retain, contains_key, IpAddr, Instant, Duration,
  from_secs, duration_since,
}

pub record Window : Type 0 where
  pub window_start : Instant
  pub count : ℕ

pub record HelloRateLimiter : Type 0 where
  pub max_per_window : ℕ
  pub window : Duration
  pub max_entries : ℕ
  pub state : Map IpAddr Window

abbrev pub new : ℕ → ℕ → ℕ → HelloRateLimiter
new max_per_window window_seconds max_entries = record {
  max_per_window = max_per_window;
  window = from_secs (max window_seconds 1);
  max_entries = max_entries;
  state = [];
}

-- `entry(ip).or_insert(…)`, and the restart of a window that is over.
abbrev current : Option Window → Duration → Instant → Window
current none window now = record { window_start = now; count = 0 }
current (some w) window now =
    if leb window (duration_since now w.window_start)
    then record { window_start = now; count = 0 }
    else w

-- The entry is written back even if the packet is refused, with its window restarted.
unfoldable pub check_at : IpAddr → Instant → HelloRateLimiter → HelloRateLimiter × Bool
check_at ip now s =
    if s.max_per_window == 0
    then (s, true)
    else if ltb 0 s.max_entries
        && leb s.max_entries (length s.state)
        && not (contains_key ip s.state)
    then (s, true)
    else let entry = current (get ip s.state) s.window now in
      if leb s.max_per_window entry.count
      then (record s { state = Base.insert ip entry s.state }, false)
      else (
        record s { state = Base.insert ip (record entry { count = entry.count + 1 }) s.state },
        true,
      )

unfoldable pub purge_stale : Instant → HelloRateLimiter → HelloRateLimiter
purge_stale now s = record s {
  state = retain (λ (w : Window). ltb (duration_since now w.window_start) s.window) s.state;
}

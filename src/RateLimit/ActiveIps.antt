-- ===== src/RateLimit/ActiveIps.antt =====
-- `ActiveIps`: the source IPs that recently completed an exchange.
pub mod Bounded
pub mod Allowed
use signedpulse.Base
use signedpulse.Base.{
  ℕ, max, Bool, false, ◌||◌, Option, none, some, [], ltb, if◌then◌else◌, length, nat_key, bytes_key,
  ip_key, Map, get, retain, contains_key, IpAddr, Instant, Duration, from_secs, duration_since,
}

pub record ActiveIps : Type 0 where
  pub ttl : Duration
  pub max_entries : ℕ
  pub seen : Map IpAddr Instant

abbrev pub new : ℕ → ℕ → ActiveIps
new ttl_seconds max_entries = record {
  ttl = from_secs (max ttl_seconds 1);
  max_entries = max max_entries 1;
  seen = [];
}

unfoldable pub mark : IpAddr → Instant → ActiveIps → ActiveIps
mark ip now s =
    if contains_key ip s.seen || ltb (length s.seen) s.max_entries
    then record s { seen = Base.insert ip now s.seen }
    else s

abbrev within : Option Instant → Duration → Instant → Bool
within none ttl now = false
within (some t) ttl now = ltb (duration_since now t) ttl

unfoldable pub is_active_at : IpAddr → Instant → ActiveIps → Bool
is_active_at ip now s = within (get ip s.seen) s.ttl now

unfoldable pub purge_stale : Instant → ActiveIps → ActiveIps
purge_stale now s = record s {
  seen = retain (λ (t : Instant). ltb (duration_since now t) s.ttl) s.seen;
}

-- ===== src/Server/Startup/Lease.antt =====
-- How long a lease of an accepted configuration lasts.
use signedpulse.Base.{ℕ, ◌≤◌, ◌≡◌, ap, arith, ok, nat_key, bytes_key, ip_key, from_secs}
use signedpulse.Config.{ServerConfig}
use signedpulse.Config.Server.{validate}
use signedpulse.Config.Server.Accepted.{validate-ok_iff}
use signedpulse.Server.State.{Server}
use signedpulse.Server.Response.{lease_ttl}

-- With the section of a configuration that is accepted, a lease lasts a second at least and a year
-- at most, and no longer than the configured maximum, whatever interval a pulse names.
pub lease_ttl-bounds :
    (c : ServerConfig) (s : Server) (interval_seconds : ℕ)
    → validate c ≡ ok tt
    → s.config ≡ c.server
    → (from_secs 1 ≤ lease_ttl interval_seconds s)
      × (lease_ttl interval_seconds s ≤ from_secs c.server.lease_max_seconds)
      × (lease_ttl interval_seconds s ≤ from_secs 31_536_000)
unfolding lease_ttl
lease_ttl-bounds c s interval_seconds accepted same =
    let sound = (validate-ok_iff c).0 accepted in
    let (low, high) = sound.lease in
    let cap : s.config.lease_max_seconds ≡ c.server.lease_max_seconds =
      ap (λ q. q.lease_max_seconds) same in
    (ground (arith, low, high, cap), ground (arith, low, high, cap), ground (arith, low, high, cap))

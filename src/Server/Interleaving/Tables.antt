-- ===== src/Server/Interleaving/Tables.antt =====
-- The tables of the server, each with distinct keys and within its cap, and the steps of the
-- handlers that keep them so.
use signedpulse.Base.{ℕ, Bool, nat_key, bytes_key, ip_key, IsMap}
use signedpulse.NonceStore.{NonceStore}
use signedpulse.SeenCache.{SeenCache}
use signedpulse.RateLimit.HelloRateLimiter.{HelloRateLimiter}
use signedpulse.RateLimit.HelloRateLimiter.Bounded as Limiter
use signedpulse.RateLimit.HelloRateLimiter.Bounded.{check_at-IsBounded}
use signedpulse.RateLimit.CooldownTracker.{CooldownTracker}
use signedpulse.RateLimit.ActiveIps.{ActiveIps}
use signedpulse.RateLimit.ActiveIps.Bounded as Active
use signedpulse.RateLimit.ActiveIps.Bounded.{mark-IsBounded}
use signedpulse.RateLimit.Blacklist.{Blacklist}
use signedpulse.RateLimit.Blacklist.Bounded as Faults
use signedpulse.RateLimit.Blacklist.Bounded.{note_rejection-IsBounded, record_faulty-IsBounded}
use signedpulse.RateLimit.LeaseTracker.{LeaseTracker}
use signedpulse.RateLimit.LeaseTracker.Bounded as Leases
use signedpulse.Server.State.{Server, Status}

-- Every table has distinct keys, and those keyed by addresses or leases hold at most `n` entries.
pub record IsBounded (n : ℕ) (s : Server) : Type 0 where
  pub nonces : IsMap s.nonce_store.entries
  pub hellos : IsMap s.seen_hellos.entries
  pub cooldowns : IsMap s.cooldown.last
  pub limiter : Limiter.IsBounded n s.rate_limiter
  pub blocked : Faults.IsBounded n s.blacklist
  pub active : Active.IsBounded n s.active_ips
  pub leased : Leases.IsBounded n s.leases

module _ {n : ℕ} {s : Server} (v : IsBounded n s) where
  pub with_status : (st : Status) → IsBounded n (record s { status = st })
  with_status st = record {
    nonces = v.nonces;
    hellos = v.hellos;
    cooldowns = v.cooldowns;
    limiter = v.limiter;
    blocked = v.blocked;
    active = v.active;
    leased = v.leased;
  }

  pub with_logged : (logged : Bool) → IsBounded n (record s { lockdown_logged = logged })
  with_logged logged = record {
    nonces = v.nonces;
    hellos = v.hellos;
    cooldowns = v.cooldowns;
    limiter = v.limiter;
    blocked = v.blocked;
    active = v.active;
    leased = v.leased;
  }

  pub with_nonce_store :
      (x : NonceStore) → IsMap x.entries → IsBounded n (record s { nonce_store = x })
  with_nonce_store x h = record {
    nonces = h;
    hellos = v.hellos;
    cooldowns = v.cooldowns;
    limiter = v.limiter;
    blocked = v.blocked;
    active = v.active;
    leased = v.leased;
  }

  pub with_seen_hellos :
      (x : SeenCache) → IsMap x.entries → IsBounded n (record s { seen_hellos = x })
  with_seen_hellos x h = record {
    nonces = v.nonces;
    hellos = h;
    cooldowns = v.cooldowns;
    limiter = v.limiter;
    blocked = v.blocked;
    active = v.active;
    leased = v.leased;
  }

  pub with_cooldown : (x : CooldownTracker) → IsMap x.last → IsBounded n (record s { cooldown = x })
  with_cooldown x h = record {
    nonces = v.nonces;
    hellos = v.hellos;
    cooldowns = h;
    limiter = v.limiter;
    blocked = v.blocked;
    active = v.active;
    leased = v.leased;
  }

  pub with_rate_limiter :
      (x : HelloRateLimiter) → Limiter.IsBounded n x → IsBounded n (record s { rate_limiter = x })
  with_rate_limiter x h = record {
    nonces = v.nonces;
    hellos = v.hellos;
    cooldowns = v.cooldowns;
    limiter = h;
    blocked = v.blocked;
    active = v.active;
    leased = v.leased;
  }

  pub with_blacklist :
      (x : Blacklist) → Faults.IsBounded n x → IsBounded n (record s { blacklist = x })
  with_blacklist x h = record {
    nonces = v.nonces;
    hellos = v.hellos;
    cooldowns = v.cooldowns;
    limiter = v.limiter;
    blocked = h;
    active = v.active;
    leased = v.leased;
  }

  pub with_active_ips :
      (x : ActiveIps) → Active.IsBounded n x → IsBounded n (record s { active_ips = x })
  with_active_ips x h = record {
    nonces = v.nonces;
    hellos = v.hellos;
    cooldowns = v.cooldowns;
    limiter = v.limiter;
    blocked = v.blocked;
    active = h;
    leased = v.leased;
  }

  pub with_leases :
      (x : LeaseTracker) → Leases.IsBounded n x → IsBounded n (record s { leases = x })
  with_leases x h = record {
    nonces = v.nonces;
    hellos = v.hellos;
    cooldowns = v.cooldowns;
    limiter = v.limiter;
    blocked = v.blocked;
    active = v.active;
    leased = h;
  }

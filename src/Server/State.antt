-- ===== src/Server/State.antt =====
-- The state of the server, and the counting of rejected packets.
use signedpulse.Base.{
  ℕ, ◌+◌, Bool, false, Option, none, some, if◌then◌else◌, Bytes, ℤ, nat_key, bytes_key, ip_key, Map,
  get, insert, IpAddr, Instant,
}
use signedpulse.Config.{ServerSection}
use signedpulse.NonceStore.{NonceStore}
use signedpulse.SeenCache.{SeenCache}
use signedpulse.RateLimit.HelloRateLimiter.{HelloRateLimiter}
use signedpulse.RateLimit.CooldownTracker.{CooldownTracker}
use signedpulse.RateLimit.ActiveIps.{ActiveIps}
use signedpulse.RateLimit.Blacklist.{Blacklist, note_rejection, record_faulty}
use signedpulse.RateLimit.LeaseTracker.{LeaseTracker}

-- The readings of the wall clock, in seconds, and of the monotonic clock, that one step takes.
pub record Moment : Type 0 where
  pub unix : ℤ
  pub mono : Instant

pub record ClientInfo : Type 0 where
  pub verifying_key : Bytes
  pub name : Bytes

pub data ReplyMode : Type 0 where
  cleartext : ReplyMode
  sealed : Bytes → ReplyMode

pub record PulseInfo : Type 0 where
  pub source_ip : IpAddr
  pub source_port : ℕ
  pub at_unix : ℤ

pub record CommandResult : Type 0 where
  pub exit_code : Option ℤ
  pub timed_out : Bool

pub record HookInfo : Type 0 where
  pub client_id : Bytes
  pub source_ip : IpAddr
  pub at_unix : ℤ
  pub exit_code : Option ℤ
  pub timed_out : Bool
  pub param : Option Bytes
  pub reason : Option Bytes

pub record ClientStatus : Type 0 where
  pub last_pulse : Option PulseInfo
  pub last_hook : Option HookInfo
  pub last_revoke : Option HookInfo

-- The counters of `ServerStatusSnapshot` and its per-client part.
pub record Status : Type 0 where
  pub hello_accepted : ℕ
  pub verified : ℕ
  pub rejected : ℕ
  pub replays : ℕ
  pub clients : Map Bytes ClientStatus

-- The arguments of `CommandExecutor::execute`.
pub record HookCall : Type 0 where
  pub client_id : Bytes
  pub source_ip : IpAddr
  pub source_port : ℕ
  pub param : Option Bytes
  pub is_new : Bool
  pub reason : Bytes
  pub ip_clients : ℕ

pub record Server : Type 0 where
  pub config : ServerSection
  pub clients : Map Bytes ClientInfo
  pub server_secret : Option Bytes
  pub nonce_store : NonceStore
  pub seen_hellos : SeenCache
  pub rate_limiter : HelloRateLimiter
  pub cooldown : CooldownTracker
  pub blacklist : Blacklist
  pub active_ips : ActiveIps
  pub lockdown_logged : Bool
  pub has_revoke : Bool
  pub leases : LeaseTracker
  pub status : Status

-- `clients.entry(name).or_default()`
abbrev pub or_default : Option ClientStatus → ClientStatus
or_default none = record { last_pulse = none; last_hook = none; last_revoke = none }
or_default (some c) = c

abbrev pub update_client : Bytes → (ClientStatus → ClientStatus) → Status → Status
update_client name f st = record st {
  clients = insert name (f (or_default (get name st.clients))) st.clients;
}

unfoldable pub note_rejected : Bool → Moment → Server → Server
note_rejected replay m s = record s {
  status = record s.status {
    rejected = s.status.rejected + 1;
    replays = s.status.replays + (if replay then 1 else 0);
  };
  blacklist = note_rejection m.mono s.blacklist;
}

unfoldable pub note_faulty : IpAddr → Moment → Server → Server
unfolding note_rejected
note_faulty ip m s =
    let s' = note_rejected false m s in
    record s' { blacklist = (record_faulty ip m.mono s'.blacklist).0 }

-- ===== src/Server/Receive.antt =====
-- The receive loop of `run`, its cleanup task, and `handle_datagram` with the start of each
-- handler. A hook that is called runs on its own and ends with `record_grant` or `record_revoke`.
pub mod Silence
pub mod Covered
pub mod Schedule
pub mod Serving
pub mod Delivery
use signedpulse.Base.{
  ℕ, Bool, true, false, not, Option, none, some, List, [], ◌∷◌, ltb, if◌then◌else◌, Result, ok, err,
  length, Bytes, nat_key, bytes_key, ip_key, IpAddr, codes,
}
use signedpulse.Crypto.{Primitives, CryptoError, open_box, ctx_wire}
use signedpulse.Config.{WireEncryption, required, off}
use signedpulse.Protocol.Packet.{Packet, hello, challenge, response, bye, decode}
use signedpulse.Protocol.Reader.{ProtocolError}
use signedpulse.NonceStore
use signedpulse.SeenCache
use signedpulse.RateLimit.HelloRateLimiter
use signedpulse.RateLimit.CooldownTracker
use signedpulse.RateLimit.ActiveIps
use signedpulse.RateLimit.Blacklist
use signedpulse.RateLimit.LeaseTracker
use signedpulse.RateLimit.LeaseTracker.{LeaseTracker, ExpiredLease}
use signedpulse.Server.State.{
  Server, Moment, ClientInfo, HookCall, ReplyMode, cleartext, sealed, note_rejected, note_faulty,
}
use signedpulse.Server.Hello.{Draw, handle_hello}
use signedpulse.Server.Response.{start_response}
use signedpulse.Server.Bye.{start_bye, revocation}

-- What a datagram brings about: a datagram to its sender, and the call of a hook.
pub record Effect : Type 0 where
  pub reply : Option Bytes
  pub hook : Option HookCall

abbrev pub nothing : Effect
nothing = record { reply = none; hook = none }

-- The source-address gates of the loop, with lockdown logged: a datagram is dropped if its source
-- is blacklisted, or if it is not recently active during a lockdown.
unfoldable pub gate : ℕ → IpAddr → Moment → Server → Server × Bool
gate len ip m s =
    if ltb s.config.max_packet_size len
    then (s, false)
    else if Blacklist.is_blocked ip m.mono s.blacklist
    then (s, false)
    else if not (Blacklist.under_attack m.mono s.blacklist)
    then (record s { lockdown_logged = false }, true)
    else if ActiveIps.is_active_at ip m.mono s.active_ips
    then (record s { lockdown_logged = true }, true)
    else (
      record s {
        lockdown_logged = true;
        blacklist = Blacklist.note_lockdown_drop m.mono s.blacklist;
      },
      false,
    )

-- The whole `Effect` of each handler.
abbrev replied : Server × Option Bytes → Server × Effect
replied (s, reply) = (s, record { reply = reply; hook = none })

abbrev pub granted : Server × Option (ClientInfo × HookCall) → Server × Effect
granted (s, none) = (s, nothing)
granted (s, some (info, call)) = (s, record { reply = none; hook = some call })

abbrev pub revoked : Server × Option HookCall → Server × Effect
revoked (s, call) = (s, record { reply = none; hook = call })

-- The expired leases of a scan, each with its call of the revoke hook if one is configured.
abbrev lease_calls : Bool → List (ExpiredLease × ℕ) → List HookCall
lease_calls has_revoke [] = []
lease_calls has_revoke ((e, remaining) ∷ es) =
    let rest = lease_calls has_revoke es in
    if has_revoke then revocation (codes "expired") e e.param remaining ∷ rest else rest

unfoldable pub run_lease_scan : Moment → Server → Server × List HookCall
run_lease_scan m s =
    let (leases, es) = LeaseTracker.take_expired_at m.mono s.leases in
    (record s { leases = leases }, lease_calls s.has_revoke es)

-- One tick of the cleanup task.
unfoldable pub cleanup : Moment → Server → Server × List HookCall
unfolding run_lease_scan
cleanup m s = run_lease_scan m (record s {
  nonce_store = (NonceStore.purge_expired m.unix s.nonce_store).0;
  seen_hellos = (SeenCache.purge_expired m.unix s.seen_hellos).0;
  rate_limiter = HelloRateLimiter.purge_stale m.mono s.rate_limiter;
  blacklist = Blacklist.purge_stale m.mono s.blacklist;
  active_ips = ActiveIps.purge_stale m.mono s.active_ips;
  cooldown = CooldownTracker.purge_stale m.mono s.cooldown;
})

module _ (p : Primitives) where
  handle_packet :
      Packet → IpAddr → ℕ → ReplyMode → Moment → Moment → Draw → Server → Server × Effect
  handle_packet (hello h) ip port mode m m' d s = replied (handle_hello p h ip port mode m d s)
  handle_packet (response r) ip port mode m m' d s = granted (start_response p r ip port m m' s)
  handle_packet (bye b) ip port mode m m' d s = revoked (start_bye p b ip port m m' s)
  handle_packet (challenge c) ip port mode m m' d s = (note_rejected false m s, nothing)

  decoded :
      Result ProtocolError Packet
      → IpAddr
      → ℕ
      → ReplyMode
      → Moment
      → Moment
      → Draw
      → Server
      → Server × Effect
  decoded (err e) ip port mode m m' d s = (note_faulty ip m s, nothing)
  decoded (ok packet) ip port mode m m' d s = handle_packet packet ip port mode m m' d s

  -- The bytes inside a sealed datagram.
  opened :
      Result CryptoError (Bytes × Bytes)
      → IpAddr
      → ℕ
      → Moment
      → Moment
      → Draw
      → Server
      → Server × Effect
  opened (err e) ip port m m' d s = (note_faulty ip m s, nothing)
  opened (ok (inner, peer_eph)) ip port m m' d s =
      decoded (decode inner) ip port (sealed peer_eph) m m' d s

  -- With the key that unseals datagrams.
  unseal : Option Bytes → Bytes → IpAddr → ℕ → Moment → Moment → Draw → Server → Server × Effect
  unseal none bytes ip port m m' d s = (s, nothing)
  unseal (some secret) bytes ip port m m' d s =
      opened (open_box p secret bytes ctx_wire) ip port m m' d s

  unfoldable pub handle_datagram :
      Bytes → IpAddr → ℕ → Moment → Moment → Draw → Server → Server × Effect
  unfolding handle_packet decoded opened unseal
  handle_datagram bytes ip port m m' d s = elim s.config.wire_encryption [
    | required ↦ unseal s.server_secret bytes ip port m m' d s
    | off ↦ decoded (decode bytes) ip port cleartext m m' d s
  ]

  -- One turn of the receive loop with a free permit.
  unfoldable pub receive : Bytes → IpAddr → ℕ → Moment → Moment → Draw → Server → Server × Effect
  unfolding gate handle_datagram
  receive bytes ip port m m' d s =
      let (s', passes) = gate (length bytes) ip m s in
      if passes then handle_datagram bytes ip port m m' d s' else (s', nothing)

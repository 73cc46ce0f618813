-- ===== src/Server/Response.antt =====
-- `handle_response`: renew the lease of a client, and run the grant hook.
pub mod Grants
pub mod Passing
use signedpulse.Base.{
  ℕ, ◌+◌, ◌-◌, ◌*◌, ◌^◌, min, max, Bool, not, ◌&&◌, Option, none, some, ◌++◌, if◌then◌else◌, Bytes,
  nat_key, bytes_key, ip_key, IpAddr, Duration, from_secs, codes,
}
use signedpulse.Crypto.{Primitives}
use signedpulse.Protocol.Packet.{Response}
use signedpulse.Protocol.Payload.{response_signing_payload}
use signedpulse.Protocol.Hex.{to_hex}
use signedpulse.RateLimit.ActiveIps
use signedpulse.RateLimit.CooldownTracker
use signedpulse.RateLimit.LeaseTracker
use signedpulse.Server.State.{
  Server, Moment, ClientInfo, ClientStatus, PulseInfo, HookInfo, HookCall, CommandResult,
  update_client, note_rejected,
}
use signedpulse.Server.Session.{Session, check_session, consume_session}
use signedpulse.Server.Param.{decrypt_param}

abbrev pub session_of : Response → Session
session_of r = record {
  client_id = r.client_id;
  nonce = r.nonce;
  interval_seconds = r.interval_seconds;
  param = r.param;
  signature = r.signature;
}

-- `(interval as u64).saturating_mul(multiplier as u64).clamp(1, lease_max_seconds)`, as a
-- `Duration`; the clamp panics where `lease_max_seconds` is zero, which the configuration's
-- validation excludes.
unfoldable pub lease_ttl : ℕ → Server → Duration
lease_ttl interval_seconds s = from_secs (
    min (max (min (interval_seconds * s.config.lease_grace_multiplier) (2 ^ 64 - 1)) 1)
      s.config.lease_max_seconds)

-- `format!("id:{client_hex}")`
abbrev pub id_key : Bytes → Bytes
id_key client_hex = codes "id:" ++ client_hex

-- The verified pulse in the counters and under the client's name.
unfoldable pub note_pulse : ClientInfo → IpAddr → ℕ → Moment → Server → Server
note_pulse info ip port m s =
    let pulse : PulseInfo = record { source_ip = ip; source_port = port; at_unix = m.unix } in
    record s {
      active_ips = ActiveIps.mark ip m.mono s.active_ips;
      status =
          update_client info.name (λ (c : ClientStatus). record c { last_pulse = some pulse })
            (record s.status { verified = s.status.verified + 1 });
    }

-- Steps 6 and 7: the cooldown, and the arguments of the grant hook if it runs.
unfoldable pub grant :
    Response → Option Bytes → Bool → IpAddr → ℕ → Moment → Server → Option HookCall
grant r param is_new ip port m s =
    let client_hex = to_hex r.client_id in
    if not is_new && CooldownTracker.in_cooldown (id_key client_hex) m.mono s.cooldown
    then none
    else some (record {
      client_id = client_hex;
      source_ip = ip;
      source_port = port;
      param = param;
      is_new = is_new;
      reason = codes "grant";
      ip_clients = LeaseTracker.others_on_ip ip client_hex m.mono s.leases;
    })

-- Steps 5 to 7, up to the hook.
unfoldable pub renew_lease :
    Response → Option Bytes → IpAddr → ℕ → Moment → Server → Server × Option HookCall
unfolding lease_ttl grant
renew_lease r param ip port m s =
    let (leases, is_new) =
      LeaseTracker.renew_at (to_hex r.client_id) ip port param (lease_ttl r.interval_seconds s)
        m.mono s.leases in
    let s' = record s { leases = leases } in (s', grant r param is_new ip port m s')

-- What a verified response does up to the hook.
accept_response :
    Response
    → ClientInfo
    → IpAddr
    → ℕ
    → Moment
    → Server × Option (Option Bytes)
    → Server × Option HookCall
unfolding note_pulse renew_lease
accept_response r info ip port m (s, none) = (s, none)
accept_response r info ip port m (s, some param) =
    renew_lease r param ip port m (note_pulse info ip port m s)

-- What follows once the command has ended.
unfoldable pub record_grant :
    HookCall → ClientInfo → Moment → Option CommandResult → Server → Server
record_grant call info m none s = s
record_grant call info m (some result) s =
    let hook : HookInfo = record {
      client_id = info.name;
      source_ip = call.source_ip;
      at_unix = m.unix;
      exit_code = result.exit_code;
      timed_out = result.timed_out;
      param = call.param;
      reason = some (codes "grant");
    } in
    record s {
      cooldown = CooldownTracker.mark (id_key call.client_id) m.mono s.cooldown;
      status =
          update_client info.name (λ (c : ClientStatus). record c { last_hook = some hook })
            s.status;
    }

module _ (p : Primitives) where
  -- From the use of the nonce to the hook.
  unfoldable pub commit_response :
      Response → ClientInfo → IpAddr → ℕ → Moment → Server → Server × Option HookCall
  unfolding accept_response
  commit_response r info ip port m s =
      let (s', consumed) = consume_session (session_of r) ip port m s in
      if not consumed
      then (s', none)
      else accept_response r info ip port m (decrypt_param p r.param m s')

  -- The handler up to the hook: `m` is the moment of the checks, `m'` that of the commit.
  unfoldable pub start_response :
      Response → IpAddr → ℕ → Moment → Moment → Server → Server × Option (ClientInfo × HookCall)
  unfolding commit_response
  start_response r ip port m m' s =
      let (s', known) = check_session p response_signing_payload (session_of r) ip port m s in
      elim known [
        | none ↦ (s', none)
        | some info ↦
            let (t, call) = commit_response r info ip port m' s' in
            (t, elim call [ none ↦ none | some c ↦ some (info, c) ])
      ]

  -- The whole handler with a command that ends at `m''` with `execute call`, or fails where that
  -- is `none`.
  unfoldable pub handle_response :
      Response
      → IpAddr
      → ℕ
      → Moment
      → Moment
      → Moment
      → (HookCall → Option CommandResult)
      → Server
      → Server × Option HookCall
  unfolding start_response record_grant
  handle_response r ip port m m' m'' execute s =
      let (s', started) = start_response r ip port m m' s in
      elim started [
        | none ↦ (s', none)
        | some (info, call) ↦ (record_grant call info m'' (execute call) s', some call)
      ]

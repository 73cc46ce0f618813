-- ===== src/Server/Bye.antt =====
-- `handle_bye`: release the lease of a client, and run the revoke hook.
pub mod Releases
use signedpulse.Base.{
  ℕ, false, not, Option, none, some, if◌then◌else◌, Bytes, nat_key, bytes_key, ip_key, get, IpAddr,
  codes,
}
use signedpulse.Crypto.{Primitives}
use signedpulse.Protocol.Packet.{Bye}
use signedpulse.Protocol.Payload.{bye_signing_payload}
use signedpulse.Protocol.Hex.{to_hex, from_hex, Parsed, parsed, bad_client_id_hex, panics}
use signedpulse.RateLimit.LeaseTracker
use signedpulse.RateLimit.LeaseTracker.{LeaseTracker, ExpiredLease}
use signedpulse.Server.State.{
  Server, Moment, ClientInfo, ClientStatus, HookInfo, HookCall, CommandResult, update_client,
  note_rejected,
}
use signedpulse.Server.Session.{Session, check_session, consume_session}
use signedpulse.Server.Param.{decrypt_param}

abbrev pub session_of : Bye → Session
session_of b = record {
  client_id = b.client_id;
  nonce = b.nonce;
  interval_seconds = b.interval_seconds;
  param = b.param;
  signature = b.signature;
}

abbrev named : Bytes → Option ClientInfo → Bytes
named client_id none = client_id
named client_id (some info) = info.name

abbrev lookup : Bytes → Parsed → Server → Bytes
lookup client_id (parsed id) s = named client_id (get id s.clients)
lookup client_id bad_client_id_hex s = client_id
lookup client_id panics s = client_id

-- The label of the client that held a lease; its hex id if it is not configured. A lease is keyed
-- by the output of `to_hex`, on which `from_hex` does not panic.
unfoldable pub client_name : Bytes → Server → Bytes
unfolding from_hex
client_name client_id s = lookup client_id (from_hex client_id) s

-- `Option::or`
abbrev pub or : Option Bytes → Option Bytes → Option Bytes
or none b = b
or (some a) b = some a

-- The call of the revoke hook for a lease that has ended.
abbrev pub revocation : Bytes → ExpiredLease → Option Bytes → ℕ → HookCall
revocation reason e param remaining = record {
  client_id = e.client_id;
  source_ip = e.ip;
  source_port = e.source_port;
  param = param;
  is_new = false;
  reason = reason;
  ip_clients = remaining;
}

-- Step 6 after the lease is found, or not.
revoke_call : Option Bytes → Server → Option (ExpiredLease × ℕ) → Option HookCall
revoke_call bye_param s none = none
revoke_call bye_param s (some (e, remaining)) =
    if s.has_revoke
    then some (revocation (codes "bye") e (or bye_param e.param) remaining)
    else none

-- Steps 5 and 6, up to the hook.
unfoldable pub release_lease :
    Bye → Moment → Server × Option (Option Bytes) → Server × Option HookCall
unfolding revoke_call
release_lease b m (s, none) = (s, none)
release_lease b m (s, some bye_param) =
    let (leases, found) = LeaseTracker.release_at (to_hex b.client_id) m.mono s.leases in
    (record s { leases = leases }, revoke_call bye_param s found)

-- What follows once the revoke hook has ended, for a BYE or an expired lease.
unfoldable pub record_revoke : HookCall → Moment → Option CommandResult → Server → Server
unfolding client_name
record_revoke call m none s = s
record_revoke call m (some result) s =
    let name = client_name call.client_id s in
    let hook : HookInfo = record {
      client_id = name;
      source_ip = call.source_ip;
      at_unix = m.unix;
      exit_code = result.exit_code;
      timed_out = result.timed_out;
      param = call.param;
      reason = some call.reason;
    } in
    record s {
      status =
          update_client name (λ (c : ClientStatus). record c { last_revoke = some hook }) s.status;
    }

module _ (p : Primitives) where
  -- From the use of the nonce to the hook.
  unfoldable pub commit_bye : Bye → IpAddr → ℕ → Moment → Server → Server × Option HookCall
  unfolding release_lease
  commit_bye b ip port m s =
      let (s', consumed) = consume_session (session_of b) ip port m s in
      if not consumed then (s', none) else release_lease b m (decrypt_param p b.param m s')

  -- The handler up to the hook.
  unfoldable pub start_bye : Bye → IpAddr → ℕ → Moment → Moment → Server → Server × Option HookCall
  unfolding commit_bye
  start_bye b ip port m m' s =
      let (s', known) = check_session p bye_signing_payload (session_of b) ip port m s in
      elim known [ none ↦ (s', none) | some _ ↦ commit_bye b ip port m' s' ]

  unfoldable pub handle_bye :
      Bye
      → IpAddr
      → ℕ
      → Moment
      → Moment
      → Moment
      → (HookCall → Option CommandResult)
      → Server
      → Server × Option HookCall
  unfolding start_bye record_revoke
  handle_bye b ip port m m' m'' execute s =
      let (s', started) = start_bye b ip port m m' s in
      elim started [
        | none ↦ (s', none)
        | some call ↦ (record_revoke call m'' (execute call) s', some call)
      ]

-- ===== src/Server/Response/Passing.antt =====
-- A RESPONSE that proves itself is granted.
use signedpulse.Base.{
  ℕ, ◌≡◌, Bool, false, Option, some, arith, Bytes, nat_key, bytes_key, ip_key, IpAddr, codes,
}
use signedpulse.Crypto.{Primitives}
use signedpulse.Protocol.Packet.{Response}
use signedpulse.Protocol.Payload.{response_signing_payload}
use signedpulse.Protocol.Hex.{to_hex}
use signedpulse.NonceStore.Bindings.{IsBound}
use signedpulse.RateLimit.LeaseTracker
use signedpulse.RateLimit.CooldownTracker
use signedpulse.Server.State.{Server, Moment, ClientInfo, HookCall}
use signedpulse.Server.Session.Proof.{IsProven}
use signedpulse.Server.Session.Passing.{proven-passes, proven-spent}
use signedpulse.Server.Param.{decrypt_param, read_param}
use signedpulse.Server.Response.{
  session_of, lease_ttl, id_key, note_pulse, grant, renew_lease, accept_response, commit_response,
  start_response,
}

-- The lease tracker once `r` is granted, and whether the lease is new.
abbrev pub renewed :
    Response → Option Bytes → IpAddr → ℕ → Moment → Server → LeaseTracker.LeaseTracker × Bool
renewed r param ip port m s =
    LeaseTracker.renew_at (to_hex r.client_id) ip port param (lease_ttl r.interval_seconds s) m.mono
      s.leases

-- The call of the grant hook for `r`.
abbrev pub call_of : Response → Option Bytes → IpAddr → ℕ → Moment → Server → HookCall
call_of r param ip port m s = record {
  client_id = to_hex r.client_id;
  source_ip = ip;
  source_port = port;
  param = param;
  is_new = (renewed r param ip port m s).1;
  reason = codes "grant";
  ip_clients =
      LeaseTracker.others_on_ip ip (to_hex r.client_id) m.mono (renewed r param ip port m s).0;
}

module _ (p : Primitives) where
  -- A RESPONSE whose session is proven when it is checked, whose nonce is not past its expiry when
  -- it is committed and whose parameter is absent or reads well renews its client's lease and
  -- calls the grant hook for its client and endpoint with that parameter, if the client is not in
  -- its cooldown.
  pub proven-granted :
      (r : Response) (param : Option Bytes) (ip : IpAddr) (port : ℕ) (m m' : Moment) (s : Server)
      (info : ClientInfo) (w : IsProven p response_signing_payload (session_of r) ip port m s info)
      → IsBound w.entry (to_hex r.client_id) ip port m'.unix
      → read_param p r.param s ≡ some param
      → CooldownTracker.in_cooldown (id_key (to_hex r.client_id)) m'.mono s.cooldown ≡ false
      → ((start_response p r ip port m m' s).1 ≡ some (info, call_of r param ip port m' s))
        × ((start_response p r ip port m m' s).0.leases ≡ (renewed r param ip port m' s).0)
  unfolding start_response commit_response accept_response renew_lease grant note_pulse lease_ttl
      decrypt_param
  proven-granted r param ip port m m' s info w bound reads cool =
      let passed = proven-passes p response_signing_payload (session_of r) ip port m s info w in
      let used = proven-spent (session_of r) ip port m' s w.entry w.issued bound in
      (ground (arith, passed, used, reads, cool), ground (arith, passed, used, reads))

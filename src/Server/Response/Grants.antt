-- ===== src/Server/Response/Grants.antt =====
-- When the grant hook is called, and that a nonce serves one call.
use signedpulse.Base.{
  ℕ, ◌≡◌, refl, sym, ap, ◌∙◌, subst, inl, inr, Option, none, some, arith, Bool-cases, Option-cases,
  Bytes, nat_key, bytes_key, ip_key, IpAddr, codes,
}
use signedpulse.Crypto.{Primitives}
use signedpulse.Protocol.Packet.{Response, Bye}
use signedpulse.Protocol.Payload.{response_signing_payload, bye_signing_payload}
use signedpulse.Protocol.Hex.{to_hex}
use signedpulse.Server.State.{Server, Moment, ClientInfo, HookCall, note_rejected}
use signedpulse.Server.Session.{check_session, consume_session}
use signedpulse.Server.Session.Proof.{
  IsProven, check-IsProven, IsUsed, IsSpent, consume-IsUsed, used-check,
}
use signedpulse.Server.Param.{decrypt_param}
use signedpulse.Server.Response.{
  session_of, start_response, commit_response, accept_response, renew_lease, grant, note_pulse,
}
use signedpulse.Server.Bye.{start_bye}
use signedpulse.Server.Bye

-- The call is for the client and the endpoint of the packet.
pub record IsFor (r : Response) (ip : IpAddr) (port : ℕ) (call : HookCall) : Type 0 where
  pub client : call.client_id ≡ to_hex r.client_id
  pub source : call.source_ip ≡ ip
  pub source_port : call.source_port ≡ port
  pub reason : call.reason ≡ codes "grant"

renew-IsFor :
    (r : Response) (param : Option Bytes) (ip : IpAddr) (port : ℕ) (m : Moment) (s : Server)
    (call : HookCall)
    → (renew_lease r param ip port m s).1 ≡ some call
    → IsFor r ip port call × ((renew_lease r param ip port m s).0.nonce_store ≡ s.nonce_store)
unfolding renew_lease grant
renew-IsFor r param ip port m s call h = (
  record {
    client = ground (arith, h);
    source = ground (arith, h);
    source_port = ground (arith, h);
    reason = ground (arith, h);
  },
  refl,
)

accept-IsFor :
    (r : Response) (info : ClientInfo) (ip : IpAddr) (port : ℕ) (m : Moment)
    (q : Server × Option (Option Bytes)) (call : HookCall)
    → (accept_response r info ip port m q).1 ≡ some call
    → IsFor r ip port call × ((accept_response r info ip port m q).0.nonce_store ≡ q.0.nonce_store)
unfolding accept_response note_pulse
accept-IsFor r info ip port m (s, none) call h = absurd (ground arith)
accept-IsFor r info ip port m (s, some param) call h =
    renew-IsFor r param ip port m (note_pulse info ip port m s) call h

module _ (p : Primitives) where
  decrypt-nonce_store :
      (blob : Option Bytes) (m : Moment) (s : Server)
      → (decrypt_param p blob m s).0.nonce_store ≡ s.nonce_store
  unfolding decrypt_param note_rejected
  decrypt-nonce_store blob m s = ground arith

  commit_lem :
      (r : Response) (info : ClientInfo) (ip : IpAddr) (port : ℕ) (m : Moment) (s : Server)
      (call : HookCall)
      → (commit_response p r info ip port m s).1 ≡ some call
      → IsFor r ip port call × IsUsed r.nonce (commit_response p r info ip port m s).0
  unfolding commit_response accept_response
  commit_lem r info ip port m s call h =
      elim (Bool-cases (consume_session (session_of r) ip port m s).1) [
        | inr refused ↦ absurd (ground (arith, refused, h))
        | inl consumed ↦
            let t = (consume_session (session_of r) ip port m s).0 in
            let done = decrypt_param p r.param m t in
            let (right, kept) =
              accept-IsFor r info ip port m done call (ground (arith, consumed, h)) in
            let whole : (commit_response p r info ip port m s).0
                ≡ (accept_response r info ip port m done).0 =
              ground (arith, consumed) in
            (
              right,
              subst (IsSpent r.nonce)
                  (sym (ap (λ q. q.nonce_store) whole ∙ kept ∙ decrypt-nonce_store r.param m t))
                  (consume-IsUsed (session_of r) ip port m s consumed),
            )
      ]

  start_end :
      (r : Response) (ip : IpAddr) (port : ℕ) (m m' : Moment) (s : Server) (info : ClientInfo)
      (call : HookCall)
      → (check_session p response_signing_payload (session_of r) ip port m s).1 ≡ some info
      → (start_response p r ip port m m' s).1 ≡ some (info, call)
      → (commit_response p r info ip port m'
          (check_session p response_signing_payload (session_of r) ip port m s).0).1
        ≡ some call
  unfolding start_response
  start_end r ip port m m' s info call passed h = ground (arith, passed, h)

  start_state :
      (r : Response) (ip : IpAddr) (port : ℕ) (m m' : Moment) (s : Server) (info : ClientInfo)
      → (check_session p response_signing_payload (session_of r) ip port m s).1 ≡ some info
      → (start_response p r ip port m m' s).0
        ≡ (commit_response p r info ip port m'
            (check_session p response_signing_payload (session_of r) ip port m s).0).0
  unfolding start_response
  start_state r ip port m m' s info passed = ground (arith, passed)

  start_lem :
      (r : Response) (ip : IpAddr) (port : ℕ) (m m' : Moment) (s : Server) (info : ClientInfo)
      (call : HookCall)
      → (start_response p r ip port m m' s).1 ≡ some (info, call)
      → let t = (check_session p response_signing_payload (session_of r) ip port m s).0 in
        let done = commit_response p r info ip port m' t in
        ((check_session p response_signing_payload (session_of r) ip port m s).1 ≡ some info)
        × (done.1 ≡ some call)
        × ((start_response p r ip port m m' s).0 ≡ done.0)
  unfolding start_response
  start_lem r ip port m m' s info call h =
      elim (Option-cases (check_session p response_signing_payload (session_of r) ip port m s).1) [
        | inl refused ↦ absurd (ground (arith, refused, h))
        | inr (info', passed) ↦
            let t = (check_session p response_signing_payload (session_of r) ip port m s).0 in
            elim (Option-cases (commit_response p r info' ip port m' t).1) [
              | inl silent ↦ absurd (ground (arith, passed, silent, h))
              | inr (call', called) ↦
                  let same : some info' ≡ some info = ground (arith, passed, called, h) in
                  let passed' = passed ∙ same in
                  (
                    passed',
                    start_end r ip port m m' s info call passed' h,
                    start_state r ip port m m' s info passed',
                  )
            ]
      ]

  response_refused :
      (r : Response) (ip : IpAddr) (port : ℕ) (m m' : Moment) (s : Server)
      → (check_session p response_signing_payload (session_of r) ip port m s).1 ≡ none
      → (start_response p r ip port m m' s).1 ≡ none
  unfolding start_response
  response_refused r ip port m m' s refused = ground (arith, refused)

  bye_refused :
      (b : Bye) (ip : IpAddr) (port : ℕ) (m m' : Moment) (s : Server)
      → (check_session p bye_signing_payload (Bye.session_of b) ip port m s).1 ≡ none
      → (start_bye p b ip port m m' s).1 ≡ none
  unfolding start_bye
  bye_refused b ip port m m' s refused = ground (arith, refused)

  -- The grant hook is called for a RESPONSE only if its client is configured, its nonce is in the
  -- store, unused, not past its expiry and issued to that client at the same source address and
  -- port, and its signature verifies under the client's key, with the expiry that the server
  -- stored. The call is then for the hex id of that client and for the source address and port of
  -- the packet, and the nonce is used afterwards.
  pub grant-IsProven :
      (r : Response) (ip : IpAddr) (port : ℕ) (m m' : Moment) (s : Server) (info : ClientInfo)
      (call : HookCall)
      → (start_response p r ip port m m' s).1 ≡ some (info, call)
      → IsProven p response_signing_payload (session_of r) ip port m s info
        × IsFor r ip port call
        × IsUsed r.nonce (start_response p r ip port m m' s).0
  grant-IsProven r ip port m m' s info call h =
      let (checked, called, same) = start_lem r ip port m m' s info call h in
      let t = (check_session p response_signing_payload (session_of r) ip port m s).0 in
      let (right, spent) = commit_lem r info ip port m' t call called in
      (
        check-IsProven p response_signing_payload (session_of r) ip port m s info checked,
        right,
        subst (IsUsed r.nonce) (sym same) spent,
      )

  -- Once a RESPONSE has led to the grant hook, no RESPONSE and no BYE that carries its nonce leads
  -- to a hook in the state that follows, whoever signs it, wherever it comes from and whenever it
  -- arrives.
  pub spent_nonce_is_refused :
      (r : Response) (ip : IpAddr) (port : ℕ) (m m' : Moment) (s : Server) (info : ClientInfo)
      (call : HookCall)
      → (start_response p r ip port m m' s).1 ≡ some (info, call)
      → (r' : Response) (b : Bye) (ip' : IpAddr) (port' : ℕ) (n n' : Moment) → r'.nonce ≡ r.nonce
      → b.nonce ≡ r.nonce
      → let t = (start_response p r ip port m m' s).0 in
        ((start_response p r' ip' port' n n' t).1 ≡ none)
        × ((start_bye p b ip' port' n n' t).1 ≡ none)
  spent_nonce_is_refused r ip port m m' s info call h r' b ip' port' n n' same same_b =
      let t = (start_response p r ip port m m' s).0 in
      let (_, _, used) = grant-IsProven r ip port m m' s info call h in
      (
        response_refused r' ip' port' n n' t (
            used-check p response_signing_payload (session_of r') ip' port' n t
              (subst (λ q. IsUsed q t) (sym same) used)),
        bye_refused b ip' port' n n' t (
            used-check p bye_signing_payload (Bye.session_of b) ip' port' n t
              (subst (λ q. IsUsed q t) (sym same_b) used)),
      )

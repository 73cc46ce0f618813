-- ===== src/Server/Interleaving/Steps.antt =====
-- The parts of the handlers keep the tables of the server well formed and within their caps.
use signedpulse.Base.{
  ℕ, ◌+◌, Bool, true, false, Option, none, some, arith, Bytes, nat_key, bytes_key, ip_key, IpAddr,
}
use signedpulse.Crypto.{Primitives}
use signedpulse.Protocol.Packet.{Hello, Response, Bye}
use signedpulse.Protocol.Hex.{to_hex}
use signedpulse.NonceStore
use signedpulse.NonceStore.SingleUse
use signedpulse.NonceStore.SingleUse.{step-IsMap, inserts, consumes, purges}
use signedpulse.SeenCache
use signedpulse.SeenCache.Replay
use signedpulse.SeenCache.Replay.{after-IsMap}
use signedpulse.RateLimit.CooldownTracker.Cooling.{mark-IsMap}
use signedpulse.RateLimit.ActiveIps.Bounded.{mark-IsBounded}
use signedpulse.RateLimit.Blacklist.Bounded.{note_rejection-IsBounded, note_lockdown_drop-IsBounded}
use signedpulse.RateLimit.LeaseTracker.Bounded.{renew_at-IsBounded, release_at-IsBounded}
use signedpulse.Server.State.{
  Server, Moment, ClientInfo, ReplyMode, HookCall, CommandResult, note_rejected,
}
use signedpulse.Server.Hello.{
  Draw, deadline, replay_key, seen_ttl, authenticate_hello, admit_hello, issue_challenge,
}
use signedpulse.Server.Session.{Session, Payload, check_session, consume_session}
use signedpulse.Server.Param.{decrypt_param}
use signedpulse.Server.Response.{record_grant, renew_lease, note_pulse, lease_ttl, id_key}
use signedpulse.Server.Bye.{record_revoke, release_lease}
use signedpulse.Server.Receive.{gate}
use signedpulse.Server.Interleaving.Tables.{
  with_logged, IsBounded, with_status, with_nonce_store, with_seen_hellos, with_cooldown,
  with_blacklist, with_active_ips, with_leases,
}

module _ {n : ℕ} where
  pub rejected-IsBounded :
      (replay : Bool) (m : Moment) (s : Server)
      → IsBounded n s
      → IsBounded n (note_rejected replay m s)
  unfolding note_rejected
  rejected-IsBounded replay m s v =
      with_status (with_blacklist v _ (note_rejection-IsBounded n m.mono s.blacklist v.blocked)) _

  pub gate-IsBounded :
      (len : ℕ) (ip : IpAddr) (m : Moment) (s : Server)
      → IsBounded n s
      → IsBounded n (gate len ip m s).0
  unfolding gate
  gate-IsBounded len ip m s v = ground (
    arith,
    with_logged v true,
    with_logged v false,
    with_blacklist (with_logged v true) _
        (note_lockdown_drop-IsBounded n m.mono s.blacklist v.blocked),
  )

  pub consume-IsBounded :
      (r : Session) (ip : IpAddr) (port : ℕ) (m : Moment) (s : Server)
      → IsBounded n s
      → IsBounded n (consume_session r ip port m s).0
  unfolding consume_session SingleUse.after
  consume-IsBounded r ip port m s v =
      let store =
        (NonceStore.consume r.nonce (to_hex r.client_id) ip port m.unix s.nonce_store).0 in
      let w = with_nonce_store v store (
        step-IsMap (consumes r.nonce (to_hex r.client_id) ip port m.unix) s.nonce_store v.nonces) in
      ground (arith, w, rejected-IsBounded true m _ w, rejected-IsBounded false m _ w)

  pub release-IsBounded :
      (b : Bye) (m : Moment) (s : Server) (param : Option (Option Bytes))
      → IsBounded n s
      → IsBounded n (release_lease b m (s, param)).0
  unfolding release_lease
  release-IsBounded b m s none v = v
  release-IsBounded b m s (some param) v =
      with_leases v _ (release_at-IsBounded n (to_hex b.client_id) m.mono s.leases v.leased)

  pub grant-IsBounded :
      (call : HookCall) (info : ClientInfo) (m : Moment) (result : Option CommandResult)
      (s : Server)
      → IsBounded n s
      → IsBounded n (record_grant call info m result s)
  unfolding record_grant
  grant-IsBounded call info m none s v = v
  grant-IsBounded call info m (some result) s v =
      with_status
        (with_cooldown v _ (mark-IsMap (id_key call.client_id) m.mono s.cooldown v.cooldowns)) _

  pub revoke-IsBounded :
      (call : HookCall) (m : Moment) (result : Option CommandResult) (s : Server)
      → IsBounded n s
      → IsBounded n (record_revoke call m result s)
  unfolding record_revoke
  revoke-IsBounded call m none s v = v
  revoke-IsBounded call m (some result) s v = with_status v _

  pub pulse-IsBounded :
      (info : ClientInfo) (ip : IpAddr) (port : ℕ) (m : Moment) (s : Server)
      → IsBounded n s
      → IsBounded n (note_pulse info ip port m s)
  unfolding note_pulse
  pulse-IsBounded info ip port m s v =
      with_status (with_active_ips v _ (mark-IsBounded n ip m.mono s.active_ips v.active)) _

  pub renew-IsBounded :
      (r : Response) (param : Option Bytes) (ip : IpAddr) (port : ℕ) (m : Moment) (s : Server)
      → IsBounded n s
      → IsBounded n (renew_lease r param ip port m s).0
  unfolding renew_lease
  renew-IsBounded r param ip port m s v = with_leases v _ (
      renew_at-IsBounded n (to_hex r.client_id) ip port param (lease_ttl r.interval_seconds s)
        m.mono s.leases v.leased)

module _ (p : Primitives) {n : ℕ} where
  pub check-IsBounded :
      (payload : Payload) (r : Session) (ip : IpAddr) (port : ℕ) (m : Moment) (s : Server)
      → IsBounded n s
      → IsBounded n (check_session p payload r ip port m s).0
  unfolding check_session
  check-IsBounded payload r ip port m s v =
      ground (arith, v, rejected-IsBounded true m s v, rejected-IsBounded false m s v)

  pub decrypt-IsBounded :
      (blob : Option Bytes) (m : Moment) (s : Server)
      → IsBounded n s
      → IsBounded n (decrypt_param p blob m s).0
  unfolding decrypt_param
  decrypt-IsBounded blob m s v = ground (arith, v, rejected-IsBounded false m s v)

  pub issue-IsBounded :
      (h : Hello) (ip : IpAddr) (port : ℕ) (mode : ReplyMode) (m : Moment) (d : Draw) (s : Server)
      → IsBounded n s
      → IsBounded n (issue_challenge p h ip port mode m d s).0
  unfolding issue_challenge SingleUse.after
  issue-IsBounded h ip port mode m d s v =
      let expires_at = deadline m.unix s.config.nonce_ttl_seconds in
      let w =
        with_nonce_store (with_active_ips v _ (mark-IsBounded n ip m.mono s.active_ips v.active))
          (NonceStore.insert d.nonce (to_hex h.client_id) ip port expires_at m.unix s.nonce_store)
          (step-IsMap (inserts d.nonce (to_hex h.client_id) ip port expires_at m.unix) s.nonce_store
            v.nonces) in
      ground
        (arith, w, with_status w (record s.status { hello_accepted = s.status.hello_accepted + 1 }))

  pub admit-IsBounded :
      (h : Hello) (ip : IpAddr) (port : ℕ) (mode : ReplyMode) (m : Moment) (d : Draw) (s : Server)
      → IsBounded n s
      → IsBounded n (admit_hello p h ip port mode m d s).0
  unfolding admit_hello Replay.after
  admit-IsBounded h ip port mode m d s v =
      let ttl = seen_ttl s.config.hello_max_skew_seconds in
      let seen = (SeenCache.insert_if_absent (replay_key h) m.unix ttl s.seen_hellos).0 in
      let w =
        with_seen_hellos v seen
          (after-IsMap (Replay.inserts (replay_key h) m.unix ttl) s.seen_hellos v.hellos) in
      ground (arith, rejected-IsBounded true m _ w, issue-IsBounded h ip port mode m d _ w)

  pub authenticate-IsBounded :
      (h : Hello) (info : ClientInfo) (ip : IpAddr) (port : ℕ) (mode : ReplyMode) (m : Moment)
      (d : Draw) (s : Server)
      → IsBounded n s
      → IsBounded n (authenticate_hello p h info ip port mode m d s).0
  unfolding authenticate_hello
  authenticate-IsBounded h info ip port mode m d s v =
      ground (arith, rejected-IsBounded false m s v, admit-IsBounded h ip port mode m d s v)

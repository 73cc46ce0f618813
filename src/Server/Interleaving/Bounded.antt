-- ===== src/Server/Interleaving/Bounded.antt =====
-- The steps of the server keep its tables well formed and within their caps.
use signedpulse.Base.{
  ℕ, ◌<◌, ◌≡◌, refl, subst, inl, inr, Bool, false, Option, List, [], ◌∷◌, arith, Option-cases, ok,
  Bytes, nat_key, bytes_key, ip_key, get, IpAddr, Instant,
}
use signedpulse.Config.{ServerConfig}
use signedpulse.Server.Startup.{Clients, assembled, from_config}
use signedpulse.Server.Startup.Registered.{started_lem}
use signedpulse.Server.Interleaving.Steps.{
  rejected-IsBounded, gate-IsBounded, consume-IsBounded, release-IsBounded, grant-IsBounded,
  revoke-IsBounded, pulse-IsBounded, renew-IsBounded, check-IsBounded, decrypt-IsBounded,
  authenticate-IsBounded,
}
use signedpulse.Crypto.{Primitives}
use signedpulse.Protocol.Packet.{Hello, Response, Bye}
use signedpulse.Protocol.Payload.{response_signing_payload, bye_signing_payload}
use signedpulse.NonceStore.SingleUse
use signedpulse.NonceStore.SingleUse.{step-IsMap, inserts, consumes, purges}
use signedpulse.SeenCache.Replay
use signedpulse.SeenCache.Replay.{after-IsMap}
use signedpulse.RateLimit.HelloRateLimiter
use signedpulse.RateLimit.HelloRateLimiter.Bounded as Limiter
use signedpulse.RateLimit.HelloRateLimiter.Bounded.{check_at-IsBounded}
use signedpulse.RateLimit.CooldownTracker.Cooling.{purge_stale-IsMap}
use signedpulse.RateLimit.ActiveIps.Bounded as Active
use signedpulse.RateLimit.ActiveIps.Bounded.{mark-IsBounded}
use signedpulse.RateLimit.Blacklist
use signedpulse.RateLimit.Blacklist.Bounded as Faults
use signedpulse.RateLimit.Blacklist.Bounded.{
  note_rejection-IsBounded, record_faulty-IsBounded, note_lockdown_drop-IsBounded,
}
use signedpulse.RateLimit.LeaseTracker.Bounded.{take_expired_at-IsBounded}
use signedpulse.Server.State.{Server, Moment, ClientInfo, ReplyMode, note_faulty}
use signedpulse.Server.Hello.{Draw, handle_hello}
use signedpulse.Server.Session.{consume_session}
use signedpulse.Server.Param.{decrypt_param}
use signedpulse.Server.Response
use signedpulse.Server.Response.{
  commit_response, record_grant, renew_lease, note_pulse, lease_ttl, id_key,
}
use signedpulse.Server.Bye
use signedpulse.Server.Bye.{commit_bye, record_revoke, release_lease}
use signedpulse.Server.Receive.{cleanup, run_lease_scan}
use signedpulse.Server.Interleaving.{
  Event, gates, rejects, faults, greets, checks_response, checks_bye, commits_response, commits_bye,
  ends_grant, ends_revoke, ticks, after, run,
}
use signedpulse.Server.Interleaving.Tables.{IsBounded, with_rate_limiter, with_blacklist}

module _ (p : Primitives) {n : ℕ} where
  response-IsBounded :
      (r : Response) (info : ClientInfo) (ip : IpAddr) (port : ℕ) (m : Moment) (s : Server)
      → IsBounded n s
      → IsBounded n (commit_response p r info ip port m s).0
  unfolding commit_response
  response-IsBounded r info ip port m s v =
      let w = consume-IsBounded (Response.session_of r) ip port m s v in
      let t = (consume_session (Response.session_of r) ip port m s).0 in
      let x = decrypt-IsBounded p r.param m t w in
      let u = (decrypt_param p r.param m t).0 in
      elim (Option-cases (decrypt_param p r.param m t).1) [
        | inl gone ↦ ground (arith, w, x, gone)
        | inr (param, found) ↦ ground (
          arith,
          w,
          found,
          renew-IsBounded r param ip port m (note_pulse info ip port m u)
              (pulse-IsBounded info ip port m u x),
        )
      ]

  bye-IsBounded :
      (b : Bye) (ip : IpAddr) (port : ℕ) (m : Moment) (s : Server)
      → IsBounded n s
      → IsBounded n (commit_bye p b ip port m s).0
  unfolding commit_bye
  bye-IsBounded b ip port m s v =
      let w = consume-IsBounded (Bye.session_of b) ip port m s v in
      let t = (consume_session (Bye.session_of b) ip port m s).0 in
      let x = decrypt-IsBounded p b.param m t w in
      ground (arith, w, release-IsBounded b m _ (decrypt_param p b.param m t).1 x)

  module _ (capped : 0 < n) where
    faulty-IsBounded :
        (ip : IpAddr) (m : Moment) (s : Server) → IsBounded n s → IsBounded n (note_faulty ip m s)
    unfolding note_faulty
    faulty-IsBounded ip m s v =
        let w = rejected-IsBounded false m s v in
        with_blacklist w _ (record_faulty-IsBounded n capped ip m.mono _ w.blocked)

    hello-IsBounded :
        (h : Hello) (ip : IpAddr) (port : ℕ) (mode : ReplyMode) (m : Moment) (d : Draw) (s : Server)
        → IsBounded n s
        → IsBounded n (handle_hello p h ip port mode m d s).0
    unfolding handle_hello
    hello-IsBounded h ip port mode m d s v =
        let limiter = (HelloRateLimiter.check_at ip m.mono s.rate_limiter).0 in
        let w =
          with_rate_limiter v limiter
            (check_at-IsBounded n capped ip m.mono s.rate_limiter v.limiter) in
        elim (Option-cases (get h.client_id s.clients)) [
          | inl gone ↦ ground (arith, rejected-IsBounded false m _ w, gone)
          | inr (info, found) ↦ ground (
            arith,
            found,
            rejected-IsBounded false m _ w,
            authenticate-IsBounded p h info ip port mode m d _ w,
          )
        ]

    cleanup-IsBounded : (m : Moment) (s : Server) → IsBounded n s → IsBounded n (cleanup m s).0
    unfolding cleanup run_lease_scan SingleUse.after Replay.after
    cleanup-IsBounded m s v = record {
      nonces = step-IsMap (purges m.unix) s.nonce_store v.nonces;
      hellos = after-IsMap (Replay.purges m.unix) s.seen_hellos v.hellos;
      cooldowns = purge_stale-IsMap m.mono s.cooldown v.cooldowns;
      limiter = Limiter.purge_stale-IsBounded n m.mono s.rate_limiter v.limiter;
      blocked = Faults.purge_stale-IsBounded n m.mono s.blacklist v.blocked;
      active = Active.purge_stale-IsBounded n m.mono s.active_ips v.active;
      leased = take_expired_at-IsBounded n m.mono s.leases v.leased;
    }

    step-IsBounded : (e : Event) (s : Server) → IsBounded n s → IsBounded n (after p e s)
    unfolding after
    step-IsBounded (gates len ip m) s v = gate-IsBounded len ip m s v
    step-IsBounded (rejects m) s v = rejected-IsBounded false m s v
    step-IsBounded (faults ip m) s v = faulty-IsBounded ip m s v
    step-IsBounded (greets h ip port mode m d) s v = hello-IsBounded h ip port mode m d s v
    step-IsBounded (checks_response r ip port m) s v =
        check-IsBounded p response_signing_payload (Response.session_of r) ip port m s v
    step-IsBounded (checks_bye b ip port m) s v =
        check-IsBounded p bye_signing_payload (Bye.session_of b) ip port m s v
    step-IsBounded (commits_response r info ip port m) s v = response-IsBounded r info ip port m s v
    step-IsBounded (commits_bye b ip port m) s v = bye-IsBounded b ip port m s v
    step-IsBounded (ends_grant call info m result) s v = grant-IsBounded call info m result s v
    step-IsBounded (ends_revoke call m result) s v = revoke-IsBounded call m result s v
    step-IsBounded (ticks m) s v = cleanup-IsBounded m s v

    -- In every interleaving of the server's tasks, its tables keep distinct keys and stay within
    -- their caps, where these are positive.
    pub run-IsBounded : (es : List Event) (s : Server) → IsBounded n s → IsBounded n (run p es s)
    unfolding run
    run-IsBounded [] s v = v
    run-IsBounded (e ∷ es) s v = run-IsBounded es (after p e s) (step-IsBounded e s v)

assembled-IsBounded :
    (p : Primitives) (c : ServerConfig) (has_revoke : Bool) (now : Instant) (clients : Clients)
    (secret : Option Bytes)
    → 0 < c.server.max_tracked_ips
    → IsBounded c.server.max_tracked_ips (assembled p c has_revoke now clients secret)
unfolding Blacklist.new
assembled-IsBounded p c has_revoke now clients secret capped = record {
  nonces = tt;
  hellos = tt;
  cooldowns = tt;
  limiter = record { cap = refl; distinct = tt; small = omega arith };
  blocked = record { cap = refl; distinct = tt; small = omega arith };
  active = record { cap = omega (arith, capped); distinct = tt; small = omega arith };
  leased = record { cap = omega (arith, capped); distinct = tt; small = omega arith };
}

-- A server that starts, with `max_tracked_ips` positive, keeps every table within that number of
-- entries and with distinct keys, through any events of its tasks in any order: the rate limiter,
-- the blacklist, the active addresses and the leases; the nonce store, the replay cache and the
-- cooldowns have distinct keys.
pub tables_stay_bounded :
    (p : Primitives) (c : ServerConfig) (has_revoke : Bool) (now : Instant) (s : Server)
    (es : List Event)
    → 0 < c.server.max_tracked_ips
    → from_config p c has_revoke now ≡ ok s
    → IsBounded c.server.max_tracked_ips (run p es s)
tables_stay_bounded p c has_revoke now s es capped starts =
    let (clients, secret, _, _, same) = started_lem p c has_revoke now s starts in
    run-IsBounded p capped es s (
      subst (IsBounded c.server.max_tracked_ips) same
        (assembled-IsBounded p c has_revoke now clients secret capped))

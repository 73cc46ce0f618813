-- ===== src/Server/Bye/Releases.antt =====
-- What a BYE releases.
use signedpulse.Base.{
  ℕ, ◌≡◌, refl, sym, ap, ◌∙◌, ◌≢◌, inl, inr, true, Option, none, some, [], arith, Option-cases,
  Bytes, nat_key, bytes_key, ip_key, get, IpAddr, Instant,
}
use signedpulse.Crypto.{Primitives}
use signedpulse.Protocol.Packet.{Bye}
use signedpulse.Protocol.Payload.{bye_signing_payload}
use signedpulse.Protocol.Hex.{to_hex}
use signedpulse.RateLimit.LeaseTracker.{LeaseTracker, release_at}
use signedpulse.RateLimit.LeaseTracker.Renewal.{release_at_lem}
use signedpulse.Server.State.{Server, Moment, ClientInfo, HookCall, note_rejected}
use signedpulse.Server.Session.{check_session, consume_session}
use signedpulse.Server.Session.Proof.{
  IsProven, check-IsProven, check-leases, check-unchanged, consume-has_revoke, consume-leases,
}
use signedpulse.Server.Param.{decrypt_param}
use signedpulse.Server.Bye.{session_of, start_bye, commit_bye, release_lease, revoke_call}

-- The leases that are left, whichever way the release goes.
release_leases :
    (cid other : Bytes) (now : Instant) (s : LeaseTracker)
    → other ≢ cid
    → get other (release_at cid now s).0.leases ≡ get other s.leases
unfolding release_at
release_leases cid other now s ne = elim (Option-cases (get cid s.leases)) [
  | inl missing ↦ rw (missing, release_at) refl
  | inr (l, found) ↦ ground (arith, (release_at_lem cid other now s l found).1)
]

release_lease-leases :
    (b : Bye) (m : Moment) (q : Server × Option (Option Bytes)) (other : Bytes)
    → other ≢ to_hex b.client_id
    → get other (release_lease b m q).0.leases.leases ≡ get other q.0.leases.leases
unfolding release_lease
release_lease-leases b m (s, none) other ne = refl
release_lease-leases b m (s, some param) other ne =
    release_leases (to_hex b.client_id) other m.mono s.leases ne

release_call :
    (b : Bye) (m : Moment) (q : Server × Option (Option Bytes)) (call : HookCall)
    → (release_lease b m q).1 ≡ some call
    → (call.client_id ≡ to_hex b.client_id) × (q.0.has_revoke ≡ true)
unfolding release_lease revoke_call release_at
release_call b m (s, none) call h = absurd (ground arith)
release_call b m (s, some param) call h =
    elim (Option-cases (get (to_hex b.client_id) s.leases.leases)) [
      | inl missing ↦ absurd (ground (arith, missing, h))
      | inr (l, found) ↦
          let (released, _) = release_at_lem (to_hex b.client_id) [] m.mono s.leases l found in
          (ground (arith, released, h), ground (arith, released, h))
    ]

module _ (p : Primitives) where
  decrypt-leases :
      (blob : Option Bytes) (m : Moment) (s : Server)
      → (decrypt_param p blob m s).0.leases ≡ s.leases
  unfolding decrypt_param note_rejected
  decrypt-leases blob m s = ground arith

  commit-leases :
      (b : Bye) (ip : IpAddr) (port : ℕ) (m : Moment) (s : Server) (other : Bytes)
      → other ≢ to_hex b.client_id
      → get other (commit_bye p b ip port m s).0.leases.leases ≡ get other s.leases.leases
  unfolding commit_bye
  commit-leases b ip port m s other ne =
      let t = (consume_session (session_of b) ip port m s).0 in
      ground (
        arith,
        consume-leases (session_of b) ip port m s,
        decrypt-leases b.param m t,
        release_lease-leases b m (decrypt_param p b.param m t) other ne,
      )

  decrypt-has_revoke :
      (blob : Option Bytes) (m : Moment) (s : Server)
      → (decrypt_param p blob m s).0.has_revoke ≡ s.has_revoke
  unfolding decrypt_param note_rejected
  decrypt-has_revoke blob m s = ground arith

  commit_call :
      (b : Bye) (ip : IpAddr) (port : ℕ) (m : Moment) (s : Server) (call : HookCall)
      → (commit_bye p b ip port m s).1 ≡ some call
      → (call.client_id ≡ to_hex b.client_id) × (s.has_revoke ≡ true)
  unfolding commit_bye
  commit_call b ip port m s call h =
      let t = (consume_session (session_of b) ip port m s).0 in
      let done = decrypt_param p b.param m t in
      let (named, revokes) = release_call b m done call (ground (arith, h)) in
      (
        named,
        sym (decrypt-has_revoke b.param m t ∙ consume-has_revoke (session_of b) ip port m s)
            ∙ revokes,
      )

  -- Whatever a BYE holds and wherever it comes from, it leaves the leases of every client but the
  -- one that it names as they were.
  pub bye_spares_others :
      (b : Bye) (ip : IpAddr) (port : ℕ) (m m' : Moment) (s : Server) (other : Bytes)
      → other ≢ to_hex b.client_id
      → get other (start_bye p b ip port m m' s).0.leases.leases ≡ get other s.leases.leases
  unfolding start_bye
  bye_spares_others b ip port m m' s other ne =
      let t = (check_session p bye_signing_payload (session_of b) ip port m s).0 in
      ground (
        arith,
        check-leases p bye_signing_payload (session_of b) ip port m s,
        commit-leases b ip port m' t other ne,
      )

  -- A BYE leads to the revoke hook only if it passes the same checks as a RESPONSE, under its own
  -- payload: see `IsProven`; and only if a revoke hook is configured. The call is then for the hex
  -- id of its client.
  pub revoke-IsProven :
      (b : Bye) (ip : IpAddr) (port : ℕ) (m m' : Moment) (s : Server) (call : HookCall)
      → (start_bye p b ip port m m' s).1 ≡ some call
      → ((info : ClientInfo) × IsProven p bye_signing_payload (session_of b) ip port m s info)
        × (call.client_id ≡ to_hex b.client_id)
        × (s.has_revoke ≡ true)
  unfolding start_bye
  revoke-IsProven b ip port m m' s call h =
      elim (Option-cases (check_session p bye_signing_payload (session_of b) ip port m s).1) [
        | inl refused ↦ absurd (ground (arith, refused, h))
        | inr (info, passed) ↦
            let t = (check_session p bye_signing_payload (session_of b) ip port m s).0 in
            let (named, revokes) = commit_call b ip port m' t call (ground (arith, passed, h)) in
            (
              (info, check-IsProven p bye_signing_payload (session_of b) ip port m s info passed),
              named,
              sym (
                    ap (λ q. q.has_revoke)
                      (check-unchanged p bye_signing_payload (session_of b) ip port m s info
                        passed))
                  ∙ revokes,
            )
      ]

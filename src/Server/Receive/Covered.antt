-- ===== src/Server/Receive/Covered.antt =====
-- The packet in a datagram, and what it is for a handler to be a schedule of events.
use signedpulse.Base.{
  ℕ, ◌≤◌, ◌≡◌, refl, sym, subst, inl, inr, Option, none, some, List, [], ◌∷◌, arith, if◌then◌else◌,
  Option-cases, Result, ok, err, Bytes, nat_key, bytes_key, ip_key, eq, IpAddr,
}
use signedpulse.Crypto.{Primitives, CryptoError, open_box, ctx_wire}
use signedpulse.Config.{WireEncryption, required, off}
use signedpulse.Protocol.Packet.{Packet, Response, Bye, hello, challenge, response, bye, decode}
use signedpulse.Protocol.Reader.{ProtocolError}
use signedpulse.Protocol.Payload.{response_signing_payload, bye_signing_payload}
use signedpulse.Server.State.{Server, Moment, HookCall}
use signedpulse.Server.Session.{check_session}
use signedpulse.Server.Response
use signedpulse.Server.Response.{start_response, commit_response}
use signedpulse.Server.Bye
use signedpulse.Server.Bye.{start_bye, commit_bye}
use signedpulse.Server.Receive.{Effect, granted, revoked}
use signedpulse.Server.Interleaving.{
  Event, checks_response, checks_bye, commits_response, commits_bye, called, drawn, after, hooks,
  run, hooked,
}

-- The nonce that a session packet carries.
abbrev pub nonce_of : Option Packet → Option Bytes
nonce_of none = none
nonce_of (some (hello h)) = none
nonce_of (some (challenge c)) = none
nonce_of (some (response r)) = some r.nonce
nonce_of (some (bye b)) = some b.nonce

-- Whether the handling of a packet may draw `n`, where `nonce` is the next to be drawn.
abbrev pub drawn_by : Option Packet → Bytes → Bytes → ℕ
drawn_by none nonce n = 0
drawn_by (some (hello h)) nonce n = if eq nonce n then 1 else 0
drawn_by (some (challenge c)) nonce n = 0
drawn_by (some (response r)) nonce n = 0
drawn_by (some (bye b)) nonce n = 0

abbrev pub packet_of : Result ProtocolError Packet → Option Packet
packet_of (ok packet) = some packet
packet_of (err e) = none

abbrev pub boxed_packet : Result CryptoError (Bytes × Bytes) → Option Packet
boxed_packet (ok (inner, eph)) = packet_of (decode inner)
boxed_packet (err e) = none

module _ (p : Primitives) where
  abbrev pub sealed_packet : Option Bytes → Bytes → Option Packet
  sealed_packet none bytes = none
  sealed_packet (some secret) bytes = boxed_packet (open_box p secret bytes ctx_wire)

  -- The packet of a datagram, by the mode and the key.
  abbrev pub packet_in : WireEncryption → Option Bytes → Bytes → Option Packet
  packet_in required secret bytes = sealed_packet secret bytes
  packet_in off secret bytes = packet_of (decode bytes)

  -- The state and the hook of `q` are those of a schedule from `s` that calls the hook for the
  -- nonce of the packet, and draws at most `nonce`, for a HELLO, and that once.
  pub record Covered (nonce : Bytes) (packet : Option Packet) (s : Server) (q : Server × Effect)
      : Type 0 where
    pub events : List Event
    pub state : q.0 ≡ run p events s
    pub hook :
        (call : HookCall)
        → q.1.hook ≡ some call
        → (n : Bytes) × (nonce_of packet ≡ some n) × (hooked p n events s ≡ 1)
    pub drawing : (n : Bytes) → drawn n events ≤ drawn_by packet nonce n

  called_self :
      (nonce : Bytes) (o : Option HookCall) (call : HookCall)
      → o ≡ some call
      → called nonce nonce o ≡ 1
  called_self nonce none call h = absurd (ground (arith, h))
  called_self nonce (some c) call h = ground arith

  pub recast :
      {nonce : Bytes} {s : Server} {o o' : Option Packet} {q q' : Server × Effect}
      → o ≡ o'
      → q ≡ q'
      → Covered nonce o' s q'
      → Covered nonce o s q
  recast {nonce} {s} {o} {o'} {q} {q'} same same' c =
      subst (λ x. Covered nonce x s q) (sym same) (subst (λ r. Covered nonce o' s r) (sym same') c)

  pub response_lem :
      (nonce : Bytes) (r : Response) (ip : IpAddr) (port : ℕ) (m m' : Moment) (s : Server)
      → Covered nonce (some (response r)) s (granted (start_response p r ip port m m' s))
  unfolding start_response run after hooked hooks drawn
  response_lem nonce r ip port m m' s =
      elim (Option-cases
        (check_session p response_signing_payload (Response.session_of r) ip port m s).1) [
          | inl refused ↦ record {
            events = checks_response r ip port m ∷ [];
            state = ground (arith, refused);
            hook = λ call h. absurd (ground (arith, refused, h));
            drawing = λ n. omega arith;
          }
          | inr (info, passed) ↦ record {
            events = checks_response r ip port m ∷ commits_response r info ip port m' ∷ [];
            state = ground (arith, passed);
            hook = λ call h. (
              r.nonce,
              refl,
              ground (
                arith,
                passed,
                h,
                called_self r.nonce
                    (commit_response p r info ip port m'
                      (check_session p response_signing_payload (Response.session_of r) ip port m
                        s).0).1
                    call,
              ),
            );
            drawing = λ n. omega arith;
          }
        ]

  pub bye_lem :
      (nonce : Bytes) (b : Bye) (ip : IpAddr) (port : ℕ) (m m' : Moment) (s : Server)
      → Covered nonce (some (bye b)) s (revoked (start_bye p b ip port m m' s))
  unfolding start_bye run after hooked hooks drawn
  bye_lem nonce b ip port m m' s =
      elim (Option-cases (check_session p bye_signing_payload (Bye.session_of b) ip port m s).1) [
        | inl refused ↦ record {
          events = checks_bye b ip port m ∷ [];
          state = ground (arith, refused);
          hook = λ call h. absurd (ground (arith, refused, h));
          drawing = λ n. omega arith;
        }
        | inr (info, passed) ↦ record {
          events = checks_bye b ip port m ∷ commits_bye b ip port m' ∷ [];
          state = ground (arith, passed);
          hook = λ call h. (
            b.nonce,
            refl,
            ground (
              arith,
              passed,
              h,
              called_self b.nonce
                  (commit_bye p b ip port m'
                    (check_session p bye_signing_payload (Bye.session_of b) ip port m s).0).1
                  call,
            ),
          );
          drawing = λ n. omega arith;
        }
      ]

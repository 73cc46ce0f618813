-- ===== src/Server/Interleaving.antt =====
-- The tasks of the server over its shared state, in any order. Each handler is cut where other
-- tasks can come between: a session packet is checked and committed in two events, and a hook's
-- end is one of its own. A commit is an event for any packet, checked before or not, so that every
-- schedule of the handlers is among these.
pub mod Stores
pub mod Once
pub mod Tables
pub mod Steps
pub mod Bounded
use signedpulse.Base.{
  ℕ, ◌+◌, false, Option, none, some, List, [], ◌∷◌, if◌then◌else◌, Bytes, nat_key, bytes_key,
  ip_key, eq, IpAddr,
}
use signedpulse.Crypto.{Primitives}
use signedpulse.Protocol.Packet.{Hello, Response, Bye}
use signedpulse.Protocol.Payload.{response_signing_payload, bye_signing_payload}
use signedpulse.Server.State.{
  Server, Moment, ClientInfo, HookCall, CommandResult, ReplyMode, note_rejected, note_faulty,
}
use signedpulse.Server.Hello.{Draw, handle_hello}
use signedpulse.Server.Session.{check_session}
use signedpulse.Server.Response
use signedpulse.Server.Response.{commit_response, record_grant}
use signedpulse.Server.Bye
use signedpulse.Server.Bye.{commit_bye, record_revoke}
use signedpulse.Server.Receive.{gate, cleanup}

pub data Event : Type 0 where
  gates : ℕ → IpAddr → Moment → Event
  rejects : Moment → Event
  faults : IpAddr → Moment → Event
  greets : Hello → IpAddr → ℕ → ReplyMode → Moment → Draw → Event
  checks_response : Response → IpAddr → ℕ → Moment → Event
  checks_bye : Bye → IpAddr → ℕ → Moment → Event
  commits_response : Response → ClientInfo → IpAddr → ℕ → Moment → Event
  commits_bye : Bye → IpAddr → ℕ → Moment → Event
  ends_grant : HookCall → ClientInfo → Moment → Option CommandResult → Event
  ends_revoke : HookCall → Moment → Option CommandResult → Event
  ticks : Moment → Event

-- Whether a hook is called, for the nonce `n`.
abbrev pub called : Bytes → Bytes → Option HookCall → ℕ
called n nonce none = 0
called n nonce (some call) = if eq nonce n then 1 else 0

-- Whether the handling of a HELLO drew the nonce `n`.
abbrev pub draws : Bytes → Event → ℕ
draws n (gates _ _ _) = 0
draws n (rejects _) = 0
draws n (faults _ _) = 0
draws n (greets _ _ _ _ _ d) = if eq d.nonce n then 1 else 0
draws n (checks_response _ _ _ _) = 0
draws n (checks_bye _ _ _ _) = 0
draws n (commits_response _ _ _ _ _) = 0
draws n (commits_bye _ _ _ _) = 0
draws n (ends_grant _ _ _ _) = 0
draws n (ends_revoke _ _ _) = 0
draws n (ticks _) = 0

unfoldable pub drawn : Bytes → List Event → ℕ
drawn n [] = 0
drawn n (e ∷ es) = draws n e + drawn n es

module _ (p : Primitives) where
  unfoldable pub after : Event → Server → Server
  after (gates len ip m) s = (gate len ip m s).0
  after (rejects m) s = note_rejected false m s
  after (faults ip m) s = note_faulty ip m s
  after (greets h ip port mode m d) s = (handle_hello p h ip port mode m d s).0
  after (checks_response r ip port m) s =
      (check_session p response_signing_payload (Response.session_of r) ip port m s).0
  after (checks_bye b ip port m) s =
      (check_session p bye_signing_payload (Bye.session_of b) ip port m s).0
  after (commits_response r info ip port m) s = (commit_response p r info ip port m s).0
  after (commits_bye b ip port m) s = (commit_bye p b ip port m s).0
  after (ends_grant call info m result) s = record_grant call info m result s
  after (ends_revoke call m result) s = record_revoke call m result s
  after (ticks m) s = (cleanup m s).0

  -- The hooks that the event calls for the nonce `n`, other than those of leases that have run out.
  unfoldable pub hooks : Bytes → Event → Server → ℕ
  hooks n (commits_response r info ip port m) s =
      called n r.nonce (commit_response p r info ip port m s).1
  hooks n (commits_bye b ip port m) s = called n b.nonce (commit_bye p b ip port m s).1
  hooks n e s = 0

  unfoldable pub run : List Event → Server → Server
  run [] s = s
  run (e ∷ es) s = run es (after e s)

  unfoldable pub hooked : Bytes → List Event → Server → ℕ
  hooked n [] s = 0
  hooked n (e ∷ es) s = hooks n e s + hooked n es (after e s)

-- ===== src/Server/Receive/Serving.antt =====
-- A server that takes datagrams in, one after the other, with the ticks of its cleanup between.
use signedpulse.Base.{
  ℕ, ◌+◌, ◌≤◌, ◌≡◌, refl, ap, ◌∙◌, Option, none, some, List, [], ◌∷◌, ◌++◌, arith, if◌then◌else◌,
  unwrap_or, Bytes, nat_key, bytes_key, ip_key, eq, IpAddr,
}
use signedpulse.Crypto.{Primitives}
use signedpulse.NonceStore
use signedpulse.Server.State.{Server, Moment, HookCall}
use signedpulse.Server.Hello.{Draw}
use signedpulse.Server.Receive.{Packet, receive, cleanup}
use signedpulse.Server.Receive.Covered.{packet_in, nonce_of, drawn_by}
use signedpulse.Server.Receive.Schedule.{receive-Covered}
use signedpulse.Server.Interleaving.{Event, ticks, drawn, after, hooks, run, hooked}
use signedpulse.Server.Interleaving.Once.{hooks_at_most_once}

-- A datagram, its endpoint, the moments of its checks and its commit, and what is drawn for it.
pub record Turn : Type 0 where
  pub bytes : Bytes
  pub ip : IpAddr
  pub port : ℕ
  pub checked : Moment
  pub committed : Moment
  pub draw : Draw

pub data Step : Type 0 where
  receives : Turn → Step
  cleans : Moment → Step

-- Whether a hook is called for a packet with the nonce `n`.
abbrev pub counts : Bytes → Option HookCall → Option Bytes → ℕ
counts n none carried = 0
counts n (some call) none = 0
counts n (some call) (some k) = if eq k n then 1 else 0

module _ (p : Primitives) where
  abbrev pub step : Step → Server → Server
  step (receives t) s = (receive p t.bytes t.ip t.port t.checked t.committed t.draw s).0
  step (cleans m) s = (cleanup m s).0

  abbrev pub packet_at : Turn → Server → Option Packet
  packet_at t s = packet_in p s.config.wire_encryption s.server_secret t.bytes

  -- The hooks that the datagrams with the nonce `n` lead to.
  pub hooks_for : Bytes → List Step → Server → ℕ
  hooks_for n [] s = 0
  hooks_for n (receives t ∷ steps) s =
      counts n (receive p t.bytes t.ip t.port t.checked t.committed t.draw s).1.hook
        (nonce_of (packet_at t s))
      + hooks_for n steps (step (receives t) s)
  hooks_for n (cleans m ∷ steps) s = hooks_for n steps (step (cleans m) s)

  -- The HELLOs for which `n` was drawn.
  pub draws_of : Bytes → List Step → Server → ℕ
  draws_of n [] s = 0
  draws_of n (receives t ∷ steps) s =
      drawn_by (packet_at t s) t.draw.nonce n + draws_of n steps (step (receives t) s)
  draws_of n (cleans m ∷ steps) s = draws_of n steps (step (cleans m) s)

  run-append : (es fs : List Event) (s : Server) → run p (es ++ fs) s ≡ run p fs (run p es s)
  unfolding run
  run-append [] fs s = refl
  run-append (e ∷ es) fs s = run-append es fs (after p e s)

  hooked-append :
      (n : Bytes) (es fs : List Event) (s : Server)
      → hooked p n (es ++ fs) s ≡ hooked p n es s + hooked p n fs (run p es s)
  unfolding run hooked
  hooked-append n [] fs s = omega arith
  hooked-append n (e ∷ es) fs s = omega (arith, hooked-append n es fs (after p e s))

  drawn-append : (n : Bytes) (es fs : List Event) → drawn n (es ++ fs) ≡ drawn n es + drawn n fs
  unfolding drawn
  drawn-append n [] fs = omega arith
  drawn-append n (e ∷ es) fs = omega (arith, drawn-append n es fs)

  at_nonce : (h : Bytes → ℕ) (k n : Bytes) → h k ≡ 1 → (if eq k n then 1 else 0) ≤ h n
  at_nonce h k n one = ground (arith, one)

  counted :
      (n : Bytes) (hook : Option HookCall) (nonce : Option Bytes) (h : Bytes → ℕ)
      → ((call : HookCall) → hook ≡ some call → (k : Bytes) × (nonce ≡ some k) × (h k ≡ 1))
      → counts n hook nonce ≤ h n
  counted n none carried h f = omega arith
  counted n (some call) none h f = omega arith
  counted n (some call) (some k) h f =
      let (k', same, one) = f call refl in at_nonce h k n (ap (λ o. h (unwrap_or o k)) same ∙ one)

  -- The steps as one schedule of events.
  record IsScheduled (n : Bytes) (steps : List Step) (s : Server) : Type 0 where
    pub events : List Event
    pub hooked_all : hooks_for n steps s ≤ hooked p n events s
    pub drawn_only : drawn n events ≤ draws_of n steps s

  prepend :
      (n : Bytes) (es : List Event) (s s' : Server) (steps : List Step)
      → s' ≡ run p es s
      → (v : IsScheduled n steps s')
      → (hooks_for n steps s' + hooked p n es s ≤ hooked p n (es ++ v.events) s)
        × (drawn n (es ++ v.events) ≤ drawn n es + draws_of n steps s')
  prepend n es s s' steps same v = (
    omega
        (arith, hooked-append n es v.events s, v.hooked_all, ap (λ x. hooked p n v.events x) same),
    omega (arith, drawn-append n es v.events, v.drawn_only),
  )

  scheduled : (n : Bytes) (steps : List Step) (s : Server) → IsScheduled n steps s
  unfolding hooks_for draws_of hooked drawn hooks run after
  scheduled n [] s = record { events = []; hooked_all = omega arith; drawn_only = omega arith }
  scheduled n (receives t ∷ steps) s =
      let q = receive p t.bytes t.ip t.port t.checked t.committed t.draw s in
      let c = receive-Covered p t.bytes t.ip t.port t.checked t.committed t.draw s in
      let v = scheduled n steps q.0 in
      let (called, drew) = prepend n c.events s q.0 steps c.state v in
      let count =
        counted n q.1.hook (nonce_of (packet_at t s)) (λ k. hooked p k c.events s) c.hook in
      record {
        events = c.events ++ v.events;
        hooked_all = omega (arith, called, count);
        drawn_only = omega (arith, drew, c.drawing n);
      }
  scheduled n (cleans m ∷ steps) s =
      let v = scheduled n steps (step (cleans m) s) in
      record {
        events = ticks m ∷ v.events;
        hooked_all = omega (arith, v.hooked_all);
        drawn_only = omega (arith, v.drawn_only);
      }

  -- A server that starts without nonces and takes in any datagrams, from any endpoints and at any
  -- times, with cleanups between: the RESPONSEs and BYEs that carry a nonce call at most as many
  -- hooks as there were HELLOs for which the server drew it.
  pub datagrams_call_once :
      (n : Bytes) (steps : List Step) (s : Server)
      → s.nonce_store ≡ NonceStore.new
      → hooks_for n steps s ≤ draws_of n steps s
  datagrams_call_once n steps s fresh =
      let v = scheduled n steps s in
      omega (arith, v.hooked_all, v.drawn_only, hooks_at_most_once p n v.events s fresh)

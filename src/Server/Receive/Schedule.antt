-- ===== src/Server/Receive/Schedule.antt =====
-- What `receive` does is a schedule of events.
use signedpulse.Base.{
  ℕ, ◌≡◌, refl, sym, ap, ap₂, inl, inr, true, Option, none, some, [], ◌∷◌, arith, Bool-cases,
  Result, ok, err, length, Bytes, nat_key, bytes_key, ip_key, IpAddr,
}
use signedpulse.Crypto.{Primitives, CryptoError, open_box, ctx_wire}
use signedpulse.Config.{WireEncryption, required, off}
use signedpulse.Protocol.Packet.{Packet, hello, challenge, response, bye, decode}
use signedpulse.Protocol.Reader.{ProtocolError}
use signedpulse.Server.State.{Server, Moment, ReplyMode, cleartext, sealed}
use signedpulse.Server.Hello.{Draw}
use signedpulse.Server.Receive.{
  Effect, gate, handle_packet, decoded, opened, unseal, handle_datagram, receive,
}
use signedpulse.Server.Interleaving.{
  gates, rejects, faults, greets, drawn, after, hooks, run, hooked,
}
use signedpulse.Server.Receive.Covered.{
  Covered, packet_of, boxed_packet, sealed_packet, packet_in, recast, response_lem, bye_lem,
}

module _ (p : Primitives) where
  packet-Covered :
      (packet : Packet) (ip : IpAddr) (port : ℕ) (mode : ReplyMode) (m m' : Moment) (d : Draw)
      (s : Server)
      → Covered p d.nonce (some packet) s (handle_packet p packet ip port mode m m' d s)
  unfolding handle_packet run after hooked hooks drawn
  packet-Covered (hello h) ip port mode m m' d s = record {
    events = greets h ip port mode m d ∷ [];
    state = refl;
    hook = λ call h. absurd (ground arith);
    drawing = λ n. omega arith;
  }
  packet-Covered (response r) ip port mode m m' d s = response_lem p d.nonce r ip port m m' s
  packet-Covered (bye b) ip port mode m m' d s = bye_lem p d.nonce b ip port m m' s
  packet-Covered (challenge c) ip port mode m m' d s = record {
    events = rejects m ∷ [];
    state = refl;
    hook = λ call h. absurd (ground arith);
    drawing = λ n. omega arith;
  }

  decoded-Covered :
      (r : Result ProtocolError Packet) (ip : IpAddr) (port : ℕ) (mode : ReplyMode) (m m' : Moment)
      (d : Draw) (s : Server)
      → Covered p d.nonce (packet_of r) s (decoded p r ip port mode m m' d s)
  unfolding decoded run after hooked hooks drawn
  decoded-Covered (ok packet) ip port mode m m' d s = packet-Covered packet ip port mode m m' d s
  decoded-Covered (err e) ip port mode m m' d s = record {
    events = faults ip m ∷ [];
    state = refl;
    hook = λ call h. absurd (ground arith);
    drawing = λ n. omega arith;
  }

  opened-Covered :
      (r : Result CryptoError (Bytes × Bytes)) (ip : IpAddr) (port : ℕ) (m m' : Moment) (d : Draw)
      (s : Server)
      → Covered p d.nonce (boxed_packet r) s (opened p r ip port m m' d s)
  unfolding opened run after hooked hooks drawn
  opened-Covered (ok (inner, eph)) ip port m m' d s =
      decoded-Covered (decode inner) ip port (sealed eph) m m' d s
  opened-Covered (err e) ip port m m' d s = record {
    events = faults ip m ∷ [];
    state = refl;
    hook = λ call h. absurd (ground arith);
    drawing = λ n. omega arith;
  }

  unseal-Covered :
      (o : Option Bytes) (bytes : Bytes) (ip : IpAddr) (port : ℕ) (m m' : Moment) (d : Draw)
      (s : Server)
      → Covered p d.nonce (sealed_packet p o bytes) s (unseal p o bytes ip port m m' d s)
  unfolding unseal run after hooked hooks drawn
  unseal-Covered (some secret) bytes ip port m m' d s =
      opened-Covered (open_box p secret bytes ctx_wire) ip port m m' d s
  unseal-Covered none bytes ip port m m' d s = record {
    events = [];
    state = refl;
    hook = λ call h. absurd (ground arith);
    drawing = λ n. omega arith;
  }

  datagram-Covered :
      (bytes : Bytes) (ip : IpAddr) (port : ℕ) (m m' : Moment) (d : Draw) (s : Server)
      → Covered p d.nonce
          (packet_in p s.config.wire_encryption s.server_secret bytes)
          s
          (handle_datagram p bytes ip port m m' d s)
  unfolding handle_datagram
  datagram-Covered bytes ip port m m' d s = go s.config.wire_encryption refl
    where
      go :
          (w : WireEncryption)
          → s.config.wire_encryption ≡ w
          → Covered p d.nonce
              (packet_in p s.config.wire_encryption s.server_secret bytes)
              s
              (handle_datagram p bytes ip port m m' d s)
      go off e =
          recast p (ap (λ w. packet_in p w s.server_secret bytes) e) (ground (arith, e))
            (decoded-Covered (decode bytes) ip port cleartext m m' d s)
      go required e =
          recast p (ap (λ w. packet_in p w s.server_secret bytes) e) (ground (arith, e))
            (unseal-Covered s.server_secret bytes ip port m m' d s)

  gate_mode :
      (len : ℕ) (ip : IpAddr) (m : Moment) (s : Server)
      → (gate len ip m s).0.config.wire_encryption ≡ s.config.wire_encryption
  unfolding gate
  gate_mode len ip m s = ground arith

  gate_secret :
      (len : ℕ) (ip : IpAddr) (m : Moment) (s : Server)
      → (gate len ip m s).0.server_secret ≡ s.server_secret
  unfolding gate
  gate_secret len ip m s = ground arith

  passing :
      (bytes : Bytes) (ip : IpAddr) (port : ℕ) (m m' : Moment) (d : Draw) (s : Server)
      → (gate (length bytes) ip m s).1 ≡ true
      → receive p bytes ip port m m' d s
        ≡ handle_datagram p bytes ip port m m' d (gate (length bytes) ip m s).0
  unfolding receive
  passing bytes ip port m m' d s passes = ground (arith, passes)

  gated :
      (nonce : Bytes) (o : Option Packet) (len : ℕ) (ip : IpAddr) (m : Moment) (s : Server)
      (q : Server × Effect)
      → Covered p nonce o (gate len ip m s).0 q
      → Covered p nonce o s q
  unfolding run after hooked hooks drawn
  gated nonce o len ip m s q c = record {
    events = gates len ip m ∷ c.events;
    state = c.state;
    hook = λ call h. let (n, carried, one) = c.hook call h in (n, carried, omega (arith, one));
    drawing = λ n. omega (arith, c.drawing n);
  }

  -- One turn of the receive loop with its handler is a schedule of events.
  pub receive-Covered :
      (bytes : Bytes) (ip : IpAddr) (port : ℕ) (m m' : Moment) (d : Draw) (s : Server)
      → Covered p d.nonce
          (packet_in p s.config.wire_encryption s.server_secret bytes)
          s
          (receive p bytes ip port m m' d s)
  unfolding receive run after hooked hooks drawn
  receive-Covered bytes ip port m m' d s =
      let t = (gate (length bytes) ip m s).0 in
      elim (Bool-cases (gate (length bytes) ip m s).1) [
        | inr shut ↦ record {
          events = gates (length bytes) ip m ∷ [];
          state = ground (arith, shut);
          hook = λ call h. absurd (ground (arith, shut, h));
          drawing = λ n. omega arith;
        }
        | inl passes ↦
            recast p
              (ap₂ (λ w k. packet_in p w k bytes) (sym (gate_mode (length bytes) ip m s))
                (sym (gate_secret (length bytes) ip m s)))
              (passing bytes ip port m m' d s passes)
              (gated d.nonce (packet_in p t.config.wire_encryption t.server_secret bytes)
                (length bytes) ip m s (handle_datagram p bytes ip port m m' d t)
                (datagram-Covered bytes ip port m m' d t))
      ]

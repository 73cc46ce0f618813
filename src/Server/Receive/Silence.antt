-- ===== src/Server/Receive/Silence.antt =====
-- Which datagrams are answered.
use signedpulse.Base.{
  ℕ, ◌≤◌, ◌≡◌, refl, ap, subst, ◌⊎◌, inl, inr, Bool, true, false, Option, none, some, arith,
  Bool-cases, Result, ok, err, length, Bytes, nat_key, bytes_key, ip_key, IpAddr,
}
use signedpulse.Crypto.{Primitives, CryptoError, open_box, ctx_wire}
use signedpulse.Config.{WireEncryption, required, off}
use signedpulse.Protocol.Packet.{Packet, Hello, hello, challenge, response, bye, decode}
use signedpulse.Protocol.Reader.{ProtocolError}
use signedpulse.RateLimit.ActiveIps
use signedpulse.RateLimit.Blacklist
use signedpulse.Server.State.{Server, Moment, ClientInfo, HookCall, ReplyMode, cleartext, sealed}
use signedpulse.Server.Hello.{Draw}
use signedpulse.Server.Hello.Answers.{IsWelcome, answered-IsWelcome}
use signedpulse.Server.Response.{start_response}
use signedpulse.Server.Receive.{
  ClientInfo, granted, gate, handle_packet, decoded, opened, unseal, handle_datagram, receive,
}

-- A datagram that is let in: not too long, from a source that is not blacklisted and, during a
-- lockdown, recently active.
pub record IsLetIn (len : ℕ) (ip : IpAddr) (m : Moment) (s : Server) : Type 0 where
  pub short : len ≤ s.config.max_packet_size
  pub unblocked : Blacklist.is_blocked ip m.mono s.blacklist ≡ false
  pub active :
      (Blacklist.under_attack m.mono s.blacklist ≡ false)
      ⊎ (ActiveIps.is_active_at ip m.mono s.active_ips ≡ true)

pub gate-IsLetIn :
    (len : ℕ) (ip : IpAddr) (m : Moment) (s : Server)
    → (gate len ip m s).1 ≡ true
    → IsLetIn len ip m s × ((b : Bool) × ((gate len ip m s).0 ≡ record s { lockdown_logged = b }))
unfolding gate
gate-IsLetIn len ip m s h = (
  record { short = ground arith; unblocked = ground arith; active = lockdown },
  (Blacklist.under_attack m.mono s.blacklist, ground arith),
)
  where
    lockdown :
        (Blacklist.under_attack m.mono s.blacklist ≡ false)
        ⊎ (ActiveIps.is_active_at ip m.mono s.active_ips ≡ true)
    lockdown = ground arith

granted_silent : (q : Server × Option (ClientInfo × HookCall)) → (granted q).1.reply ≡ none
granted_silent (s, none) = refl
granted_silent (s, some (info, call)) = refl

silent :
    {datagram : Bytes} (q : Server × Option (ClientInfo × HookCall))
    → (granted q).1.reply ≡ some datagram
    → ⊥
silent q e = ground (arith, granted_silent q)

module _ (p : Primitives) where
  -- The bytes that a datagram carries for the server: the whole, or what its seal holds.
  unfoldable pub Carries : Bytes → Server → Packet → Type 0
  Carries bytes s packet =
      ((s.config.wire_encryption ≡ off) × (decode bytes ≡ ok packet))
      ⊎ ((s.config.wire_encryption ≡ required)
          × ((secret inner eph : Bytes) × (s.server_secret ≡ some secret)
              × (open_box p secret bytes ctx_wire ≡ ok (inner, eph))
              × (decode inner ≡ ok packet)))

  -- The two ways in which a packet is answered, by its source.
  packet_lem :
      (packet : Packet) (ip : IpAddr) (port : ℕ) (mode : ReplyMode) (m m' : Moment) (d : Draw)
      (s : Server) (datagram : Bytes)
      → (handle_packet p packet ip port mode m m' d s).1.reply ≡ some datagram
      → (h : Hello) × (packet ≡ hello h) × IsWelcome p h ip m s
  unfolding handle_packet
  packet_lem (hello h) ip port mode m m' d s datagram e =
      (h, refl, answered-IsWelcome p h ip port mode m d s datagram e)
  packet_lem (challenge c) ip port mode m m' d s datagram e = absurd (ground arith)
  packet_lem (bye b) ip port mode m m' d s datagram e = absurd (ground arith)
  packet_lem (response r) ip port mode m m' d s datagram e =
      absurd (silent (start_response p r ip port m m' s) e)

  decoded_lem :
      (r : Result ProtocolError Packet) (ip : IpAddr) (port : ℕ) (mode : ReplyMode) (m m' : Moment)
      (d : Draw) (s : Server) (datagram : Bytes)
      → (decoded p r ip port mode m m' d s).1.reply ≡ some datagram
      → (h : Hello) × (r ≡ ok (hello h)) × IsWelcome p h ip m s
  unfolding decoded
  decoded_lem (err x) ip port mode m m' d s datagram e = absurd (ground arith)
  decoded_lem (ok packet) ip port mode m m' d s datagram e =
      let (h, same, welcome) = packet_lem packet ip port mode m m' d s datagram e in
      (h, ap ok same, welcome)

  opened_lem :
      (r : Result CryptoError (Bytes × Bytes)) (ip : IpAddr) (port : ℕ) (m m' : Moment) (d : Draw)
      (s : Server) (datagram : Bytes)
      → (opened p r ip port m m' d s).1.reply ≡ some datagram
      → (inner eph : Bytes) × (r ≡ ok (inner, eph))
        × ((h : Hello) × (decode inner ≡ ok (hello h)) × IsWelcome p h ip m s)
  unfolding opened
  opened_lem (err x) ip port m m' d s datagram e = absurd (ground arith)
  opened_lem (ok (inner, eph)) ip port m m' d s datagram e =
      (inner, eph, refl, decoded_lem (decode inner) ip port (sealed eph) m m' d s datagram e)

  datagram_lem :
      (bytes : Bytes) (ip : IpAddr) (port : ℕ) (m m' : Moment) (d : Draw) (s : Server)
      (datagram : Bytes)
      → (handle_datagram p bytes ip port m m' d s).1.reply ≡ some datagram
      → (h : Hello) × Carries bytes s (hello h) × IsWelcome p h ip m s
  unfolding handle_datagram unseal Carries
  datagram_lem bytes ip port m m' d s datagram e = go s.config.wire_encryption refl
    where
      sealed_case :
          (o : Option Bytes)
          → s.server_secret ≡ o
          → (unseal p o bytes ip port m m' d s).1.reply ≡ some datagram
          → s.config.wire_encryption ≡ required
          → (h : Hello) × Carries bytes s (hello h) × IsWelcome p h ip m s
      sealed_case none same e r = absurd (ground arith)
      sealed_case (some secret) same e r =
          let (inner, eph, unsealed, (h, found, welcome)) =
            opened_lem (open_box p secret bytes ctx_wire) ip port m m' d s datagram e in
          (h, inr (r, (secret, inner, eph, same, unsealed, found)), welcome)

      go :
          (w : WireEncryption)
          → s.config.wire_encryption ≡ w
          → (h : Hello) × Carries bytes s (hello h) × IsWelcome p h ip m s
      go off same =
          let (h, found, welcome) =
            decoded_lem (decode bytes) ip port cleartext m m' d s datagram
              (ground (arith, same, e)) in
          (h, inl (same, found), welcome)
      go required same = sealed_case s.server_secret refl (ground (arith, same, e)) same

  -- The server answers a datagram only if it is not longer than the configured size, its source is
  -- not blacklisted and, during a lockdown, recently active, and it carries a HELLO that the
  -- checks of `handle_hello` pass; where datagrams must be sealed, it carries it inside a box for
  -- the server's key.
  pub only_hellos_are_answered :
      (bytes : Bytes) (ip : IpAddr) (port : ℕ) (m m' : Moment) (d : Draw) (s : Server)
      (datagram : Bytes)
      → (receive p bytes ip port m m' d s).1.reply ≡ some datagram
      → IsLetIn (length bytes) ip m s
        × ((h : Hello) × Carries bytes s (hello h) × IsWelcome p h ip m s)
  unfolding receive Carries
  only_hellos_are_answered bytes ip port m m' d s datagram e =
      elim (Bool-cases (gate (length bytes) ip m s).1) [
        | inr shut ↦ absurd (ground (arith, shut, e))
        | inl passes ↦
            let (let_in, (b, same)) = gate-IsLetIn (length bytes) ip m s passes in
            let t = (gate (length bytes) ip m s).0 in
            let answer = datagram_lem bytes ip port m m' d t datagram (ground (arith, passes, e)) in
            (
              let_in,
              unlogged b (
                  subst (λ q. (h : Hello) × Carries bytes q (hello h) × IsWelcome p h ip m q) same
                    answer),
            )
      ]
    where
      unlogged :
          (b : Bool)
          → ((h : Hello) × Carries bytes (record s { lockdown_logged = b }) (hello h)
              × IsWelcome p h ip m (record s { lockdown_logged = b }))
          → (h : Hello) × Carries bytes s (hello h) × IsWelcome p h ip m s
      unlogged b (h, carried, w) = (
        h,
        carried,
        record {
          info = w.info;
          allowed = w.allowed;
          known = w.known;
          signed = w.signed;
          timely = w.timely;
          fresh = w.fresh;
        },
      )

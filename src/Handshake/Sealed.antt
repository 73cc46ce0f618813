-- ===== src/Handshake/Sealed.antt =====
-- A whole attempt of an honest client whose datagrams are sealed.
use signedpulse.Base.{
  ℕ, ◌≤◌, ◌≡◌, refl, ap, ◌∙◌, true, Option, none, some, arith, ok, length, take, Bytes, nat_key,
  bytes_key, ip_key, IpAddr,
}
use signedpulse.Crypto.{Primitives, IsLawful, seal, seal_reply, open_reply, ctx_wire, xnonce_len}
use signedpulse.Crypto.Boxes.{open_box-seal, open_reply-seal_reply}
use signedpulse.Config.{required}
use signedpulse.Protocol.Packet.{Challenge, hello, challenge, response, encode, decode}
use signedpulse.Protocol.Packet.RoundTrip.{decode-encode}
use signedpulse.Protocol.Packet.Size.{length-encode_challenge}
use signedpulse.Client.Target.{ServerTarget}
use signedpulse.Client.Cycle.{
  renew, Draws, hello_nonce_of, frame_outbound, unframe_inbound, send_hello, read_challenge, answer,
  answer_challenge, seal_param,
}
use signedpulse.Server.State.{Server, Moment, ClientInfo, sealed}
use signedpulse.Server.Hello.{Draw, frame_reply}
use signedpulse.Server.Receive.Delivery.{in_box}
use signedpulse.Handshake.Welcome.{challenge_of}
use signedpulse.Handshake.Attempt.{
  take_all, greeting, reply_to, IsExpected, IsSized, IsTimely, IsComplete, linked-IsComplete,
}

module _ (p : Primitives) (ed25519_public : Bytes → Bytes) (lawful : IsLawful p ed25519_public)
    (signing_key client_id : Bytes) (t : ServerTarget) (d : Draws) where
  -- The target holds the public key of the server's secret, both sides seal, and each of the three
  -- boxes can be sealed, the reply within the client's buffer.
  pub record IsSealing (m : Moment) (dr : Draw) (s : Server) : Type 0 where
    pub secret : Bytes
    pub first : Bytes
    pub datagram : Bytes
    pub last : Bytes
    pub client_seals : t.wire_encryption ≡ true
    pub server_seals : s.config.wire_encryption ≡ required
    pub client_key : t.server_pub ≡ some (p.x25519_public secret)
    pub server_key : s.server_secret ≡ some secret
    pub hello_box :
        seal p d.hello_eph d.hello_seal
          (p.x25519_public secret)
          (encode (hello (greeting p ed25519_public lawful.signatures signing_key client_id t d)))
          ctx_wire
        ≡ ok (first, d.hello_eph)
    pub reply_box :
        seal_reply p dr.seal_nonce secret
          (p.x25519_public d.hello_eph)
          (encode (
            challenge (
              challenge_of
                (greeting p ed25519_public lawful.signatures signing_key client_id t d)
                m
                dr
                s)))
          (hello_nonce_of d)
        ≡ ok datagram
    pub last_box :
        seal p d.last_eph d.last_seal
          (p.x25519_public secret)
          (encode (
            response (
              reply_to p ed25519_public lawful.signatures signing_key client_id t d (
                challenge_of
                  (greeting p ed25519_public lawful.signatures signing_key client_id t d)
                  m
                  dr
                  s))))
          ctx_wire
        ≡ ok (last, d.last_eph)
    pub hello_nonce : length d.hello_seal ≡ xnonce_len
    pub reply_nonce : length dr.seal_nonce ≡ xnonce_len
    pub last_nonce : length d.last_seal ≡ xnonce_len
    pub short : length datagram ≤ 2048

  outbound_lem :
      (eph nonce bytes key blob eph' : Bytes)
      → t.wire_encryption ≡ true
      → t.server_pub ≡ some key
      → seal p eph nonce key bytes ctx_wire ≡ ok (blob, eph')
      → frame_outbound p t eph nonce bytes t.wire_encryption ≡ ok (blob, some eph')
  unfolding frame_outbound
  outbound_lem eph nonce bytes key blob eph' seals same box = ground (arith, seals, same, box)

  read_lem :
      (c : Challenge) (eph key datagram : Bytes)
      → t.wire_encryption ≡ true
      → t.server_pub ≡ some key
      → take 2048 datagram ≡ datagram
      → open_reply p eph key datagram (hello_nonce_of d) ≡ ok (encode (challenge c))
      → decode (encode (challenge c)) ≡ ok (challenge c)
      → c.client_id ≡ client_id
      → read_challenge p client_id t d (some eph) datagram ≡ ok c
  unfolding read_challenge unframe_inbound
  read_lem c eph key datagram seals held whole opens reads same =
      ground (arith, seals, held, whole, opens, reads, same)

  answer_lem :
      (c : Challenge) (last : Bytes) (session : Option Bytes)
      → frame_outbound p t d.last_eph d.last_seal
          (encode
            (response (reply_to p ed25519_public lawful.signatures signing_key client_id t d c)))
          t.wire_encryption
        ≡ ok (last, session)
      → answer_challenge p signing_key client_id t d none renew c ≡ ok last
  unfolding answer_challenge seal_param answer
  answer_lem c last session framed = ground (arith, framed)

  frames_lem :
      (nonce secret eph bytes bind datagram : Bytes) (s : Server)
      → s.server_secret ≡ some secret
      → seal_reply p nonce secret eph bytes bind ≡ ok datagram
      → frame_reply p nonce (sealed eph) bytes bind s ≡ some datagram
  unfolding frame_reply
  frames_lem nonce secret eph bytes bind datagram s key box = ground (arith, key, box)

  -- Where both sides seal and without a parameter, an attempt of a client that is expected ends
  -- with a sealed datagram that makes the server call the grant hook for the client at its
  -- endpoint: under the conditions of the attempt in clear text, and if the boxes can be sealed,
  -- with AEAD nonces of 24 bytes and lawful primitives.
  pub sealed_attempt-IsComplete :
      (info : ClientInfo) (ip : IpAddr) (port : ℕ) (m m' m'' : Moment) (dr dr' : Draw) (s : Server)
      → IsExpected p ed25519_public lawful.signatures signing_key client_id t d info ip m s
      → IsSized p ed25519_public lawful.signatures signing_key client_id t d m dr s
      → IsTimely p ed25519_public lawful.signatures signing_key client_id t d m m' m'' s
      → IsSealing m dr s
      → IsComplete p ed25519_public lawful.signatures signing_key client_id t d ip port m m' m'' dr
          dr' s
  unfolding send_hello
  sealed_attempt-IsComplete info ip port m m' m'' dr dr' s e sized timely z =
      let g = greeting p ed25519_public lawful.signatures signing_key client_id t d in
      let c = challenge_of g m dr s in
      let r = reply_to p ed25519_public lawful.signatures signing_key client_id t d c in
      let pub_key = p.x25519_public z.secret in
      let small = length-encode_challenge c sized.of_challenge in
      linked-IsComplete p ed25519_public lawful.signatures signing_key client_id t d info ip port m
        m' m'' dr dr' s e sized timely
        (record {
          first = z.first;
          session = some d.hello_eph;
          mode = sealed (p.x25519_public d.hello_eph);
          mode' = sealed (p.x25519_public d.last_eph);
          datagram = z.datagram;
          last = z.last;
          sends =
              outbound_lem d.hello_eph d.hello_seal (encode (hello g)) pub_key z.first d.hello_eph
                z.client_seals z.client_key z.hello_box;
          carries = in_box z.secret (p.x25519_public d.hello_eph) z.server_seals z.server_key (
              open_box-seal p ed25519_public lawful z.secret d.hello_eph d.hello_seal
                (encode (hello g)) ctx_wire z.first d.hello_eph z.hello_nonce z.hello_box);
          frames =
              frames_lem dr.seal_nonce z.secret (p.x25519_public d.hello_eph) (encode (challenge c))
                (hello_nonce_of d) z.datagram s z.server_key z.reply_box;
          reads =
              read_lem c d.hello_eph pub_key z.datagram z.client_seals z.client_key
                (take_all 2048 z.datagram z.short)
                (open_reply-seal_reply p ed25519_public lawful z.secret d.hello_eph dr.seal_nonce
                  (encode (challenge c)) (hello_nonce_of d) z.datagram z.reply_nonce z.reply_box)
                (decode-encode (challenge c) sized.of_challenge (omega (arith, small))) refl;
          answers = answer_lem c z.last (some d.last_eph) (
              outbound_lem d.last_eph d.last_seal (encode (response r)) pub_key z.last d.last_eph
                z.client_seals z.client_key z.last_box);
          returns = λ u same key.
              in_box z.secret (p.x25519_public d.last_eph)
                (ap (λ q. q.wire_encryption) same ∙ z.server_seals) (key ∙ z.server_key)
                (open_box-seal p ed25519_public lawful z.secret d.last_eph d.last_seal
                  (encode (response r)) ctx_wire z.last d.last_eph z.last_nonce z.last_box);
        })

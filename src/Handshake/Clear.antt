-- ===== src/Handshake/Clear.antt =====
-- A whole attempt of an honest client in clear text.
use signedpulse.Base.{
  ℕ, ◌≡◌, refl, ap, ◌∙◌, false, none, arith, ok, take, Bytes, nat_key, bytes_key, ip_key, IpAddr,
}
use signedpulse.Crypto.{Primitives, IsSigning}
use signedpulse.Config.{off}
use signedpulse.Protocol.Packet.{Challenge, hello, challenge, response, encode, decode, IsPacket}
use signedpulse.Protocol.Packet.RoundTrip.{decode-encode}
use signedpulse.Protocol.Packet.Size.{length-encode_challenge}
use signedpulse.Client.Target.{ServerTarget}
use signedpulse.Client.Cycle.{
  renew, Draws, frame_outbound, unframe_inbound, send_hello, read_challenge, answer,
  answer_challenge, seal_param,
}
use signedpulse.Server.State.{Server, Moment, ClientInfo, cleartext}
use signedpulse.Server.Hello.{Draw, frame_reply}
use signedpulse.Server.Receive.Delivery.{in_clear}
use signedpulse.Handshake.Welcome.{challenge_of}
use signedpulse.Handshake.Attempt.{
  take_all, greeting, reply_to, IsExpected, IsSized, IsTimely, IsComplete, linked-IsComplete,
}

module _ (p : Primitives) (ed25519_public : Bytes → Bytes) (lawful : IsSigning p ed25519_public)
    (signing_key client_id : Bytes) (t : ServerTarget) (d : Draws) where
  sent_lem :
      t.wire_encryption ≡ false
      → send_hello p signing_key client_id t d
        ≡ ok (encode (hello (greeting p ed25519_public lawful signing_key client_id t d)), none)
  unfolding send_hello frame_outbound
  sent_lem clear = ground (arith, clear)

  read_bytes :
      (bytes : Bytes) (c : Challenge)
      → t.wire_encryption ≡ false
      → take 2048 bytes ≡ bytes
      → decode bytes ≡ ok (challenge c)
      → c.client_id ≡ client_id
      → read_challenge p client_id t d none bytes ≡ ok c
  unfolding read_challenge unframe_inbound
  read_bytes bytes c clear whole reads same = ground (arith, clear, whole, reads, same)

  read_lem :
      (c : Challenge)
      → t.wire_encryption ≡ false
      → c.client_id ≡ client_id
      → IsPacket (challenge c)
      → read_challenge p client_id t d none (encode (challenge c)) ≡ ok c
  read_lem c clear same fits =
      let size = length-encode_challenge c fits in
      read_bytes (encode (challenge c)) c clear
        (take_all 2048 (encode (challenge c)) (omega (arith, size)))
        (decode-encode (challenge c) fits (omega (arith, size))) same

  answer_lem :
      (c : Challenge)
      → t.wire_encryption ≡ false
      → answer_challenge p signing_key client_id t d none renew c
        ≡ ok (encode (response (reply_to p ed25519_public lawful signing_key client_id t d c)))
  unfolding answer_challenge seal_param answer frame_outbound
  answer_lem c clear = ground (arith, clear)

  -- In clear text and without a parameter, an attempt of a client that is expected ends with a
  -- datagram that makes the server call the grant hook for the client at its endpoint: if the
  -- packets' fields have the sizes of their types, the RESPONSE is checked and committed before
  -- the challenge expires, the client is not in its cooldown, and a signature verifies under the
  -- public key of its secret. Nothing else is assumed of the cryptography.
  pub clear_attempt-IsComplete :
      (info : ClientInfo) (ip : IpAddr) (port : ℕ) (m m' m'' : Moment) (dr dr' : Draw) (s : Server)
      → IsExpected p ed25519_public lawful signing_key client_id t d info ip m s
      → IsSized p ed25519_public lawful signing_key client_id t d m dr s
      → IsTimely p ed25519_public lawful signing_key client_id t d m m' m'' s
      → t.wire_encryption ≡ false
      → s.config.wire_encryption ≡ off
      → IsComplete p ed25519_public lawful signing_key client_id t d ip port m m' m'' dr dr' s
  unfolding frame_reply
  clear_attempt-IsComplete info ip port m m' m'' dr dr' s e sized timely clear off' =
      let g = greeting p ed25519_public lawful signing_key client_id t d in
      let c = challenge_of g m dr s in
      linked-IsComplete p ed25519_public lawful signing_key client_id t d info ip port m m' m'' dr
        dr' s e sized timely
        (record {
          first = encode (hello g);
          session = none;
          mode = cleartext;
          mode' = cleartext;
          datagram = encode (challenge c);
          last = encode (response (reply_to p ed25519_public lawful signing_key client_id t d c));
          sends = sent_lem clear;
          carries = in_clear off' refl;
          frames = refl;
          reads = read_lem c clear refl sized.of_challenge;
          answers = answer_lem c clear;
          returns = λ u same _. in_clear (ap (λ q. q.wire_encryption) same ∙ off') refl;
        })

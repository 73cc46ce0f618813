-- ===== src/Tests/Wire.antt =====
-- A packet, a sealed box, a hex id and a text to sign.
use signedpulse.Base.{
  ◌<◌, ◌≡◌, refl, ◌≢◌, some, [], ◌∷◌, ◌++◌, arith, ok, length, replicate, Bytes, pos, nat_key,
  bytes_key, ip_key, codes,
}
use signedpulse.Crypto.{seal, open_box, seal_reply, open_reply, ctx_param}
use signedpulse.Crypto.Boxes.{open_box-seal, open_reply-seal_reply}
use signedpulse.Protocol.Words.{to_le, IsArray}
use signedpulse.Protocol.Packet.{Packet, response, encode, decode, IsPacket}
use signedpulse.Protocol.Packet.RoundTrip.{decode-encode}
use signedpulse.Protocol.Payload.{
  response_signing_payload, bye_signing_payload, hello_signing_payload, payloads_are_separate,
}
use signedpulse.Protocol.Reader.{usize_mod}
use signedpulse.Tests.{toy, toy-IsLawful, alice}

abbrev packet : Packet
packet = response (record {
  client_id = alice;
  nonce = replicate 32 5;
  interval_seconds = 300;
  param = some (1 ∷ 2 ∷ []);
  signature = replicate 64 9;
})

packet-IsPacket : IsPacket packet
packet-IsPacket = ground arith

packet_len : length (encode packet) < usize_mod
unfolding encode to_le
packet_len = omega arith

decode-encode_example : decode (encode packet) ≡ ok packet
decode-encode_example = decode-encode packet packet-IsPacket packet_len

abbrev blob : Bytes
blob = replicate 32 4 ++ (replicate 24 0 ++ (7 ∷ 1 ∷ 2 ∷ []))

sealed :
    seal toy (4 ∷ []) (replicate 24 0) (replicate 32 3) (1 ∷ 2 ∷ []) ctx_param ≡ ok (blob, 4 ∷ [])
unfolding seal
sealed = refl

open_box-seal_example : open_box toy (3 ∷ []) blob ctx_param ≡ ok (1 ∷ 2 ∷ [], replicate 32 4)
open_box-seal_example =
    open_box-seal toy (λ secret. secret) toy-IsLawful (3 ∷ []) (4 ∷ []) (replicate 24 0)
      (1 ∷ 2 ∷ []) ctx_param blob (4 ∷ []) refl sealed

abbrev reply_blob : Bytes
reply_blob = replicate 24 0 ++ (7 ∷ 1 ∷ 2 ∷ [])

replied :
    seal_reply toy (replicate 24 0) (3 ∷ []) (replicate 32 4) (1 ∷ 2 ∷ []) (8 ∷ []) ≡ ok reply_blob
unfolding seal_reply
replied = refl

open_reply-seal_reply_example :
    open_reply toy (4 ∷ []) (replicate 32 3) reply_blob (8 ∷ []) ≡ ok (1 ∷ 2 ∷ [])
open_reply-seal_reply_example =
    open_reply-seal_reply toy (λ secret. secret) toy-IsLawful (3 ∷ []) (4 ∷ []) (replicate 24 0)
      (1 ∷ 2 ∷ []) (8 ∷ []) reply_blob refl replied

-- The same id, written byte by byte at its end.
abbrev alice' : Bytes
alice' = replicate 31 7 ++ (7 ∷ [])

alice'-IsArray : IsArray 32 alice'
alice'-IsArray = ground arith

payloads_are_separate_example :
    (response_signing_payload (codes "main") [] [] 1 (pos 2) []
      ≢ bye_signing_payload (codes "main") [] [] 1 (pos 2) [])
    × (response_signing_payload (codes "main") [] [] 1 (pos 2) []
        ≢ hello_signing_payload (codes "main") [] (pos 2) [])
    × (bye_signing_payload (codes "main") [] [] 1 (pos 2) []
        ≢ hello_signing_payload (codes "main") [] (pos 2) [])
payloads_are_separate_example =
    payloads_are_separate (codes "main") [] [] 1 (pos 2) [] (codes "main") [] [] 1 (pos 2) []
      (pos 2) []

-- ===== src/Protocol/Packet/Size.antt =====
-- How long the packets without a parameter are.
use signedpulse.Base.{
  ◌%◌, ◌^◌, ◌≡◌, ap, ◌∙◌, none, [], ◌++◌, arith, unwrap_or, length, length-append, nat_key,
  bytes_key, ip_key,
}
use signedpulse.Protocol.Packet.{
  Hello, Challenge, Response, hello, challenge, response, encode, header, len_prefix, IsPacket,
}
use signedpulse.Protocol.Words.{to_le, i64_bits, to_le-IsArray}

pub length-encode_hello : (h : Hello) → IsPacket (hello h) → length (encode (hello h)) ≡ 122
unfolding encode header
length-encode_hello h (id, _, nonce, sig) = ground (
  arith,
  length-append h.client_id
      (to_le 8 (i64_bits h.client_timestamp_unix) ++ (h.hello_nonce ++ h.signature)),
  length-append (to_le 8 (i64_bits h.client_timestamp_unix)) (h.hello_nonce ++ h.signature),
  length-append h.hello_nonce h.signature,
  id.0,
  nonce.0,
  sig.0,
  (to_le-IsArray 8 (i64_bits h.client_timestamp_unix)).0,
)

pub length-encode_challenge :
    (c : Challenge) → IsPacket (challenge c) → length (encode (challenge c)) ≡ 74
unfolding encode header
length-encode_challenge c (id, nonce, _) = ground (
  arith,
  length-append c.client_id (c.nonce ++ to_le 8 (i64_bits c.expires_at_unix)),
  length-append c.nonce (to_le 8 (i64_bits c.expires_at_unix)),
  id.0,
  nonce.0,
  (to_le-IsArray 8 (i64_bits c.expires_at_unix)).0,
)

pub length-encode_response :
    (r : Response) → IsPacket (response r) → r.param ≡ none → length (encode (response r)) ≡ 136
unfolding encode header len_prefix
length-encode_response r (id, nonce, _, _, sig) bare =
    let param = unwrap_or r.param [] in
    let size = to_le 2 (length param % 2 ^ 16) in
    let empty : param ≡ [] = ap (λ o. unwrap_or o []) bare in
    let tail : length (param ++ r.signature) ≡ 64 =
      ap (λ q. length (q ++ r.signature)) empty ∙ sig.0 in
    ground (
      arith,
      length-append r.client_id
          (r.nonce ++ (to_le 4 r.interval_seconds ++ (size ++ (param ++ r.signature)))),
      length-append r.nonce (to_le 4 r.interval_seconds ++ (size ++ (param ++ r.signature))),
      length-append (to_le 4 r.interval_seconds) (size ++ (param ++ r.signature)),
      length-append size (param ++ r.signature),
      id.0,
      nonce.0,
      tail,
      (to_le-IsArray 4 r.interval_seconds).0,
      (to_le-IsArray 2 (length param % 2 ^ 16)).0,
    )

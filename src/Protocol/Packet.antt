-- ===== src/Protocol/Packet.antt =====
-- The packets of protocol.rs with `Packet::encode` and `Packet::decode`. A fixed-size array is a
-- byte list; `IsPacket` states the sizes that the Rust types fix.
pub mod Reads
pub mod RoundTrip
pub mod Size
use Prim.Native.Nat.{bit_and, bit_or}
use signedpulse.Base.{
  ℕ, ◌+◌, ◌*◌, ◌/◌, ◌%◌, ◌^◌, ◌<◌, ◌≡◌, Option, none, some, [], ◌∷◌, ◌++◌, Bool, ◌==◌, not, Result,
  ok, err, Bytes, length, unwrap_or, if◌then◌else◌, ℤ, IsI64,
}
use signedpulse.Protocol.Words.{to_le, i64_bits, IsArray, IsBytes}
use signedpulse.Protocol.Reader.{
  Read, ◌>>=◌, pure, fail, ProtocolError, bad_magic, wrong_version, unknown_type, trailing_bytes,
}
use signedpulse.Protocol.Reader

abbrev pub protocol_version : ℕ
protocol_version = 2

abbrev pub magic : ℕ
magic = 0x5a

abbrev pub type_hello : ℕ
type_hello = 0

abbrev pub type_challenge : ℕ
type_challenge = 1

abbrev pub type_response : ℕ
type_response = 2

abbrev pub type_bye : ℕ
type_bye = 3

abbrev pub client_id_len : ℕ
client_id_len = 32

abbrev pub hello_nonce_len : ℕ
hello_nonce_len = 16

abbrev pub challenge_nonce_len : ℕ
challenge_nonce_len = 32

abbrev pub sig_len : ℕ
sig_len = 64

-- The 32 bytes of `ClientId`.
abbrev pub ClientId : Type 0
ClientId = Bytes

pub record Hello : Type 0 where
  pub client_id : ClientId
  pub client_timestamp_unix : ℤ
  pub hello_nonce : Bytes
  pub signature : Bytes

pub record Challenge : Type 0 where
  pub client_id : ClientId
  pub nonce : Bytes
  pub expires_at_unix : ℤ

pub record Response : Type 0 where
  pub client_id : ClientId
  pub nonce : Bytes
  pub interval_seconds : ℕ
  pub param : Option Bytes
  pub signature : Bytes

pub record Bye : Type 0 where
  pub client_id : ClientId
  pub nonce : Bytes
  pub interval_seconds : ℕ
  pub param : Option Bytes
  pub signature : Bytes

pub data Packet : Type 0 where
  hello : Hello → Packet
  challenge : Challenge → Packet
  response : Response → Packet
  bye : Bye → Packet

-- `(PROTOCOL_VERSION << 4) | (packet_type & 0x0f)` behind the magic byte.
unfoldable pub header : ℕ → Bytes
header packet_type = magic ∷ bit_or (protocol_version * 2 ^ 4) (bit_and packet_type 0x0f) ∷ []

-- `(param.len() as u16).to_le_bytes()`
unfoldable pub len_prefix : Bytes → Bytes
len_prefix param = to_le 2 (length param % 2 ^ 16)

unfoldable pub encode : Packet → Bytes
unfolding header len_prefix
encode (hello h) =
    header type_hello
    ++ (h.client_id
        ++ (to_le 8 (i64_bits h.client_timestamp_unix) ++ (h.hello_nonce ++ h.signature)))
encode (challenge c) =
    header type_challenge ++ (c.client_id ++ (c.nonce ++ to_le 8 (i64_bits c.expires_at_unix)))
encode (response r) =
    let param = unwrap_or r.param [] in
    header type_response
    ++ (r.client_id
        ++ (r.nonce
            ++ (to_le 4 r.interval_seconds ++ (len_prefix param ++ (param ++ r.signature)))))
encode (bye b) =
    let param = unwrap_or b.param [] in
    header type_bye
    ++ (b.client_id
        ++ (b.nonce
            ++ (to_le 4 b.interval_seconds ++ (len_prefix param ++ (param ++ b.signature)))))

decode_hello : Read Packet
decode_hello = do
  client_id ← Reader.array client_id_len
  client_timestamp_unix ← Reader.i64
  hello_nonce ← Reader.array hello_nonce_len
  signature ← Reader.array sig_len
  pure (
      hello (record {
        client_id = client_id;
        client_timestamp_unix = client_timestamp_unix;
        hello_nonce = hello_nonce;
        signature = signature;
      }))

decode_challenge : Read Packet
decode_challenge = do
  client_id ← Reader.array client_id_len
  nonce ← Reader.array challenge_nonce_len
  expires_at_unix ← Reader.i64
  pure (
      challenge
        (record { client_id = client_id; nonce = nonce; expires_at_unix = expires_at_unix }))

-- An empty parameter is an absent one.
abbrev pub param_of : ℕ → Bytes → Option Bytes
param_of param_len param_bytes = if param_len == 0 then none else some param_bytes

decode_response : Read Packet
decode_response = do
  client_id ← Reader.array client_id_len
  nonce ← Reader.array challenge_nonce_len
  interval_seconds ← Reader.u32
  param_len ← Reader.u16
  param_bytes ← Reader.take param_len
  signature ← Reader.array sig_len
  pure (
      response (record {
        client_id = client_id;
        nonce = nonce;
        interval_seconds = interval_seconds;
        param = param_of param_len param_bytes;
        signature = signature;
      }))

decode_bye : Read Packet
decode_bye = do
  client_id ← Reader.array client_id_len
  nonce ← Reader.array challenge_nonce_len
  interval_seconds ← Reader.u32
  param_len ← Reader.u16
  param_bytes ← Reader.take param_len
  signature ← Reader.array sig_len
  pure (
      bye (record {
        client_id = client_id;
        nonce = nonce;
        interval_seconds = interval_seconds;
        param = param_of param_len param_bytes;
        signature = signature;
      }))

-- `match vt & 0x0f`
decode_body : ℕ → Read Packet
decode_body t =
    if t == type_hello
    then decode_hello
    else if t == type_challenge
    then decode_challenge
    else if t == type_response
    then decode_response
    else if t == type_bye
    then decode_bye
    else fail (unknown_type t)

-- The version nibble is tested before the type nibble is looked at.
decode_versioned : ℕ → Read Packet
decode_versioned vt =
    if vt / 2 ^ 4 == protocol_version
    then decode_body (vt % 2 ^ 4)
    else fail (wrong_version (vt / 2 ^ 4))

decode_packet : Read Packet
decode_packet = do
  m ← Reader.u8
  if m == magic then (do vt ← Reader.u8; decode_versioned vt) else fail bad_magic

unfoldable pub decode : Bytes → Result ProtocolError Packet
unfolding decode_packet decode_versioned decode_body decode_hello decode_challenge decode_response
    decode_bye
decode bytes = elim (decode_packet (Reader.new bytes)) [
  | ok (packet, r) ↦ if Reader.is_empty r then ok packet else err trailing_bytes
  | err e ↦ err e
]

abbrev IsParam : Option Bytes → Type 0
IsParam none = Unit
IsParam (some p) = IsBytes p × (0 < length p) × (length p < 2 ^ 16)

-- The sizes and ranges that the Rust types give, and a parameter that is not empty and fits its
-- length prefix.
abbrev pub IsPacket : Packet → Type 0
IsPacket (hello h) =
    IsArray client_id_len h.client_id
    × IsI64 h.client_timestamp_unix
    × IsArray hello_nonce_len h.hello_nonce
    × IsArray sig_len h.signature
IsPacket (challenge c) =
    IsArray client_id_len c.client_id
    × IsArray challenge_nonce_len c.nonce
    × IsI64 c.expires_at_unix
IsPacket (response r) =
    IsArray client_id_len r.client_id
    × IsArray challenge_nonce_len r.nonce
    × (r.interval_seconds < 2 ^ 32)
    × IsParam r.param
    × IsArray sig_len r.signature
IsPacket (bye b) =
    IsArray client_id_len b.client_id
    × IsArray challenge_nonce_len b.nonce
    × (b.interval_seconds < 2 ^ 32)
    × IsParam b.param
    × IsArray sig_len b.signature

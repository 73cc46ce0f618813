-- ===== src/Protocol/Payload.antt =====
-- The canonical texts that clients sign and the server re-creates.
use signedpulse.Base.{
  ℕ, ◌≡◌, refl, ◌≢◌, ◌∷◌, ◌++◌, arith, Bytes, ℤ, pos, nat_key, bytes_key, ip_key, codes, decimal,
  decimal_ℤ,
}
use signedpulse.Protocol.Packet.{protocol_version}

abbrev pub protocol_name : Bytes
protocol_name = codes "signedpulse"

-- `{PROTOCOL_NAME}:v{PROTOCOL_VERSION}:`
title : Bytes
unfolding decimal
title = protocol_name ++ codes ":v" ++ decimal protocol_version ++ codes ":"

-- `key=value` and a line feed, before the rest.
line : Bytes → Bytes → Bytes → Bytes
line key value rest = key ++ (value ++ 10 ∷ rest)

-- The lines of a RESPONSE or BYE payload after its title.
session_lines : Bytes → Bytes → Bytes → ℕ → ℤ → Bytes → Bytes
unfolding decimal decimal_ℤ line
session_lines server_id client_id_hex nonce_b64 interval_seconds expires_at_unix param_b64 =
    line (codes "server_id=") server_id (
      line (codes "client_id=") client_id_hex (
        line (codes "nonce=") nonce_b64 (
          line (codes "interval=") (decimal interval_seconds) (
            line (codes "expires_at=") (decimal_ℤ expires_at_unix) (codes "param=" ++ param_b64)))))

unfoldable pub response_signing_payload : Bytes → Bytes → Bytes → ℕ → ℤ → Bytes → Bytes
unfolding title session_lines
response_signing_payload server_id client_id_hex nonce_b64 interval_seconds expires_at_unix
      param_b64 =
    title
    ++ (codes "response"
        ++ 10
          ∷ session_lines server_id client_id_hex nonce_b64 interval_seconds expires_at_unix
              param_b64)

unfoldable pub bye_signing_payload : Bytes → Bytes → Bytes → ℕ → ℤ → Bytes → Bytes
unfolding title session_lines
bye_signing_payload server_id client_id_hex nonce_b64 interval_seconds expires_at_unix param_b64 =
    title
    ++ (codes "bye"
        ++ 10
          ∷ session_lines server_id client_id_hex nonce_b64 interval_seconds expires_at_unix
              param_b64)

unfoldable pub hello_signing_payload : Bytes → Bytes → ℤ → Bytes → Bytes
unfolding title decimal_ℤ line
hello_signing_payload server_id client_id_hex timestamp_unix hello_nonce_b64 =
    title
    ++ (codes "hello"
        ++ 10
          ∷ line (codes "server_id=") server_id (
              line (codes "client_id=") client_id_hex (
                line (codes "timestamp=") (decimal_ℤ timestamp_unix)
                  (codes "hello_nonce=" ++ hello_nonce_b64))))

-- The payload of the source's own test.
example_payload :
    response_signing_payload
      (codes "signedpulse-main")
      (codes "ab")
      (codes "QUJDREVG")
      300
      (pos 1_700_000_030)
      (codes "Q0lQSEVS")
    ≡ codes
        "signedpulse:v2:response\nserver_id=signedpulse-main\nclient_id=ab\nnonce=QUJDREVG\ninterval=300\nexpires_at=1700000030\nparam=Q0lQSEVS"
unfolding response_signing_payload
example_payload = refl

-- No payload of one packet type is a payload of another, whatever the fields: a signature over a
-- RESPONSE is never one over a BYE or a HELLO, nor one over a HELLO one over a BYE.
pub payloads_are_separate :
    (a b c : Bytes) (i : ℕ) (x : ℤ) (d : Bytes) (a' b' c' : Bytes) (i' : ℕ) (x' : ℤ) (d' : Bytes)
    (t : ℤ) (n : Bytes)
    → (response_signing_payload a b c i x d ≢ bye_signing_payload a' b' c' i' x' d')
      × (response_signing_payload a b c i x d ≢ hello_signing_payload a' b' t n)
      × (bye_signing_payload a b c i x d ≢ hello_signing_payload a' b' t n)
unfolding response_signing_payload bye_signing_payload hello_signing_payload
payloads_are_separate a b c i x d a' b' c' i' x' d' t n =
    ((λ e. grind arith), (λ e. grind arith), (λ e. grind arith))

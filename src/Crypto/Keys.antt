-- ===== src/Crypto/Keys.antt =====
-- The loading of keys and signatures from base64, crates/signedpulse-common/src/crypto.rs.
use signedpulse.Base.{
  ℕ, ◌==◌, if◌then◌else◌, Result, ok, err, length, Bytes, nat_key, bytes_key, ip_key,
}
use signedpulse.Crypto.{
  Primitives, CryptoError, base64, bad_private_key, bad_public_key, bad_signature,
  bad_encryption_key, x25519_key_len, verify_payload_raw, ◌>>=◌, ok_or,
}

-- `try_into` an array of `n` bytes.
abbrev pub try_into : ℕ → CryptoError → Bytes → Result CryptoError Bytes
try_into n e bytes = if length bytes == n then ok bytes else err e

module _ (p : Primitives) where
  unfoldable pub load_signing_key : Bytes → Result CryptoError Bytes
  load_signing_key private_key_b64 = do
    decoded ← ok_or (p.b64_decode private_key_b64) base64
    try_into 32 bad_private_key decoded

  unfoldable pub load_verifying_key : Bytes → Result CryptoError Bytes
  load_verifying_key public_key_b64 = do
    decoded ← ok_or (p.b64_decode public_key_b64) base64
    bytes ← try_into 32 bad_public_key decoded
    ok_or (p.verifying_key_from_bytes bytes) bad_public_key

  unfoldable pub x25519_from_base64 : Bytes → Result CryptoError Bytes
  x25519_from_base64 b64 = do
    decoded ← ok_or (p.b64_decode b64) base64
    try_into x25519_key_len bad_encryption_key decoded

  unfoldable pub sign_payload : Bytes → Bytes → Bytes
  sign_payload signing_key payload = p.b64_encode (p.ed25519_sign signing_key payload)

  unfoldable pub verify_payload : Bytes → Bytes → Bytes → Result CryptoError (Unit {0})
  verify_payload verifying_key payload signature_b64 = do
    decoded ← ok_or (p.b64_decode signature_b64) base64
    signature ← try_into 64 bad_signature decoded
    verify_payload_raw p verifying_key payload signature

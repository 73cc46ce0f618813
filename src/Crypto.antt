-- ===== src/Crypto.antt =====
-- The sealed boxes and signatures, crates/signedpulse-common/src/crypto.rs, over the primitives of
-- the dalek, hkdf, chacha20poly1305 and base64 crates, which are parameters. Random values are
-- arguments.
pub mod Boxes
pub mod Keys
use signedpulse.Base.{
  ℕ, ◌+◌, ◌≡◌, Bool, true, Option, none, some, ◌++◌, ltb, if◌then◌else◌, Result, ok, err, length,
  take, drop, Bytes, nat_key, bytes_key, ip_key, codes,
}

-- What the crates provide. `diffie_hellman` is `none` where the result is not contributory.
pub record Primitives : Type 0 where
  pub b64_encode : Bytes → Bytes
  pub b64_decode : Bytes → Option Bytes
  pub verifying_key_from_bytes : Bytes → Option Bytes
  pub verify_strict : Bytes → Bytes → Bytes → Bool
  pub ed25519_sign : Bytes → Bytes → Bytes
  pub x25519_public : Bytes → Bytes
  pub diffie_hellman : Bytes → Bytes → Option Bytes
  pub hkdf : Bytes → Bytes → Bytes → Bytes
  pub encrypt : Bytes → Bytes → Bytes → Bytes → Option Bytes
  pub decrypt : Bytes → Bytes → Bytes → Bytes → Option Bytes

abbrev pub x25519_key_len : ℕ
x25519_key_len = 32

abbrev pub xnonce_len : ℕ
xnonce_len = 24

abbrev pub ctx_wire : Bytes
ctx_wire = codes "signedpulse:v1:wire"

abbrev pub ctx_param : Bytes
ctx_param = codes "signedpulse:v1:param"

abbrev pub ctx_reply : Bytes
ctx_reply = codes "signedpulse:v1:reply"

pub data CryptoError : Type 0 where
  base64 bad_private_key bad_public_key bad_signature : CryptoError
  verification_failed bad_encryption_key encryption_failed decryption_failed : CryptoError

infixl 5 ◌>>=◌
abbrev pub ◌>>=◌ :
    {A B : Type 0} → Result CryptoError A → (A → Result CryptoError B) → Result CryptoError B
ok a >>= f = f a
err e >>= f = err e

abbrev pub ok_or : {A : Type 0} → Option A → CryptoError → Result CryptoError A
ok_or none e = err e
ok_or (some a) e = ok a

unfoldable pub reply_aad : Bytes → Bytes
reply_aad bind = ctx_reply ++ bind

module _ (p : Primitives) where
  unfoldable pub sign_payload_raw : Bytes → Bytes → Bytes
  sign_payload_raw signing_key payload = p.ed25519_sign signing_key payload

  unfoldable pub verify_payload_raw : Bytes → Bytes → Bytes → Result CryptoError (Unit {0})
  verify_payload_raw verifying_key payload signature =
      if p.verify_strict verifying_key payload signature then ok tt else err verification_failed

  unfoldable pub derive_key : Bytes → Bytes → Bytes → Bytes → Bytes
  derive_key shared pub_a pub_b info = p.hkdf (pub_a ++ pub_b) shared info

  -- `seal`, with the ephemeral secret and the AEAD nonce that it draws.
  unfoldable pub seal : Bytes → Bytes → Bytes → Bytes → Bytes → Result CryptoError (Bytes × Bytes)
  unfolding derive_key
  seal eph_secret nonce recipient_pub plaintext context = do
    let eph_pub = p.x25519_public eph_secret
    shared ← ok_or (p.diffie_hellman eph_secret recipient_pub) encryption_failed
    let key = derive_key shared eph_pub recipient_pub context
    ciphertext ← ok_or (p.encrypt key nonce context plaintext) encryption_failed
    ok (eph_pub ++ (nonce ++ ciphertext), eph_secret)

  unfoldable pub open_box : Bytes → Bytes → Bytes → Result CryptoError (Bytes × Bytes)
  unfolding derive_key
  open_box recipient_secret blob context =
      if ltb (length blob) (x25519_key_len + xnonce_len) then err decryption_failed else do
        let recipient_pub = p.x25519_public recipient_secret
        let eph_pub = take x25519_key_len blob
        let nonce = take xnonce_len (drop x25519_key_len blob)
        let ciphertext = drop (x25519_key_len + xnonce_len) blob
        shared ← ok_or (p.diffie_hellman recipient_secret eph_pub) decryption_failed
        let key = derive_key shared eph_pub recipient_pub context
        plaintext ← ok_or (p.decrypt key nonce context ciphertext) decryption_failed
        ok (plaintext, eph_pub)

  -- `seal_reply`, with the AEAD nonce that it draws.
  unfoldable pub seal_reply : Bytes → Bytes → Bytes → Bytes → Bytes → Result CryptoError Bytes
  unfolding derive_key reply_aad
  seal_reply nonce server_secret client_eph_pub plaintext bind = do
    let server_pub = p.x25519_public server_secret
    shared ← ok_or (p.diffie_hellman server_secret client_eph_pub) encryption_failed
    let key = derive_key shared server_pub client_eph_pub ctx_reply
    ciphertext ← ok_or (p.encrypt key nonce (reply_aad bind) plaintext) encryption_failed
    ok (nonce ++ ciphertext)

  unfoldable pub open_reply : Bytes → Bytes → Bytes → Bytes → Result CryptoError Bytes
  unfolding derive_key reply_aad
  open_reply client_eph_secret server_pub blob bind =
      if ltb (length blob) xnonce_len then err decryption_failed else do
        shared ← ok_or (p.diffie_hellman client_eph_secret server_pub) decryption_failed
        let client_eph_pub = p.x25519_public client_eph_secret
        let key = derive_key shared server_pub client_eph_pub ctx_reply
        ok_or (p.decrypt key (take xnonce_len blob) (reply_aad bind) (drop xnonce_len blob))
            decryption_failed

-- What a secret key signs, its public key verifies.
pub record IsSigning (p : Primitives) (ed25519_public : Bytes → Bytes) : Type 0 where
  pub verifies :
      (secret msg : Bytes)
      → p.verify_strict (ed25519_public secret) msg (p.ed25519_sign secret msg) ≡ true

-- What the crates document: the two sides of a key exchange agree, decryption undoes encryption
-- under the same key, nonce and associated data, a signature verifies under the public key of its
-- secret, and public keys have their fixed size.
pub record IsLawful (p : Primitives) (ed25519_public : Bytes → Bytes) : Type 0 where
  pub agree :
      (a b : Bytes)
      → p.diffie_hellman a (p.x25519_public b) ≡ p.diffie_hellman b (p.x25519_public a)
  pub undo :
      (key nonce aad msg ct : Bytes)
      → p.encrypt key nonce aad msg ≡ some ct
      → p.decrypt key nonce aad ct ≡ some msg
  pub signatures : IsSigning p ed25519_public
  pub public_len : (secret : Bytes) → length (p.x25519_public secret) ≡ 32

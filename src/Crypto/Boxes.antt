-- ===== src/Crypto/Boxes.antt =====
-- What is sealed can be opened by the other side.
use signedpulse.Base.{
  ◌≡◌, refl, sym, ap, ◌∙◌, inl, inr, false, some, ◌++◌, arith, ltb, Option-cases, ok, length, take,
  drop, length-append, Bytes, nat_key, bytes_key, ip_key, codes, drop-drop, take_append,
  drop_append,
}
use signedpulse.Crypto.{
  Primitives, IsLawful, seal, open_box, seal_reply, open_reply, xnonce_len, ok_or, ◌>>=◌,
}

module _ (p : Primitives) (ed25519_public : Bytes → Bytes)
    (lawful : IsLawful p ed25519_public) where
  opens :
      (secret blob context e n c shared msg : Bytes)
      → ltb (length blob) 56 ≡ false
      → take 32 blob ≡ e
      → take 24 (drop 32 blob) ≡ n
      → drop 56 blob ≡ c
      → p.diffie_hellman secret e ≡ some shared
      → p.decrypt (p.hkdf (e ++ p.x25519_public secret) shared context) n context c ≡ some msg
      → open_box p secret blob context ≡ ok (msg, e)
  unfolding open_box
  opens secret blob context e n c shared msg long he hn hc agreed done =
      rw (open_box, long, he, hn, hc, agreed, ◌>>=◌, ok_or) (ground (arith, done))

  -- With lawful primitives and an AEAD nonce of 24 bytes, a blob that `seal` returns for the
  -- public key of a secret opens under that secret and the same context, to the plaintext and the
  -- sender's ephemeral public key.
  pub open_box-seal :
      (secret eph nonce msg context blob eph' : Bytes)
      → length nonce ≡ xnonce_len
      → seal p eph nonce (p.x25519_public secret) msg context ≡ ok (blob, eph')
      → open_box p secret blob context ≡ ok (msg, p.x25519_public eph)
  unfolding seal open_box
  open_box-seal secret eph nonce msg context blob eph' size sealed =
      elim (Option-cases (p.diffie_hellman eph (p.x25519_public secret))) [
        | inl refused ↦ absurd (ground (arith, sealed, refused))
        | inr (shared, agreed) ↦ elim (Option-cases (p.encrypt (key shared) nonce context msg)) [
          | inl refused ↦ absurd (ground (arith, sealed, agreed, refused))
          | inr (ct, done) ↦
              let made : eph_pub ++ (nonce ++ ct) ≡ blob = ground (arith, sealed, agreed, done) in
              let head : take 32 blob ≡ eph_pub =
                ap (take 32) (sym made) ∙ take_append eph_pub (nonce ++ ct) 32 sized in
              let tail : drop 32 blob ≡ nonce ++ ct =
                ap (drop 32) (sym made) ∙ drop_append eph_pub (nonce ++ ct) 32 sized in
              let mid : take 24 (drop 32 blob) ≡ nonce =
                ap (take 24) tail ∙ take_append nonce ct 24 size in
              let last : drop 56 blob ≡ ct =
                sym (drop-drop 32 24 56 blob refl)
                ∙ ap (drop 24) tail
                ∙ drop_append nonce ct 24 size in
              let long : ltb (length blob) 56 ≡ false = ground (
                arith,
                ap length made,
                length-append eph_pub (nonce ++ ct),
                length-append nonce ct,
                sized,
                size,
              ) in
              let agreed' : p.diffie_hellman secret eph_pub ≡ some shared =
                lawful.agree secret eph ∙ agreed in
              opens secret blob context eph_pub nonce ct shared msg long head mid last agreed'
                (lawful.undo (key shared) nonce context msg ct done)
        ]
      ]
    where
      eph_pub : Bytes
      eph_pub = p.x25519_public eph

      sized : length eph_pub ≡ 32
      sized = lawful.public_len eph

      key : Bytes → Bytes
      key shared = p.hkdf (eph_pub ++ p.x25519_public secret) shared context

  -- With lawful primitives and an AEAD nonce of 24 bytes, a blob that `seal_reply` returns for an
  -- ephemeral public key opens under the ephemeral secret, the server's public key and the same
  -- binding, to the plaintext.
  pub open_reply-seal_reply :
      (secret eph nonce msg bind blob : Bytes)
      → length nonce ≡ xnonce_len
      → seal_reply p nonce secret (p.x25519_public eph) msg bind ≡ ok blob
      → open_reply p eph (p.x25519_public secret) blob bind ≡ ok msg
  unfolding seal_reply open_reply
  open_reply-seal_reply secret eph nonce msg bind blob size sealed =
      elim (Option-cases (p.diffie_hellman secret (p.x25519_public eph))) [
        | inl refused ↦ absurd (ground (arith, sealed, refused))
        | inr (shared, agreed) ↦ elim (Option-cases (p.encrypt (key shared) nonce aad msg)) [
          | inl refused ↦ absurd (ground (arith, sealed, agreed, refused))
          | inr (ct, done) ↦
              let made : nonce ++ ct ≡ blob = ground (arith, sealed, agreed, done) in
              let head : take 24 blob ≡ nonce =
                ap (take 24) (sym made) ∙ take_append nonce ct 24 size in
              let tail : drop 24 blob ≡ ct =
                ap (drop 24) (sym made) ∙ drop_append nonce ct 24 size in
              ground (
                arith,
                head,
                tail,
                lawful.agree eph secret,
                agreed,
                lawful.undo (key shared) nonce aad msg ct done,
                ap length made,
                length-append nonce ct,
                size,
              )
        ]
      ]
    where
      aad : Bytes
      aad = codes "signedpulse:v1:reply" ++ bind

      key : Bytes → Bytes
      key shared =
          p.hkdf (p.x25519_public secret ++ p.x25519_public eph) shared
            (codes "signedpulse:v1:reply")

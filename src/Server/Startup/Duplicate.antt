-- ===== src/Server/Startup/Duplicate.antt =====
-- Ids that differ in their blanks only.
use signedpulse.Base.{
  ◌≡◌, refl, ap, ap₂, ◌∙◌, ◌≢◌, false, [], ◌∷◌, arith, ok, length, Bytes, nat_key, bytes_key,
  ip_key, insert,
}
use signedpulse.Crypto.{Primitives}
use signedpulse.Config.{ClientEntry}
use signedpulse.Config.Server.{check_clients, to_lowercase, contains}
use signedpulse.Config.Server.Accepted.{none-contains}
use signedpulse.Protocol.Hex.{to_hex, from_hex, parsed}
use signedpulse.Protocol.Hex.RoundTrip.{from_hex-to_hex, from_hex-blank}
use signedpulse.Protocol.Words.{IsArray}
use signedpulse.Server.Startup.{add_clients, info_of}
use signedpulse.Crypto.Keys.{load_verifying_key}

length-to_lowercase : (s : Bytes) → length (to_lowercase s) ≡ length s
length-to_lowercase [] = refl
length-to_lowercase (c ∷ cs) = ground (arith, length-to_lowercase cs)

blank_differs : (s : Bytes) → to_lowercase (32 ∷ s) ≢ to_lowercase s
blank_differs s e = absurd (omega (arith, ap length e))

unseen : (s : Bytes) → contains (to_lowercase (32 ∷ s)) (to_lowercase s ∷ []) ≡ false
unseen s = none-contains (to_lowercase (32 ∷ s)) (to_lowercase s ∷ []) (blank_differs s, tt)

module _ (p : Primitives) where
  -- Two entries whose ids are the hex form of one id, the second with a blank before it, pass the
  -- search for duplicate ids; the server that starts with them, if both keys load, knows that id
  -- by the second entry's key and name alone.
  pub spaced_duplicate_accepted :
      (id : Bytes) (a b : ClientEntry) (key_a key_b : Bytes)
      → IsArray 32 id
      → a.client_id ≡ to_hex id
      → b.client_id ≡ 32 ∷ to_hex id
      → load_verifying_key p a.public_key ≡ ok key_a
      → load_verifying_key p b.public_key ≡ ok key_b
      → (check_clients [] (a ∷ b ∷ []) ≡ ok tt)
        × (add_clients p (a ∷ b ∷ []) [] ≡ ok ((id, info_of p key_b b) ∷ []))
  unfolding check_clients add_clients insert
  spaced_duplicate_accepted id a b key_a key_b array hex_a hex_b load_a load_b =
      let read_a : from_hex a.client_id ≡ parsed id =
        ap from_hex hex_a ∙ from_hex-to_hex id array in
      let read_b : from_hex b.client_id ≡ parsed id =
        ap from_hex hex_b ∙ from_hex-blank (to_hex id) ∙ from_hex-to_hex id array in
      let fresh : contains (to_lowercase b.client_id) (to_lowercase a.client_id ∷ []) ≡ false =
        ap₂ (λ x y. contains (to_lowercase x) (to_lowercase y ∷ [])) hex_b hex_a
        ∙ unseen (to_hex id) in
      (ground (arith, read_a, read_b, fresh), ground (arith, read_a, load_a, read_b, load_b))

-- ===== src/Server/Session.antt =====
-- The checks that `handle_response` and `handle_bye` share: the client, its nonce and its
-- signature, then the use of the nonce. Each returns nothing where the source counts a rejection
-- and returns.
pub mod Proof
pub mod Passing
use signedpulse.Base.{
  ℕ, Bool, true, false, Option, none, some, [], if◌then◌else◌, Result, ok, err, Bytes, ℤ, nat_key,
  bytes_key, ip_key, get, IpAddr,
}
use signedpulse.Crypto.{Primitives, verify_payload_raw}
use signedpulse.Protocol.Hex.{to_hex}
use signedpulse.NonceStore
use signedpulse.NonceStore.{
  NonceStore, NonceEntry, ConsumeError, unknown, already_used, expired, client_mismatch,
  endpoint_mismatch,
}
use signedpulse.Server.State.{Server, Moment, ClientInfo, note_rejected}

-- The fields that a RESPONSE and a BYE have in common.
pub record Session : Type 0 where
  pub client_id : Bytes
  pub nonce : Bytes
  pub interval_seconds : ℕ
  pub param : Option Bytes
  pub signature : Bytes

-- `e == ConsumeError::AlreadyUsed`
abbrev pub is_replay : ConsumeError → Bool
is_replay unknown = false
is_replay already_used = true
is_replay expired = false
is_replay client_mismatch = false
is_replay endpoint_mismatch = false

-- A canonical payload, of the server id, the hex client id, the nonce and the parameter in base64,
-- the interval and the expiry.
abbrev pub Payload : Type 0
Payload = Bytes → Bytes → Bytes → ℕ → ℤ → Bytes → Bytes

module _ (p : Primitives) where
  -- `resp.param.as_ref().map(|b| B64.encode(b)).unwrap_or_default()`
  abbrev pub param_b64 : Option Bytes → Bytes
  param_b64 none = []
  param_b64 (some b) = p.b64_encode b

  -- The payload that the server re-creates, with the stored expiry.
  abbrev pub signed_text : Payload → Session → Server → ℤ → Bytes
  signed_text payload r s expires_at =
      payload s.config.server_id (to_hex r.client_id) (p.b64_encode r.nonce) r.interval_seconds
        expires_at (param_b64 r.param)

  abbrev is_ok : {E A : Type 0} → Result E A → Bool
  is_ok (ok a) = true
  is_ok (err e) = false

  unfoldable pub verifies : Payload → Session → ClientInfo → ℤ → Server → Bool
  verifies payload r info expires_at s =
      is_ok
        (verify_payload_raw p info.verifying_key (signed_text payload r s expires_at) r.signature)

  -- Steps 2 and 3: peek at the nonce, then verify the signature.
  check_known :
      Payload → Session → IpAddr → ℕ → Moment → ClientInfo → Server → Server × Option ClientInfo
  unfolding verifies
  check_known payload r ip port m info s =
      elim (NonceStore.validate r.nonce (to_hex r.client_id) ip port m.unix s.nonce_store) [
        | err e ↦ (note_rejected (is_replay e) m s, none)
        | ok entry ↦
            if verifies payload r info entry.expires_at_unix s
            then (s, some info)
            else (note_rejected false m s, none)
      ]

  -- Steps 1 to 3. The decoy verification for an unknown client has no effect on the state.
  unfoldable pub check_session :
      Payload → Session → IpAddr → ℕ → Moment → Server → Server × Option ClientInfo
  unfolding check_known
  check_session payload r ip port m s = elim (get r.client_id s.clients) [
    | none ↦ (note_rejected false m s, none)
    | some info ↦ check_known payload r ip port m info s
  ]

consume_done : Moment → Server → NonceStore × Result ConsumeError NonceEntry → Server × Bool
consume_done m s (store, ok entry) = (record s { nonce_store = store }, true)
consume_done m s (store, err e) =
    (note_rejected (is_replay e) m (record s { nonce_store = store }), false)

-- Step 4: the single-use gate.
unfoldable pub consume_session : Session → IpAddr → ℕ → Moment → Server → Server × Bool
unfolding consume_done
consume_session r ip port m s =
    consume_done m s (NonceStore.consume r.nonce (to_hex r.client_id) ip port m.unix s.nonce_store)

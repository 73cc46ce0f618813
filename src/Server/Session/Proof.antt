-- ===== src/Server/Session/Proof.antt =====
-- What a session packet proves when its checks pass, and that its nonce is then used up.
use signedpulse.Base.{
  ℕ, ◌≡◌, refl, ap, ◌∙◌, subst, ◌⊎◌, inl, inr, true, none, some, arith, Option-cases, Result, ok,
  err, Bytes, ℤ, nat_key, bytes_key, ip_key, get, get-insert_self, IpAddr,
}
use signedpulse.Crypto.{Primitives}
use signedpulse.Protocol.Hex.{to_hex}
use signedpulse.NonceStore
use signedpulse.NonceStore.{already_used, NonceStore, NonceEntry, ConsumeError}
use signedpulse.NonceStore.Bindings.{IsBound, check-IsBound, consume-Outcome}
use signedpulse.Server.State.{Server, Moment, ClientInfo, note_rejected}
use signedpulse.Server.Session.{
  Session, Payload, verifies, check_session, check_known, consume_session, consume_done,
}

passed :
    (nonce cid : Bytes) (ip : IpAddr) (port : ℕ) (now : ℤ) (s : NonceStore) (e e' : NonceEntry)
    → NonceStore.validate nonce cid ip port now s ≡ ok e
    → get nonce s.entries ≡ some e'
    → (NonceStore.check e' cid ip port now ≡ ok tt) × (e' ≡ e)
unfolding NonceStore.validate
passed nonce cid ip port now s e e' h found = ground (arith, found, h)

-- `validate` accepts only an entry that is bound to the request.
validate_lem :
    (nonce cid : Bytes) (ip : IpAddr) (port : ℕ) (now : ℤ) (s : NonceStore) (e : NonceEntry)
    → NonceStore.validate nonce cid ip port now s ≡ ok e
    → (get nonce s.entries ≡ some e) × IsBound e cid ip port now
unfolding NonceStore.validate NonceStore.check
validate_lem nonce cid ip port now s e h = elim (Option-cases (get nonce s.entries)) [
  | inl missing ↦ absurd (ground (arith, missing, h))
  | inr (e', found) ↦
      let (fine, same) = passed nonce cid ip port now s e e' h found in
      (
        found ∙ ap some same,
        subst (λ q. IsBound q cid ip port now) same (check-IsBound e' cid ip port now fine),
      )
]

validate-cases :
    (r : Result ConsumeError NonceEntry)
    → ((e : ConsumeError) × (r ≡ err e)) ⊎ ((e : NonceEntry) × (r ≡ ok e))
validate-cases (ok e) = inr (e, refl)
validate-cases (err e) = inl (e, refl)

module _ (p : Primitives) (payload : Payload) where
  -- The client is configured, the nonce is in the store, unused, alive and bound to the client and
  -- the endpoint, and the signature verifies with the stored expiry.
  pub record IsProven (r : Session) (ip : IpAddr) (port : ℕ) (m : Moment) (s : Server)
      (info : ClientInfo) : Type 0 where
    pub entry : NonceEntry
    pub known : get r.client_id s.clients ≡ some info
    pub issued : get r.nonce s.nonce_store.entries ≡ some entry
    pub bound : IsBound entry (to_hex r.client_id) ip port m.unix
    pub signed : verifies p payload r info entry.expires_at_unix s ≡ true

  known_lem :
      (r : Session) (ip : IpAddr) (port : ℕ) (m : Moment) (i : ClientInfo) (s : Server)
      (info : ClientInfo)
      → (check_known p payload r ip port m i s).1 ≡ some info
      → (e : NonceEntry) × (NonceStore.validate r.nonce
            (to_hex r.client_id)
            ip
            port
            m.unix
            s.nonce_store
          ≡ ok e)
        × (verifies p payload r i e.expires_at_unix s ≡ true)
        × (i ≡ info)
  unfolding check_known
  known_lem r ip port m i s info h =
      elim (validate-cases
        (NonceStore.validate r.nonce (to_hex r.client_id) ip port m.unix s.nonce_store)) [
          | inl (e, refused) ↦ absurd (ground (arith, refused, h))
          | inr (e, valid) ↦ (e, valid, ground (arith, valid, h), ground (arith, valid, h))
        ]

  pub check-IsProven :
      (r : Session) (ip : IpAddr) (port : ℕ) (m : Moment) (s : Server) (info : ClientInfo)
      → (check_session p payload r ip port m s).1 ≡ some info
      → IsProven r ip port m s info
  unfolding check_session
  check-IsProven r ip port m s info h = elim (Option-cases (get r.client_id s.clients)) [
    | inl missing ↦ absurd (ground (arith, missing, h))
    | inr (info', found) ↦
        let (entry, valid, signed, same) =
          known_lem r ip port m info' s info (ground (arith, found, h)) in
        let (issued, bound) =
          validate_lem r.nonce (to_hex r.client_id) ip port m.unix s.nonce_store entry valid in
        record {
          entry = entry;
          known = found ∙ ap some same;
          issued = issued;
          bound = bound;
          signed = subst (λ q. verifies p payload r q entry.expires_at_unix s ≡ true) same signed;
        }
  ]

  -- Checks that pass leave the state as it was.
  pub check-unchanged :
      (r : Session) (ip : IpAddr) (port : ℕ) (m : Moment) (s : Server) (info : ClientInfo)
      → (check_session p payload r ip port m s).1 ≡ some info
      → (check_session p payload r ip port m s).0 ≡ s
  unfolding check_session check_known
  check-unchanged r ip port m s info h = ground arith

-- The nonce is in the store and used.
abbrev pub IsSpent : Bytes → NonceStore → Type 0
IsSpent nonce store = (e : NonceEntry) × (get nonce store.entries ≡ some e) × (e.used ≡ true)

abbrev pub IsUsed : Bytes → Server → Type 0
IsUsed nonce s = IsSpent nonce s.nonce_store

-- A nonce that is consumed was bound to the request, and is used afterwards.
pub consume-IsUsed :
    (r : Session) (ip : IpAddr) (port : ℕ) (m : Moment) (s : Server)
    → (consume_session r ip port m s).1 ≡ true
    → IsUsed r.nonce (consume_session r ip port m s).0
unfolding consume_session consume_done
consume-IsUsed r ip port m s h =
    elim (consume-Outcome r.nonce (to_hex r.client_id) ip port m.unix s.nonce_store) [
      | inl (e, fails) ↦ absurd (ground (arith, fails, h))
      | inr (e, found, bound, done) ↦ (
        record e { used = true },
        ground
            (arith, done, get-insert_self r.nonce (record e { used = true }) s.nonce_store.entries),
        refl,
      )
    ]

used_invalid :
    (nonce cid : Bytes) (ip : IpAddr) (port : ℕ) (now : ℤ) (s : NonceStore) (e : NonceEntry)
    → get nonce s.entries ≡ some e
    → e.used ≡ true
    → NonceStore.validate nonce cid ip port now s ≡ err already_used
unfolding NonceStore.validate NonceStore.check
used_invalid nonce cid ip port now s e found used = ground (arith, found, used)

-- No session packet passes the checks on a used nonce.
pub used-check :
    (p : Primitives) (payload : Payload) (r : Session) (ip : IpAddr) (port : ℕ) (m : Moment)
    (s : Server)
    → IsUsed r.nonce s
    → (check_session p payload r ip port m s).1 ≡ none
unfolding check_session check_known
used-check p payload r ip port m s (e, found, used) =
    ground
      (arith, used_invalid r.nonce (to_hex r.client_id) ip port m.unix s.nonce_store e found used)

-- The checks and the use of the nonce leave the leases alone.
pub check-leases :
    (p : Primitives) (payload : Payload) (r : Session) (ip : IpAddr) (port : ℕ) (m : Moment)
    (s : Server)
    → (check_session p payload r ip port m s).0.leases ≡ s.leases
unfolding check_session check_known note_rejected
check-leases p payload r ip port m s = ground arith

pub consume-leases :
    (r : Session) (ip : IpAddr) (port : ℕ) (m : Moment) (s : Server)
    → (consume_session r ip port m s).0.leases ≡ s.leases
unfolding consume_session consume_done note_rejected
consume-leases r ip port m s = ground arith

pub consume-has_revoke :
    (r : Session) (ip : IpAddr) (port : ℕ) (m : Moment) (s : Server)
    → (consume_session r ip port m s).0.has_revoke ≡ s.has_revoke
unfolding consume_session consume_done note_rejected
consume-has_revoke r ip port m s = ground arith

-- ===== src/NonceStore/Bindings.antt =====
-- When `validate` and `consume` succeed, and with what.
use signedpulse.Base.{
  ap, ◌↔◌, ℕ, ◌≡◌, refl, sym, ◌∙◌, ◌⊎◌, inl, inr, Bool, true, false, Option, none, some,
  Option-cases, Result, ok, err, arith, Bytes, bytes_key, ip_key, eq, get, ℤ, ◌≤ℤ◌, IpAddr,
}
use signedpulse.Base
use signedpulse.NonceStore.{
  NonceStore, NonceEntry, ConsumeError, unknown, check, consume, consume_entry,
}

-- The entry is unused and not past its expiry, and carries the client and the endpoint that ask.
pub record IsBound (e : NonceEntry) (client_id : Bytes) (ip : IpAddr) (port : ℕ) (now : ℤ)
    : Type 0 where
  pub unused : e.used ≡ false
  pub alive : now ≤ℤ e.expires_at_unix
  pub client : e.client_id ≡ client_id
  pub source : e.source_ip ≡ ip
  pub source_port : e.source_port ≡ port

pub check-IsBound :
    (e : NonceEntry) (cid : Bytes) (ip : IpAddr) (port : ℕ) (now : ℤ)
    → check e cid ip port now ≡ ok tt
    → IsBound e cid ip port now
unfolding check
check-IsBound e cid ip port now h = ground arith

pub IsBound-check :
    (e : NonceEntry) (cid : Bytes) (ip : IpAddr) (port : ℕ) (now : ℤ)
    → IsBound e cid ip port now
    → check e cid ip port now ≡ ok tt
unfolding check
IsBound-check e cid ip port now b = ground arith

abbrev pub marked : NonceEntry → NonceEntry
marked e = record e { used = true }

-- The two outcomes of `consume`.
abbrev pub Outcome : Bytes → Bytes → IpAddr → ℕ → ℤ → NonceStore → Type 0
Outcome nonce cid ip port now s =
    ((e : ConsumeError) × (consume nonce cid ip port now s ≡ (s, err e)))
    ⊎ ((e : NonceEntry) × (get nonce s.entries ≡ some e)
        × IsBound e cid ip port now
        × (consume nonce cid ip port now s
            ≡ (record { entries = Base.insert nonce (marked e) s.entries }, ok (marked e))))

check-cases :
    (r : Result ConsumeError (Unit {0})) → ((e : ConsumeError) × (r ≡ err e)) ⊎ (r ≡ ok tt)
check-cases (ok u) = inr refl
check-cases (err e) = inl (e, refl)

pub consume-Outcome :
    (nonce cid : Bytes) (ip : IpAddr) (port : ℕ) (now : ℤ) (s : NonceStore)
    → Outcome nonce cid ip port now s
unfolding consume
consume-Outcome nonce cid ip port now s = elim (Option-cases (get nonce s.entries)) [
  | inl missing ↦ inl (unknown, rw (missing, consume))
  | inr (entry, found) ↦ elim (check-cases (check entry cid ip port now)) [
    | inl (e, refused) ↦ inl (e, rw (found, consume) (rw (refused, consume_entry)))
    | inr passed ↦ inr (
      entry,
      found,
      check-IsBound _ _ _ _ _ passed,
      rw (found, consume) (rw (passed, consume_entry)),
    )
  ]
]

pub consume-passes :
    (nonce cid : Bytes) (ip : IpAddr) (port : ℕ) (now : ℤ) (s : NonceStore) (e : NonceEntry)
    → get nonce s.entries ≡ some e
    → IsBound e cid ip port now
    → consume nonce cid ip port now s
      ≡ (record { entries = Base.insert nonce (marked e) s.entries }, ok (marked e))
unfolding consume
consume-passes nonce cid ip port now s e found bound =
    rw (found, consume) (rw (IsBound-check e cid ip port now bound, consume_entry))

-- `consume` succeeds, with the entry marked as used, exactly when the nonce is in the store with an
-- entry that is unused, not past its expiry at the clock reading, and bound to the client, the
-- source address and the source port of the call.
pub consume-ok_iff :
    (nonce cid : Bytes) (ip : IpAddr) (port : ℕ) (now : ℤ) (s : NonceStore) (e : NonceEntry)
    → ((consume nonce cid ip port now s).1 ≡ ok e) ↔ (
        (e' : NonceEntry) × (get nonce s.entries ≡ some e')
        × IsBound e' cid ip port now
        × (e ≡ marked e'))
unfolding consume
consume-ok_iff nonce cid ip port now s e = (forth, back)
  where
    forth :
        (consume nonce cid ip port now s).1 ≡ ok e
        → (e' : NonceEntry) × (get nonce s.entries ≡ some e')
          × IsBound e' cid ip port now
          × (e ≡ marked e')
    forth h = elim (consume-Outcome nonce cid ip port now s) [
      | inl (x, fails) ↦ absurd (ground (arith, fails))
      | inr (e', found, bound, done) ↦ (e', found, bound, ground (arith, done))
    ]

    back :
        ((e' : NonceEntry) × (get nonce s.entries ≡ some e')
          × IsBound e' cid ip port now
          × (e ≡ marked e'))
        → (consume nonce cid ip port now s).1 ≡ ok e
    back (e', found, bound, same) = ground (arith, found, IsBound-check e' cid ip port now bound)

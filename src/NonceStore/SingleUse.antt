-- ===== src/NonceStore/SingleUse.antt =====
-- A nonce is good for one `consume`, whatever requests, purges and other consumes are interleaved.
use signedpulse.Base.{
  sym, subst, inr, inl, ℕ, ◌+◌, ◌≤◌, true, Option, none, some, List, [], ◌∷◌, Result, ok, err,
  arith, Bytes, bytes_key, ip_key, eq, get, get-insert, IsMap, insert-IsMap, retain-IsMap,
  get-retain, if◌then◌else◌, ℤ, leb_ℤ, IpAddr,
}
use signedpulse.NonceStore.Bindings.{consume-Outcome}
use signedpulse.NonceStore.{
  fresh_entry, NonceStore, NonceEntry, ConsumeError, new, insert, consume, purge_expired,
}

-- A call on the store, with its arguments and its clock reading.
pub data Call : Type 0 where
  inserts : Bytes → Bytes → IpAddr → ℕ → ℤ → ℤ → Call
  consumes : Bytes → Bytes → IpAddr → ℕ → ℤ → Call
  purges : ℤ → Call

unfoldable pub after : Call → NonceStore → NonceStore
after (inserts nonce cid ip port expires now) s = insert nonce cid ip port expires now s
after (consumes nonce cid ip port now) s = (consume nonce cid ip port now s).0
after (purges now) s = (purge_expired now s).0

-- Whether the call consumes the nonce `n` with success.
unfoldable pub succeeds : Bytes → Call → NonceStore → ℕ
succeeds n (consumes nonce cid ip port now) s = elim (consume nonce cid ip port now s).1 [
  | ok _ ↦ if eq nonce n then 1 else 0
  | err _ ↦ 0
]
succeeds n _ s = 0

-- Whether the call issues the nonce `n`.
unfoldable pub issues : Bytes → Call → ℕ
issues n (inserts nonce _ _ _ _ _) = if eq nonce n then 1 else 0
issues n _ = 0

pub successes : Bytes → List Call → NonceStore → ℕ
successes n [] s = 0
successes n (c ∷ cs) s = succeeds n c s + successes n cs (after c s)

pub issued : Bytes → List Call → ℕ
issued n [] = 0
issued n (c ∷ cs) = issues n c + issued n cs

-- 1 if the store holds the nonce unused.
abbrev pub unused : Option NonceEntry → ℕ
unused none = 0
unused (some e) = if e.used then 0 else 1

unfoldable pub open_nonce : Bytes → NonceStore → ℕ
open_nonce n s = unused (get n s.entries)

abbrev pub Done : Type 0
Done = NonceStore × Result ConsumeError NonceEntry

pub step-IsMap : (c : Call) (s : NonceStore) → IsMap s.entries → IsMap (after c s).entries
unfolding after insert purge_expired
step-IsMap (inserts nonce cid ip port expires now) s h = insert-IsMap nonce _ s.entries h
step-IsMap (purges now) s h = retain-IsMap _ s.entries h
step-IsMap (consumes nonce cid ip port now) s h = elim (consume-Outcome nonce cid ip port now s) [
  | inl (e, fails) ↦ subst (λ (q : Done). IsMap q.0.entries) (sym fails) h
  | inr (e, _, _, done) ↦
      subst (λ (q : Done). IsMap q.0.entries) (sym done) (insert-IsMap nonce _ s.entries h)
]

pub step-open :
    (n : Bytes) (c : Call) (s : NonceStore)
    → IsMap s.entries
    → succeeds n c s + open_nonce n (after c s) ≤ open_nonce n s + issues n c
unfolding after insert purge_expired open_nonce succeeds issues
step-open n (inserts nonce cid ip port expires now) s h =
    ground (arith, get-insert nonce n (fresh_entry cid ip port expires now) s.entries)
step-open n (purges now) s h =
    ground (arith, get-retain (λ (e : NonceEntry). leb_ℤ now e.expires_at_unix) n s.entries h)
step-open n (consumes nonce cid ip port now) s h = elim (consume-Outcome nonce cid ip port now s) [
  | inl (e, fails) ↦ rw (fails, succeeds, after) (omega arith)
  | inr (e, found, bound, done) ↦
      rw (done, succeeds, after)
        (ground
          (arith, found, bound.unused, get-insert nonce n (record e { used = true }) s.entries))
]

successes-issued :
    (n : Bytes) (cs : List Call) (s : NonceStore)
    → IsMap s.entries
    → successes n cs s ≤ open_nonce n s + issued n cs
unfolding successes issued
successes-issued n [] s h = omega arith
successes-issued n (c ∷ cs) s h =
    omega (arith, step-open n c s h, successes-issued n cs (after c s) (step-IsMap c s h))

-- From an empty store, in any history of calls in any order and with any clock readings, a nonce is
-- consumed with success at most as often as it was issued.
pub consume_at_most_once : (n : Bytes) (cs : List Call) → successes n cs new ≤ issued n cs
unfolding open_nonce get
consume_at_most_once n cs = omega (arith, successes-issued n cs new tt)

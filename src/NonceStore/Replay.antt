-- ===== src/NonceStore/Replay.antt =====
-- A consumed nonce is remembered until it expires, so that a second use is told apart from an
-- unknown nonce.
use signedpulse.Base.{
  ℕ, ◌≡◌, refl, sym, ◌∙◌, subst, ◌≢◌, inl, inr, true, some, List, [], ◌∷◌, arith, ok, err, All,
  Bytes, ℤ, ◌≤ℤ◌, leb_ℤ, nat_key, bytes_key, ip_key, get, get-insert, get-insert_self,
  get-insert_ne, get-retain, IsMap, insert-IsMap, retain-IsMap, IpAddr,
}
use signedpulse.NonceStore.{
  NonceStore, NonceEntry, fresh_entry, insert, consume, purge_expired, already_used,
}
use signedpulse.NonceStore.Bindings.{consume-Outcome}
use signedpulse.NonceStore.SingleUse.{Call, inserts, consumes, purges, after, Done}

-- The store holds the nonce as used, with the expiry.
record IsSpent (n : Bytes) (expires : ℤ) (s : NonceStore) : Type 0 where
  entry : NonceEntry
  found : get n s.entries ≡ some entry
  spent : entry.used ≡ true
  until : entry.expires_at_unix ≡ expires
  distinct : IsMap s.entries

-- The call neither issues the nonce again nor purges after its expiry.
abbrev pub Keeps : Bytes → ℤ → Call → Type 0
Keeps n expires (inserts nonce _ _ _ _ _) = nonce ≢ n
Keeps n expires (consumes _ _ _ _ _) = Unit
Keeps n expires (purges now) = now ≤ℤ expires

pub run : List Call → NonceStore → NonceStore
run [] s = s
run (c ∷ cs) s = run cs (after c s)

after-IsSpent :
    (n : Bytes) (expires : ℤ) (c : Call) (s : NonceStore)
    → Keeps n expires c
    → IsSpent n expires s
    → IsSpent n expires (after c s)
unfolding after insert purge_expired
after-IsSpent n x (inserts nonce cid ip port expires now) s h v = record {
  entry = v.entry;
  found = get-insert_ne nonce n (fresh_entry cid ip port expires now) s.entries h ∙ v.found;
  spent = v.spent;
  until = v.until;
  distinct = insert-IsMap nonce _ s.entries v.distinct;
}
after-IsSpent n x (purges now) s h v = record {
  entry = v.entry;
  found =
      get-retain (λ (e : NonceEntry). leb_ℤ now e.expires_at_unix) n s.entries v.distinct
      ∙ ground (arith, v.found, v.until);
  spent = v.spent;
  until = v.until;
  distinct = retain-IsMap _ s.entries v.distinct;
}
after-IsSpent n x (consumes nonce cid ip port now) s h v =
    elim (consume-Outcome nonce cid ip port now s) [
      | inl (e, fails) ↦ subst (λ (q : Done). IsSpent n x q.0) (sym fails) v
      | inr (e, found, bound, done) ↦
          subst (λ (q : Done). IsSpent n x q.0) (sym done)
            (record {
              entry = v.entry;
              found = ground (
                arith,
                v.found,
                v.spent,
                found,
                bound.unused,
                get-insert nonce n (record e { used = true }) s.entries,
              );
              spent = v.spent;
              until = v.until;
              distinct = insert-IsMap nonce _ s.entries v.distinct;
            })
    ]

run-IsSpent :
    (n : Bytes) (expires : ℤ) (cs : List Call) (s : NonceStore)
    → All (Keeps n expires) cs
    → IsSpent n expires s
    → IsSpent n expires (run cs s)
unfolding run
run-IsSpent n x [] s h v = v
run-IsSpent n x (c ∷ cs) s h v = run-IsSpent n x cs (after c s) h.1 (after-IsSpent n x c s h.0 v)

-- In a store with distinct keys: once a nonce is consumed with success, every later attempt to
-- consume it, by any client from any endpoint at any clock reading, is answered with
-- `already_used`, after any calls in between that do not issue the same nonce again and whose
-- purges read a clock that is not past its expiry.
pub replay_is_detected :
    (n cid : Bytes) (ip : IpAddr) (port : ℕ) (now : ℤ) (s : NonceStore) (e : NonceEntry)
    → IsMap s.entries
    → (consume n cid ip port now s).1 ≡ ok e
    → (cs : List Call) → All (Keeps n e.expires_at_unix) cs
    → (cid' : Bytes) (ip' : IpAddr) (port' : ℕ) (now' : ℤ)
    → (consume n cid' ip' port' now' (run cs (consume n cid ip port now s).0)).1 ≡ err already_used
unfolding consume
replay_is_detected n cid ip port now s e h first cs keeps cid' ip' port' now' =
    answer (run-IsSpent n e.expires_at_unix cs _ keeps spent)
  where
    spent : IsSpent n e.expires_at_unix (consume n cid ip port now s).0
    spent = elim (consume-Outcome n cid ip port now s) [
      | inl (x, fails) ↦ absurd (ground (arith, fails))
      | inr (e', found, bound, done) ↦
          subst (λ (q : Done). IsSpent n e.expires_at_unix q.0) (sym done)
            (record {
              entry = record e' { used = true };
              found = get-insert_self n _ s.entries;
              spent = refl;
              until = ground (arith, done);
              distinct = insert-IsMap n _ s.entries h;
            })
    ]

    answer :
        {t : NonceStore}
        → IsSpent n e.expires_at_unix t
        → (consume n cid' ip' port' now' t).1 ≡ err already_used
    answer v = ground (arith, v.found, v.spent)

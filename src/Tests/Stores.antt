-- ===== src/Tests/Stores.antt =====
-- The nonce store and the replay cache on a few entries.
use signedpulse.Base.{
  ◌≤◌, ◌≡◌, refl, ◌↔◌, true, false, some, List, [], ◌∷◌, arith, ok, err, Bytes, pos, ◌+ℤ◌, nat_key,
  bytes_key, ip_key, get, bytes_dec, ip_dec, codes,
}
use signedpulse.NonceStore
use signedpulse.NonceStore.{NonceStore, NonceEntry, consume, fresh_entry, already_used}
use signedpulse.NonceStore.SingleUse.{
  Call, inserts, consumes, purges, successes, issued, consume_at_most_once,
}
use signedpulse.NonceStore.Bindings.{IsBound, consume-ok_iff, marked}
use signedpulse.NonceStore.Replay.{run, replay_is_detected}
use signedpulse.SeenCache
use signedpulse.SeenCache.{insert_if_absent}
use signedpulse.SeenCache.Replay
use signedpulse.SeenCache.Replay.{seen_key_is_rejected}
use signedpulse.Tests.{home, away}

abbrev nonce : Bytes
nonce = 5 ∷ []

abbrev history : List Call
history =
    inserts nonce (codes "a") home 1 (pos 30) (pos 0)
    ∷ consumes nonce (codes "a") away 1 (pos 1)
    ∷ consumes nonce (codes "a") home 1 (pos 2)
    ∷ consumes nonce (codes "a") home 1 (pos 3)
    ∷ purges (pos 40)
    ∷ []

consume_at_most_once_example : successes nonce history NonceStore.new ≤ issued nonce history
consume_at_most_once_example = consume_at_most_once nonce history

abbrev store : NonceStore
store = record { entries = (nonce, fresh_entry (codes "a") home 1 (pos 30) (pos 0)) ∷ [] }

abbrev used : NonceEntry
used = marked (fresh_entry (codes "a") home 1 (pos 30) (pos 0))

consume-ok_iff_example : ((consume nonce (codes "a") home 1 (pos 2) store).1 ≡ ok used) ↔ (
    (e' : NonceEntry) × (get nonce store.entries ≡ some e')
    × IsBound e' (codes "a") home 1 (pos 2)
    × (used ≡ marked e'))
consume-ok_iff_example = consume-ok_iff nonce (codes "a") home 1 (pos 2) store used

consumed : (consume nonce (codes "a") home 1 (pos 2) store).1 ≡ ok used
unfolding consume get bytes_dec ip_dec
consumed = refl

replay_is_detected_example :
    (consume nonce
      (codes "b")
      away
      2
      (pos 9)
      (run (purges (pos 5) ∷ []) (consume nonce (codes "a") home 1 (pos 2) store).0)).1
    ≡ err already_used
replay_is_detected_example =
    replay_is_detected nonce (codes "a") home 1 (pos 2) store used (tt, tt) consumed
      (purges (pos 5) ∷ []) (omega arith, tt) (codes "b") away 2 (pos 9)

seen : (insert_if_absent nonce (pos 0) 60 SeenCache.new).1 ≡ true
unfolding insert_if_absent get
seen = refl

seen_key_is_rejected_example :
    insert_if_absent nonce (pos 60) 60 (
      SeenCache.Replay.run
        (SeenCache.Replay.inserts (6 ∷ []) (pos 3) 60 ∷ [])
        (insert_if_absent nonce (pos 0) 60 SeenCache.new).0)
    ≡ (
      SeenCache.Replay.run
          (SeenCache.Replay.inserts (6 ∷ []) (pos 3) 60 ∷ [])
          (insert_if_absent nonce (pos 0) 60 SeenCache.new).0,
      false,
    )
unfolding ◌+ℤ◌
seen_key_is_rejected_example =
    seen_key_is_rejected nonce (pos 0) 60 SeenCache.new tt seen
      (SeenCache.Replay.inserts (6 ∷ []) (pos 3) 60 ∷ []) (omega arith, tt) (pos 60) 60
      (omega arith)

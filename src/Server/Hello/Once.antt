-- ===== src/Server/Hello/Once.antt =====
-- A replayed HELLO is not answered.
use signedpulse.Base.{
  ℕ, ◌+◌, ◌≤◌, ◌≡◌, sym, ap, ap₂, ◌∙◌, subst, inl, inr, true, false, none, some, List, [], ◌∷◌,
  arith, dec_le, Option-cases, All, Bytes, ℤ, pos, pos_part, neg_part, ◌+ℤ◌, ◌-ℤ◌, ◌≤ℤ◌, min_ℤ, abs,
  i64_max, IsI64, abs_lem, +ℤ_parts, nat_key, bytes_key, ip_key, IsMap, IpAddr,
}
use signedpulse.Crypto.{Primitives}
use signedpulse.Protocol.Packet.{Hello}
use signedpulse.SeenCache
use signedpulse.SeenCache.{SeenCache, expiry}
use signedpulse.SeenCache.Replay.{Call, clock, run, seen_key_is_rejected}
use signedpulse.Server.State.{Server, Moment, ReplyMode}
use signedpulse.Server.Hello.{
  Draw, seen_ttl, replay_key, handle_hello, authenticate_hello, admit_hello, issue_challenge,
}
use signedpulse.Server.Hello.Answers.{answered-IsWelcome}

min_ℤ-lower : (a b c : ℤ) → a ≤ℤ b → a ≤ℤ c → a ≤ℤ min_ℤ b c
min_ℤ-lower a b c hb hc = elim (dec_le (pos_part b + neg_part c) (pos_part c + neg_part b)) [
  | yes h ↦ ground (arith, h)
  | no h ↦ ground (arith, h)
]

lifetime_lem :
    (now now' stamp : ℤ) (skew : ℕ)
    → IsI64 now
    → IsI64 now'
    → abs (now -ℤ stamp) ≤ skew
    → abs (now' -ℤ stamp) ≤ skew
    → now' ≤ℤ now +ℤ pos (seen_ttl skew)
lifetime_lem now now' stamp skew i i' near near' = omega (
  arith,
  i.0,
  i.1,
  i'.0,
  i'.1,
  (abs_lem now stamp skew near).1,
  (abs_lem now' stamp skew near').0,
  +ℤ_parts now (pos skew),
  +ℤ_parts stamp (pos skew),
  +ℤ_parts now (pos (seen_ttl skew)),
)

-- A timestamp within the skew of two clock readings: the second is not past the lifetime that the
-- first gave.
within_lifetime :
    (now now' stamp : ℤ) (skew : ℕ)
    → IsI64 now
    → IsI64 now'
    → abs (now -ℤ stamp) ≤ skew
    → abs (now' -ℤ stamp) ≤ skew
    → now' ≤ℤ expiry now (seen_ttl skew)
within_lifetime now now' stamp skew i i' near near' =
    min_ℤ-lower now' (now +ℤ pos (seen_ttl skew)) i64_max
      (lifetime_lem now now' stamp skew i i' near near') i'.1

stale_fresh : true ≡ false → ⊥
stale_fresh e = ground arith

All-weaken :
    (cs : List Call) (a b : ℤ) → a ≤ℤ b → All (λ c. clock c ≤ℤ a) cs → All (λ c. clock c ≤ℤ b) cs
All-weaken [] a b h q = tt
All-weaken (c ∷ cs) a b h q = (omega (arith, h, q.0), All-weaken cs a b h q.1)

module _ (p : Primitives) where
  abbrev recorded : Hello → Moment → Server → SeenCache
  recorded h m s =
      (SeenCache.insert_if_absent (replay_key h) m.unix (seen_ttl s.config.hello_max_skew_seconds)
        s.seen_hellos).0

  answered-seen :
      (h : Hello) (ip : IpAddr) (port : ℕ) (mode : ReplyMode) (m : Moment) (d : Draw) (s : Server)
      (datagram : Bytes)
      → (handle_hello p h ip port mode m d s).1 ≡ some datagram
      → (handle_hello p h ip port mode m d s).0.seen_hellos ≡ recorded h m s
  unfolding handle_hello authenticate_hello admit_hello issue_challenge
  answered-seen h ip port mode m d s datagram e = ground arith

  -- After a HELLO is answered by a server whose replay cache has distinct keys, no HELLO of the
  -- same client with the same nonce and timestamp is answered, wherever it comes from and whatever
  -- its signature: for every later state of the server with the same allowed skew whose replay
  -- cache has seen any inserts and purges in between, none of them past the reading of the clock
  -- at the second HELLO. Clock readings fit in an `i64`.
  pub answered_once :
      (h : Hello) (ip : IpAddr) (port : ℕ) (mode : ReplyMode) (m : Moment) (d : Draw) (s : Server)
      (datagram : Bytes)
      → IsI64 m.unix
      → IsMap s.seen_hellos.entries
      → (handle_hello p h ip port mode m d s).1 ≡ some datagram
      → (cs : List Call) (t : Server) (m' : Moment) → IsI64 m'.unix
      → All (λ c. clock c ≤ℤ m'.unix) cs
      → t.seen_hellos ≡ run cs (handle_hello p h ip port mode m d s).0.seen_hellos
      → t.config.hello_max_skew_seconds ≡ s.config.hello_max_skew_seconds
      → (h' : Hello) (ip' : IpAddr) (port' : ℕ) (mode' : ReplyMode) (d' : Draw)
      → replay_key h' ≡ replay_key h
      → h'.client_timestamp_unix ≡ h.client_timestamp_unix
      → (handle_hello p h' ip' port' mode' m' d' t).1 ≡ none
  answered_once h ip port mode m d s datagram i distinct answered cs t m' i' past seen skew h' ip'
        port' mode' d' key stamp =
      elim (Option-cases (handle_hello p h' ip' port' mode' m' d' t).1) [
        | inl silent ↦ silent
        | inr (datagram', answered') ↦ absurd (again datagram' answered')
      ]
    where
      timely' :
          (datagram' : Bytes)
          → (handle_hello p h' ip' port' mode' m' d' t).1 ≡ some datagram'
          → abs (m'.unix -ℤ h.client_timestamp_unix) ≤ s.config.hello_max_skew_seconds
      timely' datagram' answered' =
          let w = answered-IsWelcome p h' ip' port' mode' m' d' t datagram' answered' in
          subst (λ q. abs (m'.unix -ℤ q) ≤ s.config.hello_max_skew_seconds) stamp
            (subst (λ q. abs (m'.unix -ℤ h'.client_timestamp_unix) ≤ q) skew w.timely)

      again :
          (datagram' : Bytes) → (handle_hello p h' ip' port' mode' m' d' t).1 ≡ some datagram' → ⊥
      again datagram' answered' =
          let w = answered-IsWelcome p h ip port mode m d s datagram answered in
          let w' = answered-IsWelcome p h' ip' port' mode' m' d' t datagram' answered' in
          let ttl = seen_ttl s.config.hello_max_skew_seconds in
          let late =
            within_lifetime m.unix m'.unix h.client_timestamp_unix s.config.hello_max_skew_seconds i
              i' w.timely (timely' datagram' answered') in
          let rejected =
            seen_key_is_rejected (replay_key h) m.unix ttl s.seen_hellos distinct w.fresh cs
              (All-weaken cs m'.unix (expiry m.unix ttl) late past) m'.unix
              (seen_ttl t.config.hello_max_skew_seconds) late in
          let held : t.seen_hellos ≡ run cs (recorded h m s) =
            seen ∙ ap (run cs) (answered-seen h ip port mode m d s datagram answered) in
          stale_fresh (
            sym w'.fresh
            ∙ ap₂
                (λ k c.
                  (SeenCache.insert_if_absent k m'.unix (seen_ttl t.config.hello_max_skew_seconds)
                    c).1)
                key held
            ∙ ap (λ q. q.1) rejected)

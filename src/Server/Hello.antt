-- ===== src/Server/Hello.antt =====
-- `handle_hello` and `send_reply`.
pub mod Once
pub mod Answers
use signedpulse.Base.{
  ℕ, ◌+◌, ◌-◌, ◌*◌, ◌^◌, min, Bool, true, false, not, Option, none, some, ◌∷◌, ◌++◌, ltb,
  if◌then◌else◌, Result, ok, err, Bytes, ℤ, pos, ◌+ℤ◌, ◌-ℤ◌, min_ℤ, abs, i64_max, nat_key,
  bytes_key, ip_key, get, IpAddr,
}
use signedpulse.Crypto.{Primitives, seal_reply, verify_payload_raw}
use signedpulse.Protocol.Packet.{Hello, challenge, encode}
use signedpulse.Protocol.Payload.{hello_signing_payload}
use signedpulse.Protocol.Hex.{to_hex}
use signedpulse.NonceStore
use signedpulse.SeenCache
use signedpulse.RateLimit.HelloRateLimiter
use signedpulse.RateLimit.ActiveIps
use signedpulse.Server.State.{
  Server, Moment, ClientInfo, ReplyMode, cleartext, sealed, note_rejected,
}

-- The random values that an accepted HELLO draws: the challenge nonce and the AEAD nonce of the
-- reply; and whether the socket accepts the reply.
pub record Draw : Type 0 where
  pub nonce : Bytes
  pub seal_nonce : Bytes
  pub sent : Bool

-- `(now as i128 + ttl as i128).min(i64::MAX as i128)`
abbrev pub deadline : ℤ → ℕ → ℤ
deadline now ttl = min_ℤ (now +ℤ pos ttl) i64_max

-- `hello_max_skew_seconds.saturating_mul(2)`
abbrev pub seen_ttl : ℕ → ℕ
seen_ttl skew = min (skew * 2) (2 ^ 64 - 1)

abbrev pub replay_key : Hello → Bytes
replay_key h = h.client_id ++ 0 ∷ h.hello_nonce

abbrev is_ok : {E A : Type 0} → Result E A → Bool
is_ok (ok a) = true
is_ok (err e) = false

abbrev to_option : {E A : Type 0} → Result E A → Option A
to_option (ok a) = some a
to_option (err e) = none

module _ (p : Primitives) where
  abbrev pub hello_payload : Server → Hello → Bytes
  hello_payload s h =
      hello_signing_payload s.config.server_id (to_hex h.client_id) h.client_timestamp_unix
        (p.b64_encode h.hello_nonce)

  -- The datagram of a reply; `none` if it cannot be sealed.
  unfoldable pub frame_reply : Bytes → ReplyMode → Bytes → Bytes → Server → Option Bytes
  frame_reply seal_nonce cleartext bytes bind s = some bytes
  frame_reply seal_nonce (sealed peer_eph) bytes bind s = elim s.server_secret [
    | none ↦ none
    | some secret ↦ to_option (seal_reply p seal_nonce secret peer_eph bytes bind)
  ]

  -- The end of `handle_hello`: all checks have passed.
  unfoldable pub issue_challenge :
      Hello → IpAddr → ℕ → ReplyMode → Moment → Draw → Server → Server × Option Bytes
  unfolding frame_reply
  issue_challenge h ip port mode m d s =
      let expires_at = deadline m.unix s.config.nonce_ttl_seconds in
      let s' = record s {
        active_ips = ActiveIps.mark ip m.mono s.active_ips;
        nonce_store =
            NonceStore.insert d.nonce (to_hex h.client_id) ip port expires_at m.unix s.nonce_store;
      } in
      let reply =
        challenge
          (record { client_id = h.client_id; nonce = d.nonce; expires_at_unix = expires_at }) in
      elim (frame_reply d.seal_nonce mode (encode reply) h.hello_nonce s') [
        | none ↦ (s', none)
        | some datagram ↦ (
          (if d.sent
              then record s' {
                status = record s'.status { hello_accepted = s'.status.hello_accepted + 1 };
              }
              else s'),
          some datagram,
        )
      ]

  -- The replay test of step 5, for an authentic and timely HELLO.
  unfoldable pub admit_hello :
      Hello → IpAddr → ℕ → ReplyMode → Moment → Draw → Server → Server × Option Bytes
  unfolding issue_challenge
  admit_hello h ip port mode m d s =
      let ttl = seen_ttl s.config.hello_max_skew_seconds in
      let (seen, fresh) = SeenCache.insert_if_absent (replay_key h) m.unix ttl s.seen_hellos in
      let s' = record s { seen_hellos = seen } in
      if fresh then issue_challenge h ip port mode m d s' else (note_rejected true m s', none)

  -- Steps 3 and 4, for a configured client.
  unfoldable pub authenticate_hello :
      Hello → ClientInfo → IpAddr → ℕ → ReplyMode → Moment → Draw → Server → Server × Option Bytes
  unfolding admit_hello
  authenticate_hello h info ip port mode m d s =
      if not (is_ok (verify_payload_raw p info.verifying_key (hello_payload s h) h.signature))
      then (note_rejected false m s, none)
      else if ltb s.config.hello_max_skew_seconds (abs (m.unix -ℤ h.client_timestamp_unix))
      then (note_rejected false m s, none)
      else admit_hello h ip port mode m d s

  -- The new state, and the datagram that is sent to the peer, if any.
  unfoldable pub handle_hello :
      Hello → IpAddr → ℕ → ReplyMode → Moment → Draw → Server → Server × Option Bytes
  unfolding authenticate_hello
  handle_hello h ip port mode m d s =
      let (limiter, allowed) = HelloRateLimiter.check_at ip m.mono s.rate_limiter in
      let s' = record s { rate_limiter = limiter } in
      if not allowed then (note_rejected false m s', none) else elim (get h.client_id s'.clients) [
        | none ↦ (note_rejected false m s', none)
        | some info ↦ authenticate_hello h info ip port mode m d s'
      ]

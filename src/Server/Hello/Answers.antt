-- ===== src/Server/Hello/Answers.antt =====
-- When a HELLO is answered, and that it is answered once.
use signedpulse.Base.{
  ℕ, ◌≤◌, ◌≡◌, inl, inr, true, some, arith, Option-cases, ok, Bytes, ◌-ℤ◌, abs, nat_key, bytes_key,
  ip_key, get, IpAddr,
}
use signedpulse.Crypto.{Primitives, verify_payload_raw}
use signedpulse.Protocol.Packet.{Hello}
use signedpulse.SeenCache
use signedpulse.SeenCache.{SeenCache}
use signedpulse.RateLimit.HelloRateLimiter
use signedpulse.RateLimit.HelloRateLimiter.{HelloRateLimiter}
use signedpulse.Server.State.{Server, Moment, ClientInfo, ReplyMode}
use signedpulse.Server.Hello.{
  Draw, seen_ttl, replay_key, hello_payload, handle_hello, authenticate_hello, admit_hello,
}

module _ (p : Primitives) where
  -- What a HELLO proves to be answered at the moment `m`.
  pub record IsWelcome (h : Hello) (ip : IpAddr) (m : Moment) (s : Server) : Type 0 where
    pub info : ClientInfo
    pub allowed : (HelloRateLimiter.check_at ip m.mono s.rate_limiter).1 ≡ true
    pub known : get h.client_id s.clients ≡ some info
    pub signed : verify_payload_raw p info.verifying_key (hello_payload p s h) h.signature ≡ ok tt
    pub timely : abs (m.unix -ℤ h.client_timestamp_unix) ≤ s.config.hello_max_skew_seconds
    pub fresh :
        (SeenCache.insert_if_absent
          (replay_key h)
          m.unix
          (seen_ttl s.config.hello_max_skew_seconds)
          s.seen_hellos).1
        ≡ true

  admit_lem :
      (h : Hello) (ip : IpAddr) (port : ℕ) (mode : ReplyMode) (m : Moment) (d : Draw) (s : Server)
      (datagram : Bytes)
      → (admit_hello p h ip port mode m d s).1 ≡ some datagram
      → (SeenCache.insert_if_absent
          (replay_key h)
          m.unix
          (seen_ttl s.config.hello_max_skew_seconds)
          s.seen_hellos).1
        ≡ true
  unfolding admit_hello
  admit_lem h ip port mode m d s datagram e = ground arith

  authenticate_lem :
      (h : Hello) (info : ClientInfo) (ip : IpAddr) (port : ℕ) (mode : ReplyMode) (m : Moment)
      (d : Draw) (s : Server) (datagram : Bytes)
      → (authenticate_hello p h info ip port mode m d s).1 ≡ some datagram
      → (verify_payload_raw p info.verifying_key (hello_payload p s h) h.signature ≡ ok tt)
        × (abs (m.unix -ℤ h.client_timestamp_unix) ≤ s.config.hello_max_skew_seconds)
        × ((admit_hello p h ip port mode m d s).1 ≡ some datagram)
  unfolding authenticate_hello verify_payload_raw
  authenticate_lem h info ip port mode m d s datagram e = ground arith

  abbrev counted : IpAddr → Moment → Server → Server
  counted ip m s = record s {
    rate_limiter = (HelloRateLimiter.check_at ip m.mono s.rate_limiter).0;
  }

  handle_lem :
      (h : Hello) (ip : IpAddr) (port : ℕ) (mode : ReplyMode) (m : Moment) (d : Draw) (s : Server)
      (datagram : Bytes)
      → (handle_hello p h ip port mode m d s).1 ≡ some datagram
      → ((HelloRateLimiter.check_at ip m.mono s.rate_limiter).1 ≡ true)
        × ((info : ClientInfo) × (get h.client_id s.clients ≡ some info)
            × ((authenticate_hello p h info ip port mode m d (counted ip m s)).1 ≡ some datagram))
  unfolding handle_hello
  handle_lem h ip port mode m d s datagram e = elim (Option-cases (get h.client_id s.clients)) [
    | inl missing ↦ absurd (ground (arith, missing, e))
    | inr (info, found) ↦ (ground (arith, found, e), (info, found, ground (arith, found, e)))
  ]

  -- A HELLO is answered with a datagram only if the rate limiter allows its source address, its
  -- client is configured, its signature verifies under that client's key, its timestamp is within
  -- the allowed skew of the clock, and its client and nonce are not in the replay cache.
  pub answered-IsWelcome :
      (h : Hello) (ip : IpAddr) (port : ℕ) (mode : ReplyMode) (m : Moment) (d : Draw) (s : Server)
      (datagram : Bytes)
      → (handle_hello p h ip port mode m d s).1 ≡ some datagram
      → IsWelcome h ip m s
  answered-IsWelcome h ip port mode m d s datagram e =
      let (allowed, (info, known, later)) = handle_lem h ip port mode m d s datagram e in
      let (signed, timely, admitted) =
        authenticate_lem h info ip port mode m d (counted ip m s) datagram later in
      record {
        info = info;
        allowed = allowed;
        known = known;
        signed = signed;
        timely = timely;
        fresh = admit_lem h ip port mode m d (counted ip m s) datagram admitted;
      }

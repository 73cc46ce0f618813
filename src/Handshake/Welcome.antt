-- ===== src/Handshake/Welcome.antt =====
-- A HELLO that passes every check is answered.
use signedpulse.Base.{
  ℕ, ◌≡◌, refl, sym, ◌∙◌, subst, Option, some, arith, Bytes, nat_key, bytes_key, ip_key, get,
  get-insert_self, IpAddr,
}
use signedpulse.Crypto.{Primitives}
use signedpulse.Protocol.Packet.{Hello, Challenge, challenge, encode}
use signedpulse.NonceStore
use signedpulse.NonceStore.{fresh_entry}
use signedpulse.SeenCache
use signedpulse.RateLimit.HelloRateLimiter
use signedpulse.RateLimit.ActiveIps
use signedpulse.Protocol.Hex.{to_hex}
use signedpulse.Server.State.{ReplyMode, sealed, Server, Moment, cleartext}
use signedpulse.Server.Hello.{
  frame_reply, Draw, deadline, seen_ttl, replay_key, frame_reply, issue_challenge, admit_hello,
  authenticate_hello, handle_hello,
}
use signedpulse.Server.Hello.Answers.{IsWelcome}

abbrev pub challenge_of : Hello → Moment → Draw → Server → Challenge
challenge_of h m d s = record {
  client_id = h.client_id;
  nonce = d.nonce;
  expires_at_unix = deadline m.unix s.config.nonce_ttl_seconds;
}

-- The state and the datagram of `q` are those of an answer to `h` in the state `s`.
pub record IsAnswered (h : Hello) (ip : IpAddr) (port : ℕ) (m : Moment) (d : Draw) (s : Server)
    (datagram : Bytes) (q : Server × Option Bytes) : Type 0 where
  pub reply : q.1 ≡ some datagram
  pub issued :
      get d.nonce q.0.nonce_store.entries
      ≡ some (
          fresh_entry
            (to_hex h.client_id)
            ip
            port
            (deadline m.unix s.config.nonce_ttl_seconds)
            m.unix)
  pub clients : q.0.clients ≡ s.clients
  pub config : q.0.config ≡ s.config
  pub cooldown : q.0.cooldown ≡ s.cooldown
  pub leases : q.0.leases ≡ s.leases
  pub secret : q.0.server_secret ≡ s.server_secret

module _ (p : Primitives) where
  -- The challenge goes out in the mode as the datagram.
  abbrev pub IsFramed : Hello → ReplyMode → Moment → Draw → Server → Bytes → Type 0
  IsFramed h mode m d s datagram =
      frame_reply p d.seal_nonce mode (encode (challenge (challenge_of h m d s))) h.hello_nonce s
      ≡ some datagram

  frame_lem :
      (nonce : Bytes) (mode : ReplyMode) (bytes bind : Bytes) (s t : Server)
      → t.server_secret ≡ s.server_secret
      → frame_reply p nonce mode bytes bind t ≡ frame_reply p nonce mode bytes bind s
  unfolding frame_reply
  frame_lem nonce cleartext bytes bind s t same = refl
  frame_lem nonce (sealed eph) bytes bind s t same = ground (arith, same)

  -- The store's entry for the challenge, in the state that it is issued in.
  abbrev held : Hello → IpAddr → ℕ → Moment → Draw → Server → Server
  held h ip port m d s = record s {
    active_ips = ActiveIps.mark ip m.mono s.active_ips;
    nonce_store =
        NonceStore.insert d.nonce (to_hex h.client_id) ip port
          (deadline m.unix s.config.nonce_ttl_seconds) m.unix s.nonce_store;
  }

  issue_lem :
      (h : Hello) (ip : IpAddr) (port : ℕ) (mode : ReplyMode) (m : Moment) (d : Draw) (s : Server)
      (datagram : Bytes)
      → IsFramed h mode m d s datagram
      → IsAnswered h ip port m d s datagram (issue_challenge p h ip port mode m d s)
  unfolding issue_challenge NonceStore.insert
  issue_lem h ip port mode m d s datagram framed =
      let f =
        frame_lem d.seal_nonce mode (encode (challenge (challenge_of h m d s))) h.hello_nonce s
          (held h ip port m d s) refl
        ∙ framed in
      record {
        reply = ground (arith, f);
        issued = ground (
          arith,
          f,
          get-insert_self d.nonce
              (fresh_entry (to_hex h.client_id) ip port (deadline m.unix s.config.nonce_ttl_seconds)
                m.unix)
              s.nonce_store.entries,
        );
        clients = ground (arith, f);
        config = ground (arith, f);
        cooldown = ground (arith, f);
        leases = ground (arith, f);
        secret = ground (arith, f);
      }

  -- The state in which the checks on `h` that count it have been made.
  abbrev counted : Hello → IpAddr → Moment → Server → Server
  counted h ip m s = record s {
    rate_limiter = (HelloRateLimiter.check_at ip m.mono s.rate_limiter).0;
    seen_hellos =
        (SeenCache.insert_if_absent (replay_key h) m.unix (seen_ttl s.config.hello_max_skew_seconds)
          s.seen_hellos).0;
  }

  welcome_lem :
      (h : Hello) (ip : IpAddr) (port : ℕ) (mode : ReplyMode) (m : Moment) (d : Draw) (s : Server)
      → IsWelcome p h ip m s
      → handle_hello p h ip port mode m d s
        ≡ issue_challenge p h ip port mode m d (counted h ip m s)
  unfolding handle_hello authenticate_hello admit_hello
  welcome_lem h ip port mode m d s w =
      ground (arith, w.allowed, w.known, w.signed, w.timely, w.fresh)

  -- A HELLO that the rate limiter allows and whose client is configured, whose signature verifies,
  -- whose timestamp is within the skew and whose replay key is new is answered with the challenge
  -- of the nonce drawn, framed for its mode; the store then holds the nonce, unused, for the
  -- client and the endpoint; clients, configuration, cooldowns, leases and key stay as they were.
  pub welcome-IsAnswered :
      (h : Hello) (ip : IpAddr) (port : ℕ) (mode : ReplyMode) (m : Moment) (d : Draw) (s : Server)
      (datagram : Bytes)
      → IsWelcome p h ip m s
      → IsFramed h mode m d s datagram
      → IsAnswered h ip port m d s datagram (handle_hello p h ip port mode m d s)
  welcome-IsAnswered h ip port mode m d s datagram w framed =
      let a = issue_lem h ip port mode m d (counted h ip m s) datagram (
        frame_lem d.seal_nonce mode (encode (challenge (challenge_of h m d s))) h.hello_nonce s
          (counted h ip m s) refl
        ∙ framed) in
      subst (IsAnswered h ip port m d s datagram) (sym (welcome_lem h ip port mode m d s w))
        (record {
          reply = a.reply;
          issued = a.issued;
          clients = a.clients;
          config = a.config;
          cooldown = a.cooldown;
          leases = a.leases;
          secret = a.secret;
        })

-- ===== src/Handshake/Attempt.antt =====
-- What an attempt of a client comes to, however its datagrams are framed.
use signedpulse.Base.{
  zero, suc, ◌∷◌, suc, take, length, ℕ, ◌≤◌, ◌≡◌, refl, sym, ap, ap₂, ◌∙◌, true, false, Option,
  none, some, [], arith, ok, Bytes, ◌-ℤ◌, ◌≤ℤ◌, abs, nat_key, bytes_key, ip_key, get, IpAddr, codes,
}
use signedpulse.Crypto.{Primitives, IsSigning, sign_payload_raw, verify_payload_raw}
use signedpulse.Protocol.Packet.{Hello, Challenge, Response, hello, challenge, response, IsPacket}
use signedpulse.Protocol.Packet.Size.{length-encode_hello, length-encode_response}
use signedpulse.Protocol.Payload.{response_signing_payload}
use signedpulse.Protocol.Hex.{to_hex}
use signedpulse.NonceStore.{fresh_entry}
use signedpulse.RateLimit.CooldownTracker
use signedpulse.RateLimit.HelloRateLimiter
use signedpulse.SeenCache
use signedpulse.Client.Target.{ServerTarget}
use signedpulse.Client.Cycle.{
  renew, Draws, hello_of, advertised, send_hello, read_challenge, answer_challenge, attempt_once,
}
use signedpulse.Server.State.{Server, Moment, ClientInfo, HookCall, ReplyMode}
use signedpulse.Server.Hello.{Draw, deadline, seen_ttl, replay_key, hello_payload}
use signedpulse.Server.Hello.Answers.{IsWelcome}
use signedpulse.Server.Session.{verifies}
use signedpulse.Server.Param.{read_param}
use signedpulse.Server.Session.Proof.{IsProven}
use signedpulse.Server.Response.{session_of, id_key, start_response}
use signedpulse.Server.Response.Passing.{call_of, proven-granted}
use signedpulse.Server.Receive.{handle_datagram}
use signedpulse.Server.Receive.Delivery.{IsCarried, hello_arrives, response_arrives}
use signedpulse.Handshake.Welcome.{challenge_of, IsAnswered, IsFramed, welcome-IsAnswered}

-- A datagram that fits the buffer is read whole.
pub take_all : (n : ℕ) (xs : Bytes) → length xs ≤ n → take n xs ≡ xs
take_all zero [] h = refl
take_all (suc n) [] h = refl
take_all zero (x ∷ xs) h = absurd (omega (arith, h))
take_all (suc n) (x ∷ xs) h = ap (λ q. x ∷ q) (take_all n xs (omega (arith, h)))

module _ (p : Primitives) (ed25519_public : Bytes → Bytes) (lawful : IsSigning p ed25519_public)
    (signing_key client_id : Bytes) (t : ServerTarget) (d : Draws) where
  abbrev pub greeting : Hello
  greeting = hello_of p signing_key client_id t d

  abbrev pub reply_to : Challenge → Response
  reply_to c = record {
    client_id = client_id;
    nonce = c.nonce;
    interval_seconds = advertised t;
    param = none;
    signature = sign_payload_raw p signing_key (
        response_signing_payload t.server_id (to_hex client_id) (p.b64_encode c.nonce)
          (advertised t) c.expires_at_unix []);
  }

  -- The client that the server has as `info` holds the signing key, the two agree on the server's
  -- id, and the HELLO comes in time, within its rate and for the first time, at the moment `m`.
  pub record IsExpected (info : ClientInfo) (ip : IpAddr) (m : Moment) (s : Server) : Type 0 where
    pub known : get client_id s.clients ≡ some info
    pub key : info.verifying_key ≡ ed25519_public signing_key
    pub server_id : t.server_id ≡ s.config.server_id
    pub allowed : (HelloRateLimiter.check_at ip m.mono s.rate_limiter).1 ≡ true
    pub timely : abs (m.unix -ℤ d.timestamp) ≤ s.config.hello_max_skew_seconds
    pub fresh :
        (SeenCache.insert_if_absent
          (replay_key greeting)
          m.unix
          (seen_ttl s.config.hello_max_skew_seconds)
          s.seen_hellos).1
        ≡ true

  expected-IsWelcome :
      (info : ClientInfo) (ip : IpAddr) (m : Moment) (s : Server)
      → IsExpected info ip m s
      → IsWelcome p greeting ip m s
  unfolding verify_payload_raw sign_payload_raw
  expected-IsWelcome info ip m s e = record {
    info = info;
    allowed = e.allowed;
    known = e.known;
    signed =
        ground
          (arith, e.key, e.server_id, lawful.verifies signing_key (hello_payload p s greeting));
    timely = e.timely;
    fresh = e.fresh;
  }

  signed_lem :
      (info : ClientInfo) (c : Challenge) (u : Server)
      → info.verifying_key ≡ ed25519_public signing_key
      → u.config.server_id ≡ t.server_id
      → verifies p response_signing_payload (session_of (reply_to c)) info c.expires_at_unix u
        ≡ true
  unfolding verifies verify_payload_raw sign_payload_raw
  signed_lem info c u key same =
      let text : Bytes → Bytes = λ x.
        response_signing_payload x (to_hex client_id) (p.b64_encode c.nonce) (advertised t)
          c.expires_at_unix [] in
      let v : p.verify_strict info.verifying_key (text u.config.server_id)
            (p.ed25519_sign signing_key (text t.server_id))
          ≡ true =
        ap₂ (λ k x. p.verify_strict k (text x) (p.ed25519_sign signing_key (text t.server_id))) key
          same
        ∙ lawful.verifies signing_key (text t.server_id) in
      ground (arith, v)

  granted_lem :
      (info : ClientInfo) (ip : IpAddr) (port : ℕ) (m m' m'' : Moment) (dr : Draw) (s u : Server)
      (datagram : Bytes) (reply : Option Bytes)
      → IsExpected info ip m s
      → IsAnswered greeting ip port m dr s datagram (u, reply)
      → m'.unix ≤ℤ deadline m.unix s.config.nonce_ttl_seconds
      → m''.unix ≤ℤ deadline m.unix s.config.nonce_ttl_seconds
      → CooldownTracker.in_cooldown (id_key (to_hex client_id)) m''.mono u.cooldown ≡ false
      → (start_response p (reply_to (challenge_of greeting m dr s)) ip port m' m'' u).1
        ≡ some (info, call_of (reply_to (challenge_of greeting m dr s)) none ip port m'' u)
  unfolding read_param
  granted_lem info ip port m m' m'' dr s u datagram reply e a early early' cool =
      let r = reply_to (challenge_of greeting m dr s) in
      let w : IsProven p response_signing_payload (session_of r) ip port m' u info = record {
        entry =
            fresh_entry (to_hex client_id) ip port (deadline m.unix s.config.nonce_ttl_seconds)
              m.unix;
        known = ap (get client_id) a.clients ∙ e.known;
        issued = a.issued;
        bound = record {
          unused = refl;
          alive = early;
          client = refl;
          source = refl;
          source_port = refl;
        };
        signed =
            signed_lem info (challenge_of greeting m dr s) u e.key
              (ap (λ q. q.server_id) a.config ∙ sym e.server_id);
      } in
      (proven-granted p r none ip port m' m'' u info w
        (record { unused = refl; alive = early'; client = refl; source = refl; source_port = refl })
        refl cool).0

  -- What the framing has to do: it carries the HELLO to the server, the challenge to the client
  -- and the RESPONSE to the server.
  pub record Link (ip : IpAddr) (port : ℕ) (m : Moment) (dr : Draw) (s : Server) : Type 0 where
    pub first : Bytes
    pub session : Option Bytes
    pub mode : ReplyMode
    pub mode' : ReplyMode
    pub datagram : Bytes
    pub last : Bytes
    pub sends : send_hello p signing_key client_id t d ≡ ok (first, session)
    pub carries : IsCarried p s first (hello greeting) mode
    pub frames : IsFramed p greeting mode m dr s datagram
    pub reads : read_challenge p client_id t d session datagram ≡ ok (challenge_of greeting m dr s)
    pub answers :
        answer_challenge p signing_key client_id t d none renew (challenge_of greeting m dr s)
        ≡ ok last
    pub returns :
        (u : Server)
        → u.config ≡ s.config
        → u.server_secret ≡ s.server_secret
        → IsCarried p u last (response (reply_to (challenge_of greeting m dr s))) mode'

  -- What an attempt over the network of this server comes to, at the moments `m` of the HELLO and
  -- `m'` and `m''` of the RESPONSE.
  pub record IsComplete (ip : IpAddr) (port : ℕ) (m m' m'' : Moment) (dr dr' : Draw) (s : Server)
      : Type 0 where
    pub first : Bytes
    pub session : Option Bytes
    pub last : Bytes
    pub call : HookCall
    pub starts : send_hello p signing_key client_id t d ≡ ok (first, session)
    pub ends :
        attempt_once p signing_key client_id t d none renew
          (λ datagram. (handle_datagram p datagram ip port m m dr s).1.reply)
        ≡ ok last
    pub runs :
        (handle_datagram p last ip port m' m'' dr'
          (handle_datagram p first ip port m m dr s).0).1.hook
        ≡ some call
    pub client : call.client_id ≡ to_hex client_id
    pub source : call.source_ip ≡ ip
    pub source_port : call.source_port ≡ port
    pub bare : call.param ≡ none
    pub reason : call.reason ≡ codes "grant"

  -- The sizes that the types of the packets' fields give.
  pub record IsSized (m : Moment) (dr : Draw) (s : Server) : Type 0 where
    pub of_hello : IsPacket (hello greeting)
    pub of_challenge : IsPacket (challenge (challenge_of greeting m dr s))
    pub of_response : IsPacket (response (reply_to (challenge_of greeting m dr s)))

  -- The moments at which the RESPONSE is checked and committed.
  pub record IsTimely (m m' m'' : Moment) (s : Server) : Type 0 where
    pub checked : m'.unix ≤ℤ deadline m.unix s.config.nonce_ttl_seconds
    pub committed : m''.unix ≤ℤ deadline m.unix s.config.nonce_ttl_seconds
    pub warm : CooldownTracker.in_cooldown (id_key (to_hex client_id)) m''.mono s.cooldown ≡ false

  attempt_lem :
      (c : Challenge) (first datagram last : Bytes) (session : Option Bytes)
      (network : Bytes → Option Bytes)
      → send_hello p signing_key client_id t d ≡ ok (first, session)
      → network first ≡ some datagram
      → read_challenge p client_id t d session datagram ≡ ok c
      → answer_challenge p signing_key client_id t d none renew c ≡ ok last
      → attempt_once p signing_key client_id t d none renew network ≡ ok last
  unfolding attempt_once
  attempt_lem c first datagram last session network sends replies reads answers =
      ground (arith, sends, replies, reads, answers)

  pub linked-IsComplete :
      (info : ClientInfo) (ip : IpAddr) (port : ℕ) (m m' m'' : Moment) (dr dr' : Draw) (s : Server)
      → IsExpected info ip m s
      → IsSized m dr s
      → IsTimely m m' m'' s
      → Link ip port m dr s
      → IsComplete ip port m m' m'' dr dr' s
  linked-IsComplete info ip port m m' m'' dr dr' s e sized timely l =
      let c = challenge_of greeting m dr s in
      let r = reply_to c in
      let q = handle_datagram p l.first ip port m m dr s in
      let (state, reply) =
        hello_arrives p s ip port m m dr l.first greeting l.mode l.carries sized.of_hello
          (omega (arith, length-encode_hello greeting sized.of_hello)) in
      let a =
        welcome-IsAnswered p greeting ip port l.mode m dr s l.datagram
          (expected-IsWelcome info ip m s e) l.frames in
      let a' : IsAnswered greeting ip port m dr s l.datagram (q.0, q.1.reply) = record {
        reply = reply ∙ a.reply;
        issued = ap (λ (x : Server). get dr.nonce x.nonce_store.entries) state ∙ a.issued;
        clients = ap (λ (x : Server). x.clients) state ∙ a.clients;
        config = ap (λ (x : Server). x.config) state ∙ a.config;
        cooldown = ap (λ (x : Server). x.cooldown) state ∙ a.cooldown;
        leases = ap (λ (x : Server). x.leases) state ∙ a.leases;
        secret = ap (λ (x : Server). x.server_secret) state ∙ a.secret;
      } in
      let call = call_of r none ip port m'' q.0 in
      let called =
        granted_lem info ip port m m' m'' dr s q.0 l.datagram q.1.reply e a' timely.checked
          timely.committed
          (ap (CooldownTracker.in_cooldown (id_key (to_hex client_id)) m''.mono) a'.cooldown
            ∙ timely.warm) in
      record {
        first = l.first;
        session = l.session;
        last = l.last;
        call = call;
        starts = l.sends;
        ends =
            attempt_lem c l.first l.datagram l.last l.session
              (λ datagram. (handle_datagram p datagram ip port m m dr s).1.reply) l.sends a'.reply
              l.reads l.answers;
        runs =
            response_arrives p q.0 ip port m' m'' dr' l.last r l.mode' info call
              (l.returns q.0 a'.config a'.secret) sized.of_response
              (omega (arith, length-encode_response r sized.of_response refl)) called;
        client = refl;
        source = refl;
        source_port = refl;
        bare = refl;
        reason = refl;
      }

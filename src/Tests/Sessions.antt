-- ===== src/Tests/Sessions.antt =====
-- The handshake of one client: a HELLO, its replay, a RESPONSE, its replay, and a BYE.
use signedpulse.Base.{
  ◌≡◌, refl, true, false, none, some, [], ◌∷◌, ◌++◌, arith, length, replicate, Bytes, pos, ◌+ℤ◌,
  ◌-ℤ◌, nat_key, bytes_key, ip_key, get, insert, remove, bytes_dec, ip_dec, ℕ_discrete, from_secs,
  codes,
}
use signedpulse.Protocol.Packet.{Hello, Response, Bye, hello, encode, decode}
use signedpulse.Protocol.Payload.{response_signing_payload, bye_signing_payload}
use signedpulse.Protocol.Hex.{to_hex}
use signedpulse.NonceStore
use signedpulse.NonceStore.{NonceEntry}
use signedpulse.Server.State.{Server, ClientInfo, HookCall, cleartext}
use signedpulse.Server.Hello.{Draw, handle_hello}
use signedpulse.Server.Hello.Answers.{IsWelcome}
use signedpulse.Server.Hello.Once.{answered_once}
use signedpulse.SeenCache.Replay.{purges, run}
use signedpulse.Server.Response
use signedpulse.Server.Response.{start_response}
use signedpulse.Server.Response.Grants.{IsFor, grant-IsProven, spent_nonce_is_refused}
use signedpulse.Server.Bye
use signedpulse.Server.Bye.{start_bye}
use signedpulse.Server.Bye.Releases.{revoke-IsProven}
use signedpulse.Server.Session.Proof.{IsProven, IsUsed}
use signedpulse.Server.Receive.{receive}
use signedpulse.Server.Receive.Silence.{IsLetIn, Carries, only_hellos_are_answered}
use signedpulse.RateLimit.HelloRateLimiter.{check_at}
use signedpulse.Crypto.{verify_payload_raw}
use signedpulse.Protocol.Payload.{hello_signing_payload}
use signedpulse.SeenCache.{insert_if_absent}
use signedpulse.Protocol.Words.{to_le, i64_bits}
use signedpulse.RateLimit.LeaseTracker.{release_at, renew_at, others_on_ip, count}
use signedpulse.RateLimit.ActiveIps.{mark}
use signedpulse.RateLimit.CooldownTracker.{in_cooldown}
use signedpulse.Server.Session.{check_session, consume_session}
use signedpulse.Server.Param.{decrypt_param}
use signedpulse.Server.Response.{lease_ttl}
use signedpulse.Tests.{toy, server, alice, alice_info, home, away, second}

abbrev greeting : Hello
greeting = record {
  client_id = alice;
  client_timestamp_unix = pos 1_700_000_010;
  hello_nonce = replicate 16 3;
  signature = replicate 64 169;
}

abbrev draw : Draw
draw = record { nonce = replicate 32 5; seal_nonce = []; sent = true }

abbrev answer : Bytes
answer = 90 ∷ 33 ∷ (alice ++ (replicate 32 5 ++ (0x1e ∷ 0xf1 ∷ 0x53 ∷ 0x65 ∷ 0 ∷ 0 ∷ 0 ∷ 0 ∷ [])))

answered : (handle_hello toy greeting home 4000 cleartext (second 0) draw server).1 ≡ some answer
unfolding handle_hello check_at get bytes_dec verify_payload_raw hello_signing_payload to_hex ◌-ℤ◌
    ◌+ℤ◌ insert_if_absent encode signedpulse.Protocol.Words.to_le
    signedpulse.Protocol.Words.i64_bits
answered = refl

-- The state of the server after the HELLO.
abbrev greeted : Server
greeted = (handle_hello toy greeting home 4000 cleartext (second 0) draw server).0

abbrev later : Server
later = record greeted { seen_hellos = run (purges (pos 1_700_000_020) ∷ []) greeted.seen_hellos }

answered_once_example : (handle_hello toy greeting away 9 cleartext (second 30) draw later).1 ≡ none
unfolding handle_hello check_at get bytes_dec verify_payload_raw hello_signing_payload run to_hex
    ◌-ℤ◌ insert_if_absent
answered_once_example =
    answered_once toy greeting home 4000 cleartext (second 0) draw server answer
      (omega arith, omega arith) tt answered (purges (pos 1_700_000_020) ∷ []) later (second 30)
      (omega arith, omega arith) (omega arith, tt) refl refl greeting away 9 cleartext draw refl
      refl

abbrev reply : Response
reply = record {
  client_id = alice;
  nonce = replicate 32 5;
  interval_seconds = 300;
  param = none;
  signature = replicate 64 203;
}

abbrev call : HookCall
call = record {
  client_id = to_hex alice;
  source_ip = home;
  source_port = 4000;
  param = none;
  is_new = true;
  reason = codes "grant";
  ip_clients = 0;
}

granted :
    (start_response toy reply home 4000 (second 5) (second 6) greeted).1 ≡ some (alice_info, call)
unfolding start_response check_session get handle_hello check_at bytes_dec verify_payload_raw
    hello_signing_payload to_hex ◌-ℤ◌ insert_if_absent NonceStore.validate NonceStore.consume
    NonceStore.insert insert ◌+ℤ◌ ip_dec response_signing_payload ℕ_discrete renew_at others_on_ip
    count mark in_cooldown lease_ttl decrypt_param consume_session
granted = refl

grant-IsProven_example :
    IsProven toy response_signing_payload
      (Response.session_of reply)
      home
      4000
      (second 5)
      greeted
      alice_info
    × IsFor reply home 4000 call
    × IsUsed reply.nonce (start_response toy reply home 4000 (second 5) (second 6) greeted).0
grant-IsProven_example =
    grant-IsProven toy reply home 4000 (second 5) (second 6) greeted alice_info call granted

abbrev leave : Bye
leave = record {
  client_id = alice;
  nonce = replicate 32 5;
  interval_seconds = 300;
  param = none;
  signature = replicate 64 198;
}

abbrev served : Server
served = (start_response toy reply home 4000 (second 5) (second 6) greeted).0

spent_nonce_is_refused_example :
    ((start_response toy reply home 4000 (second 7) (second 7) served).1 ≡ none)
    × ((start_bye toy leave home 4000 (second 7) (second 7) served).1 ≡ none)
spent_nonce_is_refused_example =
    spent_nonce_is_refused toy reply home 4000 (second 5) (second 6) greeted alice_info call granted
      reply leave home 4000 (second 7) (second 7) refl refl

abbrev leased : Server
leased = record greeted {
  leases = record {
    max_entries = 100;
    leases =
        (
          to_hex alice,
          record { expires_at = from_secs 900; ip = home; source_port = 4000; param = none },
        )
        ∷ [];
  };
}

abbrev release : HookCall
release = record {
  client_id = to_hex alice;
  source_ip = home;
  source_port = 4000;
  param = none;
  is_new = false;
  reason = codes "bye";
  ip_clients = 0;
}

revoked : (start_bye toy leave home 4000 (second 7) (second 7) leased).1 ≡ some release
unfolding start_bye check_session get handle_hello check_at bytes_dec verify_payload_raw
    hello_signing_payload to_hex ◌-ℤ◌ insert_if_absent NonceStore.validate NonceStore.consume
    NonceStore.insert insert ◌+ℤ◌ ip_dec bye_signing_payload ℕ_discrete release_at count
    decrypt_param consume_session remove
revoked = refl

revoke-IsProven_example :
    ((info : ClientInfo) × IsProven toy bye_signing_payload
        (Bye.session_of leave)
        home
        4000
        (second 7)
        leased
        info)
    × (release.client_id ≡ to_hex alice)
    × (leased.has_revoke ≡ true)
revoke-IsProven_example =
    revoke-IsProven toy leave home 4000 (second 7) (second 7) leased release revoked

abbrev datagram : Bytes
datagram = encode (hello greeting)

received : (receive toy datagram home 4000 (second 0) (second 0) draw server).1.reply ≡ some answer
unfolding receive handle_hello check_at get bytes_dec verify_payload_raw hello_signing_payload
    to_hex ◌-ℤ◌ ◌+ℤ◌ insert_if_absent encode decode to_le i64_bits
    signedpulse.RateLimit.Blacklist.is_blocked signedpulse.RateLimit.Blacklist.under_attack
    signedpulse.Protocol.Reader.u8 signedpulse.Protocol.Reader.take signedpulse.Protocol.Reader.new
    signedpulse.Protocol.Words.from_le signedpulse.Protocol.Reader.array
    signedpulse.Protocol.Reader.i64 signedpulse.Protocol.Reader.is_empty
    signedpulse.Protocol.Words.i64_of_bits
received = refl

only_hellos_are_answered_example :
    IsLetIn (length datagram) home (second 0) server
    × ((h : Hello) × Carries toy datagram server (hello h) × IsWelcome toy h home (second 0) server)
only_hellos_are_answered_example =
    only_hellos_are_answered toy datagram home 4000 (second 0) (second 0) draw server answer
      received

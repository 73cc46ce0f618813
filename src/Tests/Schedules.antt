-- ===== src/Tests/Schedules.antt =====
-- The schedules of the server's tasks on concrete datagrams.
use signedpulse.Base.{
  arith, ◌≤◌, refl, true, none, List, [], ◌∷◌, replicate, pos, nat_key, bytes_key, ip_key,
}
use signedpulse.Protocol.Packet.{Hello, Response, encode, hello, response}
use signedpulse.Server.State.{cleartext}
use signedpulse.Server.Hello.{Draw}
use signedpulse.Server.Interleaving.{
  Event, greets, checks_response, commits_response, hooked, drawn, run,
}
use signedpulse.Server.Interleaving.Once.{hooks_at_most_once}
use signedpulse.Server.Interleaving.Tables.{IsBounded}
use signedpulse.Server.Interleaving.Bounded.{tables_stay_bounded}
use signedpulse.Server.Receive.Serving.{
  Turn, Step, receives, cleans, hooks_for, draws_of, datagrams_call_once,
}
use signedpulse.Tests.Configs.{config, started, starts}
use signedpulse.Tests.{toy, server, alice, alice_info, home, second}

abbrev greeting : Hello
greeting = record {
  client_id = alice;
  client_timestamp_unix = pos 1_700_000_010;
  hello_nonce = replicate 16 3;
  signature = replicate 64 169;
}

abbrev draw : Draw
draw = record { nonce = replicate 32 5; seal_nonce = []; sent = true }

abbrev reply : Response
reply = record {
  client_id = alice;
  nonce = replicate 32 5;
  interval_seconds = 300;
  param = none;
  signature = replicate 64 203;
}

-- Two tasks check one RESPONSE before either commits it.
abbrev race : List Event
race =
    greets greeting home 4000 cleartext (second 0) draw
    ∷ checks_response reply home 4000 (second 5)
    ∷ checks_response reply home 4000 (second 5)
    ∷ commits_response reply alice_info home 4000 (second 6)
    ∷ commits_response reply alice_info home 4000 (second 6)
    ∷ []

hooks_at_most_once_example : hooked toy (replicate 32 5) race server ≤ drawn (replicate 32 5) race
hooks_at_most_once_example = hooks_at_most_once toy (replicate 32 5) race server refl

abbrev hello_turn : Turn
hello_turn = record {
  bytes = encode (hello greeting);
  ip = home;
  port = 4000;
  checked = second 0;
  committed = second 0;
  draw = draw;
}

abbrev response_turn : Turn
response_turn = record {
  bytes = encode (response reply);
  ip = home;
  port = 4000;
  checked = second 5;
  committed = second 6;
  draw = draw;
}

-- A HELLO, its RESPONSE, and the RESPONSE once more after a cleanup.
abbrev replayed : List Step
replayed =
    receives hello_turn ∷ receives response_turn ∷ cleans (second 7) ∷ receives response_turn ∷ []

datagrams_call_once_example :
    hooks_for toy (replicate 32 5) replayed server ≤ draws_of toy (replicate 32 5) replayed server
datagrams_call_once_example = datagrams_call_once toy (replicate 32 5) replayed server refl

tables_stay_bounded_example : IsBounded 100 (run toy race started)
tables_stay_bounded_example =
    tables_stay_bounded toy config true 0 started race (omega arith) starts

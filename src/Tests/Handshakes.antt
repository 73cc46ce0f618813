-- ===== src/Tests/Handshakes.antt =====
-- Whole attempts of a client against the server on concrete data.
use signedpulse.Base.{
  ◌++◌, ℕ, zero, suc, ◌+◌, ◌%◌, ◌≤◌, ◌<◌, ◌≡◌, refl, ap, true, false, some, [], ◌∷◌, arith, length,
  replicate, Bytes, pos, ◌+ℤ◌, ◌-ℤ◌, ◌≤ℤ◌, nat_key, bytes_key, ip_key, get, bytes_dec,
}
use signedpulse.Protocol.Packet.{hello, challenge, response, IsPacket}
use signedpulse.RateLimit.HelloRateLimiter
use signedpulse.RateLimit.CooldownTracker
use signedpulse.SeenCache
use signedpulse.Protocol.Hex.{to_hex}
use signedpulse.Server.Hello.{Draw, deadline}
use signedpulse.Server.Response.{id_key}
use signedpulse.Client.Target.{ServerTarget}
use signedpulse.Client.Cycle.{Draws}
use signedpulse.Handshake.Welcome.{challenge_of}
use signedpulse.Handshake.Attempt.{greeting, reply_to, IsExpected, IsSized, IsTimely, IsComplete}
use signedpulse.Handshake.Clear.{clear_attempt-IsComplete}
use signedpulse.Handshake.Sealed.{IsSealing, sealed_attempt-IsComplete}
use signedpulse.Crypto.{seal, seal_reply}
use signedpulse.Config.{required}
use signedpulse.Protocol.Packet.{encode}
use signedpulse.Protocol.Packet.Size.{length-encode_challenge}
use signedpulse.Protocol.Words.{IsBytes, IsArray}
use signedpulse.Crypto.{sign_payload_raw}
use signedpulse.Tests.{Server, head, toy, toy-IsLawful, server, alice, alice_info, home, second}
use signedpulse.Protocol.Packet.{Hello, Challenge, Response}
use signedpulse.Tests.Clients.{target}

abbrev draws : Draws
draws = record {
  timestamp = pos 1_700_000_001;
  random = replicate 32 3;
  hello_eph = 4 ∷ [];
  hello_seal = replicate 24 0;
  param_eph = [];
  param_seal = [];
  last_eph = 6 ∷ [];
  last_seal = replicate 24 0;
}

abbrev draw : Draw
draw = record { nonce = replicate 32 5; seal_nonce = replicate 24 0; sent = true }

abbrev public : Bytes → Bytes
public secret = secret

abbrev alice_key : Bytes
alice_key = replicate 32 9

abbrev hail : Hello
hail = greeting toy public toy-IsLawful.signatures alice_key alice target draws

abbrev posed : Challenge
posed = challenge_of hail (second 0) draw server

abbrev back : Response
back = reply_to toy public toy-IsLawful.signatures alice_key alice target draws posed

abbrev sealed_target : ServerTarget
sealed_target = record target { wire_encryption = true; server_pub = some (replicate 32 3) }

abbrev sealed_server : Server
sealed_server = record server {
  config = record server.config { wire_encryption = required };
  server_secret = some (3 ∷ []);
}

expected :
    IsExpected toy public toy-IsLawful.signatures alice_key alice target draws alice_info home
      (second 0)
      server
unfolding get bytes_dec HelloRateLimiter.check_at ◌-ℤ◌ SeenCache.insert_if_absent
expected = record {
  known = refl;
  key = refl;
  server_id = refl;
  allowed = refl;
  timely = omega arith;
  fresh = refl;
}

awaited :
    IsExpected toy public toy-IsLawful.signatures alice_key alice sealed_target draws alice_info
      home
      (second 0)
      sealed_server
unfolding get bytes_dec HelloRateLimiter.check_at ◌-ℤ◌ SeenCache.insert_if_absent
awaited = record {
  known = refl;
  key = refl;
  server_id = refl;
  allowed = refl;
  timely = omega arith;
  fresh = refl;
}

replicate-IsBytes : (k n : ℕ) → n < 256 → IsBytes (replicate k n)
replicate-IsBytes zero n h = tt
replicate-IsBytes (suc k) n h = (h, replicate-IsBytes k n h)

length-replicate : (k n : ℕ) → length (replicate k n) ≡ k
length-replicate zero n = refl
length-replicate (suc k) n = ap suc (length-replicate k n)

replicate-IsArray : (k n : ℕ) → n < 256 → IsArray k (replicate k n)
replicate-IsArray k n h = (length-replicate k n, replicate-IsBytes k n h)

sign-IsArray : (key text : Bytes) → IsArray 64 (sign_payload_raw toy key text)
unfolding sign_payload_raw
sign-IsArray key text = replicate-IsArray 64 ((head key + length text) % 256) (omega arith)

fits_hello : IsPacket (hello hail)
fits_hello = (
  replicate-IsArray 32 7 (omega arith),
  (omega arith, omega arith),
  replicate-IsArray 16 3 (omega arith),
  sign-IsArray _ _,
)

fits_challenge : IsPacket (challenge (challenge_of hail (second 0) draw server))
unfolding ◌+ℤ◌
fits_challenge = (
  replicate-IsArray 32 7 (omega arith),
  replicate-IsArray 32 5 (omega arith),
  (omega arith, omega arith),
)

fits_response :
    IsPacket
      (response (reply_to toy public toy-IsLawful.signatures alice_key alice target draws posed))
fits_response = (
  replicate-IsArray 32 7 (omega arith),
  replicate-IsArray 32 5 (omega arith),
  ground arith,
  tt,
  sign-IsArray _ _,
)

early : (second 1).unix ≤ℤ deadline (second 0).unix 30
unfolding ◌+ℤ◌
early = (omega arith)

in_time : (second 2).unix ≤ℤ deadline (second 0).unix 30
unfolding ◌+ℤ◌
in_time = omega arith

cool : CooldownTracker.in_cooldown (id_key (to_hex alice)) (second 2).mono server.cooldown ≡ false
unfolding CooldownTracker.in_cooldown get
cool = refl

sized :
    IsSized toy public toy-IsLawful.signatures alice_key alice target draws (second 0) draw server
sized = record { of_hello = fits_hello; of_challenge = fits_challenge; of_response = fits_response }

fitting :
    IsSized toy public toy-IsLawful.signatures alice_key alice sealed_target draws
      (second 0)
      draw
      sealed_server
fitting = record {
  of_hello = fits_hello;
  of_challenge = fits_challenge;
  of_response = fits_response;
}

timely :
    IsTimely toy public toy-IsLawful.signatures alice_key alice target draws
      (second 0)
      (second 1)
      (second 2)
      server
timely = record { checked = early; committed = in_time; warm = cool }

prompt :
    IsTimely toy public toy-IsLawful.signatures alice_key alice sealed_target draws
      (second 0)
      (second 1)
      (second 2)
      sealed_server
prompt = record { checked = early; committed = in_time; warm = cool }

clear_attempt-IsComplete_example :
    IsComplete toy public toy-IsLawful.signatures alice_key alice target draws home 4000
      (second 0)
      (second 1)
      (second 2)
      draw
      draw
      server
clear_attempt-IsComplete_example =
    clear_attempt-IsComplete toy public toy-IsLawful.signatures alice_key alice target draws
      alice_info home 4000 (second 0) (second 1) (second 2) draw draw server expected sized timely
      refl refl

-- The boxes of the toy: the ephemeral public key, the nonce and the key byte before the text.
abbrev boxed : ℕ → Bytes → Bytes
boxed eph text = replicate 32 eph ++ (replicate 24 0 ++ (eph + 3) ∷ text)

abbrev boxed_reply : Bytes
boxed_reply =
    replicate 24 0 ++ 7 ∷ encode (challenge (challenge_of hail (second 0) draw sealed_server))

short : length boxed_reply ≤ 2048
short = omega (arith, length-encode_challenge posed fits_challenge)

sealing :
    IsSealing toy public toy-IsLawful alice_key alice sealed_target draws
      (second 0)
      draw
      sealed_server
unfolding seal seal_reply
sealing = record {
  secret = 3 ∷ [];
  first = boxed 4 (
      encode
        (hello (greeting toy public toy-IsLawful.signatures alice_key alice sealed_target draws)));
  datagram = boxed_reply;
  last = boxed 6 (
      encode (
        response
          (reply_to toy public toy-IsLawful.signatures alice_key alice sealed_target draws posed)));
  client_seals = refl;
  server_seals = refl;
  client_key = refl;
  server_key = refl;
  hello_box = refl;
  reply_box = refl;
  last_box = refl;
  hello_nonce = refl;
  reply_nonce = refl;
  last_nonce = refl;
  short = short;
}

sealed_attempt-IsComplete_example :
    IsComplete toy public toy-IsLawful.signatures alice_key alice sealed_target draws home 4000
      (second 0)
      (second 1)
      (second 2)
      draw
      draw
      sealed_server
sealed_attempt-IsComplete_example =
    sealed_attempt-IsComplete toy public toy-IsLawful alice_key alice sealed_target draws alice_info
      home 4000 (second 0) (second 1) (second 2) draw draw sealed_server awaited fitting prompt
      sealing

-- ===== src/Client/Cycle.antt =====
-- One exchange with a server: `run_cycle`, `attempt_once` and what they call.
pub mod Backoff
use signedpulse.Base.{
  ℕ, zero, suc, ◌+◌, ◌-◌, ◌*◌, ◌/◌, ◌^◌, min, max, Bool, false, not, ◌||◌, Option, none, some, [],
  ◌∷◌, ltb, if◌then◌else◌, Result, ok, err, length, take, Bytes, ℤ, nat_key, bytes_key, ip_key, eq,
  Duration, from_utf8, is_control,
}
use signedpulse.Crypto.{
  Primitives, CryptoError, seal, open_reply, sign_payload_raw, ctx_wire, ctx_param,
}
use signedpulse.Protocol.Packet.{
  Hello, Challenge, Response, Bye, Packet, hello, challenge, response, bye, encode, decode,
}
use signedpulse.Protocol.Reader.{ProtocolError}
use signedpulse.Protocol.Payload.{
  hello_signing_payload, response_signing_payload, bye_signing_payload,
}
use signedpulse.Protocol.Hex.{to_hex, as_bytes, trim}
use signedpulse.Client.Target.{ServerTarget}

pub data Mode : Type 0 where
  renew release : Mode

-- The errors of an exchange, one constructor for each message.
pub data CycleError : Type 0 where
  param_too_long param_has_control param_not_utf8 param_failed : CycleError
  needs_server_key seal_failed timed_out no_session_secret not_authentic : CycleError
  malformed not_a_challenge id_mismatch all_failed : CycleError

infixl 5 ◌>>=◌
abbrev pub ◌>>=◌ :
    {A B : Type 0} → Result CycleError A → (A → Result CycleError B) → Result CycleError B
ok a >>= f = f a
err e >>= f = err e

abbrev pub ok_or : {A : Type 0} → Option A → CycleError → Result CycleError A
ok_or none e = err e
ok_or (some a) e = ok a

abbrev pub map_err : {E A : Type 0} → CycleError → Result E A → Result CycleError A
map_err x (ok a) = ok a
map_err x (err e) = err x

abbrev has_control : Bytes → Bool
has_control [] = false
has_control (c ∷ cs) = is_control c || has_control cs

-- `value.len()` counts the bytes of the text.
unfoldable pub validate_param : Bytes → ℕ → Result CycleError (Unit {0})
validate_param value max_len =
    if ltb max_len (length (as_bytes value))
    then err param_too_long
    else if has_control value
    then err param_has_control
    else ok tt

-- What `generate_param` makes of the bytes that the command prints before its timeout, with
-- success.
unfoldable pub printed_param : ServerTarget → Bytes → Result CycleError Bytes
unfolding validate_param
printed_param t stdout = do
  text ← ok_or (from_utf8 stdout) param_not_utf8
  _ ← validate_param (trim text) t.param_max_len
  ok (trim text)

abbrev some_text : Result CycleError Bytes → Result CycleError (Option Bytes)
some_text (ok a) = ok (some a)
some_text (err e) = err e

-- What the parameter command prints, if it exits with success in time.
unfoldable pub generate_param : ServerTarget → Option Bytes → Result CycleError (Option Bytes)
unfolding printed_param
generate_param t stdout = elim t.param_command [
  | none ↦ ok none
  | some argv ↦ some_text (ok_or stdout param_failed >>= λ out. printed_param t out)
]

-- The parameter of a cycle.
unfoldable pub cycle_param :
    ServerTarget → Mode → Option Bytes → Option Bytes → Result CycleError (Option Bytes)
unfolding validate_param generate_param
cycle_param t mode (some value) stdout =
    validate_param value t.param_max_len >>= λ _. ok (some value)
cycle_param t renew none stdout = generate_param t stdout
cycle_param t release none stdout = ok none

-- The largest `Duration`.
abbrev pub duration_max : Duration
duration_max = (2 ^ 64 - 1) * 1_000_000_000 + 999_999_999

-- `retry_initial.saturating_mul(1 << (attempt - 1).min(31)).min(retry_max)`
unfoldable pub backoff : ServerTarget → ℕ → Duration
backoff t attempt = min (min (t.retry_initial * 2 ^ min (attempt - 1) 31) duration_max) t.retry_max

-- The loop over the attempts from `k` on, `n` of them; `try` says whether an attempt with its
-- timeout succeeds. The number of the attempt that does, if any.
unfoldable pub run_attempts : ServerTarget → (ℕ → Duration → Bool) → ℕ → ℕ → Option ℕ
run_attempts t try zero k = none
run_attempts t try (suc n) k =
    let rest = run_attempts t try n (k + 1) in if try k (backoff t k) then some k else rest

abbrev finished : Option ℕ → Result CycleError (Unit {0})
finished none = err all_failed
finished (some k) = ok tt

-- With what the parameter command prints; `try` takes the parameter that each attempt sends.
unfoldable pub run_cycle :
    ServerTarget
    → ℕ
    → Mode
    → Option Bytes
    → Option Bytes
    → (Option Bytes → ℕ → Duration → Bool)
    → Result CycleError (Unit {0})
unfolding cycle_param run_attempts
run_cycle t max_attempts mode param_override stdout try = do
  param ← cycle_param t mode param_override stdout
  finished (run_attempts t (try param) (max max_attempts 1) 1)

-- The clock reading and the random values of one attempt: the HELLO's nonce is the start of a
-- drawn one, and each sealed box takes an ephemeral secret and an AEAD nonce.
pub record Draws : Type 0 where
  pub timestamp : ℤ
  pub random : Bytes
  pub hello_eph : Bytes
  pub hello_seal : Bytes
  pub param_eph : Bytes
  pub param_seal : Bytes
  pub last_eph : Bytes
  pub last_seal : Bytes

abbrev pub hello_nonce_of : Draws → Bytes
hello_nonce_of d = take 16 d.random

-- `self.target.interval.as_secs().min(u32::MAX)`
abbrev pub advertised : ServerTarget → ℕ
advertised t = min (t.interval / 1_000_000_000) (2 ^ 32 - 1)

abbrev pub expect_challenge : Packet → Result CycleError Challenge
expect_challenge (challenge c) = ok c
expect_challenge (hello h) = err not_a_challenge
expect_challenge (response r) = err not_a_challenge
expect_challenge (bye b) = err not_a_challenge

module _ (p : Primitives) where
  -- The datagram, and the ephemeral secret that opens the reply.
  unfoldable pub frame_outbound :
      ServerTarget → Bytes → Bytes → Bytes → Bool → Result CycleError (Bytes × Option Bytes)
  frame_outbound t eph nonce packet_bytes encrypt =
      if not encrypt then ok (packet_bytes, none) else do
        server_pub ← ok_or t.server_pub needs_server_key
        sealed ← map_err seal_failed (seal p eph nonce server_pub packet_bytes ctx_wire)
        ok (sealed.0, some sealed.1)

  unfoldable pub unframe_inbound :
      ServerTarget → Bytes → Bool → Option Bytes → Bytes → Result CycleError Bytes
  unframe_inbound t datagram encrypt session_secret bind = if not encrypt then ok datagram else do
    secret ← ok_or session_secret no_session_secret
    server_pub ← ok_or t.server_pub needs_server_key
    map_err not_authentic (open_reply p secret server_pub datagram bind)

  abbrev seal_text : ServerTarget → Draws → Bytes → Result CycleError (Option Bytes)
  seal_text t d text = do
    server_pub ← ok_or t.server_pub needs_server_key
    sealed ←
        map_err seal_failed (seal p d.param_eph d.param_seal server_pub (as_bytes text) ctx_param)
    ok (some sealed.0)

  -- The parameter's blob, if there is a parameter.
  unfoldable pub seal_param : ServerTarget → Draws → Option Bytes → Result CycleError (Option Bytes)
  seal_param t d none = ok none
  seal_param t d (some text) = seal_text t d text

  abbrev pub param_b64 : Option Bytes → Bytes
  param_b64 none = []
  param_b64 (some b) = p.b64_encode b

  abbrev pub hello_of : Bytes → Bytes → ServerTarget → Draws → Hello
  hello_of signing_key client_id t d = record {
    client_id = client_id;
    client_timestamp_unix = d.timestamp;
    hello_nonce = hello_nonce_of d;
    signature = sign_payload_raw p signing_key (
        hello_signing_payload t.server_id (to_hex client_id) d.timestamp
          (p.b64_encode (hello_nonce_of d)));
  }

  -- Steps 1 and 2: the datagram of the HELLO.
  unfoldable pub send_hello :
      Bytes → Bytes → ServerTarget → Draws → Result CycleError (Bytes × Option Bytes)
  unfolding frame_outbound
  send_hello signing_key client_id t d =
      frame_outbound t d.hello_eph d.hello_seal
        (encode (hello (hello_of signing_key client_id t d))) t.wire_encryption

  -- Step 3, for a datagram that arrives in time; the buffer holds 2048 bytes.
  unfoldable pub read_challenge :
      Bytes → ServerTarget → Draws → Option Bytes → Bytes → Result CycleError Challenge
  unfolding unframe_inbound
  read_challenge client_id t d session_secret datagram = do
    bytes ←
        unframe_inbound t (take 2048 datagram) t.wire_encryption session_secret (hello_nonce_of d)
    packet ← map_err malformed (decode bytes)
    c ← expect_challenge packet
    if eq c.client_id client_id then ok c else err id_mismatch

  -- Step 5: the signed packet of either mode.
  unfoldable pub answer : Bytes → Bytes → ServerTarget → Mode → Challenge → Option Bytes → Packet
  answer signing_key client_id t renew c blob = response (record {
    client_id = client_id;
    nonce = c.nonce;
    interval_seconds = advertised t;
    param = blob;
    signature = sign_payload_raw p signing_key (
        response_signing_payload t.server_id (to_hex client_id) (p.b64_encode c.nonce)
          (advertised t) c.expires_at_unix (param_b64 blob));
  })
  answer signing_key client_id t release c blob = bye (record {
    client_id = client_id;
    nonce = c.nonce;
    interval_seconds = advertised t;
    param = blob;
    signature = sign_payload_raw p signing_key (
        bye_signing_payload t.server_id (to_hex client_id) (p.b64_encode c.nonce) (advertised t)
          c.expires_at_unix (param_b64 blob));
  })

  -- Steps 4 to 6: the datagram that answers the challenge.
  unfoldable pub answer_challenge :
      Bytes
      → Bytes
      → ServerTarget
      → Draws
      → Option Bytes
      → Mode
      → Challenge
      → Result CycleError Bytes
  unfolding seal_param answer frame_outbound
  answer_challenge signing_key client_id t d param mode c = do
    blob ← seal_param t d param
    framed ←
        frame_outbound t d.last_eph d.last_seal
          (encode (answer signing_key client_id t mode c blob)) t.wire_encryption
    ok framed.0

  -- The whole attempt over a network that answers the datagram of the HELLO, or does not in time.
  -- What it returns is the datagram that it sends last.
  unfoldable pub attempt_once :
      Bytes
      → Bytes
      → ServerTarget
      → Draws
      → Option Bytes
      → Mode
      → (Bytes → Option Bytes)
      → Result CycleError Bytes
  unfolding send_hello read_challenge answer_challenge
  attempt_once signing_key client_id t d param mode network = do
    sent ← send_hello signing_key client_id t d
    datagram ← ok_or (network sent.0) timed_out
    c ← read_challenge client_id t d sent.1 datagram
    answer_challenge signing_key client_id t d param mode c

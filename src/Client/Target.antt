-- ===== src/Client/Target.antt =====
-- The servers that a client pulses: `resolve_target`, `resolve_override` and the targets of
-- `Client::from_config`.
pub mod Resolved
use signedpulse.Base.{
  ℕ, ◌*◌, Bool, not, ◌&&◌, Option, none, some, List, [], ◌∷◌, if◌then◌else◌, is_some, unwrap_or,
  Result, ok, err, Bytes, nat_key, bytes_key, ip_key, Map, Duration, from_secs,
}
use signedpulse.Crypto.{Primitives}
use signedpulse.Crypto.Keys.{load_signing_key, x25519_from_base64}
use signedpulse.Config.{ClientConfig, ClientSection, ServerOverride}
use signedpulse.Config.Client.{or_else}
use signedpulse.Protocol.Hex.{from_hex, Parsed, parsed, bad_client_id_hex, panics}

pub record ServerTarget : Type 0 where
  pub name : Bytes
  pub server_id : Bytes
  pub server_addr : Bytes
  pub server_pub : Option Bytes
  pub wire_encryption : Bool
  pub interval : Duration
  pub retry_initial : Duration
  pub retry_max : Duration
  pub retries : ℕ
  pub param_command : Option (List Bytes)
  pub param_command_timeout : Duration
  pub param_max_len : ℕ

-- The errors of the client, one constructor for each message; and the panic of `from_hex`.
pub data ClientError : Type 0 where
  invalid_private_key invalid_client_id invalid_server_key : ClientError
  wire_needs_key param_needs_key id_panics : ClientError

infixl 5 ◌>>=◌
abbrev pub ◌>>=◌ :
    {A B : Type 0} → Result ClientError A → (A → Result ClientError B) → Result ClientError B
ok a >>= f = f a
err e >>= f = err e

abbrev pub map_err : {E A : Type 0} → ClientError → Result E A → Result ClientError A
map_err x (ok a) = ok a
map_err x (err e) = err x

abbrev pub from_millis : ℕ → Duration
from_millis n = n * 1_000_000

-- The settings of one server, as `resolve_target` takes them.
pub record Settings : Type 0 where
  pub name : Bytes
  pub server_id : Bytes
  pub server_addr : Bytes
  pub enc_key_b64 : Option Bytes
  pub wire_encryption : Bool
  pub interval_seconds : ℕ
  pub retry_initial_ms : ℕ
  pub retry_max_ms : ℕ
  pub retries : ℕ
  pub param_command : Option (List Bytes)
  pub param_command_timeout_seconds : ℕ
  pub param_max_len : ℕ

abbrev pub primary : ClientSection → Settings
primary c = record {
  name = c.server_id;
  server_id = c.server_id;
  server_addr = c.server_addr;
  enc_key_b64 = c.server_encryption_key;
  wire_encryption = c.wire_encryption;
  interval_seconds = c.interval_seconds;
  retry_initial_ms = c.retry_initial_ms;
  retry_max_ms = c.retry_max_ms;
  retries = c.retries;
  param_command = c.param_command;
  param_command_timeout_seconds = c.param_command_timeout_seconds;
  param_max_len = c.param_max_len;
}

abbrev pub inherited : Bytes → ServerOverride → ClientSection → Settings
inherited name ov base = record {
  name = name;
  server_id = unwrap_or ov.server_id name;
  server_addr = ov.server_addr;
  enc_key_b64 = ov.server_encryption_key;
  wire_encryption = unwrap_or ov.wire_encryption base.wire_encryption;
  interval_seconds = unwrap_or ov.interval_seconds base.interval_seconds;
  retry_initial_ms = unwrap_or ov.retry_initial_ms base.retry_initial_ms;
  retry_max_ms = unwrap_or ov.retry_max_ms base.retry_max_ms;
  retries = unwrap_or ov.retries base.retries;
  param_command = or_else ov.param_command base.param_command;
  param_command_timeout_seconds =
      unwrap_or ov.param_command_timeout_seconds base.param_command_timeout_seconds;
  param_max_len = unwrap_or ov.param_max_len base.param_max_len;
}

-- The target with its key decoded.
abbrev pub target_of : Settings → Option Bytes → ServerTarget
target_of s server_pub = record {
  name = s.name;
  server_id = s.server_id;
  server_addr = s.server_addr;
  server_pub = server_pub;
  wire_encryption = s.wire_encryption;
  interval = from_secs s.interval_seconds;
  retry_initial = from_millis s.retry_initial_ms;
  retry_max = from_millis s.retry_max_ms;
  retries = s.retries;
  param_command = s.param_command;
  param_command_timeout = from_secs s.param_command_timeout_seconds;
  param_max_len = s.param_max_len;
}

-- `ClientId::from_hex` with its error.
abbrev pub client_id_of : Parsed → Result ClientError Bytes
client_id_of (parsed id) = ok id
client_id_of bad_client_id_hex = err invalid_client_id
client_id_of panics = err id_panics

pub record Identity : Type 0 where
  pub signing_key : Bytes
  pub client_id : Bytes
  pub targets : List ServerTarget

module _ (p : Primitives) where
  abbrev pub some_key : Result ClientError Bytes → Result ClientError (Option Bytes)
  some_key (ok key) = ok (some key)
  some_key (err e) = err e

  abbrev pub decode_key : Option Bytes → Result ClientError (Option Bytes)
  decode_key none = ok none
  decode_key (some b64) = some_key (map_err invalid_server_key (x25519_from_base64 p b64))

  unfoldable pub resolve_target : Settings → Result ClientError ServerTarget
  resolve_target s = do
    server_pub ← decode_key s.enc_key_b64
    if s.wire_encryption && not (is_some server_pub)
        then err wire_needs_key
        else if is_some s.param_command && not (is_some server_pub)
        then err param_needs_key
        else ok (target_of s server_pub)

  unfoldable pub resolve_override :
      Bytes → ServerOverride → ClientSection → Result ClientError ServerTarget
  unfolding resolve_target
  resolve_override name ov base = resolve_target (inherited name ov base)

  unfoldable pub resolve_all :
      ClientSection → Map Bytes ServerOverride → Result ClientError (List ServerTarget)
  unfolding resolve_override
  resolve_all c [] = ok []
  resolve_all c ((name, ov) ∷ more) = do
    target ← resolve_override name ov c
    rest ← resolve_all c more
    ok (target ∷ rest)

  -- `Client::from_config`, less the status file.
  unfoldable pub from_config : ClientConfig → Result ClientError Identity
  unfolding resolve_target resolve_all
  from_config config = do
    let c = config.client
    signing_key ← map_err invalid_private_key (load_signing_key p c.private_key)
    client_id ← client_id_of (from_hex c.client_id)
    first ← resolve_target (primary c)
    others ← resolve_all c c.servers
    ok (record { signing_key = signing_key; client_id = client_id; targets = first ∷ others })

-- ===== src/Config.antt =====
-- The server's configuration, crates/signedpulse-common/src/config.rs, as `toml` hands it over.
pub mod Server
pub mod Client
pub mod Defaults
use signedpulse.Base.{
  ℕ, Bool, true, false, Option, List, [], ◌∷◌, if◌then◌else◌, Result, ok, err, Bytes, nat_key,
  bytes_key, ip_key, Map,
}
use signedpulse.Protocol.Hex.{Parsed, parsed, bad_client_id_hex, panics}

pub data WireEncryption : Type 0 where
  required off : WireEncryption

pub record ServerSection : Type 0 where
  pub bind : Bytes
  pub server_id : Bytes
  pub nonce_ttl_seconds : ℕ
  pub command_timeout_seconds : ℕ
  pub client_cooldown_seconds : ℕ
  pub max_packet_size : ℕ
  pub hello_rate_max : ℕ
  pub hello_rate_window_seconds : ℕ
  pub hello_max_skew_seconds : ℕ
  pub state_file : Option Bytes
  pub encryption_private_key : Option Bytes
  pub max_param_len : ℕ
  pub wire_encryption : WireEncryption
  pub max_faulty_packets : ℕ
  pub blacklist_seconds : ℕ
  pub attack_blacklist_threshold : ℕ
  pub attack_window_seconds : ℕ
  pub attack_rejection_threshold : ℕ
  pub active_ip_ttl_seconds : ℕ
  pub max_inflight_packets : ℕ
  pub max_tracked_ips : ℕ
  pub lease_grace_multiplier : ℕ
  pub lease_max_seconds : ℕ

pub record CommandSection : Type 0 where
  pub argv : List Bytes
  pub revoke_argv : Option (List Bytes)
  pub working_dir : Option Bytes
  pub max_concurrent : ℕ
  pub allow_shell : Bool

pub record ClientEntry : Type 0 where
  pub client_id : Bytes
  pub public_key : Bytes
  pub label : Option Bytes

pub record ServerConfig : Type 0 where
  pub server : ServerSection
  pub command : CommandSection
  pub clients : List ClientEntry

pub record ServerOverride : Type 0 where
  pub server_addr : Bytes
  pub server_id : Option Bytes
  pub server_encryption_key : Option Bytes
  pub wire_encryption : Option Bool
  pub interval_seconds : Option ℕ
  pub challenge_timeout_seconds : Option ℕ
  pub retry_initial_ms : Option ℕ
  pub retry_max_ms : Option ℕ
  pub retries : Option ℕ
  pub param_command : Option (List Bytes)
  pub param_command_timeout_seconds : Option ℕ
  pub param_max_len : Option ℕ

-- `servers` lists the table in the order of its keys.
pub record ClientSection : Type 0 where
  pub client_id : Bytes
  pub server_addr : Bytes
  pub server_id : Bytes
  pub interval_seconds : ℕ
  pub private_key : Bytes
  pub challenge_timeout_seconds : ℕ
  pub retry_initial_ms : ℕ
  pub retry_max_ms : ℕ
  pub retries : ℕ
  pub state_file : Option Bytes
  pub param_command : Option (List Bytes)
  pub param_command_timeout_seconds : ℕ
  pub param_max_len : ℕ
  pub server_encryption_key : Option Bytes
  pub wire_encryption : Bool
  pub bye_on_shutdown : Bool
  pub servers : Map Bytes ServerOverride

pub record ClientConfig : Type 0 where
  pub client : ClientSection

-- `ConfigError::Invalid`, one constructor for each message; and the panic of `from_hex`, which the
-- checks let through.
pub data ConfigError : Type 0 where
  no_argv bad_max_concurrent no_revoke_argv bad_lease_grace bad_lease_max : ConfigError
  bad_max_packet_size bad_command_timeout bad_nonce_ttl bad_skew bad_rate_window : ConfigError
  bad_param_len bad_client_id duplicate_client_id no_encryption_key : ConfigError
  bad_interval no_server_key no_param_command bad_retry bad_param_timeout : ConfigError
  no_label label_collides no_server_addr : ConfigError
  from_hex_panics : ConfigError

abbrev pub Check : Type 0
Check = Result ConfigError (Unit {0})

-- `if fails { return Err(e) }`, and the statements that follow.
abbrev pub reject : Bool → ConfigError → Check → Check
reject fails e rest = if fails then err e else rest

infixl 5 ◌>>◌
abbrev pub ◌>>◌ : Check → Check → Check
err e >> k = err e
ok _ >> k = k

abbrev pub is_empty {ℓ} : {A : Type ℓ} → List A → Bool
is_empty [] = true
is_empty (x ∷ xs) = false

-- `ClientId::from_hex`, and its error.
abbrev pub check_id : Parsed → Check
check_id (parsed id) = ok tt
check_id bad_client_id_hex = err bad_client_id
check_id panics = err from_hex_panics

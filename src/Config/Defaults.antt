-- ===== src/Config/Defaults.antt =====
-- The defaults of a configuration.
use signedpulse.Base.{
  ℕ, ◌≡◌, Bool, true, false, none, some, List, [], ◌∷◌, arith, ok, Bytes, nat_key, bytes_key,
  ip_key,
}
use signedpulse.Config.{
  WireEncryption, required, ServerSection, CommandSection, ClientEntry, ClientSection,
}
use signedpulse.Config.Server.{validate, check_command, check_section, check_clients}
use signedpulse.Config.Client.{load, check_primary, check_overrides}
use signedpulse.Protocol.Hex.{from_hex, parsed}

abbrev default_nonce_ttl : ℕ
default_nonce_ttl = 30

abbrev default_command_timeout : ℕ
default_command_timeout = 10

abbrev default_max_packet_size : ℕ
default_max_packet_size = 2048

abbrev default_max_concurrent : ℕ
default_max_concurrent = 4

abbrev default_hello_rate_max : ℕ
default_hello_rate_max = 30

abbrev default_hello_rate_window : ℕ
default_hello_rate_window = 60

abbrev default_hello_max_skew : ℕ
default_hello_max_skew = 30

abbrev default_max_param_len : ℕ
default_max_param_len = 256

abbrev default_param_command_timeout : ℕ
default_param_command_timeout = 5

abbrev default_wire_encryption : WireEncryption
default_wire_encryption = required

abbrev default_max_faulty_packets : ℕ
default_max_faulty_packets = 10

abbrev default_blacklist_seconds : ℕ
default_blacklist_seconds = 300

abbrev default_attack_blacklist_threshold : ℕ
default_attack_blacklist_threshold = 10

abbrev default_attack_window : ℕ
default_attack_window = 10

abbrev default_attack_rejection_threshold : ℕ
default_attack_rejection_threshold = 256

abbrev default_active_ip_ttl : ℕ
default_active_ip_ttl = 900

abbrev default_max_inflight_packets : ℕ
default_max_inflight_packets = 1024

abbrev default_max_tracked_ips : ℕ
default_max_tracked_ips = 100_000

abbrev default_lease_grace_multiplier : ℕ
default_lease_grace_multiplier = 3

abbrev default_lease_max_seconds : ℕ
default_lease_max_seconds = 86_400

abbrev default_true : Bool
default_true = true

abbrev default_interval : ℕ
default_interval = 300

abbrev default_challenge_timeout : ℕ
default_challenge_timeout = 5

abbrev default_retry_initial_ms : ℕ
default_retry_initial_ms = 500

abbrev default_retry_max_ms : ℕ
default_retry_max_ms = 4_000

abbrev default_retries : ℕ
default_retries = 3

-- The sections of which only what has no default is written, and the encryption key.
abbrev pub default_server : Bytes → Bytes → Bytes → ServerSection
default_server bind server_id encryption_private_key = record {
  bind = bind;
  server_id = server_id;
  nonce_ttl_seconds = default_nonce_ttl;
  command_timeout_seconds = default_command_timeout;
  client_cooldown_seconds = 0;
  max_packet_size = default_max_packet_size;
  hello_rate_max = default_hello_rate_max;
  hello_rate_window_seconds = default_hello_rate_window;
  hello_max_skew_seconds = default_hello_max_skew;
  state_file = none;
  encryption_private_key = some encryption_private_key;
  max_param_len = default_max_param_len;
  wire_encryption = default_wire_encryption;
  max_faulty_packets = default_max_faulty_packets;
  blacklist_seconds = default_blacklist_seconds;
  attack_blacklist_threshold = default_attack_blacklist_threshold;
  attack_window_seconds = default_attack_window;
  attack_rejection_threshold = default_attack_rejection_threshold;
  active_ip_ttl_seconds = default_active_ip_ttl;
  max_inflight_packets = default_max_inflight_packets;
  max_tracked_ips = default_max_tracked_ips;
  lease_grace_multiplier = default_lease_grace_multiplier;
  lease_max_seconds = default_lease_max_seconds;
}

abbrev pub default_command : Bytes → List Bytes → CommandSection
default_command program args = record {
  argv = program ∷ args;
  revoke_argv = none;
  working_dir = none;
  max_concurrent = default_max_concurrent;
  allow_shell = false;
}

abbrev pub default_client : Bytes → Bytes → Bytes → Bytes → Bytes → ClientSection
default_client client_id server_addr server_id private_key server_encryption_key = record {
  client_id = client_id;
  server_addr = server_addr;
  server_id = server_id;
  interval_seconds = default_interval;
  private_key = private_key;
  challenge_timeout_seconds = default_challenge_timeout;
  retry_initial_ms = default_retry_initial_ms;
  retry_max_ms = default_retry_max_ms;
  retries = default_retries;
  state_file = none;
  param_command = none;
  param_command_timeout_seconds = default_param_command_timeout;
  param_max_len = default_max_param_len;
  server_encryption_key = some server_encryption_key;
  wire_encryption = default_true;
  bye_on_shutdown = default_true;
  servers = [];
}

-- With the defaults, a server is accepted if its list of clients is, and a client if its id reads
-- as 32 bytes: whatever the addresses, ids, keys and the command are, and with an encryption key
-- on either side.
pub defaults_are_accepted :
    (bind server_id key program : Bytes) (args : List Bytes) (clients : List ClientEntry)
    (client_id server_addr private_key id : Bytes)
    → check_clients [] clients ≡ ok tt
    → from_hex client_id ≡ parsed id
    → (validate (record {
      server = default_server bind server_id key;
      command = default_command program args;
      clients = clients;
    })
        ≡ ok tt)
      × (load (record { client = default_client client_id server_addr server_id private_key key })
          ≡ ok tt)
unfolding validate check_command check_section load check_primary check_overrides
defaults_are_accepted bind server_id key program args clients client_id server_addr private_key id
      listed reads =
    (ground (arith, listed), ground (arith, reads))

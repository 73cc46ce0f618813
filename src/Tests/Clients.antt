-- ===== src/Tests/Clients.antt =====
-- A client on concrete data, alone and against the server.
use signedpulse.Base.{
  ◌≡◌, refl, ◌≢◌, true, false, none, some, [], ◌∷◌, map, ok, replicate, All, nat_key, bytes_key,
  ip_key, bytes_dec, from_secs, codes,
}
use signedpulse.Config.{ClientConfig, ServerOverride}
use signedpulse.Config.Client.{load}
use signedpulse.Crypto.Keys.{load_signing_key}
use signedpulse.Protocol.Hex.{to_hex}
use signedpulse.Client.Target.{ServerTarget, Identity, from_config}
use signedpulse.Client.Target.Resolved.{IsUsable, name_of, accepted-IsUsable}
use signedpulse.Tests.{toy}

abbrev backup : ServerOverride
backup = record {
  server_addr = codes "backup:5555";
  server_id = none;
  server_encryption_key = none;
  wire_encryption = some false;
  interval_seconds = none;
  challenge_timeout_seconds = none;
  retry_initial_ms = none;
  retry_max_ms = none;
  retries = none;
  param_command = none;
  param_command_timeout_seconds = none;
  param_max_len = none;
}

abbrev config : ClientConfig
config = record {
  client = record {
    client_id = codes "0707070707070707070707070707070707070707070707070707070707070707";
    server_addr = codes "main:5555";
    server_id = codes "main";
    interval_seconds = 300;
    private_key = replicate 32 9;
    challenge_timeout_seconds = 5;
    retry_initial_ms = 500;
    retry_max_ms = 4000;
    retries = 5;
    state_file = none;
    param_command = none;
    param_command_timeout_seconds = 5;
    param_max_len = 64;
    server_encryption_key = none;
    wire_encryption = false;
    bye_on_shutdown = true;
    servers = (codes "backup", backup) ∷ [];
  };
}

loaded : load config ≡ ok tt
unfolding load signedpulse.Protocol.Hex.from_hex bytes_dec
loaded = refl

keyed : load_signing_key toy (replicate 32 9) ≡ ok (replicate 32 9)
unfolding load_signing_key
keyed = refl

accepted-IsUsable_example :
    (id : Identity) × (from_config toy config ≡ ok id)
    × All IsUsable id.targets
    × (map (name_of toy) id.targets ≡ codes "main" ∷ codes "backup" ∷ [])
    × All (λ label. label ≢ codes "main") (codes "backup" ∷ [])
accepted-IsUsable_example = accepted-IsUsable toy config (replicate 32 9) loaded keyed tt (tt, tt)

abbrev pub target : ServerTarget
target = record {
  name = codes "main";
  server_id = codes "main";
  server_addr = codes "main:5555";
  server_pub = none;
  wire_encryption = false;
  interval = from_secs 300;
  retry_initial = 500_000_000;
  retry_max = 4_000_000_000;
  retries = 5;
  param_command = none;
  param_command_timeout = from_secs 5;
  param_max_len = 64;
}

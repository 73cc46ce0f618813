-- ===== src/Tests/Commands.antt =====
-- The commands that edit configuration files, on concrete files.
use signedpulse.Base.{
  not, ◌||◌, ◌≡◌, refl, true, false, Option, none, some, [], if◌then◌else◌, ok, replicate, Bytes,
  nat_key, bytes_key, ip_key, eq, get, bytes_dec, codes, decimal,
}
use signedpulse.Config.{ServerConfig, ClientConfig, ServerOverride}
use signedpulse.Config.Client
use signedpulse.Config.Defaults.{default_client}
use signedpulse.Commands.Tokens.{any, breaks_label, normalize_addr}
use signedpulse.Commands.File.{load_client, line_ended, is_err}
use signedpulse.Commands.AddClient.{AddClientArgs}
use signedpulse.Commands.AddClient.Authorized.{appended, extended}
use signedpulse.Commands.AddServer.{AddServerArgs, add_server, server_block}
use signedpulse.Commands.AddServer.Extended
use signedpulse.Commands.AddServer.Extended.{override_of, spoils}
use signedpulse.Commands.AddServer.Table.{fits}
use signedpulse.Commands.AddServer.Outcome.{Ends, add_server_outcome}
use signedpulse.Commands.AddServer.Added.{IsResolved, new_server_resolves}
use signedpulse.Tests.{toy}
use signedpulse.Tests.Configs.{config}

abbrev bob : AddClientArgs
bob = record {
  client_id = replicate 64 b'8';
  public_key = replicate 32 b'K';
  label = some (codes "bob");
}

abbrev file_text : Bytes
file_text = codes "[server]"

-- A reading of the two texts.
abbrev parse : Bytes → Option ServerConfig
parse text =
    if eq text file_text
    then some config
    else if eq text (appended bob file_text)
    then some (extended bob config)
    else none

-- A server that is added with the interval 0 to a client whose datagrams are in clear text.
abbrev idle : AddServerArgs
idle = record {
  name = codes "backup";
  server = codes "203.0.113.20";
  server_key = some (replicate 32 b'K');
  server_id = none;
  interval = some 0;
  no_encryption = false;
}

abbrev addr : Bytes
addr = normalize_addr (λ _. false) idle.server

abbrev client : ClientConfig
client = record {
  client =
      record (default_client (replicate 64 b'7') (codes "203.0.113.5:7370") (codes "main")
        (codes "key") (codes "key")) { wire_encryption = false };
}

abbrev idle_text : Bytes
idle_text = Extended.appended idle addr file_text

abbrev with_idle : ClientConfig
with_idle = Extended.extended idle addr [] [] client

-- The same server without an interval.
abbrev regular : AddServerArgs
regular = record idle { interval = none }

abbrev regular_text : Bytes
regular_text = Extended.appended regular addr file_text

abbrev with_regular : ClientConfig
with_regular = Extended.extended regular addr [] [] client

abbrev parse_client : Bytes → Option ClientConfig
parse_client text =
    if eq text file_text
    then some client
    else if eq text idle_text
    then some with_idle
    else if eq text regular_text
    then some with_regular
    else none

loads : Client.load client ≡ ok tt
unfolding Client.load signedpulse.Protocol.Hex.from_hex
loads = refl

parses_idle : parse_client idle_text ≡ some with_idle
unfolding bytes_dec signedpulse.Commands.Tokens.toml_table_key normalize_addr decimal
parses_idle = refl

parses_regular : parse_client regular_text ≡ some with_regular
unfolding bytes_dec signedpulse.Commands.Tokens.toml_table_key normalize_addr decimal
parses_regular = refl

parses_client : parse_client file_text ≡ some client
unfolding bytes_dec
parses_client = refl

-- The table is written, and the file no longer loads.
idle_is_written :
    (add_server toy (λ _. false) parse_client (λ _. true) idle (some file_text)).0 ≡ some idle_text
unfolding add_server load_client bytes_dec Client.load signedpulse.Protocol.Hex.from_hex
    signedpulse.Commands.Tokens.validate_token get signedpulse.Crypto.Keys.x25519_from_base64
    signedpulse.Commands.Tokens.validate_addr normalize_addr decimal
    signedpulse.Commands.File.rewrite server_block signedpulse.Commands.Tokens.toml_table_key
idle_is_written = refl

idle_is_refused : is_err (load_client parse_client (some idle_text)) ≡ true
unfolding load_client bytes_dec signedpulse.Commands.Tokens.toml_table_key normalize_addr decimal
    Client.load signedpulse.Protocol.Hex.from_hex
idle_is_refused = refl

add_server_outcome_example :
    Ends
      (some file_text)
      idle_text
      (not (fits idle.interval) || spoils idle client.client)
      parse_client
      (add_server toy (λ _. false) parse_client (λ _. true) idle (some file_text))
add_server_outcome_example =
    add_server_outcome toy (λ _. false) parse_client (λ _. true) idle file_text client [] []
      parses_client loads refl refl (λ _ _ _ _ _ _. parses_idle)

regular_is_added :
    (add_server toy (λ _. false) parse_client (λ _. true) regular (some file_text)).1
    ≡ ok with_regular
unfolding add_server load_client bytes_dec Client.load signedpulse.Protocol.Hex.from_hex
    signedpulse.Commands.Tokens.validate_token get signedpulse.Crypto.Keys.x25519_from_base64
    signedpulse.Commands.Tokens.validate_addr normalize_addr decimal
    signedpulse.Commands.File.rewrite server_block signedpulse.Commands.Tokens.toml_table_key
regular_is_added = refl

-- Encryption was not declined, and the target is in clear text.
new_server_resolves_example : IsResolved toy regular addr client.client with_regular.client
new_server_resolves_example =
    new_server_resolves toy (λ _. false) parse_client (λ _. true) regular file_text client
      with_regular [] [] parses_client loads refl refl (λ _ _ _ _ _ _. parses_regular)
      regular_is_added

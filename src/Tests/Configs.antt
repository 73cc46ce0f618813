-- ===== src/Tests/Configs.antt =====
-- The configuration of a server and its start, on concrete data.
use signedpulse.Base.{
  ◌≤◌, ◌≡◌, refl, ◌↔◌, true, false, none, some, [], ◌∷◌, arith, ok, replicate, nat_key, bytes_key,
  ip_key, insert, from_secs, codes,
}
use signedpulse.Config.{ServerConfig, ClientEntry}
use signedpulse.Protocol.Hex.{from_hex, parsed}
use signedpulse.Config.Server.{validate, check_clients}
use signedpulse.Config.Server.Accepted.{IsSound, validate-ok_iff}
use signedpulse.Crypto.Keys.{load_verifying_key}
use signedpulse.Protocol.Hex.{to_hex}
use signedpulse.Protocol.Words.{IsArray}
use signedpulse.Server.State.{Server}
use signedpulse.Server.Response.{lease_ttl}
use signedpulse.Server.Startup.{add_clients, from_config, info_of, assembled}
use signedpulse.Server.Startup.Registered.{IsStarted, from_config-IsStarted}
use signedpulse.Server.Startup.Duplicate.{spaced_duplicate_accepted}
use signedpulse.Server.Startup.Lease.{lease_ttl-bounds}
use signedpulse.Tests.{toy, section, server, alice}

abbrev entry : ClientEntry
entry = record {
  client_id = codes "0707070707070707070707070707070707070707070707070707070707070707";
  public_key = replicate 32 9;
  label = some (codes "alice");
}

abbrev pub config : ServerConfig
config = record {
  server = section;
  command = record {
    argv = codes "/bin/hook" ∷ [];
    revoke_argv = none;
    working_dir = none;
    max_concurrent = 4;
    allow_shell = false;
  };
  clients = entry ∷ [];
}

pub validated : validate config ≡ ok tt
unfolding validate signedpulse.Protocol.Hex.from_hex
validated = refl

validate-ok_iff_example : (validate config ≡ ok tt) ↔ IsSound config
validate-ok_iff_example = validate-ok_iff config

lease_ttl-bounds_example :
    (from_secs 1 ≤ lease_ttl 300 server)
    × (lease_ttl 300 server ≤ from_secs 3600)
    × (lease_ttl 300 server ≤ from_secs 31_536_000)
lease_ttl-bounds_example = lease_ttl-bounds config server 300 validated refl

abbrev pub started : Server
started = assembled toy config true 0 ((alice, info_of toy (replicate 32 9) entry) ∷ []) none

pub starts : from_config toy config true 0 ≡ ok started
unfolding from_config signedpulse.Protocol.Hex.from_hex load_verifying_key insert
starts = refl

from_config-IsStarted_example : IsStarted toy config true started
from_config-IsStarted_example = from_config-IsStarted toy config true 0 started starts

abbrev plain : ClientEntry
plain = record { client_id = to_hex alice; public_key = replicate 32 9; label = none }

abbrev spaced : ClientEntry
spaced = record { client_id = 32 ∷ to_hex alice; public_key = replicate 32 8; label = none }

alice-IsArray : IsArray 32 alice
alice-IsArray = ground arith

loads_plain : load_verifying_key toy (replicate 32 9) ≡ ok (replicate 32 9)
unfolding load_verifying_key
loads_plain = refl

loads_spaced : load_verifying_key toy (replicate 32 8) ≡ ok (replicate 32 8)
unfolding load_verifying_key
loads_spaced = refl

spaced_duplicate_accepted_example :
    (check_clients [] (plain ∷ spaced ∷ []) ≡ ok tt)
    × (add_clients toy (plain ∷ spaced ∷ []) []
        ≡ ok ((alice, info_of toy (replicate 32 8) spaced) ∷ []))
spaced_duplicate_accepted_example =
    spaced_duplicate_accepted toy alice plain spaced (replicate 32 9) (replicate 32 8) alice-IsArray
      refl refl loads_plain loads_spaced

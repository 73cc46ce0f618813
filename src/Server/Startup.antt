-- ===== src/Server/Startup.antt =====
-- `Server::from_config`. The executors and the path of the status file are left out.
pub mod Registered
pub mod Duplicate
pub mod Lease
use signedpulse.Base.{
  Bool, false, Option, none, some, List, [], ◌∷◌, unwrap_or, Result, ok, err, Bytes, nat_key,
  bytes_key, ip_key, Map, insert, Instant,
}
use signedpulse.Crypto.{Primitives, CryptoError}
use signedpulse.Crypto.Keys.{load_verifying_key, x25519_from_base64}
use signedpulse.Config.{ServerConfig, ClientEntry}
use signedpulse.Protocol.Hex.{from_hex, Parsed, parsed, bad_client_id_hex, panics}
use signedpulse.NonceStore
use signedpulse.SeenCache
use signedpulse.RateLimit.HelloRateLimiter
use signedpulse.RateLimit.CooldownTracker
use signedpulse.RateLimit.ActiveIps
use signedpulse.RateLimit.Blacklist
use signedpulse.RateLimit.LeaseTracker
use signedpulse.Server.State.{Server, ClientInfo, Status}

pub data StartError : Type 0 where
  not_hex bad_public_key bad_secret panicked : StartError

infixl 5 ◌>>=◌
abbrev pub ◌>>=◌ :
    {A B : Type 0} → Result StartError A → (A → Result StartError B) → Result StartError B
ok a >>= f = f a
err e >>= f = err e

abbrev pub map_err : {A : Type 0} → StartError → Result CryptoError A → Result StartError A
map_err x (ok a) = ok a
map_err x (err e) = err x

abbrev pub id_of : Parsed → Result StartError Bytes
id_of (parsed id) = ok id
id_of bad_client_id_hex = err not_hex
id_of panics = err panicked

abbrev pub Clients : Type 0
Clients = Map Bytes ClientInfo

abbrev pub no_counts : Status
no_counts = record { hello_accepted = 0; verified = 0; rejected = 0; replays = 0; clients = [] }

module _ (p : Primitives) where
  abbrev pub info_of : Bytes → ClientEntry → ClientInfo
  info_of verifying_key c = record {
    verifying_key = verifying_key;
    name = unwrap_or c.label c.client_id;
  }

  -- The loop over the configured clients.
  unfoldable pub add_clients : List ClientEntry → Clients → Result StartError Clients
  add_clients [] clients = ok clients
  add_clients (c ∷ cs) clients = do
    id ← id_of (from_hex c.client_id)
    verifying_key ← map_err bad_public_key (load_verifying_key p c.public_key)
    add_clients cs (insert id (info_of verifying_key c) clients)

  abbrev pub secret_of : Option Bytes → Result StartError (Option Bytes)
  secret_of none = ok none
  secret_of (some b64) =
      map_err bad_secret (x25519_from_base64 p b64) >>= λ secret. ok (some secret)

  -- The server's state at `now`, with a revoke hook or not.
  abbrev pub assembled : ServerConfig → Bool → Instant → Clients → Option Bytes → Server
  assembled config has_revoke now clients server_secret = record {
    config = config.server;
    clients = clients;
    server_secret = server_secret;
    nonce_store = NonceStore.new;
    seen_hellos = SeenCache.new;
    rate_limiter =
        HelloRateLimiter.new config.server.hello_rate_max config.server.hello_rate_window_seconds
          config.server.max_tracked_ips;
    cooldown = CooldownTracker.new config.server.client_cooldown_seconds;
    blacklist =
        Blacklist.new config.server.max_faulty_packets config.server.blacklist_seconds
          config.server.attack_blacklist_threshold config.server.attack_rejection_threshold
          config.server.attack_window_seconds config.server.max_tracked_ips now;
    active_ips = ActiveIps.new config.server.active_ip_ttl_seconds config.server.max_tracked_ips;
    lockdown_logged = false;
    has_revoke = has_revoke;
    leases = LeaseTracker.new config.server.max_tracked_ips;
    status = no_counts;
  }

  unfoldable pub from_config : ServerConfig → Bool → Instant → Result StartError Server
  unfolding add_clients
  from_config config has_revoke now = do
    clients ← add_clients config.clients []
    server_secret ← secret_of config.server.encryption_private_key
    ok (assembled config has_revoke now clients server_secret)

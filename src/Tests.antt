-- ===== src/Tests.antt =====
-- Concrete data on which the theorems are tried: a toy of the cryptographic crates, and a server
-- with one client.
pub mod Wire
pub mod Stores
pub mod Limits
pub mod Sessions
pub mod Schedules
pub mod Configs
pub mod Clients
pub mod Commands
pub mod Services
pub mod Statuses
pub mod Handshakes
pub mod Hooks
use signedpulse.Base.{
  ℕ, ◌+◌, ◌%◌, ◌≡◌, refl, ap, true, false, none, some, [], ◌∷◌, arith, ◌==◌, if◌then◌else◌, length,
  replicate, Bytes, pos, nat_key, bytes_key, ip_key, eq, IpAddr, v4, from_secs, codes,
}
use signedpulse.Crypto.{Primitives, IsLawful, IsSigning}
use signedpulse.Config.{ServerSection, WireEncryption, off}
use signedpulse.Protocol.Packet.{Hello, Response, Bye}
use signedpulse.NonceStore
use signedpulse.SeenCache
use signedpulse.RateLimit.HelloRateLimiter
use signedpulse.RateLimit.CooldownTracker
use signedpulse.RateLimit.ActiveIps
use signedpulse.RateLimit.Blacklist
use signedpulse.RateLimit.LeaseTracker
use signedpulse.Server.State.{Server, Moment, ClientInfo}

abbrev pub head : Bytes → ℕ
head [] = 0
head (b ∷ bs) = b

-- The public key and the shared secret are sums of first bytes, a signature is 64 times a checksum
-- of the key and the length of the text, and encryption only checks its key.
abbrev pub toy : Primitives
toy = record {
  b64_encode = λ bs. bs;
  b64_decode = λ text. some text;
  verifying_key_from_bytes = λ bytes. some bytes;
  verify_strict =
      λ key text signature. eq signature (replicate 64 ((head key + length text) % 256));
  ed25519_sign = λ key text. replicate 64 ((head key + length text) % 256);
  x25519_public = λ secret. replicate 32 (head secret);
  diffie_hellman = λ secret other. some ((head secret + head other) ∷ []);
  hkdf = λ salt shared info. shared;
  encrypt = λ key nonce aad text. some (head key ∷ text);
  decrypt = λ key nonce aad ct. elim ct [
    | [] ↦ none
    | k ∷ text ↦ if k == head key then some text else none
  ];
}

abbrev pub section : ServerSection
section = record {
  bind = codes "0.0.0.0:5555";
  server_id = codes "main";
  nonce_ttl_seconds = 30;
  command_timeout_seconds = 10;
  client_cooldown_seconds = 60;
  max_packet_size = 1024;
  hello_rate_max = 2;
  hello_rate_window_seconds = 10;
  hello_max_skew_seconds = 30;
  state_file = none;
  encryption_private_key = none;
  max_param_len = 64;
  wire_encryption = off;
  max_faulty_packets = 1;
  blacklist_seconds = 60;
  attack_blacklist_threshold = 0;
  attack_window_seconds = 10;
  attack_rejection_threshold = 256;
  active_ip_ttl_seconds = 100;
  max_inflight_packets = 16;
  max_tracked_ips = 100;
  lease_grace_multiplier = 3;
  lease_max_seconds = 3600;
}

abbrev pub home : IpAddr
home = v4 0x0a000001

abbrev pub away : IpAddr
away = v4 0x0a000002

abbrev pub alice : Bytes
alice = replicate 32 7

abbrev pub alice_info : ClientInfo
alice_info = record { verifying_key = replicate 32 9; name = codes "alice" }

abbrev pub limiter : HelloRateLimiter.HelloRateLimiter
limiter = record { max_per_window = 2; window = 10_000_000_000; max_entries = 100; state = [] }

abbrev pub blacklist : Blacklist.Blacklist
blacklist = record {
  threshold = 1;
  duration = 60_000_000_000;
  attack_threshold = 0;
  rejection_threshold = 256;
  attack_window = 10_000_000_000;
  max_entries = 100;
  state = [];
  events = [];
  rejections = [];
  base = 0;
  lockdown_until_ms = 0;
  drop_window_start_ms = 0;
  drop_count = 0;
}

abbrev pub server : Server
server = record {
  config = section;
  clients = (alice, alice_info) ∷ [];
  server_secret = none;
  nonce_store = NonceStore.new;
  seen_hellos = SeenCache.new;
  rate_limiter = limiter;
  cooldown = record { cooldown = 60_000_000_000; last = [] };
  blacklist = blacklist;
  active_ips = record { ttl = 100_000_000_000; max_entries = 100; seen = [] };
  lockdown_logged = false;
  has_revoke = true;
  leases = record { max_entries = 100; leases = [] };
  status = record { hello_accepted = 0; verified = 0; rejected = 0; replays = 0; clients = [] };
}

-- A reading of both clocks, in seconds after the start.
abbrev pub second : ℕ → Moment
second n = record { unix = pos (1_700_000_000 + n); mono = from_secs n }

pub toy-IsSigning : IsSigning toy (λ secret. secret)
toy-IsSigning = record { verifies = λ secret msg. ground arith }

pub toy-IsLawful : IsLawful toy (λ secret. secret)
toy-IsLawful = record {
  agree = λ a b. ap (λ q. some (q ∷ [])) (agree a b);
  undo = λ key nonce aad msg ct done. ground (arith, done);
  signatures = toy-IsSigning;
  public_len = λ secret. refl;
}
  where
    agree :
        (a b : Bytes)
        → head a + head (replicate 32 (head b)) ≡ head b + head (replicate 32 (head a))
    agree a b = omega arith

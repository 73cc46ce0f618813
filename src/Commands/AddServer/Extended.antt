-- ===== src/Commands/AddServer/Extended.antt =====
-- The configuration with a server added, and what the checks of `add-server` establish.
use signedpulse.Base.{
  ◌≡◌, Bool, true, false, not, ◌&&◌, ◌||◌, Option, none, some, ◌∷◌, ◌++◌, arith, if◌then◌else◌,
  is_some, ok, Bytes, nat_key, bytes_key, ip_key, eq, Map, contains_key,
}
use signedpulse.Crypto.{Primitives}
use signedpulse.Config.{ClientConfig, ClientSection, ServerOverride, is_empty}
use signedpulse.Config.Client.{is_zero}
use signedpulse.Commands.Tokens.{
  validate_token, validate_addr, all, any, is_token_char, breaks_addr, breaks_label,
}
use signedpulse.Commands.File.{line_ended}
use signedpulse.Commands.AddServer.Table.{
  entries, print_table, fits, breaks_key, token-plain, addr-plain,
}
use signedpulse.Commands.AddServer.{AddServerArgs, check_args, server_id_of}

-- The text with the table appended.
abbrev pub appended : AddServerArgs → Bytes → Bytes → Bytes
appended args server_addr text = line_ended text ++ print_table args.name (entries args server_addr)

-- The table that is appended, as TOML reads it.
abbrev pub override_of : AddServerArgs → Bytes → ServerOverride
override_of args server_addr = record {
  server_addr = server_addr;
  server_id = if eq (server_id_of args) args.name then none else some (server_id_of args);
  server_encryption_key = args.server_key;
  wire_encryption = if args.no_encryption then some false else none;
  interval_seconds = args.interval;
  challenge_timeout_seconds = none;
  retry_initial_ms = none;
  retry_max_ms = none;
  retries = none;
  param_command = none;
  param_command_timeout_seconds = none;
  param_max_len = none;
}

-- The configuration with the server among the others, after `pre` and before `post` in the order
-- of the keys.
abbrev pub extended :
    AddServerArgs
    → Bytes
    → Map Bytes ServerOverride
    → Map Bytes ServerOverride
    → ClientConfig
    → ClientConfig
extended args server_addr pre post config = record config {
  client = record config.client {
    servers = pre ++ (args.name, override_of args server_addr) ∷ post;
  };
}

-- TOML: the text with the table appended parses as the configuration with the server among the
-- others, if the label is new and no string of the table holds a quote, a backslash or a control
-- character; but it does not parse if an integer is beyond 64 bits with a sign. It fails for a text
-- that gives `servers` as an inline table.
abbrev pub Appends :
    (Bytes → Option ClientConfig)
    → AddServerArgs
    → Bytes
    → Bytes
    → ClientConfig
    → Map Bytes ServerOverride
    → Map Bytes ServerOverride
    → Type 0
Appends parse args server_addr text config pre post =
    is_empty args.name ≡ false
    → any breaks_label args.name ≡ false
    → any breaks_label (server_id_of args) ≡ false
    → any breaks_label server_addr ≡ false
    → breaks_key args.server_key ≡ false
    → contains_key args.name config.client.servers ≡ false
    → parse (appended args server_addr text)
      ≡ (if fits args.interval then some (extended args server_addr pre post config) else none)

-- What `load` refuses of the new server.
abbrev pub spoils : AddServerArgs → ClientSection → Bool
spoils args c = is_zero args.interval || (is_some c.param_command && not (is_some args.server_key))

-- What the checks of `add-server` have established.
pub record IsPassed (p : Primitives) (args : AddServerArgs) (server_addr : Bytes)
    (config : ClientConfig) : Type 0 where
  pub named : is_empty args.name ≡ false
  pub apart : eq args.name config.client.server_id ≡ false
  pub keyed : (not args.no_encryption && not (is_some args.server_key)) ≡ false
  pub addressed : is_empty server_addr ≡ false

-- And of the characters and the label.
pub record IsPlain (args : AddServerArgs) (server_addr : Bytes) (config : ClientConfig)
    : Type 0 where
  pub named : is_empty args.name ≡ false
  pub name_chars : all is_token_char args.name ≡ true
  pub id_chars : all is_token_char (server_id_of args) ≡ true
  pub addr_chars : any breaks_addr server_addr ≡ false
  pub fresh : contains_key args.name config.client.servers ≡ false

-- A server that has passed the checks is one whose table TOML reads.
pub parse-appended :
    (parse : Bytes → Option ClientConfig) (args : AddServerArgs) (server_addr text : Bytes)
    (config : ClientConfig) (pre post : Map Bytes ServerOverride)
    → Appends parse args server_addr text config pre post
    → breaks_key args.server_key ≡ false
    → IsPlain args server_addr config
    → parse (appended args server_addr text)
      ≡ (if fits args.interval then some (extended args server_addr pre post config) else none)
parse-appended parse args server_addr text config pre post toml key_plain v =
    toml v.named (token-plain args.name v.name_chars) (token-plain (server_id_of args) v.id_chars)
      (addr-plain server_addr v.addr_chars) key_plain v.fresh

module _ (p : Primitives) where
  pub check_args-IsPassed :
      (args : AddServerArgs) (server_addr : Bytes) (config : ClientConfig)
      → check_args p args server_addr config ≡ ok tt
      → IsPassed p args server_addr config
  unfolding check_args validate_token validate_addr
  check_args-IsPassed args server_addr config h = record {
    named = ground (arith, h);
    apart = ground (arith, h);
    keyed = ground (arith, h);
    addressed = ground (arith, h);
  }

  pub check_args-IsPlain :
      (args : AddServerArgs) (server_addr : Bytes) (config : ClientConfig)
      → check_args p args server_addr config ≡ ok tt
      → IsPlain args server_addr config
  unfolding check_args validate_token validate_addr
  check_args-IsPlain args server_addr config h = record {
    named = ground (arith, h);
    name_chars = ground (arith, h);
    id_chars = ground (arith, h);
    addr_chars = ground (arith, h);
    fresh = ground (arith, h);
  }

-- ===== src/Commands/AddServer.antt =====
-- `add-server` of the client's command line. Each result is the file afterwards, and the
-- configuration that is reported or the error.
pub mod Table
pub mod Extended
pub mod Accepted
pub mod Outcome
pub mod Added
use signedpulse.Base.{
  ℕ, Bool, false, not, ◌&&◌, Option, none, some, [], ◌∷◌, ◌++◌, if◌then◌else◌, is_some, unwrap_or,
  Result, ok, err, Bytes, nat_key, bytes_key, ip_key, eq, contains_key, codes, decimal,
}
use signedpulse.Crypto.{Primitives}
use signedpulse.Crypto.Keys.{x25519_from_base64}
use signedpulse.Config.{ClientConfig}
use signedpulse.Commands.Tokens.{
  validate_token, validate_addr, toml_table_key, normalize_addr, quote,
}
use signedpulse.Commands.File.{
  load_client, rewrite, EditError, bad_name, name_collides, already_configured, bad_server_id,
  no_server_key, bad_server_key, bad_server_addr, cannot_load, refused, Guard, refuse, is_err,
  line_ended, text_of,
}

pub record AddServerArgs : Type 0 where
  pub name : Bytes
  pub server : Bytes
  pub server_key : Option Bytes
  pub server_id : Option Bytes
  pub interval : Option ℕ
  pub no_encryption : Bool

abbrev pub server_id_of : AddServerArgs → Bytes
server_id_of args = unwrap_or args.server_id args.name

abbrev pub key_line : Option Bytes → Bytes
key_line none = []
key_line (some key) = codes "server_encryption_key = " ++ quote key ++ 10 ∷ []

abbrev pub interval_line : Option ℕ → Bytes
interval_line none = []
interval_line (some interval) = codes "interval_seconds = " ++ decimal interval ++ 10 ∷ []

-- The table, with the normalized address.
unfoldable pub server_block : AddServerArgs → Bytes → Bytes
server_block args server_addr =
    10 ∷ codes "[client.servers."
    ++ toml_table_key args.name
    ++ codes "]"
    ++ 10 ∷ codes "server_addr = "
    ++ quote server_addr
    ++ 10
      ∷ (if eq (server_id_of args) args.name
          then []
          else codes "server_id = " ++ quote (server_id_of args) ++ 10 ∷ [])
    ++ key_line args.server_key
    ++ (if args.no_encryption then codes "wire_encryption = false" ++ 10 ∷ [] else [])
    ++ interval_line args.interval

module _ (p : Primitives) where
  abbrev pub is_bad_key : Option Bytes → Bool
  is_bad_key none = false
  is_bad_key (some key) = is_err (x25519_from_base64 p key)

  -- The checks before the file is touched.
  unfoldable pub check_args : AddServerArgs → Bytes → ClientConfig → Guard
  check_args args server_addr existing = refuse (is_err (validate_token args.name)) bad_name (
      refuse (eq args.name existing.client.server_id) name_collides (
        refuse (contains_key args.name existing.client.servers) already_configured (
          refuse (is_err (validate_token (server_id_of args))) bad_server_id (
            refuse (not args.no_encryption && not (is_some args.server_key)) no_server_key (
              refuse (is_bad_key args.server_key) bad_server_key
                (refuse (is_err (validate_addr server_addr)) bad_server_addr (ok tt)))))))

  unfoldable pub add_server :
      (Bytes → Bool)
      → (Bytes → Option ClientConfig)
      → (Bytes → Bool)
      → AddServerArgs
      → Option Bytes
      → Option Bytes × Result EditError ClientConfig
  unfolding check_args
  add_server is_socket_addr parse writes args file =
      let server_addr = normalize_addr is_socket_addr args.server in
      elim (load_client parse file) [
        | err e ↦ (file, err (cannot_load e))
        | ok existing ↦ elim (check_args args server_addr existing) [
          | err r ↦ (file, err (refused r))
          | ok _ ↦
              rewrite (load_client parse) writes
                (line_ended (text_of file) ++ server_block args server_addr) file
        ]
      ]

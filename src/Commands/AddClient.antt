-- ===== src/Commands/AddClient.antt =====
-- `add-client` of the server's command line. Each result is the file afterwards, and the
-- configuration that is reported or the error.
pub mod Authorized
pub mod Restart
use signedpulse.Base.{
  Bool, false, ◌||◌, Option, none, some, List, [], ◌∷◌, ◌++◌, Result, ok, err, Bytes, nat_key,
  bytes_key, ip_key, eq, codes,
}
use signedpulse.Crypto.{Primitives}
use signedpulse.Crypto.Keys.{load_verifying_key}
use signedpulse.Config.{ServerConfig, ClientEntry}
use signedpulse.Config.Server.{to_lowercase}
use signedpulse.Protocol.Hex.{from_hex, Parsed, parsed, bad_client_id_hex, panics}
use signedpulse.Commands.Tokens.{any, breaks_label, quote}
use signedpulse.Commands.File.{
  load_server, rewrite, EditError, bad_client_id, id_panics, bad_public_key, bad_label,
  already_authorized, cannot_load, refused, Guard, refuse, is_err, line_ended, text_of,
}

pub record AddClientArgs : Type 0 where
  pub client_id : Bytes
  pub public_key : Bytes
  pub label : Option Bytes

abbrev pub guard_id : Parsed → Guard → Guard
guard_id (parsed id) rest = rest
guard_id bad_client_id_hex rest = err bad_client_id
guard_id panics rest = err id_panics

abbrev pub breaks : Option Bytes → Bool
breaks none = false
breaks (some label) = any breaks_label label

-- `eq_ignore_ascii_case` with one of the ids.
abbrev pub is_listed : Bytes → List ClientEntry → Bool
is_listed id [] = false
is_listed id (c ∷ cs) = eq (to_lowercase c.client_id) (to_lowercase id) || is_listed id cs

abbrev pub label_line : Option Bytes → Bytes
label_line none = []
label_line (some label) = codes "label = " ++ quote label ++ 10 ∷ []

unfoldable pub client_block : AddClientArgs → Bytes
client_block args =
    10 ∷ codes "[[clients]]"
    ++ 10 ∷ codes "client_id = "
    ++ quote args.client_id
    ++ 10 ∷ codes "public_key = "
    ++ quote args.public_key
    ++ 10 ∷ label_line args.label

module _ (p : Primitives) where
  -- The checks before the file is touched.
  unfoldable pub check_args : AddClientArgs → ServerConfig → Guard
  check_args args existing = guard_id (from_hex args.client_id) (
      refuse (is_err (load_verifying_key p args.public_key)) bad_public_key (
        refuse (breaks args.label) bad_label
          (refuse (is_listed args.client_id existing.clients) already_authorized (ok tt))))

  unfoldable pub add_client :
      (Bytes → Option ServerConfig)
      → (Bytes → Bool)
      → AddClientArgs
      → Option Bytes
      → Option Bytes × Result EditError ServerConfig
  unfolding check_args
  add_client parse writes args file = elim (load_server parse file) [
    | err e ↦ (file, err (cannot_load e))
    | ok existing ↦ elim (check_args args existing) [
      | err r ↦ (file, err (refused r))
      | ok _ ↦
          rewrite (load_server parse) writes (line_ended (text_of file) ++ client_block args) file
    ]
  ]

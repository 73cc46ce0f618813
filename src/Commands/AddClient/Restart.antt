-- ===== src/Commands/AddClient/Restart.antt =====
-- What the server knows when it restarts after `add-client`.
use signedpulse.Base.{
  ◌≡◌, Bool, Option, some, arith, ok, Bytes, nat_key, bytes_key, ip_key, insert, Instant,
}
use signedpulse.Server.State.{Server}
use signedpulse.Server.Startup.{info_of, from_config}
use signedpulse.Commands.File.{load_server, rewrite}
use signedpulse.Commands.AddClient.{add_client}
use signedpulse.Crypto.{Primitives}
use signedpulse.Crypto.Keys.{load_verifying_key}
use signedpulse.Config.{ServerConfig}
use signedpulse.Protocol.Hex.{from_hex, parsed}
use signedpulse.Commands.AddClient.{AddClientArgs, check_args}
use signedpulse.Commands.AddClient.Authorized.{entry_of, appended}

parsed_lem :
    (parse : Bytes → Option ServerConfig) (text : Bytes) (c : ServerConfig)
    → load_server parse (some text) ≡ ok c
    → parse text ≡ some c
unfolding load_server
parsed_lem parse text c h = ground (arith, h)

succeeds :
    (p : Primitives) (parse : Bytes → Option ServerConfig) (writes : Bytes → Bool)
    (args : AddClientArgs) (text : Bytes) (c c' : ServerConfig)
    → parse text ≡ some c
    → (add_client p parse writes args (some text)).1 ≡ ok c'
    → (check_args p args c ≡ ok tt) × (parse (appended args text) ≡ some c')
unfolding add_client load_server rewrite
succeeds p parse writes args text c c' reads authorized = (
  ground (arith, reads, authorized),
  parsed_lem parse (appended args text) c' (ground (arith, reads, authorized)),
)

-- After a restart, the server is as it was, with the new client under its id, with its key and
-- its name.
pub record IsRestarted (p : Primitives) (args : AddClientArgs) (has_revoke : Bool) (now : Instant)
    (s : Server) (c : ServerConfig) : Type 0 where
  pub id : Bytes
  pub key : Bytes
  pub reads : from_hex args.client_id ≡ parsed id
  pub loads : load_verifying_key p args.public_key ≡ ok key
  pub restarts :
      from_config p c has_revoke now
      ≡ ok (record s { clients = insert id (info_of p key (entry_of args)) s.clients })

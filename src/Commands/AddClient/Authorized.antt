-- ===== src/Commands/AddClient/Authorized.antt =====
-- What `add-client` leaves behind, and what the server knows after a restart.
use signedpulse.Base.{
  ◌≡◌, refl, Bool, true, false, Option, some, [], ◌∷◌, ◌++◌, arith, Result, ok, err, Bytes, nat_key,
  bytes_key, ip_key,
}
use signedpulse.Commands.File.{Refusal}
use signedpulse.Crypto.{Primitives, CryptoError}
use signedpulse.Crypto.Keys.{load_verifying_key}
use signedpulse.Config.{ServerConfig, ClientEntry}
use signedpulse.Protocol.Hex.{from_hex, Parsed, parsed, bad_client_id_hex, panics}
use signedpulse.Commands.Tokens.{any, breaks_label}
use signedpulse.Commands.File.{Refusal, line_ended, refuse, is_err, Guard}
use signedpulse.Commands.AddClient.{
  AddClientArgs, check_args, client_block, is_listed, breaks, guard_id,
}

abbrev pub entry_of : AddClientArgs → ClientEntry
entry_of args = record {
  client_id = args.client_id;
  public_key = args.public_key;
  label = args.label;
}

-- The configuration with the client appended.
abbrev pub extended : AddClientArgs → ServerConfig → ServerConfig
extended args c = record c { clients = c.clients ++ entry_of args ∷ [] }

abbrev pub appended : AddClientArgs → Bytes → Bytes
appended args text = line_ended text ++ client_block args

-- TOML: the text with the table appended parses as the configuration with the client appended, if
-- no string of the table holds a quote, a backslash or a control character. It fails for a text
-- that gives `clients` as an inline array.
abbrev pub Appends : (Bytes → Option ServerConfig) → AddClientArgs → Bytes → ServerConfig → Type 0
Appends parse args text c =
    any breaks_label args.client_id ≡ false
    → any breaks_label args.public_key ≡ false
    → breaks args.label ≡ false
    → parse (appended args text) ≡ some (extended args c)

-- What the checks of `add-client` have established.
pub record IsChecked (p : Primitives) (args : AddClientArgs) (c : ServerConfig) : Type 0 where
  pub id : Bytes
  pub key : Bytes
  pub reads : from_hex args.client_id ≡ parsed id
  pub loads : load_verifying_key p args.public_key ≡ ok key
  pub plain : breaks args.label ≡ false
  pub new : is_listed args.client_id c.clients ≡ false

read_step :
    (r : Parsed) (rest : Guard)
    → guard_id r rest ≡ ok tt
    → (id : Bytes) × (r ≡ parsed id) × (rest ≡ ok tt)
read_step (parsed id) rest h = (id, refl, h)
read_step bad_client_id_hex rest h = absurd (ground (arith, h))
read_step panics rest h = absurd (ground (arith, h))

refuse_step :
    (b : Bool) (r : Refusal) (rest : Guard) → refuse b r rest ≡ ok tt → (b ≡ false) × (rest ≡ ok tt)
refuse_step true r rest h = absurd (ground (arith, h))
refuse_step false r rest h = (refl, h)

loaded : (r : Result CryptoError Bytes) → is_err r ≡ false → (k : Bytes) × (r ≡ ok k)
loaded (ok k) h = (k, refl)
loaded (err e) h = absurd (ground (arith, h))

module _ (p : Primitives) where
  pub check_args-IsChecked :
      (args : AddClientArgs) (c : ServerConfig) → check_args p args c ≡ ok tt → IsChecked p args c
  unfolding check_args
  check_args-IsChecked args c h =
      let (id, reads, h1) = read_step (from_hex args.client_id) _ h in
      let (good, h2) = refuse_step (is_err (load_verifying_key p args.public_key)) _ _ h1 in
      let (key, loads) = loaded (load_verifying_key p args.public_key) good in
      let (plain, h3) = refuse_step (breaks args.label) _ _ h2 in
      let (new, _) = refuse_step (is_listed args.client_id c.clients) _ _ h3 in
      record { id = id; key = key; reads = reads; loads = loads; plain = plain; new = new }

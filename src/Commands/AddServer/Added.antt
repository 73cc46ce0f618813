-- ===== src/Commands/AddServer/Added.antt =====
-- The target that an added server resolves to.
use signedpulse.Base.{
  ◌≡◌, refl, sym, ap, ◌∙◌, subst, Bool, true, false, not, ◌&&◌, Option, none, some, [], ◌∷◌, ◌++◌,
  arith, if◌then◌else◌, is_some, unwrap_or, Result, ok, err, Bytes, nat_key, bytes_key, ip_key, Map,
  get, from_secs,
}
use signedpulse.Crypto.{Primitives, CryptoError}
use signedpulse.Crypto.Keys.{x25519_from_base64}
use signedpulse.Config.{ClientConfig, ClientSection, ServerOverride}
use signedpulse.Config.Client
use signedpulse.Commands.Tokens.{normalize_addr}
use signedpulse.Client.Target.{
  inherited, target_of, decode_key, ServerTarget, resolve_override, resolve_target,
}
use signedpulse.Commands.File.{is_err, load_client, line_ended, rewrite}
use signedpulse.Commands.AddServer.{
  AddServerArgs, check_args, server_id_of, is_bad_key, add_server, server_block,
}
use signedpulse.Commands.AddServer.Table.{server_block-print, fits, breaks_key}
use signedpulse.Commands.AddServer.Accepted.{load-extended}
use signedpulse.Commands.AddServer.Extended.{
  override_of, spoils, check_args-IsPassed, check_args-IsPlain, parse-appended, extended, Appends,
}

-- The target of an added server: its label, its id and its address are those given, and it seals
-- its datagrams if encryption is not declined and `[client]` seals its own.
pub record IsAdded (args : AddServerArgs) (server_addr : Bytes) (c : ClientSection)
    (t : ServerTarget) : Type 0 where
  pub label : t.name ≡ args.name
  pub id : t.server_id ≡ server_id_of args
  pub address : t.server_addr ≡ server_addr
  pub keyed : is_some t.server_pub ≡ is_some args.server_key
  pub wire : t.wire_encryption ≡ (not args.no_encryption && c.wire_encryption)
  pub interval : t.interval ≡ from_secs (unwrap_or args.interval c.interval_seconds)

module _ (p : Primitives) where
  opened : (r : Result CryptoError Bytes) → is_err r ≡ false → (k : Bytes) × (r ≡ ok k)
  opened (ok k) h = (k, refl)
  opened (err e) h = absurd (ground (arith, h))

  key_lem :
      (o : Option Bytes)
      → is_bad_key p o ≡ false
      → (k : Option Bytes) × (decode_key p o ≡ ok k) × (is_some k ≡ is_some o)
  key_lem none h = (none, refl, refl)
  key_lem (some b) h =
      let (k, e) = opened (x25519_from_base64 p b) h in (some k, ground (arith, e), refl)

  -- What the checks leave: the override resolves to a target with what was given.
  resolve-override_of :
      (args : AddServerArgs) (server_addr : Bytes) (config : ClientConfig)
      → check_args p args server_addr config ≡ ok tt
      → spoils args config.client ≡ false
      → (t : ServerTarget) × (resolve_override p args.name
            (override_of args server_addr)
            config.client
          ≡ ok t)
        × IsAdded args server_addr config.client t
  unfolding check_args resolve_override resolve_target
  resolve-override_of args server_addr config passes sound =
      let v = check_args-IsPassed p args server_addr config passes in
      let (k, decoded, keyed) = key_lem args.server_key (ground (arith, passes)) in
      let settings = inherited args.name (override_of args server_addr) config.client in
      (
        target_of settings k,
        ground (arith, decoded, keyed, v.keyed, sound),
        record {
          label = refl;
          id = ground arith;
          address = refl;
          keyed = keyed;
          wire = ground arith;
          interval = refl;
        },
      )

same_override :
    (p : Primitives) (label : Bytes) (ov : ServerOverride) (c : ClientSection)
    (m : Map Bytes ServerOverride)
    → resolve_override p label ov (record c { servers = m }) ≡ resolve_override p label ov c
unfolding resolve_override
same_override p label ov c m = refl

get-middle :
    (name : Bytes) (ov : ServerOverride) (pre post : Map Bytes ServerOverride)
    → get name (pre ++ post) ≡ none
    → get name (pre ++ (name, ov) ∷ post) ≡ some ov
unfolding get
get-middle name ov [] post h = ground arith
get-middle name ov ((l, o) ∷ pre) post h = ground (arith, h, get-middle name ov pre post)

loaded_lem :
    (parse : Bytes → Option ClientConfig) (text : Bytes) (c : ClientConfig)
    → load_client parse (some text) ≡ ok c
    → (parse text ≡ some c) × (is_err (Client.load c) ≡ false)
unfolding load_client
loaded_lem parse text c h = (ground (arith, h), ground (arith, h))

fitting : (fit : Bool) (a b : ClientConfig) → some b ≡ (if fit then some a else none) → a ≡ b
fitting true a b h = ap (λ o. unwrap_or o a) (sym h)
fitting false a b h = absurd (ground (arith, h))

not_present : (o : Option ServerOverride) → is_some o ≡ false → o ≡ none
not_present none h = refl
not_present (some ov) h = absurd (ground (arith, h))

-- The configuration that `add-server` leaves lists the server under its label, with an override
-- that resolves to the target of the server.
pub record IsResolved (p : Primitives) (args : AddServerArgs) (server_addr : Bytes)
    (c : ClientSection) (c' : ClientSection) : Type 0 where
  pub override : ServerOverride
  pub target : ServerTarget
  pub listed : get args.name c'.servers ≡ some override
  pub resolves : resolve_override p args.name override c' ≡ ok target
  pub added : IsAdded args server_addr c target

module _ (p : Primitives) (is_socket_addr : Bytes → Bool) (parse : Bytes → Option ClientConfig)
    (writes : Bytes → Bool) where
  succeeds :
      (args : AddServerArgs) (text : Bytes) (config config' : ClientConfig)
      → let server_addr = normalize_addr is_socket_addr args.server in
        parse text ≡ some config
        → (add_server p is_socket_addr parse writes args (some text)).1 ≡ ok config'
        → (check_args p args server_addr config ≡ ok tt)
          × (load_client parse (some (line_ended text ++ server_block args server_addr))
              ≡ ok config')
  unfolding add_server load_client rewrite
  succeeds args text config config' reads done =
      (ground (arith, reads, done), ground (arith, reads, done))

  -- Where `add-server` succeeds on a file whose configuration loads, with a key that holds no
  -- quote, backslash or control character, and if TOML reads the file with the server's table
  -- appended as such: the configuration that is left lists the server under its label, and it
  -- resolves to a target with its label, id, address and interval, with a key exactly if one was
  -- given, which is sealed exactly if encryption is not declined and `[client]` seals its own
  -- datagrams. Where `[client]` does not, the new server's datagrams are in clear text although
  -- encryption was not declined.
  pub new_server_resolves :
      (args : AddServerArgs) (text : Bytes) (config config' : ClientConfig)
      (pre post : Map Bytes ServerOverride)
      → let server_addr = normalize_addr is_socket_addr args.server in
        parse text ≡ some config
        → Client.load config ≡ ok tt
        → config.client.servers ≡ pre ++ post
        → breaks_key args.server_key ≡ false
        → Appends parse args server_addr text config pre post
        → (add_server p is_socket_addr parse writes args (some text)).1 ≡ ok config'
        → IsResolved p args server_addr config.client config'.client
  new_server_resolves args text config config' pre post reads accepted same key_plain toml done =
      let server_addr = normalize_addr is_socket_addr args.server in
      let ov = override_of args server_addr in
      let (passes, loads) = succeeds args text config config' reads done in
      let (parsed, sound) = loaded_lem parse _ config' loads in
      let plain = check_args-IsPlain p args server_addr config passes in
      let print = ap (λ t. parse (line_ended text ++ t)) (server_block-print args server_addr) in
      let e : extended args server_addr pre post config ≡ config' =
        fitting (fits args.interval) (extended args server_addr pre post config) config' (
          sym parsed
          ∙ print
          ∙ parse-appended parse args server_addr text config pre post toml key_plain plain) in
      let unspoiled =
        sym (load-extended p args server_addr config pre post same accepted passes)
        ∙ ap (λ (c : ClientConfig). is_err (Client.load c)) e
        ∙ sound in
      let (t, resolves, added) = resolve-override_of p args server_addr config passes unspoiled in
      subst (λ (c : ClientConfig). IsResolved p args server_addr config.client c.client) e
        (record {
          override = ov;
          target = t;
          listed = get-middle args.name ov pre post (
              sym (ap (get args.name) same)
              ∙ not_present (get args.name config.client.servers) plain.fresh);
          resolves =
              same_override p args.name ov config.client (pre ++ (args.name, ov) ∷ post) ∙ resolves;
          added = added;
        })

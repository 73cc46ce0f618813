-- ===== src/Server/Startup/Registered.antt =====
-- Who is known to a server that has started.
use signedpulse.Base.{
  ◌≡◌, refl, sym, ap, ◌∙◌, subst, ◌⊎◌, inl, inr, Bool, true, Option, none, some, List, [], ◌∷◌,
  arith, is_some, unwrap_or, Result, ok, err, All, Bytes, nat_key, bytes_key, ip_key, get, insert,
  get-insert, get-insert_self, get-insert_ne, bytes_dec, Instant,
}
use signedpulse.Crypto.{Primitives, CryptoError}
use signedpulse.Crypto.Keys.{load_verifying_key}
use signedpulse.Config.{ServerConfig, ClientEntry}
use signedpulse.Protocol.Hex.{from_hex, Parsed, parsed, bad_client_id_hex, panics}
use signedpulse.NonceStore
use signedpulse.RateLimit.Blacklist
use signedpulse.Crypto.Keys.{x25519_from_base64}
use signedpulse.Server.State.{Server, ClientInfo}
use signedpulse.Server.Startup.{
  StartError, bad_public_key, bad_secret, ◌>>=◌, map_err, id_of, Clients, info_of, add_clients,
  secret_of, assembled, from_config,
}

-- Some entry of `cs` satisfies `P`.
abbrev pub AnyOf : (ClientEntry → Type 0) → List ClientEntry → Type 0
AnyOf P [] = ⊥
AnyOf P (c ∷ cs) = P c ⊎ AnyOf P cs

module _ (p : Primitives) where
  -- The entry `c` registers `id` with `info`.
  pub record Registers (id : Bytes) (info : ClientInfo) (c : ClientEntry) : Type 0 where
    pub reads : from_hex c.client_id ≡ parsed id
    pub key : load_verifying_key p c.public_key ≡ ok info.verifying_key
    pub name : info.name ≡ unwrap_or c.label c.client_id

  -- The client of `c` is among `clients`.
  pub record IsKnown (clients : Clients) (c : ClientEntry) : Type 0 where
    pub id : Bytes
    pub reads : from_hex c.client_id ≡ parsed id
    pub found : is_some (get id clients) ≡ true

  id_step :
      {A : Type 0} (r : Parsed) (f : Bytes → Result StartError A) (x : A)
      → (id_of r >>= f) ≡ ok x
      → (id : Bytes) × (r ≡ parsed id) × (f id ≡ ok x)
  id_step (parsed id) f x h = (id, refl, h)
  id_step bad_client_id_hex f x h = absurd (ground (arith, h))
  id_step panics f x h = absurd (ground (arith, h))

  load_step :
      {A B : Type 0} (e : StartError) (r : Result CryptoError B) (f : B → Result StartError A)
      (x : A)
      → (map_err e r >>= f) ≡ ok x
      → (b : B) × (r ≡ ok b) × (f b ≡ ok x)
  load_step e (ok b) f x h = (b, refl, h)
  load_step e (err y) f x h = absurd (ground (arith, h))

  still_known :
      (a id : Bytes) (info : ClientInfo) (clients : Clients)
      → is_some (get id clients) ≡ true
      → is_some (get id (insert a info clients)) ≡ true
  still_known a id info clients k = ground (arith, k, get-insert a id info clients)

  -- An entry that is added.
  pub record Added (c : ClientEntry) (cs : List ClientEntry) (clients clients' : Clients)
      : Type 0 where
    pub id : Bytes
    pub verifying_key : Bytes
    pub reads : from_hex c.client_id ≡ parsed id
    pub key : load_verifying_key p c.public_key ≡ ok verifying_key
    pub rest : add_clients p cs (insert id (info_of p verifying_key c) clients) ≡ ok clients'

  pub added_lem :
      (c : ClientEntry) (cs : List ClientEntry) (clients clients' : Clients)
      → add_clients p (c ∷ cs) clients ≡ ok clients'
      → Added c cs clients clients'
  unfolding add_clients
  added_lem c cs clients clients' h =
      let (id, reads, h') =
        id_step (from_hex c.client_id)
          (λ i. map_err bad_public_key (load_verifying_key p c.public_key) >>= λ k.
            add_clients p cs (insert i (info_of p k c) clients))
          clients' h in
      let (verifying_key, key, rest) =
        load_step bad_public_key (load_verifying_key p c.public_key)
          (λ k. add_clients p cs (insert id (info_of p k c) clients)) clients' h' in
      record { id = id; verifying_key = verifying_key; reads = reads; key = key; rest = rest }

  kept :
      (id : Bytes) (cs : List ClientEntry) (clients clients' : Clients)
      → add_clients p cs clients ≡ ok clients'
      → is_some (get id clients) ≡ true
      → is_some (get id clients') ≡ true
  unfolding add_clients
  kept id [] clients clients' h k = ground (arith, h, k)
  kept id (c ∷ cs) clients clients' h k =
      let a = added_lem c cs clients clients' h in
      kept id cs (insert a.id (info_of p a.verifying_key c) clients) clients' a.rest
        (still_known a.id id (info_of p a.verifying_key c) clients k)

  All-IsKnown :
      (cs : List ClientEntry) (clients clients' : Clients)
      → add_clients p cs clients ≡ ok clients'
      → All (IsKnown clients') cs
  All-IsKnown [] clients clients' h = tt
  All-IsKnown (c ∷ cs) clients clients' h =
      let a = added_lem c cs clients clients' h in
      (
        record {
          id = a.id;
          reads = a.reads;
          found =
              kept a.id cs (insert a.id (info_of p a.verifying_key c) clients) clients' a.rest
                (ap is_some (get-insert_self a.id (info_of p a.verifying_key c) clients));
        },
        All-IsKnown cs (insert a.id (info_of p a.verifying_key c) clients) clients' a.rest,
      )

  registers :
      (id : Bytes) (info : ClientInfo) (c : ClientEntry) (clients : Clients) (i key : Bytes)
      → i ≡ id
      → from_hex c.client_id ≡ parsed i
      → load_verifying_key p c.public_key ≡ ok key
      → get id (insert i (info_of p key c) clients) ≡ some info
      → Registers id info c
  registers id info c clients i key same reads loads now =
      let new : ClientInfo = info_of p key c in
      let e : new ≡ info =
        ap (λ o. unwrap_or o info)
          (sym (get-insert_self i new clients)
            ∙ ap (λ x. get x (insert i new clients)) same
            ∙ now) in
      record {
        reads = reads ∙ ap parsed same;
        key = loads ∙ ap (λ (y : ClientInfo). ok y.verifying_key) e;
        name = sym (ap (λ (y : ClientInfo). y.name) e);
      }

  only_registered :
      (id : Bytes) (info : ClientInfo) (cs : List ClientEntry) (clients clients' : Clients)
      → add_clients p cs clients ≡ ok clients'
      → get id clients' ≡ some info
      → AnyOf (Registers id info) cs ⊎ (get id clients ≡ some info)
  unfolding add_clients
  only_registered id info [] clients clients' h k = inr (ground (arith, h, k))
  only_registered id info (c ∷ cs) clients clients' h k =
      let a = added_lem c cs clients clients' h in
      elim (only_registered id info cs (insert a.id (info_of p a.verifying_key c) clients) clients'
        a.rest k) [
          | inl later ↦ inl (inr later)
          | inr now ↦ elim (bytes_dec a.id id) [
            | yes same ↦
                inl (inl (registers id info c clients a.id a.verifying_key same a.reads a.key now))
            | no other ↦
                inr (sym (get-insert_ne a.id id (info_of p a.verifying_key c) clients other) ∙ now)
          ]
        ]

  bind_step :
      {A B : Type 0} (r : Result StartError B) (f : B → Result StartError A) (x : A)
      → (r >>= f) ≡ ok x
      → (b : B) × (r ≡ ok b) × (f b ≡ ok x)
  bind_step (ok b) f x h = (b, refl, h)
  bind_step (err y) f x h = absurd (ground (arith, h))

  abbrev get_ok : Server → Result StartError Server → Server
  get_ok d (ok s) = s
  get_ok d (err e) = d

  ok_inj : (a b : Server) → ◌≡◌ {A = Result StartError Server} (ok a) (ok b) → a ≡ b
  ok_inj a b h = ap (get_ok a) h

  secret_lem : (o y : Option Bytes) → secret_of p o ≡ ok y → is_some y ≡ is_some o
  secret_lem none y h = ground (arith, h)
  secret_lem (some b64) y h =
      let (secret, opened, done) =
        load_step bad_secret (x25519_from_base64 p b64) (λ k. ok (some k)) y h in
      ground (arith, done)

  -- What a server that starts is made of.
  pub started_lem :
      (c : ServerConfig) (has_revoke : Bool) (now : Instant) (s : Server)
      → from_config p c has_revoke now ≡ ok s
      → (clients : Clients) × (secret : Option Bytes) × (add_clients p c.clients [] ≡ ok clients)
        × (secret_of p c.server.encryption_private_key ≡ ok secret)
        × (assembled p c has_revoke now clients secret ≡ s)
  unfolding from_config
  started_lem c has_revoke now s h =
      let (clients, added, h') =
        bind_step (add_clients p c.clients [])
          (λ m. secret_of p c.server.encryption_private_key >>= λ k.
            ok (assembled p c has_revoke now m k))
          s h in
      let (secret, opened, done) =
        bind_step (secret_of p c.server.encryption_private_key)
          (λ k. ok (assembled p c has_revoke now clients k)) s h' in
      (clients, secret, added, opened, ok_inj (assembled p c has_revoke now clients secret) s done)

  -- A server that has started.
  pub record IsStarted (c : ServerConfig) (has_revoke : Bool) (s : Server) : Type 0 where
    pub section : s.config ≡ c.server
    pub known : All (IsKnown s.clients) c.clients
    pub only :
        (id : Bytes) (info : ClientInfo)
        → get id s.clients ≡ some info
        → AnyOf (Registers id info) c.clients
    pub no_nonces : s.nonce_store ≡ NonceStore.new
    pub no_leases : s.leases.leases ≡ []
    pub nobody_blocked : s.blacklist.state ≡ []
    pub revokes : s.has_revoke ≡ has_revoke
    pub secret : is_some s.server_secret ≡ is_some c.server.encryption_private_key

  -- A server that starts knows every client of its configuration, and only clients that an entry
  -- of it registers, each with that entry's key and name; it holds the configuration's section, a
  -- secret if and only if the section does, no nonce, no lease and no faulty source.
  pub from_config-IsStarted :
      (c : ServerConfig) (has_revoke : Bool) (now : Instant) (s : Server)
      → from_config p c has_revoke now ≡ ok s
      → IsStarted c has_revoke s
  unfolding Blacklist.new get
  from_config-IsStarted c has_revoke now s h =
      let (clients, secret, added, opened, same) = started_lem c has_revoke now s h in
      subst (IsStarted c has_revoke) same (record {
        section = refl;
        known = All-IsKnown c.clients [] clients added;
        only = λ id info found. elim (only_registered id info c.clients [] clients added found) [
          | inl any ↦ any
          | inr none_yet ↦ absurd (ground (arith, none_yet))
        ];
        no_nonces = refl;
        no_leases = refl;
        nobody_blocked = refl;
        revokes = refl;
        secret = secret_lem c.server.encryption_private_key secret opened;
      })

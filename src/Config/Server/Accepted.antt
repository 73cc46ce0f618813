-- ===== src/Config/Server/Accepted.antt =====
-- Which configurations of a server are accepted.
use signedpulse.Base.{
  ◌≤◌, ◌<◌, ◌≡◌, refl, ◌≢◌, ◌↔◌, Bool, true, false, not, ◌&&◌, Option, none, some, List, [], ◌∷◌,
  map, arith, is_some, ok, err, All, Bytes, nat_key, bytes_key, ip_key,
}
use signedpulse.Config.{
  no_encryption_key, off, WireEncryption, duplicate_client_id, reject, ServerConfig, ServerSection,
  CommandSection, ClientEntry, required, ConfigError, Check, is_empty, check_id, ◌>>◌,
}
use signedpulse.Config.Server.{
  is_empty_hook, check_clients, check_command, check_section, validate, contains, to_lowercase,
  is_required,
}
use signedpulse.Protocol.Hex.{from_hex, Parsed, parsed, bad_client_id_hex, panics}

-- The id reads as 32 bytes.
abbrev pub Reads : ClientEntry → Type 0
Reads c = (id : Bytes) × (from_hex c.client_id ≡ parsed id)

abbrev pub AllDistinct : List Bytes → Type 0
AllDistinct [] = Unit
AllDistinct (x ∷ xs) = All (λ y. y ≢ x) xs × AllDistinct xs

abbrev pub ids : List ClientEntry → List Bytes
ids cs = map (λ (c : ClientEntry). to_lowercase c.client_id) cs

abbrev pub Revokes : Option (List Bytes) → Type 0
Revokes none = Unit
Revokes (some argv) = is_empty argv ≡ false

pub record IsSound (c : ServerConfig) : Type 0 where
  pub runs : is_empty c.command.argv ≡ false
  pub concurrent : 0 < c.command.max_concurrent
  pub revokes : Revokes c.command.revoke_argv
  pub grace : 0 < c.server.lease_grace_multiplier
  pub lease : (0 < c.server.lease_max_seconds) × (c.server.lease_max_seconds ≤ 31_536_000)
  pub packet : (0 < c.server.max_packet_size) × (c.server.max_packet_size ≤ 65_535)
  pub timeout : 0 < c.server.command_timeout_seconds
  pub nonce_ttl : 0 < c.server.nonce_ttl_seconds
  pub skew : 0 < c.server.hello_max_skew_seconds
  pub window : 0 < c.server.hello_rate_window_seconds
  pub param : (0 < c.server.max_param_len) × (c.server.max_param_len ≤ 60_000)
  pub readable : All Reads c.clients
  pub distinct : AllDistinct (ids c.clients)
  pub keyed : c.server.wire_encryption ≡ required → is_some c.server.encryption_private_key ≡ true

contains-none : (x : Bytes) (ys : List Bytes) → contains x ys ≡ false → All (λ y. x ≢ y) ys
contains-none x [] h = tt
contains-none x (y ∷ ys) h = ((λ e. grind arith), contains-none x ys (ground (arith, h)))

pub none-contains : (x : Bytes) (ys : List Bytes) → All (λ y. x ≢ y) ys → contains x ys ≡ false
none-contains x [] h = refl
none-contains x (y ∷ ys) h = grind (arith, h.0, none-contains x ys h.1)

id_step :
    (r : Parsed) (b : Bool) (e : ConfigError) (rest : Check)
    → (check_id r >> reject b e rest) ≡ ok tt
    → ((id : Bytes) × (r ≡ parsed id)) × (b ≡ false) × (rest ≡ ok tt)
id_step (parsed id) b e rest h = ((id, refl), ground (arith, h), ground (arith, h))
id_step bad_client_id_hex b e rest h = absurd (ground (arith, h))
id_step panics b e rest h = absurd (ground (arith, h))

-- The ids of `cs` are none of those seen.
abbrev Unseen : List Bytes → List ClientEntry → Type 0
Unseen seen cs = All (λ x. All (λ y. x ≢ y) seen) (ids cs)

unsee :
    (id : Bytes) (seen xs : List Bytes)
    → All (λ x. All (λ y. x ≢ y) (id ∷ seen)) xs
    → All (λ x. x ≢ id) xs × All (λ x. All (λ y. x ≢ y) seen) xs
unsee id seen [] h = (tt, tt)
unsee id seen (x ∷ xs) h = let (a, b) = unsee id seen xs h.1 in ((h.0.0, a), (h.0.1, b))

see :
    (id : Bytes) (seen xs : List Bytes)
    → All (λ x. x ≢ id) xs
    → All (λ x. All (λ y. x ≢ y) seen) xs
    → All (λ x. All (λ y. x ≢ y) (id ∷ seen)) xs
see id seen [] a b = tt
see id seen (x ∷ xs) a b = ((a.0, b.0), see id seen xs a.1 b.1)

clients_accepted :
    (seen : List Bytes) (cs : List ClientEntry)
    → check_clients seen cs ≡ ok tt
    → All Reads cs × AllDistinct (ids cs) × Unseen seen cs
unfolding check_clients
clients_accepted seen [] h = (tt, tt, tt)
clients_accepted seen (c ∷ cs) h =
    let id = to_lowercase c.client_id in
    let (reads, fresh, later) =
      id_step (from_hex c.client_id) (contains id seen) duplicate_client_id
        (check_clients (id ∷ seen) cs) h in
    let (all_read, distinct, unseen) = clients_accepted (id ∷ seen) cs later in
    let (apart, rest) = unsee id seen (ids cs) unseen in
    ((reads, all_read), (apart, distinct), (contains-none id seen fresh, rest))

accept_clients :
    (seen : List Bytes) (cs : List ClientEntry)
    → All Reads cs
    → AllDistinct (ids cs)
    → Unseen seen cs
    → check_clients seen cs ≡ ok tt
unfolding check_clients
accept_clients seen [] r d u = refl
accept_clients seen (c ∷ cs) ((id, reads), r) (apart, d) (fresh, u) =
    let x = to_lowercase c.client_id in
    ground (
      arith,
      reads,
      none-contains x seen fresh,
      accept_clients (x ∷ seen) cs r d (see x seen (ids cs) apart u),
    )

Unseen-nil : (cs : List ClientEntry) → Unseen [] cs
Unseen-nil [] = tt
Unseen-nil (c ∷ cs) = (tt, Unseen-nil cs)

keyed_lem :
    (w : WireEncryption) (k : Option Bytes)
    → (w ≡ required → is_some k ≡ true)
    → (is_required w && not (is_some k)) ≡ false
keyed_lem off k h = refl
keyed_lem required k h = ground (arith, h refl)

lem_keyed :
    (w : WireEncryption) (k : Option Bytes)
    → (is_required w && not (is_some k)) ≡ false
    → w ≡ required
    → is_some k ≡ true
lem_keyed w k h e = ground (arith, h, e)

hook_iff : (o : Option (List Bytes)) → (is_empty_hook o ≡ false) ↔ Revokes o
hook_iff none = ((λ h. tt), (λ h. refl))
hook_iff (some argv) = ((λ h. h), (λ h. h))

command_iff :
    (c : CommandSection) (rest : Check)
    → (check_command c rest ≡ ok tt) ↔ (
        (is_empty c.argv ≡ false) × (0 < c.max_concurrent) × Revokes c.revoke_argv × (rest ≡ ok tt))
unfolding check_command
command_iff c rest = (
  (λ h. (ground arith, ground arith, (hook_iff c.revoke_argv).0 (ground arith), ground arith)),
  (λ (runs, concurrent, revokes, fine). ground (arith, runs, (hook_iff c.revoke_argv).1 revokes)),
)

section_iff :
    (s : ServerSection) (rest : Check)
    → (check_section s rest ≡ ok tt) ↔ (
        (0 < s.lease_grace_multiplier)
        × ((0 < s.lease_max_seconds) × (s.lease_max_seconds ≤ 31_536_000))
        × ((0 < s.max_packet_size) × (s.max_packet_size ≤ 65_535))
        × (0 < s.command_timeout_seconds)
        × (0 < s.nonce_ttl_seconds)
        × (0 < s.hello_max_skew_seconds)
        × (0 < s.hello_rate_window_seconds)
        × ((0 < s.max_param_len) × (s.max_param_len ≤ 60_000))
        × (rest ≡ ok tt))
unfolding check_section
section_iff s rest = ((λ h. ground arith), (λ h. ground (arith, h)))

tail_lem :
    (a : Check) (b : Bool)
    → (a >> reject b no_encryption_key (ok tt)) ≡ ok tt
    → (a ≡ ok tt) × (b ≡ false)
tail_lem (ok tt) b h = (refl, ground (arith, h))
tail_lem (err e) b h = absurd (ground (arith, h))

-- `validate` accepts exactly the sound configurations: both hooks name a program, the limits are
-- in their ranges, every client id reads as 32 bytes, no two of the ids are equal as texts but for
-- case, and a server that requires sealing has a key.
pub validate-ok_iff : (c : ServerConfig) → (validate c ≡ ok tt) ↔ IsSound c
unfolding validate check_command check_section
validate-ok_iff c = (forth, back)
  where
    forth : validate c ≡ ok tt → IsSound c
    forth h =
        let (runs, concurrent, revokes, h') = (command_iff c.command _).0 h in
        let (g, l, p, t, n, k, w, m, h'') = (section_iff c.server _).0 h' in
        let (accepted, key) = tail_lem (check_clients [] c.clients) _ h'' in
        let (readable, distinct, _) = clients_accepted [] c.clients accepted in
        record {
          runs = runs;
          concurrent = concurrent;
          revokes = revokes;
          grace = g;
          lease = l;
          packet = p;
          timeout = t;
          nonce_ttl = n;
          skew = k;
          window = w;
          param = m;
          readable = readable;
          distinct = distinct;
          keyed = lem_keyed c.server.wire_encryption c.server.encryption_private_key key;
        }

    back : IsSound c → validate c ≡ ok tt
    back v = (command_iff c.command _).1 (
      v.runs,
      v.concurrent,
      v.revokes,
      (section_iff c.server _).1 (
        v.grace,
        v.lease,
        v.packet,
        v.timeout,
        v.nonce_ttl,
        v.skew,
        v.window,
        v.param,
        ground (
          arith,
          accept_clients [] c.clients v.readable v.distinct (Unseen-nil c.clients),
          keyed_lem c.server.wire_encryption c.server.encryption_private_key v.keyed,
        ),
      ),
    )

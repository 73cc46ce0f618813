-- ===== src/Client/Target/Resolved.antt =====
-- An accepted configuration gives targets that can be pulsed.
use signedpulse.Base.{
  ◌≤◌, ◌<◌, ◌≡◌, refl, ap₂, ◌≢◌, true, false, not, ◌&&◌, ◌||◌, Option, none, some, List, [], ◌∷◌,
  map, arith, is_some, ok, All, Bytes, nat_key, bytes_key, ip_key, Map, from_secs,
}
use signedpulse.Crypto.{Primitives}
use signedpulse.Crypto.Keys.{load_signing_key, x25519_from_base64}
use signedpulse.Config.{◌>>◌, ClientConfig, ClientSection, ServerOverride, Check, check_id}
use signedpulse.Config.Client.{load, check_primary, check_overrides, check_override}
use signedpulse.Protocol.Hex.{from_hex, Parsed, parsed, bad_client_id_hex, panics}
use signedpulse.Client.Target.{
  ServerTarget, Identity, Settings, primary, inherited, target_of, decode_key, resolve_target,
  resolve_override, resolve_all, from_config,
}

-- A target with a positive interval, a positive backoff in order, and a key where one is needed.
pub record IsUsable (t : ServerTarget) : Type 0 where
  pub paced : from_secs 1 ≤ t.interval
  pub backoff : (0 < t.retry_initial) × (t.retry_initial ≤ t.retry_max)
  pub sealing : t.wire_encryption ≡ true → is_some t.server_pub ≡ true
  pub param : is_some t.param_command ≡ true → is_some t.server_pub ≡ true

-- The settings from which such a target comes.
record IsSound (s : Settings) : Type 0 where
  pub paced : 0 < s.interval_seconds
  pub initial : 0 < s.retry_initial_ms
  pub ordered : s.retry_initial_ms ≤ s.retry_max_ms
  pub keyed :
      ((s.wire_encryption || is_some s.param_command) && not (is_some s.enc_key_b64)) ≡ false

check_id-cases :
    (r : Parsed) (rest : Check)
    → (check_id r >> rest) ≡ ok tt
    → ((id : Bytes) × (r ≡ parsed id)) × (rest ≡ ok tt)
check_id-cases (parsed id) rest h = ((id, refl), h)
check_id-cases bad_client_id_hex rest h = absurd (ground arith)
check_id-cases panics rest h = absurd (ground arith)

primary-IsSound :
    (c : ClientSection) (rest : Check)
    → 0 < c.interval_seconds
    → check_primary c rest ≡ ok tt
    → IsSound (primary c) × (rest ≡ ok tt)
unfolding check_primary
primary-IsSound c rest i h = (
  record {
    paced = i;
    initial = ground (arith, h);
    ordered = ground (arith, h);
    keyed = ground (arith, h);
  },
  ground (arith, h),
)

override-IsSound :
    (c : ClientSection) (label : Bytes) (ov : ServerOverride) (rest : Check)
    → 0 < c.interval_seconds
    → check_override c label ov rest ≡ ok tt
    → IsSound (inherited label ov c) × (label ≢ c.server_id) × (rest ≡ ok tt)
unfolding check_override
override-IsSound c label ov rest i h = (
  record {
    paced = ground (arith, h, i);
    initial = ground (arith, h);
    ordered = ground (arith, h);
    keyed = ground (arith, h);
  },
  (λ e. grind arith),
  ground (arith, h),
)

module _ (p : Primitives) where
  -- A key that is present decodes to 32 bytes.
  abbrev pub Decodes : Option Bytes → Type 0
  Decodes none = Unit
  Decodes (some b64) = (key : Bytes) × (x25519_from_base64 p b64 ≡ ok key)

  decode_lem :
      (o : Option Bytes)
      → Decodes o
      → (key : Option Bytes) × (decode_key p o ≡ ok key) × (is_some key ≡ is_some o)
  decode_lem none d = (none, refl, refl)
  decode_lem (some b64) (key, e) = (some key, ground (arith, e), refl)

  sound_target :
      (s : Settings)
      → IsSound s
      → Decodes s.enc_key_b64
      → (t : ServerTarget) × (resolve_target p s ≡ ok t) × IsUsable t × (t.name ≡ s.name)
  unfolding resolve_target
  sound_target s v d =
      let (key, decoded, there) = decode_lem s.enc_key_b64 d in
      (
        target_of s key,
        ground (arith, decoded, there, v.keyed),
        record {
          paced = omega (arith, v.paced);
          backoff = omega (arith, v.initial, v.ordered);
          sealing = λ e. ground (arith, there, v.keyed, e);
          param = λ e. ground (arith, there, v.keyed, e);
        },
        refl,
      )

  abbrev pub name_of : ServerTarget → Bytes
  name_of t = t.name

  abbrev pub label_of : Bytes × ServerOverride → Bytes
  label_of (label, ov) = label

  sound_targets :
      (c : ClientSection) (m : Map Bytes ServerOverride)
      → 0 < c.interval_seconds
      → check_overrides c m ≡ ok tt
      → All (λ (e : Bytes × ServerOverride). Decodes e.1.server_encryption_key) m
      → (ts : List ServerTarget) × (resolve_all p c m ≡ ok ts)
        × All IsUsable ts
        × (map name_of ts ≡ map label_of m)
        × All (λ label. label ≢ c.server_id) (map label_of m)
  unfolding check_overrides resolve_all resolve_override
  sound_targets c [] i h d = ([], refl, tt, refl, tt)
  sound_targets c ((label, ov) ∷ m) i h d =
      let (sound, apart, h') = override-IsSound c label ov (check_overrides c m) i h in
      let (t, resolved, usable, named) = sound_target (inherited label ov c) sound d.0 in
      let (ts, all_resolved, all_usable, names, rest) = sound_targets c m i h' d.1 in
      (
        t ∷ ts,
        ground (arith, resolved, all_resolved),
        (usable, all_usable),
        ap₂ ◌∷◌ named names,
        (apart, rest),
      )

  -- A configuration that the checks of `load` accept, whose private key loads and whose server
  -- keys decode, gives a client with one target for `[client]` and one for each additional server,
  -- in order and under their labels, none of which is the label of the first: every target has a
  -- positive interval, a positive backoff in order, and a key if it seals datagrams or sends a
  -- parameter.
  pub accepted-IsUsable :
      (config : ClientConfig) (key : Bytes)
      → load config ≡ ok tt
      → load_signing_key p config.client.private_key ≡ ok key
      → Decodes config.client.server_encryption_key
      → All
          (λ (e : Bytes × ServerOverride). Decodes e.1.server_encryption_key)
          config.client.servers
      → (id : Identity) × (from_config p config ≡ ok id)
        × All IsUsable id.targets
        × (map name_of id.targets ≡ config.client.server_id ∷ map label_of config.client.servers)
        × All (λ label. label ≢ config.client.server_id) (map label_of config.client.servers)
  unfolding load from_config
  accepted-IsUsable config key h k d ds =
      let c = config.client in
      let i : 0 < c.interval_seconds = ground (arith, h) in
      let ((client_id, found), h') =
        check_id-cases (from_hex c.client_id) (check_primary c (check_overrides c c.servers))
          (ground (arith, h)) in
      let (sound, h'') = primary-IsSound c (check_overrides c c.servers) i h' in
      let (t, resolved, usable, named) = sound_target (primary c) sound d in
      let (ts, all_resolved, all_usable, names, apart) = sound_targets c c.servers i h'' ds in
      (
        record { signing_key = key; client_id = client_id; targets = t ∷ ts },
        ground (arith, k, found, resolved, all_resolved),
        (usable, all_usable),
        ap₂ ◌∷◌ named names,
        apart,
      )

-- ===== src/Commands/AddServer/Accepted.antt =====
-- Which configurations with a server added `load` accepts.
use signedpulse.Base.{
  ◌≤◌, ◌<◌, ◌≡◌, refl, sym, ap, ap₂, ◌∙◌, Bool, false, ◌||◌, [], ◌∷◌, ◌++◌, arith, ◌==◌, ok, Bytes,
  nat_key, bytes_key, ip_key, Map,
}
use signedpulse.Crypto.{Primitives}
use signedpulse.Config.{
  ClientConfig, ClientSection, ServerOverride, bad_interval, ◌>>◌, check_id, Check, reject,
}
use signedpulse.Config.Client
use signedpulse.Config.Client.{check_override, check_overrides, check_primary, is_zero}
use signedpulse.Protocol.Hex.{from_hex}
use signedpulse.Commands.File.{is_err}
use signedpulse.Commands.AddServer.{AddServerArgs, check_args}
use signedpulse.Commands.AddServer.Extended.{
  override_of, extended, spoils, IsPassed, check_args-IsPassed,
}

override_err :
    (c : ClientSection) (label : Bytes) (ov : ServerOverride) (rest : Check)
    → is_err (check_override c label ov rest)
      ≡ (is_err (check_override c label ov (ok tt)) || is_err rest)
unfolding check_override
override_err c label ov rest = ground arith

or_false : (a : Bool) → (a || false) ≡ a
or_false a = ground arith

swap_tests : (a b c : Bool) → (a || (b || c)) ≡ (b || (a || c))
swap_tests a b c = ground arith

overrides_err :
    (c : ClientSection) (label : Bytes) (ov : ServerOverride) (pre post : Map Bytes ServerOverride)
    → is_err (check_overrides c (pre ++ (label, ov) ∷ post))
      ≡ (is_err (check_override c label ov (ok tt)) || is_err (check_overrides c (pre ++ post)))
unfolding check_overrides
overrides_err c label ov [] post = override_err c label ov (check_overrides c post)
overrides_err c label ov ((l, o) ∷ pre) post =
    rw (override_err c l o (check_overrides c (pre ++ (label, ov) ∷ post))) (
      rw (override_err c l o (check_overrides c (pre ++ post))) (
        rw (overrides_err c label ov pre post) (
          swap_tests (is_err (check_override c l o (ok tt)))
            (is_err (check_override c label ov (ok tt)))
            (is_err (check_overrides c (pre ++ post))))))

module _ (p : Primitives) where
  new_override :
      (args : AddServerArgs) (server_addr : Bytes) (config : ClientConfig)
      → IsPassed p args server_addr config
      → config.client.retry_initial_ms ≤ config.client.retry_max_ms
      → 0 < config.client.retry_initial_ms
      → is_err (check_override config.client args.name (override_of args server_addr) (ok tt))
        ≡ spoils args config.client
  unfolding check_override
  new_override args server_addr config v up low =
      ground (arith, v.named, v.apart, v.keyed, v.addressed)

same_section :
    (c : ClientSection) (x m : Map Bytes ServerOverride)
    → check_overrides (record c { servers = x }) m ≡ check_overrides c m
unfolding check_overrides check_override
same_section c x [] = refl
same_section c x ((l, o) ∷ m) = rw (same_section c x m) refl

-- The checks of `[client]` that come before its other servers.
before : ClientSection → Check → Check
before c rest =
    reject (c.interval_seconds == 0) bad_interval
      (check_id (from_hex c.client_id) >> check_primary c rest)

record IsPrimary (c : ClientSection) (rest : Check) : Type 0 where
  others : rest ≡ ok tt
  low : 0 < c.retry_initial_ms
  up : c.retry_initial_ms ≤ c.retry_max_ms

before-IsPrimary : (c : ClientSection) (rest : Check) → before c rest ≡ ok tt → IsPrimary c rest
unfolding before check_primary
before-IsPrimary c rest h = record {
  others = ground (arith, h);
  low = ground (arith, h);
  up = ground (arith, h);
}

before_err :
    (c : ClientSection) (rest rest' : Check)
    → before c rest ≡ ok tt
    → is_err (before c rest') ≡ is_err rest'
unfolding before check_primary
before_err c rest rest' h = ground (arith, h)

module _ (p : Primitives) (args : AddServerArgs) (server_addr : Bytes) (config : ClientConfig)
    (pre post : Map Bytes ServerOverride) (same : config.client.servers ≡ pre ++ post)
    (accepted : Client.load config ≡ ok tt)
    (passes : check_args p args server_addr config ≡ ok tt) where
  -- With the checks of `add-server` passed on a configuration that loads, the extended one is
  -- refused exactly for an interval of 0, or for a missing key where `[client]` has a parameter
  -- command.
  pub load-extended :
      is_err (Client.load (extended args server_addr pre post config)) ≡ spoils args config.client
  unfolding Client.load before check_primary
  load-extended =
      let c = config.client in
      let ov = override_of args server_addr in
      let servers = pre ++ (args.name, ov) ∷ post in
      let v = before-IsPrimary c (check_overrides c c.servers) accepted in
      before_err c (check_overrides c c.servers)
        (check_overrides (record c { servers = servers }) servers) accepted
      ∙ ap is_err (same_section c servers servers)
      ∙ overrides_err c args.name ov pre post
      ∙ ap₂ ◌||◌
          (new_override p args server_addr config
            (check_args-IsPassed p args server_addr config passes) v.up v.low)
          (ap is_err (ap (check_overrides c) (sym same) ∙ v.others))
      ∙ or_false (spoils args c)

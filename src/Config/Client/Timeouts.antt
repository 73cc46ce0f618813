-- ===== src/Config/Client/Timeouts.antt =====
-- The timeout of an inherited parameter command.
use signedpulse.Base.{◌≡◌, refl, sym, none, [], ◌∷◌, arith, Bytes, nat_key, bytes_key, ip_key, Map}
use signedpulse.Config.{ClientConfig, ClientSection, ServerOverride}
use signedpulse.Config.Client.{load, check_primary, check_overrides, check_override}

overrides_lem :
    (c : ClientSection) (m : Map Bytes ServerOverride)
    → c.param_command ≡ none
    → check_overrides c m ≡ check_overrides (record c { param_command_timeout_seconds = 0 }) m
unfolding check_overrides check_override
overrides_lem c [] e = refl
overrides_lem c ((label, ov) ∷ m) e = rw (overrides_lem c m e) refl

-- Where `[client]` has no parameter command, the checks never read its timeout for one: a
-- configuration is accepted with that timeout at 0 if it is accepted at all, also where an
-- additional server has a parameter command and inherits the timeout.
pub zero_timeout_accepted :
    (config : ClientConfig)
    → config.client.param_command ≡ none
    → load (record config { client = record config.client { param_command_timeout_seconds = 0 } })
      ≡ load config
unfolding load check_primary
zero_timeout_accepted config e =
    rw (sym (overrides_lem config.client config.client.servers e)) (ground (arith, e))

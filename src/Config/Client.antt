-- ===== src/Config/Client.antt =====
-- The checks of `ClientConfig::load`.
pub mod Timeouts
use signedpulse.Base.{
  ℕ, Bool, false, not, ◌&&◌, ◌||◌, Option, none, some, List, [], ◌∷◌, ltb, ◌==◌, is_some, unwrap_or,
  ok, Bytes, nat_key, bytes_key, ip_key, eq, Map,
}
use signedpulse.Config.{
  ClientConfig, ClientSection, ServerOverride, ConfigError, bad_client_id, bad_interval,
  no_server_key, no_param_command, bad_retry, bad_param_timeout, bad_param_len, no_label,
  label_collides, no_server_addr, Check, reject, ◌>>◌, is_empty, check_id,
}
use signedpulse.Protocol.Hex.{from_hex}

-- `Option::or`
abbrev pub or_else {ℓ} : {A : Type ℓ} → Option A → Option A → Option A
or_else none b = b
or_else (some a) b = some a

-- A command that is present but empty; a number that is present and zero; a number that is present
-- and no length of a parameter.
abbrev pub is_empty_command : Option (List Bytes) → Bool
is_empty_command none = false
is_empty_command (some argv) = is_empty argv

abbrev pub is_zero : Option ℕ → Bool
is_zero none = false
is_zero (some n) = n == 0

abbrev pub is_bad_len : Option ℕ → Bool
is_bad_len none = false
is_bad_len (some n) = n == 0 || ltb 60_000 n

-- The checks on one additional server.
unfoldable pub check_override : ClientSection → Bytes → ServerOverride → Check → Check
check_override c label ov rest =
    let wire = unwrap_or ov.wire_encryption c.wire_encryption in
    let has_param = is_some (or_else ov.param_command c.param_command) in
    let rt_init = unwrap_or ov.retry_initial_ms c.retry_initial_ms in
    let rt_max = unwrap_or ov.retry_max_ms c.retry_max_ms in
    reject (is_empty label) no_label (
      reject (eq label c.server_id) label_collides (
        reject (is_empty ov.server_addr) no_server_addr (
          reject ((wire || has_param) && not (is_some ov.server_encryption_key)) no_server_key (
            reject (is_empty_command ov.param_command) no_param_command (
              reject (is_zero ov.interval_seconds) bad_interval (
                reject (rt_init == 0 || (rt_max == 0 || ltb rt_max rt_init)) bad_retry (
                  reject (is_zero ov.param_command_timeout_seconds) bad_param_timeout
                    (reject (is_bad_len ov.param_max_len) bad_param_len rest))))))))

unfoldable pub check_overrides : ClientSection → Map Bytes ServerOverride → Check
unfolding check_override
check_overrides c [] = ok tt
check_overrides c ((label, ov) ∷ more) =
    let rest = check_overrides c more in check_override c label ov rest

-- The checks on `[client]` after its id.
unfoldable pub check_primary : ClientSection → Check → Check
check_primary c rest =
    reject ((c.wire_encryption || is_some c.param_command) && not (is_some c.server_encryption_key))
      no_server_key
      (reject (is_empty_command c.param_command) no_param_command (
        reject (c.retry_initial_ms == 0 || c.retry_max_ms == 0) bad_retry (
          reject (ltb c.retry_max_ms c.retry_initial_ms) bad_retry (
            reject (is_some c.param_command && c.param_command_timeout_seconds == 0)
              bad_param_timeout
              (reject (c.param_max_len == 0 || ltb 60_000 c.param_max_len) bad_param_len rest)))))

-- The checks of `load`, on what `toml` parsed.
unfoldable pub load : ClientConfig → Check
unfolding check_primary check_overrides
load config =
    let c = config.client in
    reject (c.interval_seconds == 0) bad_interval
      (check_id (from_hex c.client_id) >> check_primary c (check_overrides c c.servers))

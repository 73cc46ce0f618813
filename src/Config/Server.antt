-- ===== src/Config/Server.antt =====
-- `ServerConfig::validate`.
pub mod Accepted
use signedpulse.Base.{
  ℕ, ◌+◌, Bool, true, false, not, ◌&&◌, ◌||◌, Option, none, some, List, [], ◌∷◌, map, ltb, leb,
  ◌==◌, if◌then◌else◌, is_some, ok, Bytes, nat_key, bytes_key, ip_key, eq,
}
use signedpulse.Config.{
  ServerConfig, ServerSection, CommandSection, ClientEntry, WireEncryption, required, off,
  ConfigError, no_argv, bad_max_concurrent, no_revoke_argv, bad_lease_grace, bad_lease_max,
  bad_max_packet_size, bad_command_timeout, bad_nonce_ttl, bad_skew, bad_rate_window, bad_param_len,
  duplicate_client_id, no_encryption_key, Check, reject, ◌>>◌, is_empty, check_id,
}
use signedpulse.Protocol.Hex.{from_hex}

-- `str::to_lowercase` of a text that `from_hex` accepts: hex digits, signs and blanks.
abbrev pub lower : ℕ → ℕ
lower c = if leb b'A' c && leb c b'Z' then c + 32 else c

abbrev pub to_lowercase : Bytes → Bytes
to_lowercase text = map lower text

abbrev pub contains : Bytes → List Bytes → Bool
contains x [] = false
contains x (y ∷ ys) = eq x y || contains x ys

-- The loop over the clients, with the ids that it has seen.
unfoldable pub check_clients : List Bytes → List ClientEntry → Check
check_clients seen [] = ok tt
check_clients seen (c ∷ cs) =
    let id = to_lowercase c.client_id in
    let rest = check_clients (id ∷ seen) cs in
    check_id (from_hex c.client_id) >> reject (contains id seen) duplicate_client_id rest

abbrev pub is_required : WireEncryption → Bool
is_required required = true
is_required off = false

-- A revoke hook that is present but empty.
abbrev pub is_empty_hook : Option (List Bytes) → Bool
is_empty_hook none = false
is_empty_hook (some argv) = is_empty argv

unfoldable pub check_command : CommandSection → Check → Check
check_command c rest = reject (is_empty c.argv) no_argv (
    reject (c.max_concurrent == 0) bad_max_concurrent
      (reject (is_empty_hook c.revoke_argv) no_revoke_argv rest))

unfoldable pub check_section : ServerSection → Check → Check
check_section s rest = reject (s.lease_grace_multiplier == 0) bad_lease_grace (
    reject (s.lease_max_seconds == 0 || ltb 31_536_000 s.lease_max_seconds) bad_lease_max (
      reject (s.max_packet_size == 0 || ltb 65_535 s.max_packet_size) bad_max_packet_size (
        reject (s.command_timeout_seconds == 0) bad_command_timeout (
          reject (s.nonce_ttl_seconds == 0) bad_nonce_ttl (
            reject (s.hello_max_skew_seconds == 0) bad_skew (
              reject (s.hello_rate_window_seconds == 0) bad_rate_window (
                reject (s.max_param_len == 0 || ltb 60_000 s.max_param_len) bad_param_len
                  rest)))))))

unfoldable pub validate : ServerConfig → Check
unfolding check_command check_section check_clients
validate c = check_command c.command (
    check_section c.server (
      check_clients [] c.clients
      >> reject
          (is_required c.server.wire_encryption && not (is_some c.server.encryption_private_key))
          no_encryption_key (ok tt)))

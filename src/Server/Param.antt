-- ===== src/Server/Param.antt =====
-- `decrypt_param`: the optional sealed parameter of a RESPONSE or BYE.
use signedpulse.Base.{
  ℕ, Bool, false, ◌||◌, Option, none, some, [], ◌∷◌, ltb, ◌==◌, if◌then◌else◌, Result, ok, err,
  length, Bytes, nat_key, bytes_key, ip_key, from_utf8, is_control,
}
use signedpulse.Crypto.{Primitives, CryptoError, ctx_param, open_box}
use signedpulse.Server.State.{Server, Moment, note_rejected}

abbrev pub any_control : Bytes → Bool
any_control [] = false
any_control (c ∷ cs) = is_control c || any_control cs

abbrev pub starts_with_dash : Bytes → Bool
starts_with_dash [] = false
starts_with_dash (c ∷ cs) = c == b'-'

-- The text of a plaintext that is clean UTF-8.
clean_text : Option Bytes → Option Bytes
clean_text none = none
clean_text (some text) = if any_control text then none else some text

-- The checks on a decrypted plaintext; `none` is a rejection.
unfoldable pub accept_text : ℕ → Bytes → Option Bytes
unfolding clean_text
accept_text max_param_len plaintext =
    if ltb max_param_len (length plaintext) then none else elim (clean_text (from_utf8 plaintext)) [
      | none ↦ none
      | some text ↦ if starts_with_dash text then none else some text
    ]

abbrev opened : Result CryptoError (Bytes × Bytes) → Option Bytes
opened (ok (plaintext, _)) = some plaintext
opened (err e) = none

-- A parameter, absent or accepted; `none` is a rejection.
abbrev kept : Option Bytes → Option (Option Bytes)
kept none = none
kept (some text) = some (some text)

module _ (p : Primitives) where
  open_param : Option Bytes → ℕ → Bytes → Option (Option Bytes)
  open_param none max_param_len blob = none
  open_param (some secret) max_param_len blob = elim (opened (open_box p secret blob ctx_param)) [
    | none ↦ none
    | some plaintext ↦ kept (accept_text max_param_len plaintext)
  ]

  -- The parameter of a packet, or `none` where the source returns `Err(())`.
  unfoldable pub read_param : Option Bytes → Server → Option (Option Bytes)
  unfolding open_param
  read_param none s = some none
  read_param (some blob) s = open_param s.server_secret s.config.max_param_len blob

  unfoldable pub decrypt_param : Option Bytes → Moment → Server → Server × Option (Option Bytes)
  unfolding read_param
  decrypt_param blob m s = elim (read_param blob s) [
    | none ↦ (note_rejected false m s, none)
    | some param ↦ (s, some param)
  ]

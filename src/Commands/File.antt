-- ===== src/Commands/File.antt =====
-- The configuration file that a command edits: it is loaded, its text is extended and written, and
-- the file is loaded again. The file is its text, or nothing where it cannot be read; `parse` is
-- `toml::from_str`, and `writes` says whether `write_config_file` succeeds.
use signedpulse.Base.{
  Bool, true, false, not, Option, none, some, [], ◌∷◌, ◌++◌, ◌==◌, if◌then◌else◌, Result, ok, err,
  Bytes, nat_key, bytes_key, ip_key,
}
use signedpulse.Config.{ServerConfig, ClientConfig, ConfigError, Check}
use signedpulse.Config.Server.{validate}
use signedpulse.Config.Client

pub data LoadError : Type 0 where
  unreadable unparsable : LoadError
  invalid : ConfigError → LoadError

abbrev pub checked : {C : Type 0} → C → Check → Result LoadError C
checked c (ok _) = ok c
checked c (err e) = err (invalid e)

-- `load` of either configuration, with its checks.
abbrev pub load_with :
    {C : Type 0} → (C → Check) → (Bytes → Option C) → Option Bytes → Result LoadError C
load_with checks parse none = err unreadable
load_with checks parse (some text) = elim (parse text) [
  | none ↦ err unparsable
  | some c ↦ checked c (checks c)
]

unfoldable pub load_server :
    (Bytes → Option ServerConfig) → Option Bytes → Result LoadError ServerConfig
load_server parse file = load_with validate parse file

unfoldable pub load_client :
    (Bytes → Option ClientConfig) → Option Bytes → Result LoadError ClientConfig
load_client parse file = load_with Client.load parse file

-- Why a command leaves the file alone.
pub data Refusal : Type 0 where
  bad_client_id id_panics bad_public_key bad_label already_authorized : Refusal
  bad_name name_collides already_configured bad_server_id no_server_key : Refusal
  bad_server_key bad_server_addr : Refusal

pub data EditError : Type 0 where
  cannot_load : LoadError → EditError
  refused : Refusal → EditError
  write_failed : EditError
  reload_failed : LoadError → EditError

abbrev pub Guard : Type 0
Guard = Result Refusal (Unit {0})

-- `if fails { bail!(..) }`, and the statements that follow.
abbrev pub refuse : Bool → Refusal → Guard → Guard
refuse fails r rest = if fails then err r else rest

abbrev pub is_err : {E A : Type 0} → Result E A → Bool
is_err (ok a) = false
is_err (err e) = true

-- `text.ends_with('\n')`
abbrev pub ends_with_newline : Bytes → Bool
ends_with_newline [] = false
ends_with_newline (c ∷ []) = c == 10
ends_with_newline (c ∷ d ∷ cs) = ends_with_newline (d ∷ cs)

abbrev pub line_ended : Bytes → Bytes
line_ended text = if ends_with_newline text then text else text ++ 10 ∷ []

abbrev pub text_of : Option Bytes → Bytes
text_of none = []
text_of (some text) = text

abbrev pub reloaded : {C : Type 0} → Result LoadError C → Result EditError C
reloaded (ok c) = ok c
reloaded (err e) = err (reload_failed e)

-- The end of a command: the text is written, and the file is loaded again.
unfoldable pub rewrite :
    {C : Type 0}
    → (Option Bytes → Result LoadError C)
    → (Bytes → Bool)
    → Bytes
    → Option Bytes
    → Option Bytes × Result EditError C
rewrite load writes text file =
    if not (writes text) then (file, err write_failed) else (some text, reloaded (load (some text)))

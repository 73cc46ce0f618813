-- ===== src/Status.antt =====
-- The status command's way to a live snapshot, crates/signedpulse-common/src/status.rs: where the
-- files are looked for, whose process is signalled, and what is read. `xdg` is the variable
-- XDG_RUNTIME_DIR.
pub mod Candidates
pub mod Signals
use signedpulse.Base.{
  ℕ, zero, suc, ◌+◌, ◌-◌, ◌*◌, ◌/◌, ◌%◌, ◌^◌, ◌≤◌, ◌<◌, min, max, ◌≡◌, refl, sym, ap, ap₂, ◌∙◌,
  subst, ◌≢◌, ◌↔◌, ◌⊎◌, inl, inr, ite, Bool, true, false, not, ◌&&◌, ◌||◌, Option, none, some, List,
  [], ◌∷◌, ◌++◌, map, arith, dec_lt, dec_le, ltb, leb, ◌==◌, if◌then◌else◌, Bool-cases,
  Option-cases, is_some, unwrap_or, Result, ok, err, length, take, drop, replicate, length-append,
  All, select, Bytes, ℤ, pos, negsuc, pos_part, neg_part, ◌+ℤ◌, ◌-ℤ◌, ◌≤ℤ◌, ◌<ℤ◌, ltb_ℤ, leb_ℤ,
  min_ℤ, abs, i64_max, IsI64, abs_lem, +ℤ_parts, Key, nat_key, bytes_key, ip_key, eq, Map, get,
  insert, remove, retain, contains_key, keep_if, get-insert, get-insert_self, get-insert_ne,
  get-remove, get-retain, length-insert, length-retain-le, length-remove-le, IsMap, insert-IsMap,
  remove-IsMap, retain-IsMap, IpAddr, v4, v6, SocketAddr, bytes_dec, ip_dec, ℕ_discrete,
  append_assoc, append-nil, Fresh, Fresh-get, Instant, Duration, from_secs, as_millis,
  duration_since, codes, decimal, decimal_ℤ, from_utf8, is_control, starts_with, replace_from,
  replace, flat, flat-flat, flat-append, flat-ext, replace_one, drop-drop, take_append, drop_append,
}
use signedpulse.Protocol.Hex.{trim, trim_end}
use signedpulse.Service.{under}
use signedpulse.Service.Activation.{ServiceState, active, inactive, unknown}

abbrev pub state_file_in : Bytes → Bytes → Bytes
state_file_in component dir =
    under (under dir (codes "signedpulse")) (component ++ codes ".state.json")

unfoldable pub default_state_path : Option Bytes → Bytes → Bytes
default_state_path xdg component = state_file_in component (unwrap_or xdg (codes "/run"))

abbrev pub contains : Bytes → List Bytes → Bool
contains x [] = false
contains x (y ∷ ys) = eq x y || contains x ys

-- The closure `add`.
abbrev pub add : Bytes → List Bytes → List Bytes
add p out = if contains p out then out else out ++ p ∷ []

abbrev pub from_xdg : Option Bytes → Bytes → List Bytes
from_xdg none component = []
from_xdg (some x) component = add (state_file_in component x) []

unfoldable pub state_path_candidates : Option Bytes → Bytes → List Bytes
state_path_candidates xdg component =
    add (state_file_in component (codes "/run/user/0"))
      (add (state_file_in component (codes "/run")) (from_xdg xdg component))

-- `i32::from_str` on the digits of a number that is not negative, above `acc`.
unfoldable pub parse_digits : ℕ → Bytes → Option ℕ
parse_digits acc [] = some acc
parse_digits acc (c ∷ cs) =
    let acc' = acc * 10 + (c - 48) in
    let rest = parse_digits acc' cs in
    if not (leb 48 c && leb c 57) then none else if ltb (2 ^ 31 - 1) acc' then none else rest

-- On the digits of a negative number, as what is to be subtracted from 0.
unfoldable pub parse_negative : ℕ → Bytes → Option ℕ
parse_negative acc [] = some acc
parse_negative acc (c ∷ cs) =
    let acc' = acc * 10 + (c - 48) in
    let rest = parse_negative acc' cs in
    if not (leb 48 c && leb c 57) then none else if ltb (2 ^ 31) acc' then none else rest

abbrev pub positive : Option ℕ → Option ℤ
positive none = none
positive (some n) = some (pos n)

abbrev pub negative : Option ℕ → Option ℤ
negative none = none
negative (some n) = some (pos 0 -ℤ pos n)

-- `parse::<i32>()`
unfoldable pub parse_i32 : Bytes → Option ℤ
unfolding parse_digits parse_negative
parse_i32 [] = none
parse_i32 (c ∷ []) = positive (parse_digits 0 (c ∷ []))
parse_i32 (c ∷ d ∷ cs) =
    if c == b'+'
    then positive (parse_digits 0 (d ∷ cs))
    else if c == b'-'
    then negative (parse_negative 0 (d ∷ cs))
    else positive (parse_digits 0 (c ∷ d ∷ cs))

abbrev pub above_zero : Option ℤ → Option ℤ
above_zero none = none
above_zero (some pid) = if ltb_ℤ (pos 0) pid then some pid else none

-- The file is its text, or nothing where it cannot be read.
unfoldable pub read_pid : Option Bytes → Option ℤ
unfolding parse_i32
read_pid none = none
read_pid (some text) = above_zero (parse_i32 (trim text))

-- The platform, and what the operating system answers: the texts of the PID files, whether
-- `kill(pid, 0)` succeeds, what the links `exe` and the files `comm` of the processes hold, and
-- the snapshot that a state file holds once the process has had time to rewrite it.
pub record System (S : Type 0) : Type 0 where
  pub is_linux : Bool
  pub file : Bytes → Option Bytes
  pub responds : ℤ → Bool
  pub exe : ℤ → Option Bytes
  pub comm : ℤ → Option Bytes
  pub snapshot : Bytes → Option S

abbrev pub has_slash : Bytes → Bool
has_slash [] = false
has_slash (c ∷ cs) = c == b'/' || has_slash cs

-- The text after the last slash.
unfoldable pub file_name : Bytes → Bytes
file_name [] = []
file_name (c ∷ cs) =
    let rest = file_name cs in if has_slash cs then rest else if c == b'/' then cs else c ∷ cs

-- The check on Linux: the name of the executable, or that of the command where it cannot be read.
unfoldable pub named_signedpulse : Option Bytes → Option Bytes → Bool
unfolding file_name
named_signedpulse (some exe) comm = starts_with (codes "signedpulse") (file_name exe)
named_signedpulse none none = false
named_signedpulse none (some comm) = starts_with (codes "signedpulse") (trim_end comm)

module _ {S : Type 0} (sys : System S) where
  -- The two versions: a platform other than Linux takes every process for one of the program's.
  unfoldable pub process_is_signedpulse : ℤ → Bool
  unfolding named_signedpulse
  process_is_signedpulse pid =
      if sys.is_linux then named_signedpulse (sys.exe pid) (sys.comm pid) else true

  -- On Unix; elsewhere no process counts as alive, and none is signalled.
  unfoldable pub process_alive : ℤ → Bool
  process_alive pid = ltb_ℤ (pos 0) pid && sys.responds pid

  -- The processes that SIGUSR1 is sent to, and the snapshot.
  unfoldable pub refresh_and_read : Bytes → Bytes → List ℤ × Option S
  unfolding process_alive process_is_signedpulse read_pid
  refresh_and_read state_path pid_path = elim (read_pid (sys.file pid_path)) [
    | none ↦ ([], none)
    | some pid ↦
        if not (process_alive pid) || not (process_is_signedpulse pid)
        then ([], none)
        else (pid ∷ [], sys.snapshot state_path)
  ]

  abbrev pub or_next : List ℤ × Option S → List ℤ × Option S → List ℤ × Option S
  or_next (pids, some snap) next = (pids, some snap)
  or_next (pids, none) (more, found) = (pids ++ more, found)

  -- The loop over the paths; `pid_path` gives the PID file that belongs to a state file.
  unfoldable pub first_live : (Bytes → Bytes) → List Bytes → List ℤ × Option S
  unfolding refresh_and_read
  first_live pid_path [] = ([], none)
  first_live pid_path (sp ∷ paths) =
      or_next (refresh_and_read sp (pid_path sp)) (first_live pid_path paths)

  abbrev pub paths_of : Option Bytes → Option Bytes → Bytes → List Bytes
  paths_of (some configured) xdg component = configured ∷ []
  paths_of none xdg component = state_path_candidates xdg component

  unfoldable pub refresh_and_read_component :
      (Bytes → Bytes) → Option Bytes → Bytes → Option Bytes → List ℤ × Option S
  unfolding first_live
  refresh_and_read_component pid_path xdg component configured =
      first_live pid_path (paths_of configured xdg component)

-- A duration in words: hours and minutes, minutes and seconds, or seconds.
unfoldable pub duration_words : ℤ → Bytes
duration_words secs =
    let n = pos_part secs in
    let h = n / 3600 in
    let m = n % 3600 / 60 in
    let s = n % 60 in
    if ltb 0 h
    then decimal h ++ b'h' ∷ decimal m ++ b'm' ∷ []
    else if ltb 0 m
    then decimal m ++ b'm' ∷ decimal s ++ b's' ∷ []
    else decimal s ++ b's' ∷ []

unfoldable pub ago : ℤ → ℤ → Bytes
unfolding duration_words
ago now at_unix = duration_words (pos (pos_part (now -ℤ at_unix))) ++ codes " ago"

-- `Styler`, with or without colors.
unfoldable pub wrap : Bool → Bytes → Bytes → Bytes
wrap color code s = if color then 27 ∷ b'[' ∷ code ++ b'm' ∷ s ++ 27 ∷ codes "[0m" else s

abbrev pub service_word : ServiceState → Bytes
service_word active = codes "active (running)"
service_word inactive = codes "inactive"
service_word unknown = codes "unknown"

abbrev pub state_color : ServiceState → Bytes
state_color active = codes "32"
state_color inactive = codes "31"
state_color unknown = codes "33"

unfoldable pub service_styled : Bool → ServiceState → Bytes
unfolding wrap
service_styled color state = wrap color (state_color state) (service_word state)

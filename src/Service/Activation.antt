-- ===== src/Service/Activation.antt =====
-- The installation of a service and the query for it. The answers of the operating system are
-- parameters; each run also gives its effects in order.
pub mod Installed
use signedpulse.Base.{
  ℕ, zero, suc, ◌+◌, ◌-◌, ◌*◌, ◌/◌, ◌%◌, ◌^◌, ◌≤◌, ◌<◌, min, max, ◌≡◌, refl, sym, ap, ap₂, ◌∙◌,
  subst, ◌≢◌, ◌↔◌, ◌⊎◌, inl, inr, ite, Bool, true, false, not, ◌&&◌, ◌||◌, Option, none, some, List,
  [], ◌∷◌, ◌++◌, map, arith, dec_lt, dec_le, ltb, leb, ◌==◌, if◌then◌else◌, Bool-cases,
  Option-cases, is_some, unwrap_or, Result, ok, err, length, take, drop, replicate, length-append,
  All, select, Bytes, ℤ, pos, negsuc, pos_part, neg_part, ◌+ℤ◌, ◌-ℤ◌, ◌≤ℤ◌, ◌<ℤ◌, ltb_ℤ, leb_ℤ,
  min_ℤ, abs, i64_max, IsI64, abs_lem, +ℤ_parts, Key, nat_key, bytes_key, ip_key, eq, Map, get,
  insert, remove, retain, contains_key, keep_if, get-insert, get-insert_self, get-insert_ne,
  get-remove, get-retain, length-insert, length-retain-le, length-remove-le, IsMap, insert-IsMap,
  remove-IsMap, retain-IsMap, IpAddr, v4, v6, SocketAddr, bytes_dec, ip_dec, ℕ_discrete,
  append_assoc, append-nil, Fresh, Fresh-get, Instant, Duration, from_secs, as_millis,
  duration_since, codes, decimal, decimal_ℤ, from_utf8, is_control, starts_with, replace_from,
  replace, flat, flat-flat, flat-append, flat-ext, replace_one, drop-drop, take_append, drop_append,
}
use signedpulse.Protocol.Hex.{trim}
use signedpulse.Service.{
  ServiceTarget, systemd_system, systemd_user, launchd_agent, ServiceSpec, under, render, unit_path,
  activation_commands,
}

-- What the operating system answers: whether a file exists, whether a file can be written, whether
-- a command runs, and with success, and what it prints.
pub record System : Type 0 where
  pub home : Option Bytes
  pub is_macos : Bool
  pub exists : Bytes → Bool
  pub writes : Bytes → Bytes → Bool
  pub status : Bytes → List Bytes → Option Bool
  pub output : Bytes → List Bytes → Option Bytes

pub data Effect : Type 0 where
  wrote : Bytes → Bytes → Effect
  ran : Bytes → List Bytes → Effect

abbrev pub first_existing : (Bytes → Bool) → Bytes → List Bytes → Option Bytes
first_existing exists name [] = none
first_existing exists name (dir ∷ dirs) =
    let rest = first_existing exists name dirs in
    if exists (under dir name) then some (under dir name) else rest

unfoldable pub resolve_tool : (Bytes → Bool) → Bytes → Option Bytes
resolve_tool exists name =
    first_existing exists name
      (codes "/usr/bin" ∷ codes "/bin" ∷ codes "/usr/sbin" ∷ codes "/sbin" ∷ [])

pub data ActivationError : Type 0 where
  tool_not_found spawn_failed exit_failed : ActivationError

abbrev pub Invocation : Type 0
Invocation = Bytes × List Bytes

unfoldable pub invocations : ServiceSpec → ServiceTarget → Bytes → List Invocation
invocations spec systemd_system path =
    (codes "systemctl", codes "daemon-reload" ∷ [])
    ∷ (codes "systemctl", codes "enable" ∷ codes "--now" ∷ spec.unit_name ∷ [])
    ∷ []
invocations spec systemd_user path =
    (codes "systemctl", codes "--user" ∷ codes "daemon-reload" ∷ [])
    ∷ (codes "systemctl", codes "--user" ∷ codes "enable" ∷ codes "--now" ∷ spec.unit_name ∷ [])
    ∷ []
invocations spec launchd_agent path =
    (codes "launchctl", codes "load" ∷ codes "-w" ∷ path ∷ []) ∷ []

abbrev pub Run : Type 0
Run = List Effect × Result ActivationError (Unit {0})

-- After a command that gave `status`.
abbrev pub continued : Effect → Option Bool → Run → Run
continued e none rest = ([], err spawn_failed)
continued e (some false) rest = (e ∷ [], err exit_failed)
continued e (some true) (es, r) = (e ∷ es, r)

-- The loop over the invocations: it ends at the first that fails.
unfoldable pub run_all : System → List Invocation → Run
run_all sys [] = ([], ok tt)
run_all sys ((program, args) ∷ more) =
    let rest = run_all sys more in
    elim (resolve_tool sys.exists program) [
      | none ↦ ([], err tool_not_found)
      | some tool ↦ continued (ran tool args) (sys.status tool args) rest
    ]

unfoldable pub run_activation : System → ServiceTarget → Bytes → ServiceSpec → Run
unfolding run_all
run_activation sys target path spec = run_all sys (invocations spec target path)

pub data Note : Type 0 where
  skipped : Note
  could_not_activate : ActivationError → Note

pub record InstallReport : Type 0 where
  pub path : Bytes
  pub activation_commands : List Bytes
  pub activated : Bool
  pub note : Option Note

pub data InstallError : Type 0 where
  home_not_set write_failed : InstallError

abbrev pub reported : InstallReport → Run → List Effect × InstallReport
reported report (es, ok _) = (es, record report { activated = true })
reported report (es, err e) = (es, record report { note = some (could_not_activate e) })

unfoldable pub install :
    System → ServiceSpec → ServiceTarget → Bool → List Effect × Result InstallError InstallReport
unfolding run_activation
install sys spec target activate = elim (unit_path sys.home spec target) [
  | none ↦ ([], err home_not_set)
  | some path ↦
      let text = render sys.home spec target in
      let report : InstallReport = record {
        path = path;
        activation_commands = activation_commands spec target path;
        activated = false;
        note = none;
      } in
      let (es, done) = reported report (run_activation sys target path spec) in
      if not (sys.writes path text)
      then ([], err write_failed)
      else if not activate
      then (wrote path text ∷ [], ok (record report { note = some skipped }))
      else (wrote path text ∷ es, ok done)
]

pub data ServiceState : Type 0 where
  active inactive unknown : ServiceState

abbrev pub state_word : Bytes → Option ServiceState
state_word word =
    if eq word (codes "active")
    then some active
    else if eq word (codes "inactive")
        || eq word (codes "failed")
        || eq word (codes "deactivating")
        || eq word (codes "activating")
    then some inactive
    else none

abbrev pub state_of_output : Option Bytes → Option ServiceState
state_of_output none = none
state_of_output (some stdout) = state_word (trim stdout)

unfoldable pub systemctl_is_active : System → List Bytes → Bytes → Option ServiceState
systemctl_is_active sys prefix unit_name = elim (resolve_tool sys.exists (codes "systemctl")) [
  | none ↦ none
  | some tool ↦ state_of_output (sys.output tool (prefix ++ codes "is-active" ∷ unit_name ∷ []))
]

abbrev pub agent_state : Option Bool → ServiceState
agent_state none = unknown
agent_state (some true) = active
agent_state (some false) = inactive

-- The state; the text that says how it was determined is left out.
unfoldable pub query_service : System → Bytes → Bytes → ServiceState
unfolding systemctl_is_active
query_service sys unit_name launchd_label =
    let system_state = systemctl_is_active sys [] unit_name in
    let user_state = systemctl_is_active sys (codes "--user" ∷ []) unit_name in
    if sys.is_macos
    then elim (resolve_tool sys.exists (codes "launchctl")) [
      | none ↦ unknown
      | some tool ↦ agent_state (sys.status tool (codes "list" ∷ launchd_label ∷ []))
    ]
    else elim system_state [
      | some state ↦ state
      | none ↦ elim user_state [ some state ↦ state | none ↦ unknown ]
    ]

-- ===== src/Service/Activation/Installed.antt =====
-- What an installation does and reports.
use signedpulse.Base.{
  join, ◌≡◌, refl, ◌∙◌, Bool, true, false, ◌&&◌, Option, none, some, List, [], ◌∷◌, map, arith,
  Result, ok, err, Bytes, nat_key, bytes_key, ip_key,
}
use signedpulse.Service.{
  ServiceTarget, systemd_system, systemd_user, launchd_agent, ServiceSpec, render, unit_path,
  activation_commands,
}
use signedpulse.Service.Activation.{
  skipped, System, Effect, wrote, resolve_tool, Invocation, invocations, Run, run_all,
  run_activation, InstallReport, reported, install,
}

-- A command as it is typed.
abbrev pub typed : Invocation → Bytes
typed (program, args) = join (program ∷ args)

-- The commands that the user is told are those that the tool runs.
pub activation_commands_lem :
    (spec : ServiceSpec) (target : ServiceTarget) (path : Bytes)
    → activation_commands spec target path ≡ map typed (invocations spec target path)
unfolding activation_commands invocations
activation_commands_lem spec systemd_system path = refl
activation_commands_lem spec systemd_user path = refl
activation_commands_lem spec launchd_agent path = refl

-- The tool of the command exists in a trusted directory, and the command succeeds.
abbrev is_success : Option Bool → Bool
is_success none = false
is_success (some b) = b

abbrev pub succeeds : System → Invocation → Bool
succeeds sys (program, args) = elim (resolve_tool sys.exists program) [
  | none ↦ false
  | some tool ↦ is_success (sys.status tool args)
]

abbrev pub all_succeed : System → List Invocation → Bool
all_succeed sys [] = true
all_succeed sys (i ∷ is) = succeeds sys i && all_succeed sys is

abbrev pub is_ok : {E A : Type 0} → Result E A → Bool
is_ok (ok a) = true
is_ok (err e) = false

run_all_lem : (sys : System) (is : List Invocation) → is_ok (run_all sys is).1 ≡ all_succeed sys is
unfolding run_all
run_all_lem sys [] = refl
run_all_lem sys ((program, args) ∷ is) = ground (arith, run_all_lem sys is)

reported_lem :
    (report : InstallReport) (r : Run)
    → report.activated ≡ false
    → ((reported report r).1.path ≡ report.path)
      × ((reported report r).1.activation_commands ≡ report.activation_commands)
      × ((reported report r).1.activated ≡ is_ok r.1)
reported_lem report (es, ok _) h = (refl, refl, refl)
reported_lem report (es, err e) h = (refl, refl, h)

-- The report before the activation.
abbrev fresh : ServiceSpec → ServiceTarget → Bytes → InstallReport
fresh spec target path = record {
  path = path;
  activation_commands = activation_commands spec target path;
  activated = false;
  note = none;
}

-- Where the definition can be written, the installation succeeds: it writes the definition first,
-- reports its path, and the commands that activate it, and reports the service as activated
-- exactly if activation is asked for and every command succeeds.
pub install_lem :
    (sys : System) (spec : ServiceSpec) (target : ServiceTarget) (activate : Bool) (path : Bytes)
    → unit_path sys.home spec target ≡ some path
    → sys.writes path (render sys.home spec target) ≡ true
    → (report : InstallReport) × (es : List Effect) × (install sys spec target activate
        ≡ (wrote path (render sys.home spec target) ∷ es, ok report))
      × (report.path ≡ path)
      × (report.activation_commands ≡ map typed (invocations spec target path))
      × (report.activated ≡ (activate && all_succeed sys (invocations spec target path)))
unfolding install run_activation
install_lem sys spec target false path place written = (
  record (fresh spec target path) { note = some skipped },
  [],
  ground (arith, place, written),
  refl,
  activation_commands_lem spec target path,
  refl,
)
install_lem sys spec target true path place written =
    let r = run_activation sys target path spec in
    let is = invocations spec target path in
    let (kept_path, kept_commands, activated) = reported_lem (fresh spec target path) r refl in
    (
      (reported (fresh spec target path) r).1,
      (reported (fresh spec target path) r).0,
      ground (arith, place, written),
      kept_path,
      kept_commands ∙ activation_commands_lem spec target path,
      activated ∙ run_all_lem sys is,
    )

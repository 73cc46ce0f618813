-- ===== src/Tests/Services.antt =====
-- The installation as a service, on a concrete service.
use signedpulse.Base.{
  ◌≡◌, refl, true, false, none, some, List, [], ◌∷◌, ◌++◌, map, ltb, ok, length, select, Bytes,
  nat_key, bytes_key, ip_key, codes, replace_from,
}
use signedpulse.Service.{
  ServiceSpec, systemd_system, exec_line, render_systemd_unit, without_control, wanted_by, render,
  unit_path,
}
use signedpulse.Service.Quoting.{parse_words, exec_line_words}
use signedpulse.Service.Lines.{lines, unit_lines}
use signedpulse.Service.Activation.{System, InstallReport, Effect, wrote, install, invocations}
use signedpulse.Service.Activation.Installed.{typed, all_succeed, install_lem}

-- A path with a blank, an argument with a quote and a newline.
abbrev spec : ServiceSpec
spec = record {
  unit_name = codes "signedpulse-server";
  description = codes "SignedPulse server";
  exec_path = codes "/opt/signed pulse/server";
  args = codes "--config" ∷ (b'a' ∷ 34 ∷ 10 ∷ b'b' ∷ []) ∷ [];
  launchd_label = codes "com.signedpulse.server";
}

expected_line :
    exec_line (codes "/a") ((b'x' ∷ 34 ∷ []) ∷ [])
    ≡ 34 ∷ codes "/a" ++ 34 ∷ 32 ∷ 34 ∷ b'x' ∷ 92 ∷ 34 ∷ 34 ∷ []
unfolding exec_line replace_from select
expected_line = refl

exec_line_words_example :
    parse_words 3 (exec_line spec.exec_path spec.args)
    ≡ some (map without_control (spec.exec_path ∷ spec.args))
exec_line_words_example = exec_line_words spec.exec_path spec.args

unit_lines_example :
    lines (render_systemd_unit spec true)
    ≡ codes "[Unit]"
      ∷ (codes "Description=" ++ without_control spec.description)
      ∷ codes "After=network-online.target"
      ∷ codes "Wants=network-online.target"
      ∷ []
      ∷ codes "[Service]"
      ∷ codes "Type=simple"
      ∷ (codes "ExecStart=" ++ exec_line spec.exec_path spec.args)
      ∷ codes "Restart=on-failure"
      ∷ codes "RestartSec=5"
      ∷ codes "NoNewPrivileges=true"
      ∷ []
      ∷ codes "[Install]"
      ∷ (codes "WantedBy=" ++ wanted_by true)
      ∷ []
unit_lines_example = unit_lines spec true

-- A system on which the tools are in `/usr/bin` and the second command of systemctl fails.
abbrev sys : System
sys = record {
  home = none;
  is_macos = false;
  exists = λ _. true;
  writes = λ _ _. true;
  status = λ _ args. some (ltb (length args) 3);
  output = λ _ _. none;
}

abbrev path : Bytes
path = codes "/etc/systemd/system/signedpulse-server.service"

placed : unit_path none spec systemd_system ≡ some path
unfolding unit_path
placed = refl

install_lem_example :
    (report : InstallReport) × (es : List Effect) × (install sys spec systemd_system true
      ≡ (wrote path (render none spec systemd_system) ∷ es, ok report))
    × (report.path ≡ path)
    × (report.activation_commands ≡ map typed (invocations spec systemd_system path))
    × (report.activated ≡ all_succeed sys (invocations spec systemd_system path))
install_lem_example = install_lem sys spec systemd_system true path placed refl

-- ===== src/Service.antt =====
-- The installation as a service of the operating system,
-- crates/signedpulse-common/src/service.rs: the texts of the definitions, their places, and the
-- commands that start the service. A path is its text; `home` is the variable HOME.
pub mod Quoting
pub mod Lines
pub mod Plist
pub mod Activation
use signedpulse.Base.{
  join, ℕ, zero, suc, ◌+◌, ◌-◌, ◌*◌, ◌/◌, ◌%◌, ◌^◌, ◌≤◌, ◌<◌, min, max, ◌≡◌, refl, sym, ap, ap₂,
  ◌∙◌, subst, ◌≢◌, ◌↔◌, ◌⊎◌, inl, inr, ite, Bool, true, false, not, ◌&&◌, ◌||◌, Option, none, some,
  List, [], ◌∷◌, ◌++◌, map, arith, dec_lt, dec_le, ltb, leb, ◌==◌, if◌then◌else◌, Bool-cases,
  Option-cases, is_some, unwrap_or, Result, ok, err, length, take, drop, replicate, length-append,
  All, select, Bytes, ℤ, pos, negsuc, pos_part, neg_part, ◌+ℤ◌, ◌-ℤ◌, ◌≤ℤ◌, ◌<ℤ◌, ltb_ℤ, leb_ℤ,
  min_ℤ, abs, i64_max, IsI64, abs_lem, +ℤ_parts, Key, nat_key, bytes_key, ip_key, eq, Map, get,
  insert, remove, retain, contains_key, keep_if, get-insert, get-insert_self, get-insert_ne,
  get-remove, get-retain, length-insert, length-retain-le, length-remove-le, IsMap, insert-IsMap,
  remove-IsMap, retain-IsMap, IpAddr, v4, v6, SocketAddr, bytes_dec, ip_dec, ℕ_discrete,
  append_assoc, append-nil, Fresh, Fresh-get, Instant, Duration, from_secs, as_millis,
  duration_since, codes, decimal, decimal_ℤ, from_utf8, is_control, starts_with, replace_from,
  replace, drop-drop, take_append, drop_append,
}

pub data ServiceTarget : Type 0 where
  systemd_system systemd_user launchd_agent : ServiceTarget

pub record ServiceSpec : Type 0 where
  pub unit_name : Bytes
  pub description : Bytes
  pub exec_path : Bytes
  pub args : List Bytes
  pub launchd_label : Bytes

-- `filter(|c| !c.is_control())`
abbrev pub without_control : Bytes → Bytes
without_control s = select (λ c. not (is_control c)) s

unfoldable pub systemd_quote : Bytes → Bytes
systemd_quote s =
    let cleaned = without_control s in
    34 ∷ replace (34 ∷ []) (92 ∷ 34 ∷ []) (replace (92 ∷ []) (92 ∷ 92 ∷ []) cleaned) ++ 34 ∷ []

-- The loop over the arguments.
abbrev push_args : List Bytes → Bytes
push_args [] = []
push_args (a ∷ more) = 32 ∷ systemd_quote a ++ push_args more

unfoldable pub exec_line : Bytes → List Bytes → Bytes
unfolding systemd_quote
exec_line exec_path args = systemd_quote exec_path ++ push_args args

abbrev pub wanted_by : Bool → Bytes
wanted_by true = codes "default.target"
wanted_by false = codes "multi-user.target"

abbrev pub quoted : Bytes → Bytes
quoted text = 34 ∷ text ++ 34 ∷ []

abbrev pub line : Bytes → Bytes → Bytes
line text rest = text ++ 10 ∷ rest

-- The lines, each with its newline.
abbrev pub unlines : List Bytes → Bytes
unlines [] = []
unlines (l ∷ ls) = line l (unlines ls)

unfoldable pub render_systemd_unit : ServiceSpec → Bool → Bytes
unfolding exec_line
render_systemd_unit spec user = unlines (
    codes "[Unit]"
    ∷ (codes "Description=" ++ without_control spec.description)
    ∷ codes "After=network-online.target"
    ∷ codes "Wants=network-online.target"
    ∷ []
    ∷ codes "[Service]"
    ∷ codes "Type=simple"
    ∷ (codes "ExecStart=" ++ exec_line spec.exec_path spec.args)
    ∷ codes "Restart=on-failure"
    ∷ codes "RestartSec=5"
    ∷ codes "NoNewPrivileges=true"
    ∷ []
    ∷ codes "[Install]"
    ∷ (codes "WantedBy=" ++ wanted_by user)
    ∷ [])

unfoldable pub xml_escape : Bytes → Bytes
xml_escape s =
    replace (b'>' ∷ []) (codes "&gt;")
      (replace (b'<' ∷ []) (codes "&lt;") (replace (b'&' ∷ []) (codes "&amp;") s))

-- The text is empty or ends with a slash.
abbrev pub ends_with_slash : Bytes → Bool
ends_with_slash [] = true
ends_with_slash (c ∷ []) = c == b'/'
ends_with_slash (c ∷ d ∷ cs) = ends_with_slash (d ∷ cs)

-- `Path::join`
abbrev pub under : Bytes → Bytes → Bytes
under dir name =
    if starts_with (b'/' ∷ []) name
    then name
    else if ends_with_slash dir
    then dir ++ name
    else dir ++ b'/' ∷ name

unfoldable pub default_config_path : Bytes → Bytes
default_config_path component = under (codes "/etc/signedpulse") (component ++ codes ".toml")

abbrev pub log_lines : Bytes → Bytes → Bytes → Bytes
log_lines key path rest =
    line (codes "  <key>" ++ key ++ codes "</key>")
      (line (codes "  <string>" ++ xml_escape path ++ codes "</string>") rest)

-- The places of the logs, where `HOME` is set.
unfoldable pub log_section : Option Bytes → Bytes → Bytes → Bytes
unfolding xml_escape
log_section none label rest = rest
log_section (some home) label rest =
    let dir = under home (codes "Library/Logs") in
    codes "         "
    ++ log_lines (codes "StandardOutPath") (under dir (label ++ codes ".out.log"))
        (log_lines (codes "StandardErrorPath") (under dir (label ++ codes ".err.log")) rest)

abbrev pub argument : Bytes → Bytes → Bytes
argument text rest = line (codes "    <string>" ++ xml_escape text ++ codes "</string>") rest

unfoldable pub arguments : List Bytes → Bytes → Bytes
unfolding xml_escape
arguments [] rest = rest
arguments (a ∷ more) rest = argument a (arguments more rest)

unfoldable pub render_launchd_plist : Option Bytes → ServiceSpec → Bytes
unfolding xml_escape log_section arguments
render_launchd_plist home spec =
    line
      (codes "<?xml version="
        ++ quoted (codes "1.0")
        ++ codes " encoding="
        ++ quoted (codes "UTF-8")
        ++ codes "?>")
      (line
        (codes "<!DOCTYPE plist PUBLIC "
          ++ quoted (codes "-//Apple//DTD PLIST 1.0//EN")
          ++ 32 ∷ quoted (codes "http://www.apple.com/DTDs/PropertyList-1.0.dtd")
          ++ codes ">")
        (line (codes "<plist version=" ++ quoted (codes "1.0") ++ codes ">") (
          line (codes "<dict>") (
            line (codes "  <key>Label</key>") (
              line (codes "  <string>" ++ xml_escape spec.launchd_label ++ codes "</string>") (
                line (codes "  <key>ProgramArguments</key>") (
                  line (codes "  <array>") (
                    arguments (spec.exec_path ∷ spec.args) (
                      line (codes "  </array>") (
                        line (codes "  <key>RunAtLoad</key>") (
                          line (codes "  <true/>") (
                            line (codes "  <key>KeepAlive</key>") (
                              line (codes "  <true/>") (
                                log_section home spec.launchd_label (
                                  line (codes "</dict>") (line (codes "</plist>") []))))))))))))))))

unfoldable pub render : Option Bytes → ServiceSpec → ServiceTarget → Bytes
unfolding render_systemd_unit render_launchd_plist
render home spec systemd_system = render_systemd_unit spec false
render home spec systemd_user = render_systemd_unit spec true
render home spec launchd_agent = render_launchd_plist home spec

-- The path of the definition; `none` where `HOME` is needed and not set.
unfoldable pub unit_path : Option Bytes → ServiceSpec → ServiceTarget → Option Bytes
unit_path home spec systemd_system =
    some (under (codes "/etc/systemd/system") (spec.unit_name ++ codes ".service"))
unit_path none spec systemd_user = none
unit_path (some home) spec systemd_user =
    some (under (under home (codes ".config/systemd/user")) (spec.unit_name ++ codes ".service"))
unit_path none spec launchd_agent = none
unit_path (some home) spec launchd_agent =
    some (under (under home (codes "Library/LaunchAgents")) (spec.launchd_label ++ codes ".plist"))

unfoldable pub activation_commands : ServiceSpec → ServiceTarget → Bytes → List Bytes
activation_commands spec systemd_system path =
    codes "systemctl daemon-reload" ∷ (codes "systemctl enable --now " ++ spec.unit_name) ∷ []
activation_commands spec systemd_user path =
    codes "systemctl --user daemon-reload"
    ∷ (codes "systemctl --user enable --now " ++ spec.unit_name)
    ∷ []
activation_commands spec launchd_agent path = (codes "launchctl load -w " ++ path) ∷ []

-- ===== src/Commands/Install.antt =====
-- `install_service` of both command lines: the service that is installed, and where.
use signedpulse.Base.{
  Bool, true, List, [], ◌∷◌, if◌then◌else◌, Result, Bytes, nat_key, bytes_key, ip_key, codes,
}
use signedpulse.Service.{
  ServiceSpec, ServiceTarget, systemd_system, systemd_user, launchd_agent, render,
}
use signedpulse.Service.Activation.{System, Effect, InstallError, InstallReport, install}

unfoldable pub server_spec : Bytes → Bytes → ServiceSpec
server_spec exec_path config_path = record {
  unit_name = codes "signedpulse-server";
  description = codes "SignedPulse server";
  exec_path = exec_path;
  args = codes "--config" ∷ config_path ∷ [];
  launchd_label = codes "com.signedpulse.server";
}

unfoldable pub client_spec : Bytes → Bytes → ServiceSpec
client_spec exec_path config_path = record {
  unit_name = codes "signedpulse-client";
  description = codes "SignedPulse client";
  exec_path = exec_path;
  args = codes "--config" ∷ config_path ∷ [];
  launchd_label = codes "com.signedpulse.client";
}

unfoldable pub server_target : Bool → ServiceTarget
server_target user = if user then systemd_user else systemd_system

unfoldable pub client_target : Bool → Bool → ServiceTarget
client_target user is_macos =
    if user then systemd_user else if is_macos then launchd_agent else systemd_system

-- What is printed, or done.
pub data Installation : Type 0 where
  printed : Bytes → Installation
  done : List Effect → Result InstallError InstallReport → Installation

unfoldable pub install_service : System → ServiceSpec → ServiceTarget → Bool → Installation
unfolding install
install_service sys spec target print =
    let (effects, report) = install sys spec target true in
    if print then printed (render sys.home spec target) else done effects report

-- ===== src/CommandRunner.antt =====
-- The execution of hooks, crates/signedpulse-server/src/command_runner.rs. The text of an address
-- is a parameter, as the operating system's answers are.
pub mod Template
pub mod Literal
use signedpulse.Base.{
  join, replace_from, replace, ℕ, zero, suc, ◌-◌, max, Bool, true, false, ◌&&◌, Option, none, some,
  List, [], ◌∷◌, ◌++◌, map, ◌==◌, if◌then◌else◌, unwrap_or, Result, ok, err, length, Bytes, ℤ,
  nat_key, bytes_key, ip_key, IpAddr, Duration, codes, decimal,
}
use signedpulse.Server.State.{HookCall}

-- The texts that the placeholders stand for.
pub record Values : Type 0 where
  pub ip : Bytes
  pub client_id : Bytes
  pub source_port : Bytes
  pub param : Bytes
  pub new : Bytes
  pub reason : Bytes
  pub ip_clients : Bytes

unfoldable pub substitute_placeholders : Values → Bytes → Bytes
unfolding replace_from
substitute_placeholders v arg = replace (codes "{ip_clients}") v.ip_clients (
    replace (codes "{reason}") v.reason (
      replace (codes "{new}") v.new (
        replace (codes "{param}") v.param (
          replace (codes "{source_port}") v.source_port
            (replace (codes "{client_id}") v.client_id (replace (codes "{ip}") v.ip arg))))))

unfoldable pub build_argv : Values → List Bytes → List Bytes
unfolding substitute_placeholders
build_argv v template = map (substitute_placeholders v) template

pub record ProcessExecutor : Type 0 where
  pub argv_template : List Bytes
  pub working_dir : Option Bytes
  pub timeout : Duration
  pub allow_shell : Bool
  pub permits : ℕ

unfoldable pub new : List Bytes → Option Bytes → Duration → ℕ → Bool → ProcessExecutor
new argv_template working_dir timeout max_concurrent allow_shell = record {
  argv_template = argv_template;
  working_dir = working_dir;
  timeout = timeout;
  allow_shell = allow_shell;
  permits = max max_concurrent 1;
}

-- A process to start; its three streams are null.
pub record Command : Type 0 where
  pub program : Bytes
  pub args : List Bytes
  pub current_dir : Option Bytes
  pub env : List (Bytes × Bytes)

abbrev pub words_of : Bool → List Bytes → Bytes × List Bytes
words_of true argv = (codes "sh", codes "-c" ∷ join argv ∷ [])
words_of false [] = (codes "/bin/false", [])
words_of false (program ∷ args) = (program, args)

unfoldable pub build_command : ProcessExecutor → Values → Command
unfolding build_argv
build_command x v =
    let (program, args) = words_of x.allow_shell (build_argv v x.argv_template) in
    record {
      program = program;
      args = args;
      current_dir = x.working_dir;
      env = (codes "PATH", codes "/usr/sbin:/usr/bin:/sbin:/bin") ∷ [];
    }

pub record CommandResult : Type 0 where
  pub exit_code : Option ℤ
  pub timed_out : Bool

pub data CommandError : Type 0 where
  spawn wait at_capacity : CommandError

-- How a started process ends, as far as the executor waits for it.
pub data Ended : Type 0 where
  exited : Option ℤ → Ended
  wait_failed elapsed : Ended

abbrev pub values_of : (IpAddr → Bytes) → HookCall → Values
values_of ip_text call = record {
  ip = ip_text call.source_ip;
  client_id = call.client_id;
  source_port = decimal call.source_port;
  param = unwrap_or call.param [];
  new = if call.is_new then codes "1" else codes "0";
  reason = call.reason;
  ip_clients = decimal call.ip_clients;
}

abbrev ended : Option Ended → Result CommandError CommandResult
ended none = err spawn
ended (some (exited code)) = ok (record { exit_code = code; timed_out = false })
ended (some wait_failed) = err wait
ended (some elapsed) = ok (record { exit_code = none; timed_out = true })

-- `system` starts the process, if it can, and says how it ends within the timeout. The permit is
-- held to the end.
unfoldable pub execute :
    (IpAddr → Bytes)
    → (Command → Duration → Option Ended)
    → HookCall
    → ProcessExecutor
    → Result CommandError CommandResult
unfolding build_command
execute ip_text system call x =
    if x.permits == 0
    then err at_capacity
    else ended (system (build_command x (values_of ip_text call)) x.timeout)

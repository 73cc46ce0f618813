-- ===== src/Tests/Hooks.antt =====
-- The words of a hook on a concrete template.
use signedpulse.Base.{
  replace_from, ◌≡◌, refl, false, none, List, [], ◌∷◌, arith, nat_key, bytes_key, ip_key, from_secs,
  codes,
}
use signedpulse.CommandRunner.{Values, ProcessExecutor, build_command, substitute_placeholders}
use signedpulse.CommandRunner.Template.{
  Slot, ip_slot, client_id_slot, source_port_slot, param_slot, new_slot, reason_slot,
  ip_clients_slot, Piece, literal, slot, value_of, IsLiteral,
}
use signedpulse.CommandRunner.Literal.{command_words}

abbrev values : Values
values = record {
  ip = codes "10.0.0.1";
  client_id = codes "07";
  source_port = codes "4000";
  param = codes "deploy";
  new = codes "1";
  reason = codes "grant";
  ip_clients = codes "0";
}

abbrev executor : ProcessExecutor
executor = record {
  argv_template = codes "/bin/hook" ∷ codes "--from={ip}:{source_port}" ∷ codes "{param}" ∷ [];
  working_dir = none;
  timeout = from_secs 10;
  allow_shell = false;
  permits = 4;
}

abbrev words : List (List Piece)
words =
    (literal (codes "--from=") ∷ slot ip_slot ∷ literal (codes ":") ∷ slot source_port_slot ∷ [])
    ∷ (slot param_slot ∷ [])
    ∷ []

values-IsLiteral : (s : Slot) → IsLiteral (value_of values s)
values-IsLiteral ip_slot = ground arith
values-IsLiteral client_id_slot = ground arith
values-IsLiteral source_port_slot = ground arith
values-IsLiteral param_slot = ground arith
values-IsLiteral new_slot = ground arith
values-IsLiteral reason_slot = ground arith
values-IsLiteral ip_clients_slot = ground arith

command_words_example :
    (build_command executor values).program ∷ (build_command executor values).args
    ≡ codes "/bin/hook" ∷ codes "--from=10.0.0.1:4000" ∷ codes "deploy" ∷ []
command_words_example =
    command_words executor values (literal (codes "/bin/hook") ∷ []) words values-IsLiteral refl
      refl (ground arith)

-- A parameter that spells a placeholder is not inserted as it stands.
param_is_expanded :
    substitute_placeholders (record values { param = codes "{reason}" }) (codes "{param}")
    ≡ codes "grant"
unfolding substitute_placeholders replace_from
param_is_expanded = refl

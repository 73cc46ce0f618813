-- ===== src/CommandRunner/Template.antt =====
-- The words of a hook's template, in their parts, and the names of the placeholders.
use signedpulse.Base.{
  starts_with, ℕ, ◌≡◌, refl, sym, ap, ◌∙◌, ◌≢◌, Bool, true, List, [], ◌∷◌, ◌++◌, arith, ◌==◌,
  if◌then◌else◌, All, Bytes, nat_key, bytes_key, ip_key, codes,
}
use signedpulse.CommandRunner.{Values}

pub data Slot : Type 0 where
  ip_slot client_id_slot source_port_slot param_slot : Slot
  new_slot reason_slot ip_clients_slot : Slot

-- A word of the template in its parts.
pub data Piece : Type 0 where
  literal : Bytes → Piece
  slot : Slot → Piece

-- A slot's name after the open brace.
abbrev pub tail_of : Slot → Bytes
tail_of ip_slot = codes "ip}"
tail_of client_id_slot = codes "client_id}"
tail_of source_port_slot = codes "source_port}"
tail_of param_slot = codes "param}"
tail_of new_slot = codes "new}"
tail_of reason_slot = codes "reason}"
tail_of ip_clients_slot = codes "ip_clients}"

abbrev pub name_of : Slot → Bytes
name_of s = 123 ∷ tail_of s

abbrev pub value_of : Values → Slot → Bytes
value_of v ip_slot = v.ip
value_of v client_id_slot = v.client_id
value_of v source_port_slot = v.source_port
value_of v param_slot = v.param
value_of v new_slot = v.new
value_of v reason_slot = v.reason
value_of v ip_clients_slot = v.ip_clients

-- The template's word.
abbrev pub template_of : List Piece → Bytes
template_of [] = []
template_of (literal text ∷ ps) = text ++ template_of ps
template_of (slot s ∷ ps) = name_of s ++ template_of ps

-- The word with every value in its place.
abbrev pub filled : Values → List Piece → Bytes
filled v [] = []
filled v (literal text ∷ ps) = text ++ filled v ps
filled v (slot s ∷ ps) = value_of v s ++ filled v ps

-- No open brace occurs.
abbrev pub IsLiteral : Bytes → Type 0
IsLiteral text = All (λ c. c ≢ 123) text

abbrev pub IsWord : List Piece → Type 0
IsWord [] = Unit {0}
IsWord (literal text ∷ ps) = IsLiteral text × IsWord ps
IsWord (slot s ∷ ps) = IsWord ps

abbrev rank : Slot → ℕ
rank ip_slot = 0
rank client_id_slot = 1
rank source_port_slot = 2
rank param_slot = 3
rank new_slot = 4
rank reason_slot = 5
rank ip_clients_slot = 6

abbrev pub same : Slot → Slot → Bool
same s t = rank s == rank t

pub starts_name :
    (s t : Slot) (rest : Bytes) → starts_with (name_of s) (name_of t ++ rest) ≡ same s t
starts_name ip_slot ip_slot rest = refl
starts_name ip_slot client_id_slot rest = refl
starts_name ip_slot source_port_slot rest = refl
starts_name ip_slot param_slot rest = refl
starts_name ip_slot new_slot rest = refl
starts_name ip_slot reason_slot rest = refl
starts_name ip_slot ip_clients_slot rest = refl
starts_name client_id_slot ip_slot rest = refl
starts_name client_id_slot client_id_slot rest = refl
starts_name client_id_slot source_port_slot rest = refl
starts_name client_id_slot param_slot rest = refl
starts_name client_id_slot new_slot rest = refl
starts_name client_id_slot reason_slot rest = refl
starts_name client_id_slot ip_clients_slot rest = refl
starts_name source_port_slot ip_slot rest = refl
starts_name source_port_slot client_id_slot rest = refl
starts_name source_port_slot source_port_slot rest = refl
starts_name source_port_slot param_slot rest = refl
starts_name source_port_slot new_slot rest = refl
starts_name source_port_slot reason_slot rest = refl
starts_name source_port_slot ip_clients_slot rest = refl
starts_name param_slot ip_slot rest = refl
starts_name param_slot client_id_slot rest = refl
starts_name param_slot source_port_slot rest = refl
starts_name param_slot param_slot rest = refl
starts_name param_slot new_slot rest = refl
starts_name param_slot reason_slot rest = refl
starts_name param_slot ip_clients_slot rest = refl
starts_name new_slot ip_slot rest = refl
starts_name new_slot client_id_slot rest = refl
starts_name new_slot source_port_slot rest = refl
starts_name new_slot param_slot rest = refl
starts_name new_slot new_slot rest = refl
starts_name new_slot reason_slot rest = refl
starts_name new_slot ip_clients_slot rest = refl
starts_name reason_slot ip_slot rest = refl
starts_name reason_slot client_id_slot rest = refl
starts_name reason_slot source_port_slot rest = refl
starts_name reason_slot param_slot rest = refl
starts_name reason_slot new_slot rest = refl
starts_name reason_slot reason_slot rest = refl
starts_name reason_slot ip_clients_slot rest = refl
starts_name ip_clients_slot ip_slot rest = refl
starts_name ip_clients_slot client_id_slot rest = refl
starts_name ip_clients_slot source_port_slot rest = refl
starts_name ip_clients_slot param_slot rest = refl
starts_name ip_clients_slot new_slot rest = refl
starts_name ip_clients_slot reason_slot rest = refl
starts_name ip_clients_slot ip_clients_slot rest = refl

pub tail_of-IsLiteral : (s : Slot) → IsLiteral (tail_of s)
tail_of-IsLiteral ip_slot = ground arith
tail_of-IsLiteral client_id_slot = ground arith
tail_of-IsLiteral source_port_slot = ground arith
tail_of-IsLiteral param_slot = ground arith
tail_of-IsLiteral new_slot = ground arith
tail_of-IsLiteral reason_slot = ground arith
tail_of-IsLiteral ip_clients_slot = ground arith

abbrev slot_at : ℕ → Slot
slot_at n =
    if n == 0
    then ip_slot
    else if n == 1
    then client_id_slot
    else if n == 2
    then source_port_slot
    else if n == 3
    then param_slot
    else if n == 4
    then new_slot
    else if n == 5
    then reason_slot
    else ip_clients_slot

slot_at-rank : (s : Slot) → slot_at (rank s) ≡ s
slot_at-rank ip_slot = refl
slot_at-rank client_id_slot = refl
slot_at-rank source_port_slot = refl
slot_at-rank param_slot = refl
slot_at-rank new_slot = refl
slot_at-rank reason_slot = refl
slot_at-rank ip_clients_slot = refl

rank_eq : (s t : Slot) → same s t ≡ true → rank s ≡ rank t
rank_eq s t h = ground (arith, h)

pub same_eq : (s t : Slot) → same s t ≡ true → s ≡ t
same_eq s t h = sym (slot_at-rank s) ∙ ap slot_at (rank_eq s t h) ∙ slot_at-rank t

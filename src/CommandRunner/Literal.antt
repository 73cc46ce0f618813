-- ===== src/CommandRunner/Literal.antt =====
-- The placeholders of a hook's words, substituted one after the other, stand for their values at
-- once.
use signedpulse.Base.{
  replace, replace_from, ◌≡◌, refl, sym, ap, ap₂, ◌∙◌, subst, inl, inr, Bool, true, false, List, [],
  ◌∷◌, ◌++◌, map, arith, Bool-cases, length, All, Bytes, nat_key, bytes_key, ip_key,
}
use signedpulse.CommandRunner.Template.{
  Slot, ip_slot, client_id_slot, source_port_slot, param_slot, new_slot, reason_slot,
  ip_clients_slot, Piece, literal, slot, tail_of, name_of, value_of, template_of, filled, IsLiteral,
  IsWord, same, starts_name, tail_of-IsLiteral, same_eq,
}
use signedpulse.CommandRunner.{
  Values, substitute_placeholders, build_argv, ProcessExecutor, build_command,
}

abbrev slot_step : Bool → Slot → Bytes → Piece
slot_step true t v = literal v
slot_step false t v = slot t

-- The piece after the values of `s` are in place.
abbrev fill : Slot → Bytes → Piece → Piece
fill s v (literal text) = literal text
fill s v (slot t) = slot_step (same s t) t v

abbrev fills : Slot → Bytes → List Piece → List Piece
fills s v ps = map (fill s v) ps

literal_lem :
    (s : Slot) (v text rest : Bytes)
    → IsLiteral text
    → replace (name_of s) v (text ++ rest) ≡ text ++ replace (name_of s) v rest
unfolding replace_from
literal_lem s v [] rest lit = refl
literal_lem s v (c ∷ cs) rest (ne, lit) = ground (arith, ne, literal_lem s v cs rest lit)

skip_lem :
    (pattern v xs rest : Bytes)
    → replace_from pattern v (length xs) (xs ++ rest) ≡ replace_from pattern v 0 rest
unfolding replace_from
skip_lem pattern v [] rest = refl
skip_lem pattern v (x ∷ xs) rest = skip_lem pattern v xs rest

own_slot :
    (s : Slot) (v rest : Bytes)
    → replace (name_of s) v (name_of s ++ rest) ≡ v ++ replace (name_of s) v rest
unfolding replace_from
own_slot s v rest = ground (arith, starts_name s s rest, skip_lem (name_of s) v (tail_of s) rest)

other_slot :
    (s t : Slot) (v rest : Bytes)
    → same s t ≡ false
    → replace (name_of s) v (name_of t ++ rest) ≡ name_of t ++ replace (name_of s) v rest
unfolding replace_from
other_slot s t v rest h =
    ground (arith, h, starts_name s t rest, literal_lem s v (tail_of t) rest (tail_of-IsLiteral t))

fill_lem :
    (s : Slot) (v : Bytes) (ps : List Piece)
    → IsWord ps
    → replace (name_of s) v (template_of ps) ≡ template_of (fills s v ps)
unfolding replace_from
fill_lem s v [] w = refl
fill_lem s v (literal text ∷ ps) (lit, w) =
    literal_lem s v text (template_of ps) lit ∙ ap (λ q. text ++ q) (fill_lem s v ps w)
fill_lem s v (slot t ∷ ps) w = elim (Bool-cases (same s t)) [
  | inl h ↦
      subst
        (λ u. replace (name_of s) v (template_of (slot u ∷ ps)) ≡ v ++ template_of (fills s v ps))
        (same_eq s t h) (own_slot s v (template_of ps) ∙ ap (λ q. v ++ q) (fill_lem s v ps w))
      ∙ ap (λ b. template_of (slot_step b t v ∷ fills s v ps)) (sym h)
  | inr h ↦
      other_slot s t v (template_of ps) h
      ∙ ap (λ q. name_of t ++ q) (fill_lem s v ps w)
      ∙ ap (λ b. template_of (slot_step b t v ∷ fills s v ps)) (sym h)
]

fill-IsWord :
    (s : Slot) (v : Bytes) (ps : List Piece) → IsLiteral v → IsWord ps → IsWord (fills s v ps)
fill-IsWord s v [] lit w = tt
fill-IsWord s v (literal text ∷ ps) lit (t, w) = (t, fill-IsWord s v ps lit w)
fill-IsWord s v (slot t ∷ ps) lit w = elim (Bool-cases (same s t)) [
  | inl h ↦
      subst (λ b. IsWord (slot_step b t v ∷ fills s v ps)) (sym h) (lit, fill-IsWord s v ps lit w)
  | inr h ↦ subst (λ b. IsWord (slot_step b t v ∷ fills s v ps)) (sym h) (fill-IsWord s v ps lit w)
]

-- Every slot filled, one after the other.
abbrev all_filled : Values → List Piece → List Piece
all_filled v ps = fills ip_clients_slot v.ip_clients (
    fills reason_slot v.reason (
      fills new_slot v.new (
        fills param_slot v.param (
          fills source_port_slot v.source_port
            (fills client_id_slot v.client_id (fills ip_slot v.ip ps))))))

all_filled_lem : (v : Values) (ps : List Piece) → template_of (all_filled v ps) ≡ filled v ps
all_filled_lem v [] = refl
all_filled_lem v (literal text ∷ ps) = ap (λ q. text ++ q) (all_filled_lem v ps)
all_filled_lem v (slot ip_slot ∷ ps) = ap (λ q. v.ip ++ q) (all_filled_lem v ps)
all_filled_lem v (slot client_id_slot ∷ ps) = ap (λ q. v.client_id ++ q) (all_filled_lem v ps)
all_filled_lem v (slot source_port_slot ∷ ps) = ap (λ q. v.source_port ++ q) (all_filled_lem v ps)
all_filled_lem v (slot param_slot ∷ ps) = ap (λ q. v.param ++ q) (all_filled_lem v ps)
all_filled_lem v (slot new_slot ∷ ps) = ap (λ q. v.new ++ q) (all_filled_lem v ps)
all_filled_lem v (slot reason_slot ∷ ps) = ap (λ q. v.reason ++ q) (all_filled_lem v ps)
all_filled_lem v (slot ip_clients_slot ∷ ps) = ap (λ q. v.ip_clients ++ q) (all_filled_lem v ps)

-- `text` is the word of `ps`.
record IsReached (text : Bytes) (ps : List Piece) : Type 0 where
  same_text : text ≡ template_of ps
  word : IsWord ps

IsReached-step :
    {text : Bytes} {ps : List Piece} (s : Slot) (v : Bytes)
    → IsLiteral v
    → IsReached text ps
    → IsReached (replace (name_of s) v text) (fills s v ps)
IsReached-step {ps = ps} s v lit r = record {
  same_text = ap (replace (name_of s) v) r.same_text ∙ fill_lem s v ps r.word;
  word = fill-IsWord s v ps lit r.word;
}

-- A word of literal text and placeholders comes out with each placeholder's value in its place and
-- all else as it was, if no value holds an open brace.
pub substitute_lem :
    (v : Values) (ps : List Piece)
    → ((s : Slot) → IsLiteral (value_of v s))
    → IsWord ps
    → substitute_placeholders v (template_of ps) ≡ filled v ps
unfolding substitute_placeholders
substitute_lem v ps lit w =
    (IsReached-step ip_clients_slot v.ip_clients (lit ip_clients_slot) (
      IsReached-step reason_slot v.reason (lit reason_slot) (
        IsReached-step new_slot v.new (lit new_slot) (
          IsReached-step param_slot v.param (lit param_slot) (
            IsReached-step source_port_slot v.source_port (lit source_port_slot) (
              IsReached-step client_id_slot v.client_id (lit client_id_slot) (
                IsReached-step {ps = ps} ip_slot v.ip (lit ip_slot)
                  (record { same_text = refl; word = w })))))))).same_text
    ∙ all_filled_lem v ps

argv_lem :
    (v : Values) (ws : List (List Piece))
    → ((s : Slot) → IsLiteral (value_of v s))
    → All IsWord ws
    → build_argv v (map template_of ws) ≡ map (filled v) ws
unfolding build_argv
argv_lem v [] lit w = refl
argv_lem v (ps ∷ ws) lit (w, rest) = ap₂ ◌∷◌ (substitute_lem v ps lit w) (argv_lem v ws lit rest)

-- Without a shell, the program and the arguments of a hook are the words of the template with each
-- placeholder's value in its place, each one word of its own, if the template has a word, and
-- neither a value nor the template's text between the placeholders holds an open brace.
pub command_words :
    (x : ProcessExecutor) (v : Values) (first : List Piece) (ws : List (List Piece))
    → ((s : Slot) → IsLiteral (value_of v s))
    → x.allow_shell ≡ false
    → x.argv_template ≡ map template_of (first ∷ ws)
    → All IsWord (first ∷ ws)
    → (build_command x v).program ∷ (build_command x v).args ≡ map (filled v) (first ∷ ws)
unfolding build_command
command_words x v first ws lit direct template w =
    let argv : build_argv v x.argv_template ≡ map (filled v) (first ∷ ws) =
      ap (build_argv v) template ∙ argv_lem v (first ∷ ws) lit w in
    ground (arith, direct, argv)

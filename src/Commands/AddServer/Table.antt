-- ===== src/Commands/AddServer/Table.antt =====
-- The table that `add-server` appends, as TOML entries, and what TOML is relied on to read.
use signedpulse.Base.{
  ℕ, ◌^◌, ◌≡◌, refl, sym, ap, ◌∙◌, Bool, true, false, Option, none, some, List, [], ◌∷◌, ◌++◌,
  arith, ltb, if◌then◌else◌, Bytes, nat_key, bytes_key, ip_key, eq, append_assoc, append-nil, codes,
  decimal,
}
use signedpulse.Commands.Tokens.{
  any, all, is_token_char, breaks_addr, breaks_label, toml_table_key, quote,
}
use signedpulse.Commands.AddServer.{
  AddServerArgs, server_id_of, server_block, key_line, interval_line,
}

pub data Value : Type 0 where
  text : Bytes → Value
  flag : Bool → Value
  number : ℕ → Value

abbrev pub Entries : Type 0
Entries = List (Bytes × Value)

abbrev pub print_value : Value → Bytes
print_value (text b) = quote b
print_value (flag true) = codes "true"
print_value (flag false) = codes "false"
print_value (number n) = decimal n

abbrev pub print_entries : Entries → Bytes
print_entries [] = []
print_entries ((key, v) ∷ es) = (key ++ codes " = " ++ print_value v ++ 10 ∷ []) ++ print_entries es

-- A table of `[client.servers]`, after an empty line.
abbrev pub print_table : Bytes → Entries → Bytes
print_table label es =
    10 ∷ codes "[client.servers." ++ toml_table_key label ++ codes "]" ++ 10 ∷ print_entries es

abbrev id_entry : Bool → Bytes → Entries
id_entry true id = []
id_entry false id = (codes "server_id", text id) ∷ []

abbrev key_entry : Option Bytes → Entries
key_entry none = []
key_entry (some key) = (codes "server_encryption_key", text key) ∷ []

abbrev wire_entry : Bool → Entries
wire_entry true = (codes "wire_encryption", flag false) ∷ []
wire_entry false = []

abbrev interval_entry : Option ℕ → Entries
interval_entry none = []
interval_entry (some n) = (codes "interval_seconds", number n) ∷ []

-- The address; the id, if it is not the label; the key and the interval, if they are given; and
-- clear text, if encryption is declined.
abbrev pub entries : AddServerArgs → Bytes → Entries
entries args server_addr =
    (codes "server_addr", text server_addr)
      ∷ id_entry (eq (server_id_of args) args.name) (server_id_of args)
    ++ (key_entry args.server_key
        ++ (wire_entry args.no_encryption ++ interval_entry args.interval))

id_lem :
    (b : Bool) (id : Bytes) (es : Entries)
    → (if b then [] else codes "server_id = " ++ quote id ++ 10 ∷ []) ++ print_entries es
      ≡ print_entries (id_entry b id ++ es)
id_lem true id es = refl
id_lem false id es = refl

key_lem :
    (o : Option Bytes) (es : Entries)
    → key_line o ++ print_entries es ≡ print_entries (key_entry o ++ es)
key_lem none es = refl
key_lem (some key) es = refl

wire_lem :
    (b : Bool) (es : Entries)
    → (if b then codes "wire_encryption = false" ++ 10 ∷ [] else []) ++ print_entries es
      ≡ print_entries (wire_entry b ++ es)
wire_lem true es = refl
wire_lem false es = refl

interval_lem : (o : Option ℕ) → interval_line o ≡ print_entries (interval_entry o)
interval_lem none = refl
interval_lem (some n) = sym (append-nil (interval_line (some n)))

shape :
    (h s q i k w l : Bytes)
    → h ++ 10 ∷ s ++ q ++ 10 ∷ i ++ k ++ w ++ l
      ≡ h ++ 10 ∷ (s ++ q ++ 10 ∷ [] ++ (i ++ (k ++ (w ++ l))))
shape h s q i k w l = simp append_assoc

-- The lines of the command, one for each entry.
lines_lem :
    (args : AddServerArgs)
    → (if eq (server_id_of args) args.name
          then []
          else codes "server_id = " ++ quote (server_id_of args) ++ 10 ∷ [])
        ++ (key_line args.server_key
            ++ ((if args.no_encryption then codes "wire_encryption = false" ++ 10 ∷ [] else [])
                ++ interval_line args.interval))
      ≡ print_entries (
          id_entry (eq (server_id_of args) args.name) (server_id_of args)
          ++ (key_entry args.server_key
              ++ (wire_entry args.no_encryption ++ interval_entry args.interval)))
lines_lem args =
    let i = interval_entry args.interval in
    let w = wire_entry args.no_encryption ++ i in
    let id_line =
      if eq (server_id_of args) args.name
      then []
      else codes "server_id = " ++ quote (server_id_of args) ++ 10 ∷ [] in
    let wire_line = if args.no_encryption then codes "wire_encryption = false" ++ 10 ∷ [] else [] in
    ap (λ x. id_line ++ (key_line args.server_key ++ (wire_line ++ x))) (interval_lem args.interval)
    ∙ ap (λ x. id_line ++ (key_line args.server_key ++ x)) (wire_lem args.no_encryption i)
    ∙ ap (λ x. id_line ++ x) (key_lem args.server_key w)
    ∙ id_lem (eq (server_id_of args) args.name) (server_id_of args) (key_entry args.server_key ++ w)

-- The text of the command is the print of these entries.
pub server_block-print :
    (args : AddServerArgs) (server_addr : Bytes)
    → server_block args server_addr ≡ print_table args.name (entries args server_addr)
unfolding server_block
server_block-print args server_addr =
    let header = 10 ∷ codes "[client.servers." ++ toml_table_key args.name ++ codes "]" in
    let field = codes "server_addr = " in
    let id_line =
      if eq (server_id_of args) args.name
      then []
      else codes "server_id = " ++ quote (server_id_of args) ++ 10 ∷ [] in
    let wire_line = if args.no_encryption then codes "wire_encryption = false" ++ 10 ∷ [] else [] in
    shape header field (quote server_addr) id_line (key_line args.server_key) wire_line
      (interval_line args.interval)
    ∙ ap (λ x. header ++ 10 ∷ (field ++ quote server_addr ++ 10 ∷ [] ++ x)) (lines_lem args)

-- TOML's integers are those of 64 bits with a sign.
abbrev pub fits : Option ℕ → Bool
fits none = true
fits (some n) = ltb n (2 ^ 63)

abbrev pub breaks_key : Option Bytes → Bool
breaks_key none = false
breaks_key (some key) = any breaks_label key

token_char : (c : ℕ) → is_token_char c ≡ true → breaks_label c ≡ false
token_char c h = ground (arith, h)

pub token-plain : (s : Bytes) → all is_token_char s ≡ true → any breaks_label s ≡ false
token-plain [] h = refl
token-plain (c ∷ cs) h =
    ground (arith, token_char c (ground (arith, h)), token-plain cs (ground (arith, h)))

addr_char : (c : ℕ) → breaks_addr c ≡ false → breaks_label c ≡ false
addr_char c h = ground (arith, h)

pub addr-plain : (s : Bytes) → any breaks_addr s ≡ false → any breaks_label s ≡ false
addr-plain [] h = refl
addr-plain (c ∷ cs) h =
    ground (arith, addr_char c (ground (arith, h)), addr-plain cs (ground (arith, h)))

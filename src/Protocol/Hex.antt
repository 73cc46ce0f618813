-- ===== src/Protocol/Hex.antt =====
-- `ClientId::to_hex` and `ClientId::from_hex`.
pub mod RoundTrip
use signedpulse.Base.{
  ℕ, ◌+◌, ◌-◌, ◌*◌, ◌/◌, ◌%◌, Bool, false, ◌&&◌, ◌||◌, Option, none, some, [], ◌∷◌, ◌++◌, ltb, leb,
  ◌==◌, if◌then◌else◌, length, Bytes, nat_key, bytes_key, ip_key,
}
use signedpulse.Protocol.Packet.{client_id_len}

hex_digit : ℕ → ℕ
hex_digit d = if ltb d 10 then 48 + d else 87 + d

unfoldable pub to_hex : Bytes → Bytes
unfolding hex_digit
to_hex [] = []
to_hex (b ∷ bs) = hex_digit (b / 16) ∷ hex_digit (b % 16) ∷ to_hex bs

-- `char::is_whitespace`
abbrev pub is_whitespace : ℕ → Bool
is_whitespace c =
    (leb 9 c && leb c 13)
    || c == 32
    || c == 0x85
    || c == 0xa0
    || c == 0x1680
    || (leb 0x2000 c && leb c 0x200a)
    || c == 0x2028
    || c == 0x2029
    || c == 0x202f
    || c == 0x205f
    || c == 0x3000

trim_start : Bytes → Bytes
trim_start [] = []
trim_start (c ∷ cs) = let rest = trim_start cs in if is_whitespace c then rest else c ∷ cs

unfoldable pub trim_end : Bytes → Bytes
trim_end [] = []
trim_end (c ∷ cs) = elim (trim_end cs) [
  | [] ↦ if is_whitespace c then [] else c ∷ []
  | d ∷ ds ↦ c ∷ d ∷ ds
]

-- `str::trim`
unfoldable pub trim : Bytes → Bytes
unfolding trim_start trim_end
trim s = trim_end (trim_start s)

-- The UTF-8 bytes of a character and of a text.
utf8_char : ℕ → Bytes
utf8_char c =
    if ltb c 0x80
    then c ∷ []
    else if ltb c 0x800
    then (0xc0 + c / 64) ∷ (0x80 + c % 64) ∷ []
    else if ltb c 0x10000
    then (0xe0 + c / 4096) ∷ (0x80 + c / 64 % 64) ∷ (0x80 + c % 64) ∷ []
    else (0xf0 + c / 262144) ∷ (0x80 + c / 4096 % 64) ∷ (0x80 + c / 64 % 64) ∷ (0x80 + c % 64) ∷ []

unfoldable pub as_bytes : Bytes → Bytes
unfolding utf8_char
as_bytes [] = []
as_bytes (c ∷ cs) = utf8_char c ++ as_bytes cs

-- `char::to_digit(16)`
unfoldable pub digit_value : ℕ → Option ℕ
digit_value c =
    if leb 48 c && leb c 57
    then some (c - 48)
    else if leb 97 c && leb c 102
    then some (c - 87)
    else if leb 65 c && leb c 70
    then some (c - 55)
    else none

-- `u8::from_str_radix(ab, 16)` on a text of two bytes: a leading `+` is taken as a sign.
unfoldable pub byte_of_pair : ℕ → ℕ → Option ℕ
unfolding digit_value
byte_of_pair a b = if a == b'+' then digit_value b else elim (digit_value a) [
  | none ↦ none
  | some x ↦ elim (digit_value b) [ none ↦ none | some y ↦ some (x * 16 + y) ]
]

-- The outcomes of `from_hex`; it panics where a slice would cut a character in two.
pub data Parsed : Type 0 where
  parsed : Bytes → Parsed
  bad_client_id_hex panics : Parsed

abbrev cons_parsed : ℕ → Parsed → Parsed
cons_parsed b (parsed bs) = parsed (b ∷ bs)
cons_parsed b r = r

-- Whether a character continues at the head of these bytes.
abbrev continues : Bytes → Bool
continues [] = false
continues (b ∷ bs) = leb 0x80 b && ltb b 0xc0

-- The loop over the pairs of bytes.
unfoldable pub parse_pairs : Bytes → Parsed
unfolding byte_of_pair
parse_pairs [] = parsed []
parse_pairs (a ∷ []) = bad_client_id_hex
parse_pairs (a ∷ b ∷ rest) =
    let more = parse_pairs rest in
    if continues rest
    then panics
    else elim (byte_of_pair a b) [ none ↦ bad_client_id_hex | some x ↦ cons_parsed x more ]

unfoldable pub from_hex : Bytes → Parsed
unfolding trim as_bytes parse_pairs
from_hex s =
    let bytes = as_bytes (trim s) in
    if length bytes == client_id_len * 2 then parse_pairs bytes else bad_client_id_hex

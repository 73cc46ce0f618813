-- ===== src/Protocol/Hex/RoundTrip.antt =====
-- Hex ids read back.
use signedpulse.Base.{
  ℕ, ◌*◌, ◌/◌, ◌%◌, ◌≤◌, ◌<◌, ◌≡◌, refl, ap, ◌⊎◌, true, false, some, [], ◌∷◌, arith, ◌==◌, length,
  All, Bytes, nat_key, bytes_key, ip_key,
}
use signedpulse.Protocol.Words.{IsBytes, IsArray}
use signedpulse.Protocol.Packet.{client_id_len}
use signedpulse.Protocol.Hex.{
  to_hex, hex_digit, from_hex, parse_pairs, byte_of_pair, digit_value, trim, trim_start, trim_end,
  as_bytes, utf8_char, parsed, continues,
}

-- A lower-case hexadecimal digit.
IsDigit : ℕ → Type 0
IsDigit c = ((48 ≤ c) × (c ≤ 57)) ⊎ ((97 ≤ c) × (c ≤ 102))

hex_digit-IsDigit : (d : ℕ) → d < 16 → IsDigit (hex_digit d)
unfolding hex_digit IsDigit
hex_digit-IsDigit d h = ground arith

digit_value-hex_digit : (d : ℕ) → d < 16 → digit_value (hex_digit d) ≡ some d
unfolding digit_value hex_digit
digit_value-hex_digit d h = ground arith

byte_lem : (b : ℕ) → b < 256 → byte_of_pair (hex_digit (b / 16)) (hex_digit (b % 16)) ≡ some b
unfolding byte_of_pair IsDigit
byte_lem b h = ground (
  arith,
  digit_value-hex_digit (b / 16) (omega arith),
  digit_value-hex_digit (b % 16) (omega arith),
  hex_digit-IsDigit (b / 16) (omega arith),
)

to_hex-IsDigit : (bs : Bytes) → IsBytes bs → All IsDigit (to_hex bs)
unfolding to_hex
to_hex-IsDigit [] h = tt
to_hex-IsDigit (b ∷ bs) h = (
  hex_digit-IsDigit (b / 16) (omega (arith, h.0)),
  (hex_digit-IsDigit (b % 16) (omega arith), to_hex-IsDigit bs h.1),
)

trim_end_digits : (s : Bytes) → All IsDigit s → trim_end s ≡ s
unfolding trim_end IsDigit
trim_end_digits [] h = refl
trim_end_digits (c ∷ cs) h = ground (arith, trim_end_digits cs h.1, h.0)

trim_digits : (s : Bytes) → All IsDigit s → trim s ≡ s
unfolding trim trim_start IsDigit
trim_digits [] h = trim_end_digits [] tt
trim_digits (c ∷ cs) h = ground (arith, h.0, trim_end_digits (c ∷ cs) h)

as_bytes_digits : (s : Bytes) → All IsDigit s → as_bytes s ≡ s
unfolding as_bytes utf8_char IsDigit
as_bytes_digits [] h = refl
as_bytes_digits (c ∷ cs) h = ground (arith, as_bytes_digits cs h.1, h.0)

continues_digits : (s : Bytes) → All IsDigit s → continues s ≡ false
unfolding IsDigit
continues_digits [] h = refl
continues_digits (c ∷ cs) h = ground (arith, h.0)

parse_pairs-to_hex : (bs : Bytes) → IsBytes bs → parse_pairs (to_hex bs) ≡ parsed bs
unfolding parse_pairs to_hex
parse_pairs-to_hex [] h = refl
parse_pairs-to_hex (b ∷ bs) h = ground (
  arith,
  parse_pairs-to_hex bs h.1,
  byte_lem b h.0,
  continues_digits (to_hex bs) (to_hex-IsDigit bs h.1),
)

length-to_hex : (bs : Bytes) → length (to_hex bs) ≡ 2 * length bs
unfolding to_hex
length-to_hex [] = omega arith
length-to_hex (b ∷ bs) = omega (arith, length-to_hex bs)

full_lem : (id : Bytes) → length id ≡ 32 → (length (to_hex id) == client_id_len * 2) ≡ true
full_lem id h = ground (arith, length-to_hex id)

-- Reading the hex form of a 32-byte client id gives the id back.
pub from_hex-to_hex : (id : Bytes) → IsArray 32 id → from_hex (to_hex id) ≡ parsed id
unfolding from_hex
from_hex-to_hex id h =
    let digits = to_hex-IsDigit id h.1 in
    let full : (length (to_hex id) == client_id_len * 2) ≡ true = full_lem id h.0 in
    rw (trim_digits (to_hex id) digits, as_bytes_digits (to_hex id) digits)
      (rw full (parse_pairs-to_hex id h.1))

-- A blank before an id is passed over.
pub from_hex-blank : (s : Bytes) → from_hex (32 ∷ s) ≡ from_hex s
unfolding from_hex trim trim_start
from_hex-blank s = refl

-- Two ids of 32 bytes with one hex form are equal.
pub to_hex-injective : (a b : Bytes) → IsArray 32 a → IsArray 32 b → to_hex a ≡ to_hex b → a ≡ b
to_hex-injective a b ha hb same = cc (from_hex-to_hex a ha, from_hex-to_hex b hb, ap from_hex same)

-- The pairs that are read do not change when a `+` stands for the leading zero digit of the first
-- one.
pub plus_reads_as_zero :
    (b : ℕ) (rest : Bytes) → parse_pairs (b'+' ∷ b ∷ rest) ≡ parse_pairs (48 ∷ b ∷ rest)
unfolding parse_pairs byte_of_pair digit_value
plus_reads_as_zero b rest = ground arith

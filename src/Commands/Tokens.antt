-- ===== src/Commands/Tokens.antt =====
-- The checks on the texts that a command line brings into a configuration file, and the texts of
-- addresses. Whether a text parses as a socket address is a parameter.
use signedpulse.Base.{
  ℕ, Bool, true, false, not, ◌&&◌, ◌||◌, Option, none, some, [], ◌∷◌, ◌++◌, leb, ◌==◌,
  if◌then◌else◌, Result, ok, err, Bytes, nat_key, bytes_key, ip_key, IpAddr, v4, v6, SocketAddr,
  codes, decimal, is_control,
}
use signedpulse.Config.{is_empty}
use signedpulse.Protocol.Hex.{is_whitespace}

-- `char::is_ascii_alphanumeric`
abbrev pub is_ascii_alphanumeric : ℕ → Bool
is_ascii_alphanumeric c =
    (leb b'0' c && leb c b'9') || (leb b'A' c && leb c b'Z') || (leb b'a' c && leb c b'z')

abbrev pub all : (ℕ → Bool) → Bytes → Bool
all p [] = true
all p (c ∷ cs) = p c && all p cs

abbrev pub any : (ℕ → Bool) → Bytes → Bool
any p [] = false
any p (c ∷ cs) = p c || any p cs

abbrev pub is_token_char : ℕ → Bool
is_token_char c = is_ascii_alphanumeric c || c == b'-' || c == b'_' || c == b'.'

abbrev pub is_key_char : ℕ → Bool
is_key_char c = is_ascii_alphanumeric c || c == b'_' || c == b'-'

pub data TokenError : Type 0 where
  empty_token bad_token : TokenError

unfoldable pub validate_token : Bytes → Result TokenError (Unit {0})
validate_token value =
    if is_empty value
    then err empty_token
    else if not (all is_token_char value)
    then err bad_token
    else ok tt

abbrev pub breaks_addr : ℕ → Bool
breaks_addr c = c == 34 || c == 92 || is_whitespace c || is_control c

unfoldable pub validate_addr : Bytes → Result TokenError (Unit {0})
validate_addr value =
    if is_empty value
    then err empty_token
    else if any breaks_addr value
    then err bad_token
    else ok tt

-- What a label must not hold.
abbrev pub breaks_label : ℕ → Bool
breaks_label c = c == 34 || c == 92 || is_control c

abbrev pub quote : Bytes → Bytes
quote text = 34 ∷ text ++ 34 ∷ []

unfoldable pub toml_table_key : Bytes → Bytes
toml_table_key s = if all is_key_char s then s else quote s

abbrev pub default_port : ℕ
default_port = 7370

-- `input.contains(':')`
abbrev pub has_colon : Bytes → Bool
has_colon text = any (λ c. c == b':') text

unfoldable pub normalize_addr : (Bytes → Bool) → Bytes → Bytes
normalize_addr is_socket_addr input =
    if is_socket_addr input
    then input
    else if has_colon input
    then input
    else input ++ b':' ∷ decimal default_port

abbrev pub is_v6 : IpAddr → Bool
is_v6 (v4 _) = false
is_v6 (v6 _) = true

unfoldable pub host_with_port : (IpAddr → Bytes) → IpAddr → ℕ → Bytes
host_with_port ip_text ip port =
    if port == default_port
    then ip_text ip
    else if is_v6 ip
    then b'[' ∷ ip_text ip ++ b']' ∷ b':' ∷ decimal port
    else ip_text ip ++ b':' ∷ decimal port

-- `IpAddr::is_unspecified`
abbrev pub is_unspecified : IpAddr → Bool
is_unspecified (v4 n) = n == 0
is_unspecified (v6 n) = n == 0

-- `parse` reads a socket address, and `outbound` is the address that `discover_outbound_ip` finds.
unfoldable pub suggest_host :
    (Bytes → Option SocketAddr) → Option IpAddr → (IpAddr → Bytes) → Bytes → Bytes
unfolding host_with_port
suggest_host parse outbound ip_text bind = elim (parse bind) [
  | none ↦ codes "<HOST>"
  | some sa ↦
      if not (is_unspecified sa.ip)
      then host_with_port ip_text sa.ip sa.port
      else elim outbound [ none ↦ codes "<HOST>" | some ip ↦ host_with_port ip_text ip sa.port ]
]

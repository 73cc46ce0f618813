-- ===== src/Base/Text.antt =====
-- Texts. A `String` is the list of its code points; the texts that the program writes out are
-- ASCII, so that their code points are their bytes.
use Prim.Native.Char.{code}
use Prim.Native.String.{String}
use Prim.Native.Nat.{ℕ, zero, suc, ◌+◌, ◌-◌, ◌*◌, ◌/◌, ◌%◌}
use mathlib.Core.Bool.{Bool, true, false, ◌&&◌, ◌||◌}
use mathlib.Core.Option.{Option, none, some}
use mathlib.Core.List.{List, [], ◌∷◌, ◌++◌}
use signedpulse.Base.Tests.{ltb, leb, ◌==◌, if◌then◌else◌}
use signedpulse.Base.Lists.{Bytes, length}
use signedpulse.Base.Int.{ℤ, pos, negsuc}

-- The code points of a literal.
abbrev pub codes : String → Bytes
codes String.[] = []
codes (String.◌∷◌ c s) = code c ∷ codes s

-- The decimal digits of a number below 10 ^ `fuel`, by `Display`.
unfoldable pub digits : ℕ → ℕ → Bytes → Bytes
digits zero n out = out
digits (suc fuel) n out =
    let rest = digits fuel (n / 10) ((48 + n % 10) ∷ out) in
    if ltb n 10 then (48 + n % 10) ∷ out else rest

-- Every `u64` has at most 20 digits.
unfoldable pub decimal : ℕ → Bytes
unfolding digits
decimal n = digits 20 n []

unfoldable pub decimal_ℤ : ℤ → Bytes
unfolding decimal
decimal_ℤ (pos n) = decimal n
decimal_ℤ (negsuc n) = b'-' ∷ decimal (n + 1)

-- The state of `std::str::from_utf8` between two bytes: at the start of a character, or with
-- `need` bytes of one still to come, the next of them in a range.
pub data Utf8 : Type 0 where
  start : Utf8
  inside : ℕ → ℕ → ℕ → ℕ → Utf8

pub utf8_lead : ℕ → Option (Utf8 × Bytes)
utf8_lead b =
    if ltb b 0x80
    then some (start, b ∷ [])
    else if ltb b 0xc2
    then none
    else if ltb b 0xe0
    then some (inside 1 (b - 0xc0) 0x80 0xbf, [])
    else if b == 0xe0
    then some (inside 2 0 0xa0 0xbf, [])
    else if b == 0xed
    then some (inside 2 0xd 0x80 0x9f, [])
    else if ltb b 0xf0
    then some (inside 2 (b - 0xe0) 0x80 0xbf, [])
    else if b == 0xf0
    then some (inside 3 0 0x90 0xbf, [])
    else if ltb b 0xf4
    then some (inside 3 (b - 0xf0) 0x80 0xbf, [])
    else if b == 0xf4
    then some (inside 3 4 0x80 0x8f, [])
    else none

-- One byte: the next state and the character that it completes, if any; `none` if it is no UTF-8.
pub utf8_step : Utf8 → ℕ → Option (Utf8 × Bytes)
utf8_step start b = utf8_lead b
utf8_step (inside need acc lo hi) b =
    let acc' = acc * 64 + (b - 0x80) in
    if leb lo b && leb b hi
    then (if need == 1
        then some (start, acc' ∷ [])
        else some (inside (need - 1) acc' 0x80 0xbf, []))
    else none

pub utf8_run : Utf8 → Bytes → Option Bytes
utf8_run start [] = some []
utf8_run (inside need acc lo hi) [] = none
utf8_run s (b ∷ bs) = elim (utf8_step s b) [
  | none ↦ none
  | some (s', out) ↦ elim (utf8_run s' bs) [ none ↦ none | some text ↦ some (out ++ text) ]
]

-- `std::str::from_utf8`
unfoldable pub from_utf8 : Bytes → Option Bytes
unfolding utf8_run utf8_step utf8_lead
from_utf8 bytes = utf8_run start bytes

-- `char::is_control`: the code points of category Cc.
abbrev pub is_control : ℕ → Bool
is_control c = ltb c 0x20 || (leb 0x7f c && leb c 0x9f)

-- Whether `text` starts with `pattern`.
abbrev pub starts_with : Bytes → Bytes → Bool
starts_with [] text = true
starts_with (c ∷ cs) [] = false
starts_with (c ∷ cs) (d ∷ ds) = (c == d) && starts_with cs ds

-- `str::replace`, from the left and without overlaps, for a pattern that is not empty; `skip`
-- counts the characters to come of the last match.
unfoldable pub replace_from : Bytes → Bytes → ℕ → Bytes → Bytes
replace_from pattern to skip [] = []
replace_from pattern to (suc skip) (c ∷ cs) = replace_from pattern to skip cs
replace_from pattern to zero (c ∷ cs) = elim (starts_with pattern (c ∷ cs)) [
  | true ↦ to ++ replace_from pattern to (length pattern - 1) cs
  | false ↦ c ∷ replace_from pattern to zero cs
]

abbrev pub replace : Bytes → Bytes → Bytes → Bytes
replace pattern to text = replace_from pattern to 0 text

-- `words.join(" ")`
abbrev pub join : List Bytes → Bytes
join [] = []
join (word ∷ []) = word
join (word ∷ next ∷ words) = word ++ (32 ∷ join (next ∷ words))

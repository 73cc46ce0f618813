-- ===== src/Protocol/Words.antt =====
-- `to_le_bytes` and `from_le_bytes` of the fixed-width integers that protocol.rs puts on the wire,
-- as Rust's standard library defines them.
use native.Mathlib.Nat.{pow-suc}
use signedpulse.Base.{
  ℕ, zero, suc, ◌+◌, ◌-◌, ◌*◌, ◌/◌, ◌%◌, ◌^◌, ◌<◌, ◌≡◌, refl, ap, ap₂, ◌∙◌, [], ◌∷◌, arith, Bytes,
  All, length, if◌then◌else◌, ltb, ℤ, pos, negsuc, IsI64,
}

-- Every element is a `u8`.
abbrev pub IsBytes : Bytes → Type 0
IsBytes = All (λ b. b < 256)

-- A value of `[u8; n]`.
abbrev pub IsArray : ℕ → Bytes → Type 0
IsArray n bs = (length bs ≡ n) × IsBytes bs

-- The low `w` bytes of a word, the lowest first.
unfoldable pub to_le : ℕ → ℕ → Bytes
to_le zero n = []
to_le (suc w) n = n % 256 ∷ to_le w (n / 256)

unfoldable pub from_le : Bytes → ℕ
from_le [] = 0
from_le (b ∷ bs) = b + 256 * from_le bs

pub from_le-to_le : (w n : ℕ) → n < 256 ^ w → from_le (to_le w n) ≡ n
unfolding to_le from_le
from_le-to_le zero n h = omega arith
from_le-to_le (suc w) n h = omega (arith, from_le-to_le w (n / 256) (omega (arith, pow-suc 256 w)))

pub to_le-from_le : (bs : Bytes) (w : ℕ) → length bs ≡ w → IsBytes bs → to_le w (from_le bs) ≡ bs
unfolding to_le from_le
to_le-from_le [] zero e h = refl
to_le-from_le [] (suc w) e h = absurd (omega arith)
to_le-from_le (b ∷ bs) zero e h = absurd (omega arith)
to_le-from_le (b ∷ bs) (suc w) e h =
    ap₂ ◌∷◌ (omega (arith, h.0)) (ap (to_le w) rest ∙ to_le-from_le bs w (omega arith) h.1)
  where
    rest : (b + 256 * from_le bs) / 256 ≡ from_le bs
    rest = omega (arith, h.0)

pub to_le-IsArray : (w n : ℕ) → IsArray w (to_le w n)
unfolding to_le
to_le-IsArray zero n = (refl, tt)
to_le-IsArray (suc w) n =
    let rest = to_le-IsArray w (n / 256) in (ap suc rest.0, (omega arith, rest.1))

pub from_le-lt : (bs : Bytes) (w : ℕ) → length bs ≡ w → IsBytes bs → from_le bs < 256 ^ w
unfolding from_le
from_le-lt [] zero e h = omega arith
from_le-lt [] (suc w) e h = absurd (omega arith)
from_le-lt (b ∷ bs) zero e h = absurd (omega arith)
from_le-lt (b ∷ bs) (suc w) e h =
    omega (arith, pow-suc 256 w, from_le-lt bs w (omega arith) h.1, h.0)

-- The bit pattern of an `i64`, and the integer of a bit pattern.
unfoldable pub i64_bits : ℤ → ℕ
i64_bits (pos n) = n
i64_bits (negsuc n) = 2 ^ 64 - 1 - n

unfoldable pub i64_of_bits : ℕ → ℤ
i64_of_bits n = if ltb n (2 ^ 63) then pos n else negsuc (2 ^ 64 - 1 - n)

pub i64_of_bits-i64_bits :
    (a : ℤ) → IsI64 a → (i64_of_bits (i64_bits a) ≡ a) × (i64_bits a < 2 ^ 64)
unfolding i64_bits i64_of_bits
i64_of_bits-i64_bits (pos n) h = ground arith
i64_of_bits-i64_bits (negsuc n) h = ground arith

pub i64_bits-i64_of_bits : (n : ℕ) → n < 2 ^ 64 → i64_bits (i64_of_bits n) ≡ n
unfolding i64_bits i64_of_bits
i64_bits-i64_of_bits n h = ground arith

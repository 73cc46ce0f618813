-- ===== src/Base/Time.antt =====
-- `std::time`: instants and durations in nanoseconds.
use Prim.Native.Nat.{ℕ, ◌*◌, ◌/◌, ◌%◌, ◌-◌, ◌^◌}

abbrev pub Instant : Type 0
Instant = ℕ

abbrev pub Duration : Type 0
Duration = ℕ

abbrev pub from_secs : ℕ → Duration
from_secs n = n * 1_000_000_000

-- `as_millis() as u64`
abbrev pub as_millis : Duration → ℕ
as_millis d = d / 1_000_000 % 2 ^ 64

abbrev pub duration_since : Instant → Instant → Duration
duration_since now t = now - t

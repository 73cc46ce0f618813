-- ===== src/RateLimit/CooldownTracker.antt =====
-- `CooldownTracker`: when each key last ran its command. Keys are texts.
pub mod Cooling
use signedpulse.Base
use signedpulse.Base.{
  ℕ, Bool, false, Option, none, some, [], ltb, ◌==◌, if◌then◌else◌, Bytes, nat_key, bytes_key,
  ip_key, Map, get, retain, Instant, Duration, from_secs, duration_since,
}

pub record CooldownTracker : Type 0 where
  pub cooldown : Duration
  pub last : Map Bytes Instant

abbrev pub new : ℕ → CooldownTracker
new cooldown_seconds = record { cooldown = from_secs cooldown_seconds; last = [] }

abbrev within : Option Instant → Duration → Instant → Bool
within none cooldown now = false
within (some t) cooldown now = ltb (duration_since now t) cooldown

unfoldable pub in_cooldown : Bytes → Instant → CooldownTracker → Bool
in_cooldown key now s = if s.cooldown == 0 then false else within (get key s.last) s.cooldown now

unfoldable pub mark : Bytes → Instant → CooldownTracker → CooldownTracker
mark key now s = if s.cooldown == 0 then s else record s { last = Base.insert key now s.last }

unfoldable pub purge_stale : Instant → CooldownTracker → CooldownTracker
purge_stale now s =
    if s.cooldown == 0
    then s
    else record s { last = retain (λ (t : Instant). ltb (duration_since now t) s.cooldown) s.last }

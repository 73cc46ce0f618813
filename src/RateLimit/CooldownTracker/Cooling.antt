-- ===== src/RateLimit/CooldownTracker/Cooling.antt =====
-- When a key is cooling down, and that purging never shows.
use signedpulse.Base.{
  retain-IsMap, insert-IsMap, ◌≤◌, ◌≡◌, arith, ltb, if◌then◌else◌, Bytes, nat_key, bytes_key,
  ip_key, eq, get-insert, get-retain, IsMap, Instant, duration_since,
}
use signedpulse.RateLimit.CooldownTracker.{CooldownTracker, in_cooldown, mark, purge_stale}

-- Right after a mark at `t`, the marked key cools down exactly while less than the cooldown has
-- passed, and any other key as before.
pub in_cooldown-mark :
    (key key' : Bytes) (t now : Instant) (s : CooldownTracker)
    → in_cooldown key' now (mark key t s)
      ≡ (if eq key key' then ltb (duration_since now t) s.cooldown else in_cooldown key' now s)
unfolding in_cooldown mark
in_cooldown-mark key key' t now s = ground (arith, get-insert key key' t s.last)

-- In a table with distinct keys, a purge changes no answer that is asked for at the purge's clock
-- reading or later.
pub in_cooldown-purge_stale :
    (key : Bytes) (p now : Instant) (s : CooldownTracker)
    → IsMap s.last
    → p ≤ now
    → in_cooldown key now (purge_stale p s) ≡ in_cooldown key now s
unfolding in_cooldown purge_stale
in_cooldown-purge_stale key p now s h later =
    ground (arith, get-retain (λ (t : Instant). ltb (duration_since p t) s.cooldown) key s.last h)

pub mark-IsMap :
    (key : Bytes) (now : Instant) (s : CooldownTracker) → IsMap s.last → IsMap (mark key now s).last
unfolding mark
mark-IsMap key now s h = ground (arith, h, insert-IsMap key now s.last h)

pub purge_stale-IsMap :
    (now : Instant) (s : CooldownTracker) → IsMap s.last → IsMap (purge_stale now s).last
unfolding purge_stale
purge_stale-IsMap now s h =
    ground
      (arith, h, retain-IsMap (λ (t : Instant). ltb (duration_since now t) s.cooldown) s.last h)

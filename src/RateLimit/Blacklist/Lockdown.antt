-- ===== src/RateLimit/Blacklist/Lockdown.antt =====
-- When lockdown is engaged and when it is extended.
use signedpulse.Base.{
  ℕ, ◌+◌, ◌-◌, ◌%◌, ◌^◌, ◌≤◌, ◌<◌, ◌≡◌, ap, ◌∙◌, Bool, true, false, ◌&&◌, some, List, [], ◌∷◌, ◌++◌,
  arith, ◌==◌, length, length-append, All, nat_key, bytes_key, ip_key, IpAddr, Instant, Duration,
  as_millis,
}
use signedpulse.RateLimit.Blacklist.{
  Blacklist, now_ms, under_attack, arm_lockdown, drop_limit, count_drop, note_lockdown_drop,
  record_faulty, record_faulty_at, count_fault, note_event, trim,
}

pub drops : List Instant → Blacklist → Blacklist
drops [] s = s
drops (t ∷ ts) s = drops ts (note_lockdown_drop t s)

-- The clock reads a time in the drop window that starts at `start` milliseconds.
abbrev pub InDropWindow : Blacklist → Instant → Type 0
InDropWindow s t = now_ms t s - s.drop_window_start_ms ≤ as_millis s.attack_window

drop-quiet :
    (limit : ℕ) (t : Instant) (s : Blacklist)
    → drop_limit s ≡ some limit
    → s.drop_count + 1 ≤ limit
    → limit < 2 ^ 32
    → InDropWindow s t
    → note_lockdown_drop t s ≡ record s { drop_count = s.drop_count + 1 }
unfolding note_lockdown_drop count_drop
drop-quiet limit t s enabled room small inside =
    let e : (s.drop_count + 1) % 2 ^ 64 ≡ s.drop_count + 1 = omega arith in
    ground (arith, enabled, e)

-- A trickle does not extend lockdown: as long as the drops counted in the current window and the
-- further drops in it together are at most the limit, which fits in 32 bits, they change nothing
-- but the count.
pub trickle_keeps_deadline :
    (limit : ℕ) (ts : List Instant) (s : Blacklist)
    → drop_limit s ≡ some limit
    → limit < 2 ^ 32
    → s.drop_count + length ts ≤ limit
    → All (InDropWindow s) ts
    → drops ts s ≡ record s { drop_count = s.drop_count + length ts }
unfolding drops now_ms
trickle_keeps_deadline limit [] s enabled small room inside = ground arith
trickle_keeps_deadline limit (t ∷ ts) s enabled small room inside =
    rw (drop-quiet limit t s enabled (omega arith) small inside.0) (
      trickle_keeps_deadline limit ts (record s { drop_count = s.drop_count + 1 }) enabled small
        (omega arith) inside.1
      ∙ ap (λ n. record s { drop_count = n }) (omega arith))

-- Past the limit, a drop in the current window extends lockdown: the server is under attack until
-- one attack window after the drop, if neither the count of drops nor a number of milliseconds
-- overflows.
pub flood_extends_lockdown :
    (limit : ℕ) (t later : Instant) (s : Blacklist)
    → drop_limit s ≡ some limit
    → limit ≤ s.drop_count
    → s.drop_count + 1 < 2 ^ 64
    → InDropWindow s t
    → now_ms t s + as_millis s.attack_window < 2 ^ 64
    → now_ms later s < now_ms t s + as_millis s.attack_window
    → under_attack later (note_lockdown_drop t s) ≡ true
unfolding note_lockdown_drop count_drop arm_lockdown under_attack
flood_extends_lockdown limit t later s enabled many count inside fits soon = ground (arith, enabled)

-- An address that is newly blacklisted while more than `attack_threshold` such events, this one
-- included and counted as a `u32`, are in the window, puts the server under attack until one attack
-- window later, if one of the two triggers is enabled and no number of milliseconds overflows.
pub trip_engages_lockdown :
    (ip : IpAddr) (t later : Instant) (s : Blacklist)
    → (record_faulty ip t s).1 ≡ true
    → ◌≡◌ {A = Bool} (s.attack_threshold == 0 && s.rejection_threshold == 0) false
    → s.attack_threshold < length (trim s.attack_window (s.events ++ t ∷ []) t) % 2 ^ 32
    → now_ms t s + as_millis s.attack_window < 2 ^ 64
    → now_ms later s < now_ms t s + as_millis s.attack_window
    → under_attack later (record_faulty ip t s).0 ≡ true
unfolding record_faulty record_faulty_at count_fault note_event arm_lockdown under_attack
trip_engages_lockdown ip t later s trips enabled many fits soon = ground arith

trim_bounds :
    (w : Duration) (q : List Instant) (t : Instant)
    → (0 < length (trim w (q ++ t ∷ []) t)) × (length (trim w (q ++ t ∷ []) t) ≤ length q + 1)
unfolding trim
trim_bounds w [] t = ground arith
trim_bounds w (u ∷ q) t = ground (arith, trim_bounds w q t, length-append q (t ∷ []))

-- With `attack_threshold` at 0 and the rejection trigger enabled, a single newly blacklisted
-- address puts the server under attack until one attack window later, if there were fewer than 2 ^
-- 32 - 1 events in the queue and no number of milliseconds overflows.
pub zero_threshold_engages_lockdown :
    (ip : IpAddr) (t later : Instant) (s : Blacklist)
    → (record_faulty ip t s).1 ≡ true
    → s.attack_threshold ≡ 0
    → 0 < s.rejection_threshold
    → length s.events + 1 < 2 ^ 32
    → now_ms t s + as_millis s.attack_window < 2 ^ 64
    → now_ms later s < now_ms t s + as_millis s.attack_window
    → under_attack later (record_faulty ip t s).0 ≡ true
zero_threshold_engages_lockdown ip t later s trips zero_threshold other few fits soon =
    trip_engages_lockdown ip t later s trips (ground arith)
      (omega (arith, trim_bounds s.attack_window s.events t)) fits soon

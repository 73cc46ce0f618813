-- ===== src/RateLimit/Blacklist.antt =====
-- `Blacklist`: faulty packets per source IP, and the lockdown triggers. The atomics are plain
-- fields; sums of `u64` milliseconds and the `u32` count of faults wrap around, as in a release
-- build.
pub mod Bounded
pub mod Faults
pub mod Trim
pub mod Lockdown
use signedpulse.Base
use signedpulse.Base.{
  ℕ, ◌+◌, ◌-◌, ◌%◌, ◌^◌, max, Bool, true, false, not, ◌&&◌, Option, none, some, List, [], ◌∷◌, ◌++◌,
  ltb, leb, ◌==◌, if◌then◌else◌, length, nat_key, bytes_key, ip_key, Map, get, retain, contains_key,
  IpAddr, Instant, Duration, from_secs, as_millis, duration_since,
}

pub record Entry : Type 0 where
  pub faults : ℕ
  pub blocked_until : Option Instant

-- The queues hold their oldest instant first.
pub record Blacklist : Type 0 where
  pub threshold : ℕ
  pub duration : Duration
  pub attack_threshold : ℕ
  pub rejection_threshold : ℕ
  pub attack_window : Duration
  pub max_entries : ℕ
  pub state : Map IpAddr Entry
  pub events : List Instant
  pub rejections : List Instant
  pub base : Instant
  pub lockdown_until_ms : ℕ
  pub drop_window_start_ms : ℕ
  pub drop_count : ℕ

unfoldable pub new : ℕ → ℕ → ℕ → ℕ → ℕ → ℕ → Instant → Blacklist
new threshold duration_seconds attack_threshold rejection_threshold attack_window_seconds
      max_entries now =
    record {
      threshold = threshold;
      duration = from_secs duration_seconds;
      attack_threshold = attack_threshold;
      rejection_threshold = rejection_threshold;
      attack_window = from_secs (max attack_window_seconds 1);
      max_entries = max_entries;
      state = [];
      events = [];
      rejections = [];
      base = now;
      lockdown_until_ms = 0;
      drop_window_start_ms = 0;
      drop_count = 0;
    }

unfoldable pub now_ms : Instant → Blacklist → ℕ
now_ms now s = as_millis (duration_since now s.base)

unfoldable pub under_attack : Instant → Blacklist → Bool
unfolding now_ms
under_attack now s =
    if s.attack_threshold == 0 && s.rejection_threshold == 0
    then false
    else ltb (now_ms now s) s.lockdown_until_ms

unfoldable pub arm_lockdown : Instant → Blacklist → Blacklist
unfolding now_ms
arm_lockdown now s =
    let until = (now_ms now s + as_millis s.attack_window) % 2 ^ 64 in
    record s { lockdown_until_ms = max s.lockdown_until_ms until }

-- The number of drops in a window above which lockdown is extended; `none` if lockdown is disabled.
abbrev pub drop_limit : Blacklist → Option ℕ
drop_limit s =
    if ltb 0 s.rejection_threshold
    then some s.rejection_threshold
    else if ltb 0 s.attack_threshold
    then some s.attack_threshold
    else none

count_drop : ℕ → Instant → Blacklist → Blacklist
count_drop thresh now s =
    if ltb (as_millis s.attack_window) (now_ms now s - s.drop_window_start_ms)
    then record s { drop_window_start_ms = now_ms now s; drop_count = 1 }
    else let count = (s.drop_count + 1) % 2 ^ 64 in
      let counted = record s { drop_count = count } in
      if ltb thresh count then arm_lockdown now counted else counted

unfoldable pub note_lockdown_drop : Instant → Blacklist → Blacklist
unfolding count_drop arm_lockdown
note_lockdown_drop now s = elim (drop_limit s) [ none ↦ s | some thresh ↦ count_drop thresh now s ]

unfoldable pub trim : Duration → List Instant → Instant → List Instant
trim window [] now = []
trim window (front ∷ q) now =
    let rest = trim window q now in
    if ltb window (duration_since now front) then rest else front ∷ q

unfoldable pub note_rejection : Instant → Blacklist → Blacklist
unfolding arm_lockdown
note_rejection now s =
    if s.rejection_threshold == 0
    then s
    else let rejections = trim s.attack_window (s.rejections ++ now ∷ []) now in
      let noted = record s { rejections = rejections } in
      if ltb s.rejection_threshold (length rejections % 2 ^ 32)
      then arm_lockdown now noted
      else noted

abbrev pub is_before : Instant → Option Instant → Bool
is_before now none = false
is_before now (some t) = ltb now t

abbrev blocked_at : Instant → Option Entry → Bool
blocked_at now none = false
blocked_at now (some e) = is_before now e.blocked_until

unfoldable pub is_blocked_at : IpAddr → Instant → Blacklist → Bool
is_blocked_at ip now s = blocked_at now (get ip s.state)

unfoldable pub is_blocked : IpAddr → Instant → Blacklist → Bool
unfolding is_blocked_at
is_blocked ip now s = if s.threshold == 0 then false else is_blocked_at ip now s

-- What a fault does to the entry of its address, and whether it newly blacklists it.
abbrev fault_entry : ℕ → Duration → Instant → Entry → Entry × Bool
fault_entry threshold duration now e = elim e.blocked_until [
  | some until ↦
      if ltb now until
      then (record e { blocked_until = some (now + duration) }, false)
      else (record { faults = 1; blocked_until = none }, ltb threshold 1)
  | none ↦
      let count = (e.faults + 1) % 2 ^ 32 in
      if ltb threshold count
      then (record { faults = count; blocked_until = some (now + duration) }, true)
      else (record { faults = count; blocked_until = none }, false)
]

abbrev or_insert : Option Entry → Entry
or_insert none = record { faults = 0; blocked_until = none }
or_insert (some e) = e

-- The step under the state lock.
count_fault : IpAddr → Instant → Blacklist → Blacklist × Bool
count_fault ip now s =
    if ltb 0 s.max_entries && leb s.max_entries (length s.state) && not (contains_key ip s.state)
    then (s, false)
    else let r = fault_entry s.threshold s.duration now (or_insert (get ip s.state)) in
      (record s { state = Base.insert ip r.0 s.state }, r.1)

-- The step under the events lock, for an address that is newly blacklisted.
note_event : Instant → Blacklist → Blacklist
note_event now s =
    let events = trim s.attack_window (s.events ++ now ∷ []) now in
    let noted = record s { events = events } in
    if ltb s.attack_threshold (length events % 2 ^ 32) then arm_lockdown now noted else noted

unfoldable pub record_faulty_at : IpAddr → Instant → Blacklist → Blacklist × Bool
unfolding count_fault note_event arm_lockdown
record_faulty_at ip now s =
    if s.threshold == 0
    then (s, false)
    else let (s', tripped) = count_fault ip now s in
      (if tripped then note_event now s' else s', tripped)

unfoldable pub record_faulty : IpAddr → Instant → Blacklist → Blacklist × Bool
unfolding record_faulty_at
record_faulty ip now s = if s.threshold == 0 then (s, false) else record_faulty_at ip now s

unfoldable pub purge_stale : Instant → Blacklist → Blacklist
purge_stale now s = record s {
  state = retain (λ (e : Entry). is_before now e.blocked_until) s.state;
  events = trim s.attack_window s.events now;
  rejections = trim s.attack_window s.rejections now;
}

-- ===== src/RateLimit/Blacklist/Faults.antt =====
-- When an address is blacklisted, for how long, and who is told.
use signedpulse.Base.{
  ◌-◌, ◌^◌, ℕ, ◌+◌, ◌-◌, ◌^◌, ◌≤◌, ◌<◌, ◌≡◌, refl, ap₂, subst, Bool, true, false, ◌&&◌, ◌||◌, none,
  some, List, [], ◌∷◌, arith, ltb, if◌then◌else◌, length, replicate, nat_key, bytes_key, ip_key, eq,
  get, get-insert, get-insert_self, get-retain, IsMap, IpAddr, Instant,
}
use signedpulse.RateLimit.Blacklist.{
  is_before, purge_stale, Blacklist, Entry, fault_entry, or_insert, count_fault, note_event,
  arm_lockdown, is_blocked_at, is_blocked, record_faulty_at, record_faulty,
}

state-note_event : (now : Instant) (s : Blacklist) → (note_event now s).state ≡ s.state
unfolding note_event arm_lockdown
state-note_event now s = ground arith

duration-note_event : (now : Instant) (s : Blacklist) → (note_event now s).threshold ≡ s.threshold
unfolding note_event arm_lockdown
duration-note_event now s = ground arith

abbrev entry_after : IpAddr → Instant → Blacklist → Entry
entry_after ip now s = (fault_entry s.threshold s.duration now (or_insert (get ip s.state))).0

-- For a clock that does not go back: a fault leaves every other address as blocked or unblocked as
-- it was. A fault that is reported, and a fault from an address that is already blocked, block the
-- address until the duration has passed from now on, no longer; any other fault blocks nothing.
pub is_blocked-record_faulty :
    (ip ip' : IpAddr) (now later : Instant) (s : Blacklist)
    → now ≤ later
    → let r = record_faulty ip now s in
      is_blocked ip' later r.0 ≡ (
        if eq ip ip' && (r.1 || is_blocked ip now s)
        then ltb later (now + s.duration)
        else is_blocked ip' later s)
unfolding record_faulty record_faulty_at count_fault is_blocked is_blocked_at
is_blocked-record_faulty ip ip' now later s h = ground (
  arith,
  get-insert ip ip' (entry_after ip now s) s.state,
  state-note_event now (count_fault ip now s).0,
  duration-note_event now (count_fault ip now s).0,
)

-- The results of a run of faults from one address.
pub faults : IpAddr → List Instant → Blacklist → List Bool
faults ip [] s = []
faults ip (t ∷ ts) s = let (s', tripped) = record_faulty ip t s in tripped ∷ faults ip ts s'

pub after_faults : IpAddr → List Instant → Blacklist → Blacklist
after_faults ip [] s = s
after_faults ip (t ∷ ts) s = after_faults ip ts (record_faulty ip t s).0

-- The address has a number of faults on record and no block.
record IsCounting (ip : IpAddr) (limit n : ℕ) (s : Blacklist) : Type 0 where
  entry : get ip s.state ≡ some (record { faults = n; blocked_until = none })
  threshold : s.threshold ≡ limit

count-step :
    (ip : IpAddr) (limit n : ℕ) (t : Instant) (s : Blacklist)
    → n < limit
    → limit < 2 ^ 32
    → IsCounting ip limit n s
    → ((record_faulty ip t s).1 ≡ false) × IsCounting ip limit (n + 1) (record_faulty ip t s).0
unfolding record_faulty record_faulty_at count_fault
count-step ip limit n t s room top v = (
  ground (arith, v.entry, v.threshold, room, top),
  record {
    entry = ground (
      arith,
      v.entry,
      v.threshold,
      room,
      top,
      get-insert_self ip (record { faults = n + 1; blocked_until = none }) s.state,
    );
    threshold = ground (arith, v.entry, v.threshold, room, top);
  },
)

count-run :
    (ip : IpAddr) (limit n : ℕ) (ts : List Instant) (s : Blacklist)
    → n + length ts ≤ limit
    → limit < 2 ^ 32
    → IsCounting ip limit n s
    → (faults ip ts s ≡ replicate (length ts) false)
      × IsCounting ip limit (n + length ts) (after_faults ip ts s)
unfolding faults after_faults
count-run ip limit n [] s room top v = (refl, subst (λ k. IsCounting ip limit k s) (omega arith) v)
count-run ip limit n (t ∷ ts) s room top v =
    let (silent, v') = count-step ip limit n t s (omega arith) top v in
    let (rest, v'') = count-run ip limit (n + 1) ts (record_faulty ip t s).0 (omega arith) top v' in
    (
      ap₂ ◌∷◌ silent rest,
      subst (λ k. IsCounting ip limit k (after_faults ip (t ∷ ts) s)) (omega arith) v'',
    )

-- With a threshold from 1 to `u32::MAX - 1`, an unblocked address with `n` faults on record and no
-- purge in between is reported at its fault number `threshold + 1` and at none before: the faults
-- up to the threshold are silent, and the next one is reported.
pub trips_past_threshold :
    (ip : IpAddr) (n : ℕ) (ts : List Instant) (t : Instant) (s : Blacklist)
    → get ip s.state ≡ some (record { faults = n; blocked_until = none })
    → 0 < s.threshold
    → s.threshold < 2 ^ 32 - 1
    → n + length ts ≡ s.threshold
    → (faults ip ts s ≡ replicate (length ts) false)
      × ((record_faulty ip t (after_faults ip ts s)).1 ≡ true)
unfolding record_faulty record_faulty_at count_fault
trips_past_threshold ip n ts t s found enabled top full =
    let (silent, v) =
      count-run ip s.threshold n ts s (omega arith) (omega arith)
        (record { entry = found; threshold = refl }) in
    (silent, ground (arith, v.entry, v.threshold, full))

-- In a table with distinct keys, a purge drops the faults that an unblocked address has on record:
-- with a threshold of at least one, the first fault after the purge is not reported, however many
-- preceded it.
pub purge_forgets_faults :
    (ip : IpAddr) (p t : Instant) (s : Blacklist)
    → IsMap s.state
    → 0 < s.threshold
    → is_blocked ip p s ≡ false
    → (get ip (purge_stale p s).state ≡ none) × ((record_faulty ip t (purge_stale p s)).1 ≡ false)
unfolding is_blocked is_blocked_at purge_stale record_faulty record_faulty_at count_fault
purge_forgets_faults ip p t s distinct enabled unblocked = (gone, ground (arith, gone))
  where
    gone : get ip (purge_stale p s).state ≡ none
    gone = ground (
      arith,
      unblocked,
      get-retain (λ (e : Entry). is_before p e.blocked_until) ip s.state distinct,
    )

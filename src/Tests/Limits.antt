-- ===== src/Tests/Limits.antt =====
-- The rate limiter, the blacklist, the cooldown, the active addresses and the leases on a few
-- entries.
use signedpulse.Base.{
  ◌+◌, ◌^◌, ◌≤◌, ◌<◌, ◌≡◌, refl, ◌≢◌, true, false, not, ◌&&◌, ◌||◌, none, some, List, [], ◌∷◌, map,
  arith, ltb, if◌then◌else◌, is_some, length, replicate, select, Bytes, nat_key, bytes_key, ip_key,
  eq, get, retain, IsMap, v4, bytes_dec, ip_dec, from_secs, as_millis, codes,
}
use signedpulse.RateLimit.HelloRateLimiter.{HelloRateLimiter, Window, check_at}
use signedpulse.RateLimit.HelloRateLimiter.Budget.{passed, window_budget, check_at-capped}
use signedpulse.RateLimit.HelloRateLimiter.Budget
use signedpulse.RateLimit.CooldownTracker.{CooldownTracker}
use signedpulse.RateLimit.ActiveIps.{ActiveIps}
use signedpulse.RateLimit.Blacklist
use signedpulse.RateLimit.Blacklist.{
  Blacklist, Entry, trim, record_faulty, is_blocked, under_attack, note_lockdown_drop,
}
use signedpulse.RateLimit.Blacklist.Faults.{
  is_blocked-record_faulty, faults, after_faults, trips_past_threshold,
}
use signedpulse.RateLimit.Blacklist.Lockdown.{zero_threshold_engages_lockdown}
use signedpulse.RateLimit.LeaseTracker.{
  Lease, LeaseTracker, is_live, is_expired, renew_at, take_expired_at,
}
use signedpulse.RateLimit.LeaseTracker.Renewal.{holds, renew_at_lem}
use signedpulse.RateLimit.LeaseTracker.Expiry.{owed, take_expired_at_lem}
use signedpulse.RateLimit.LeaseTracker.Roaming.{OnlyOn, Silent, roaming_forgets_address}
use signedpulse.Tests
use signedpulse.Tests.{home, away}

-- A limiter that has let one HELLO from `home` through in this window.
abbrev window : Window
window = record { window_start = 0; count = 1 }

abbrev limiter : HelloRateLimiter
limiter = record Tests.limiter { state = (home, window) ∷ [] }

abbrev checks : List Budget.Call
checks =
    Budget.checks home (from_secs 1)
    ∷ Budget.checks away (from_secs 2)
    ∷ Budget.checks home (from_secs 3)
    ∷ Budget.checks home (from_secs 4)
    ∷ []

found_window : get home limiter.state ≡ some window
unfolding get ip_dec
found_window = refl

window_budget_example : window.count + passed home checks limiter ≤ limiter.max_per_window
window_budget_example =
    window_budget home window checks limiter (tt, tt) (omega arith) found_window (omega arith)
      (ground arith)

check_at-capped_example : length (check_at away (from_secs 1) limiter).0.state ≤ limiter.max_entries
check_at-capped_example = check_at-capped away (from_secs 1) limiter (omega arith) (omega arith)

abbrev key : Bytes
key = codes "id:a"

abbrev cooldown : CooldownTracker
cooldown = record { cooldown = 10; last = (key, 5) ∷ [] }

abbrev active : ActiveIps
active = record { ttl = 10; max_entries = 1; seen = (home, 5) ∷ [] }

-- The threshold of faults is one, and no fault is on record.
abbrev faulty : Entry
faulty = record { faults = 0; blocked_until = none }

abbrev watch : Blacklist
watch = record Tests.blacklist { state = (home, faulty) ∷ [] }

is_blocked-record_faulty_example : is_blocked home 9 (record_faulty home 5 watch).0 ≡ (
    if eq home home && ((record_faulty home 5 watch).1 || is_blocked home 5 watch)
    then ltb 9 (5 + watch.duration)
    else is_blocked home 9 watch)
is_blocked-record_faulty_example = is_blocked-record_faulty home home 5 9 watch (omega arith)

found_fault : get home watch.state ≡ some (record { faults = 0; blocked_until = none })
unfolding get ip_dec
found_fault = refl

trips_past_threshold_example :
    (faults home (5 ∷ []) watch ≡ replicate 1 false)
    × ((record_faulty home 6 (after_faults home (5 ∷ []) watch)).1 ≡ true)
trips_past_threshold_example =
    trips_past_threshold home 0 (5 ∷ []) 6 watch found_fault (omega arith) (omega arith)
      (omega arith)

-- One more fault blacklists `home`.
abbrev warned : Blacklist
warned = record Tests.blacklist { state = (home, record { faults = 1; blocked_until = none }) ∷ [] }

tripped : (record_faulty home 6 warned).1 ≡ true
unfolding record_faulty get ip_dec
tripped = refl

in_range : Blacklist.now_ms 6 warned + as_millis warned.attack_window < 2 ^ 64
unfolding Blacklist.now_ms
in_range = omega arith

soon :
    Blacklist.now_ms 1_000_006 warned < Blacklist.now_ms 6 warned + as_millis warned.attack_window
unfolding Blacklist.now_ms
soon = omega arith

zero_threshold_engages_lockdown_example :
    under_attack 1_000_006 (record_faulty home 6 warned).0 ≡ true
zero_threshold_engages_lockdown_example =
    zero_threshold_engages_lockdown home 6 1_000_006 warned tripped refl (omega arith) (omega arith)
      in_range soon

abbrev lease : Lease
lease = record { expires_at = 10; ip = home; source_port = 1; param = none }

abbrev table : LeaseTracker
table = record {
  max_entries = 10;
  leases = (codes "a", lease) ∷ (codes "b", record lease { ip = away; expires_at = 20 }) ∷ [];
}

table-IsMap : IsMap table.leases
table-IsMap = ground arith

renew_at_lem_example :
    let r = renew_at (codes "a") home 2 none 30 15 table in
    (r.1 ≡ not (holds (codes "a") 15 table))
    × (holds (codes "b") 18 r.0 ≡ (
        if eq (codes "a") (codes "b")
          && (is_some (get (codes "a") table.leases) || ltb (length table.leases) table.max_entries)
        then ltb 18 (15 + 30)
        else holds (codes "b") 18 table))
renew_at_lem_example = renew_at_lem (codes "a") (codes "b") home 2 none 30 15 18 table

found_lease : get (codes "a") table.leases ≡ some lease
unfolding get bytes_dec
found_lease = refl

take_expired_at_lem_example : take_expired_at 15 table ≡ (
  record table { leases = retain (is_live 15) table.leases },
  map (owed 15 table.leases) (select (λ e. is_expired 15 e.1) table.leases),
)
take_expired_at_lem_example = take_expired_at_lem 15 table table-IsMap

away_is_not_home : away ≢ home
away_is_not_home h = ground arith

elsewhere : v4 0x0a000003 ≢ home
elsewhere h = ground arith

only_home : OnlyOn home (codes "a") table.leases
only_home = ((λ other same. other refl), ((λ other same. away_is_not_home same), tt))

roaming_forgets_address_example :
    Silent home (take_expired_at 99 (renew_at (codes "a") (v4 0x0a000003) 2 none 30 5 table).0).1
roaming_forgets_address_example =
    roaming_forgets_address (codes "a") (v4 0x0a000003) 2 none 30 5 99 table lease table-IsMap
      found_lease only_home elsewhere

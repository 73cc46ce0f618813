-- ===== src/RateLimit/Blacklist/Bounded.antt =====
-- How large the table of the blacklist gets.
use signedpulse.Base.{
  ℕ, ◌≤◌, ◌<◌, ◌≡◌, sym, ◌∙◌, subst, arith, length, nat_key, bytes_key, ip_key, Map, get,
  length-insert, length-retain-le, IsMap, insert-IsMap, retain-IsMap, IpAddr, Instant,
}
use signedpulse.RateLimit.Blacklist.{
  Blacklist, Entry, is_before, fault_entry, or_insert, count_fault, note_event, count_drop,
  arm_lockdown, note_lockdown_drop, note_rejection, record_faulty, record_faulty_at, purge_stale,
}

-- The table has distinct keys and is within the cap `n`.
pub record IsBounded (n : ℕ) (s : Blacklist) : Type 0 where
  pub cap : s.max_entries ≡ n
  pub distinct : IsMap s.state
  pub small : length s.state ≤ n

-- The table and its cap are as they were.
record IsSame (s t : Blacklist) : Type 0 where
  cap : t.max_entries ≡ s.max_entries
  table : t.state ≡ s.state

same-IsBounded : (n : ℕ) (s t : Blacklist) → IsSame s t → IsBounded n s → IsBounded n t
same-IsBounded n s t e v = record {
  cap = e.cap ∙ v.cap;
  distinct = subst IsMap (sym e.table) v.distinct;
  small = subst (λ (m : Map IpAddr Entry). length m ≤ n) (sym e.table) v.small;
}

pub note_rejection-IsBounded :
    (n : ℕ) (now : Instant) (s : Blacklist) → IsBounded n s → IsBounded n (note_rejection now s)
unfolding note_rejection arm_lockdown
note_rejection-IsBounded n now s =
    same-IsBounded n s _ (record { cap = ground arith; table = ground arith })

pub note_lockdown_drop-IsBounded :
    (n : ℕ) (now : Instant) (s : Blacklist) → IsBounded n s → IsBounded n (note_lockdown_drop now s)
unfolding note_lockdown_drop count_drop arm_lockdown
note_lockdown_drop-IsBounded n now s =
    same-IsBounded n s _ (record { cap = ground arith; table = ground arith })

note_event-IsBounded :
    (n : ℕ) (now : Instant) (s : Blacklist) → IsBounded n s → IsBounded n (note_event now s)
unfolding note_event arm_lockdown
note_event-IsBounded n now s =
    same-IsBounded n s _ (record { cap = ground arith; table = ground arith })

module _ (n : ℕ) (capped : 0 < n) where
  count_fault-IsBounded :
      (ip : IpAddr) (now : Instant) (s : Blacklist)
      → IsBounded n s
      → IsBounded n (count_fault ip now s).0
  unfolding count_fault
  count_fault-IsBounded ip now s v =
      let e = (fault_entry s.threshold s.duration now (or_insert (get ip s.state))).0 in
      record {
        cap = ground (arith, v.cap);
        distinct = ground (arith, v.distinct, insert-IsMap ip e s.state v.distinct);
        small = ground (arith, v.cap, v.small, length-insert ip e s.state);
      }

  pub record_faulty-IsBounded :
      (ip : IpAddr) (now : Instant) (s : Blacklist)
      → IsBounded n s
      → IsBounded n (record_faulty ip now s).0
  unfolding record_faulty record_faulty_at
  record_faulty-IsBounded ip now s v =
      let v' = count_fault-IsBounded ip now s v in
      ground (arith, v, v', note_event-IsBounded n now (count_fault ip now s).0 v')

pub purge_stale-IsBounded :
    (n : ℕ) (now : Instant) (s : Blacklist) → IsBounded n s → IsBounded n (purge_stale now s)
unfolding purge_stale
purge_stale-IsBounded n now s v = record {
  cap = v.cap;
  distinct = retain-IsMap _ s.state v.distinct;
  small =
      omega
        (arith, v.small, length-retain-le (λ (e : Entry). is_before now e.blocked_until) s.state);
}

-- ===== src/RateLimit/LeaseTracker/Roaming.antt =====
-- A client that pulses from a new address: its lease moves, and its old address is reported to
-- nobody.
use signedpulse.Base.{
  ℕ, ◌+◌, ◌≡◌, sym, subst, ◌≢◌, ite, Option, some, List, [], ◌∷◌, map, arith, All, select, Bytes,
  nat_key, bytes_key, ip_key, Map, get, IsMap, insert-IsMap, IpAddr, bytes_dec, Fresh, Instant,
  Duration,
}
use signedpulse.Base
use signedpulse.RateLimit.LeaseTracker.{
  Lease, ExpiredLease, LeaseTracker, is_expired, renew_at, take_expired_at,
}
use signedpulse.RateLimit.LeaseTracker.Expiry.{owed, take_expired_at_lem}

-- No lease is on the address.
abbrev pub NotOn : IpAddr → Map Bytes Lease → Type 0
NotOn ip m = All (λ (e : Bytes × Lease). ¬ (e.1.ip ≡ ip)) m

-- No lease but the client's is on the address.
abbrev pub OnlyOn : IpAddr → Bytes → Map Bytes Lease → Type 0
OnlyOn ip cid m = All (λ (e : Bytes × Lease). ¬ (e.0 ≡ cid) → ¬ (e.1.ip ≡ ip)) m

insert-NotOn :
    (ip : IpAddr) (cid : Bytes) (l : Lease) (m : Map Bytes Lease)
    → ¬ (l.ip ≡ ip)
    → IsMap m
    → OnlyOn ip cid m
    → NotOn ip (Base.insert cid l m)
unfolding Base.insert
insert-NotOn ip cid l [] h d only = (h, tt)
insert-NotOn ip cid l ((k, x) ∷ m) h d only =
    elim (bytes_dec k cid)
      as (λ c. NotOn ip (ite c ((cid, l) ∷ m) ((k, x) ∷ Base.insert cid l m))) [
        | yes same ↦ (h, rest m (subst (λ a. Fresh a m) same d.0) only.1)
        | no other ↦ (only.0 other, insert-NotOn ip cid l m h d.1 only.1)
      ]
  where
    rest : (n : Map Bytes Lease) → Fresh cid n → OnlyOn ip cid n → NotOn ip n
    rest [] f o = tt
    rest (e ∷ n) f o = (o.0 f.0, rest n f.1 o.1)

-- The addresses of a report.
abbrev pub Silent : IpAddr → List (ExpiredLease × ℕ) → Type 0
Silent ip r = All (λ (e : ExpiredLease × ℕ). ¬ (e.0.ip ≡ ip)) r

owed-Silent :
    (ip : IpAddr) (now : Instant) (m n : Map Bytes Lease)
    → NotOn ip n
    → Silent ip (map (owed now m) (select (λ e. is_expired now e.1) n))
unfolding select
owed-Silent ip now m [] h = tt
owed-Silent ip now m ((k, l) ∷ n) h = ground (arith, h.0, owed-Silent ip now m n h.1)

-- In a table with distinct keys, a tracked client, the only one with a lease on its address,
-- renews from another address: then a sweep at any later clock reading reports no lease on the old
-- address, so that no revoke hook runs for it.
pub roaming_forgets_address :
    (cid : Bytes) (ip : IpAddr) (port : ℕ) (param : Option Bytes) (ttl : Duration)
    (now later : Instant) (s : LeaseTracker) (l : Lease)
    → IsMap s.leases
    → get cid s.leases ≡ some l
    → OnlyOn l.ip cid s.leases
    → ip ≢ l.ip
    → Silent l.ip (take_expired_at later (renew_at cid ip port param ttl now s).0).1
unfolding renew_at
roaming_forgets_address cid ip port param ttl now later s l d found only other =
    subst (λ t. Silent l.ip (take_expired_at later t).1) (sym renewed)
      (subst (λ (q : LeaseTracker × List (ExpiredLease × ℕ)). Silent l.ip q.1)
        (sym (take_expired_at_lem later moved (insert-IsMap cid lease s.leases d)))
        (owed-Silent l.ip later moved.leases moved.leases
          (insert-NotOn l.ip cid lease s.leases other d only)))
  where
    lease : Lease
    lease = record { expires_at = now + ttl; ip = ip; source_port = port; param = param }

    moved : LeaseTracker
    moved = record s { leases = Base.insert cid lease s.leases }

    renewed : (renew_at cid ip port param ttl now s).0 ≡ moved
    renewed = ground (arith, found)

-- ===== src/RateLimit/LeaseTracker/Expiry.antt =====
-- What the sweep of expired leases takes and leaves.
use signedpulse.Base.{
  All-append, ℕ, ◌≡◌, refl, sym, ap, Bool, some, List, [], ◌∷◌, ◌++◌, map, arith, dec_le, All,
  select, Bytes, nat_key, bytes_key, ip_key, eq, Map, get, retain, IsMap, append_assoc, Fresh,
  Instant,
}
use signedpulse.Base
use signedpulse.RateLimit.LeaseTracker.{
  Lease, ExpiredLease, LeaseTracker, is_live, is_expired, count, expired_keys, drain, report,
  take_expired_at, ended,
}

get-middle :
    (k : Bytes) (l : Lease) (pre m : Map Bytes Lease)
    → Fresh k pre
    → get k (pre ++ (k, l) ∷ m) ≡ some l
unfolding get
get-middle k l [] m f = ground arith
get-middle k l ((j, x) ∷ pre) m f = ground (arith, f.0, get-middle k l pre m f.1)

remove-Fresh : (k : Bytes) (m : Map Bytes Lease) → Fresh k m → Base.remove k m ≡ m
unfolding Base.remove
remove-Fresh k [] f = refl
remove-Fresh k ((j, x) ∷ m) f = ground (arith, f.0, remove-Fresh k m f.1)

remove-middle :
    (k : Bytes) (l : Lease) (pre m : Map Bytes Lease)
    → Fresh k pre
    → Fresh k m
    → Base.remove k (pre ++ (k, l) ∷ m) ≡ pre ++ m
unfolding Base.remove
remove-middle k l [] m f g = ground (arith, remove-Fresh k m g)
remove-middle k l ((j, x) ∷ pre) m f g = ground (arith, f.0, remove-middle k l pre m f.1 g)

-- No key of `m` is among those of `pre`.
abbrev Apart : Map Bytes Lease → Map Bytes Lease → Type 0
Apart pre m = All (λ e. Fresh e.0 pre) m

Fresh-snoc :
    (a k : Bytes) (l : Lease) (pre : Map Bytes Lease)
    → ¬ (k ≡ a)
    → Fresh a pre
    → Fresh a (pre ++ (k, l) ∷ [])
Fresh-snoc a k l pre h f =
    All-append (λ (e : Bytes × Lease). ¬ (e.0 ≡ a)) pre ((k, l) ∷ []) f (h, tt)

Apart-snoc :
    (k : Bytes) (l : Lease) (pre m : Map Bytes Lease)
    → Fresh k m
    → Apart pre m
    → Apart (pre ++ (k, l) ∷ []) m
Apart-snoc k l pre [] f a = tt
Apart-snoc k l pre ((j, x) ∷ m) f a =
    (Fresh-snoc j k l pre (λ e. f.0 (sym e)) a.0, Apart-snoc k l pre m f.1 a.1)

expired_entry : Instant → Bytes × Lease → Bool
expired_entry now (k, l) = is_expired now l

drain_lem :
    (now : Instant) (pre m : Map Bytes Lease)
    → IsMap m
    → Apart pre m
    → drain (expired_keys now m) (pre ++ m)
      ≡ (select (expired_entry now) m, pre ++ retain (is_live now) m)
unfolding expired_keys drain select expired_entry retain
drain_lem now pre [] h a = refl
drain_lem now pre ((k, l) ∷ m) h a = elim (dec_le l.expires_at now) [
  | yes over ↦ ground (
    arith,
    over,
    get-middle k l pre m a.0,
    remove-middle k l pre m a.0 h.0,
    drain_lem now pre m h.1 a.1,
  )
  | no alive ↦ ground (
    arith,
    alive,
    drain_lem now (pre ++ (k, l) ∷ []) m h.1 (Apart-snoc k l pre m h.0 a.1),
    append_assoc pre ((k, l) ∷ []) m,
    append_assoc pre ((k, l) ∷ []) (retain (is_live now) m),
  )
]

Apart-nil : (m : Map Bytes Lease) → Apart [] m
Apart-nil [] = tt
Apart-nil (e ∷ m) = (tt, Apart-nil m)

-- The report that the sweep owes for an expired lease: its data, and how many live leases other
-- clients hold on its address.
abbrev pub owed : Instant → Map Bytes Lease → Bytes × Lease → ExpiredLease × ℕ
owed now m (cid, l) = (ended cid l, count (λ _ o. eq o.ip l.ip) (retain (is_live now) m))

-- In a table with distinct keys, the sweep leaves exactly the live leases, and reports exactly the
-- expired ones, each once, in the map's order, with the number of live leases on its address.
pub take_expired_at_lem :
    (now : Instant) (s : LeaseTracker)
    → IsMap s.leases
    → take_expired_at now s ≡ (
      record s { leases = retain (is_live now) s.leases },
      map (owed now s.leases) (select (λ e. is_expired now e.1) s.leases),
    )
unfolding take_expired_at report expired_entry
take_expired_at_lem now s h =
    ap
      (λ (d : List (Bytes × Lease) × Map Bytes Lease).
        let r : LeaseTracker × List (ExpiredLease × ℕ) =
          (record s { leases = d.1 }, map (report d.1) d.0) in
        r)
      (drain_lem now [] s.leases h (Apart-nil s.leases))

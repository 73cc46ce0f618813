-- ===== src/RateLimit/Blacklist/Trim.antt =====
-- The rolling windows of the lockdown triggers.
use signedpulse.Base.{
  ◌≤◌, ◌≡◌, refl, Bool, List, [], ◌∷◌, arith, leb, All, select, nat_key, bytes_key, ip_key, Instant,
  Duration, duration_since,
}
use signedpulse.RateLimit.Blacklist.{trim}

-- The instants of a queue do not fall.
abbrev pub IsQueue : List Instant → Type 0
IsQueue [] = Unit
IsQueue (t ∷ q) = All (λ u. t ≤ u) q × IsQueue q

recent : Duration → Instant → Instant → Bool
recent window now t = leb (duration_since now t) window

select-All :
    (window : Duration) (now t : Instant) (q : List Instant)
    → duration_since now t ≤ window
    → All (λ u. t ≤ u) q
    → select (recent window now) q ≡ q
unfolding select recent
select-All window now t [] near later = refl
select-All window now t (u ∷ q) near later =
    ground (arith, select-All window now t q near later.1, later.0)

-- On a queue in the order of time, dropping old instants off the front until a recent one appears
-- keeps exactly the instants that are at most the window old.
pub trim-eq-select :
    (window : Duration) (now : Instant) (q : List Instant)
    → IsQueue q
    → trim window q now ≡ select (λ t. leb (duration_since now t) window) q
unfolding trim select recent
trim-eq-select window now [] v = refl
trim-eq-select window now (t ∷ q) v = ground (
  arith,
  trim-eq-select window now q v.1,
  λ (near : duration_since now t ≤ window). select-All window now t q near v.0,
)

-- ===== src/Client/Cycle/Backoff.antt =====
-- The timeouts of a cycle and the attempt that ends it.
use signedpulse.Base.{
  ℕ, zero, suc, ◌+◌, ◌-◌, ◌*◌, ◌^◌, ◌≤◌, ◌<◌, min, ◌≡◌, refl, sym, subst, ◌↔◌, inl, inr, Bool, true,
  false, some, arith, Bool-cases, nat_key, bytes_key, ip_key, ℕ_discrete, Duration,
}
use native.Mathlib.Nat.{pow-suc}
use signedpulse.Client.Target.{ServerTarget}
use signedpulse.Client.Cycle.{backoff, duration_max, run_attempts}

double_pow : (x k : ℕ) → 0 < k → x * 2 ^ k ≡ 2 * (x * 2 ^ (k - 1))
double_pow x zero h = absurd (omega arith)
double_pow x (suc k) h = grind (arith, pow-suc 2 k)

step_lem : (x y m d : ℕ) → m ≤ d → y ≡ 2 * x → min (min y d) m ≡ min (2 * min (min x d) m) m
step_lem x y m d h e = omega (arith, h, e)

-- The first attempt waits for `retry_initial`, and each of the next 31 twice as long as the one
-- before, but none longer than `retry_max`; from the thirty-second attempt on the timeout stays
-- the same. `retry_max` is a `Duration`.
pub backoff_doubles :
    (t : ServerTarget) (k : ℕ)
    → t.retry_max ≤ duration_max
    → (backoff t 1 ≡ min t.retry_initial t.retry_max)
      × (0 < k → k < 32 → backoff t (k + 1) ≡ min (2 * backoff t k) t.retry_max)
      × (32 ≤ k → backoff t k ≡ backoff t 32)
      × (backoff t k ≤ t.retry_max)
unfolding backoff
backoff_doubles t k h = (omega (arith, h), doubles, constant, omega arith)
  where
    doubles : 0 < k → k < 32 → backoff t (k + 1) ≡ min (2 * backoff t k) t.retry_max
    doubles a b =
        let top : min (k + 1 - 1) 31 ≡ k = omega (arith, a, b) in
        let low : min (k - 1) 31 ≡ k - 1 = omega (arith, a, b) in
        rw (top, low)
          (step_lem (t.retry_initial * 2 ^ (k - 1)) (t.retry_initial * 2 ^ k) t.retry_max
            duration_max h (double_pow t.retry_initial k a))

    constant : 32 ≤ k → backoff t k ≡ backoff t 32
    constant a = let top : min (k - 1) 31 ≡ 31 = omega (arith, a) in rw top refl

-- A cycle ends at the first attempt that succeeds, if there is one among its attempts.
pub run_attempts_lem :
    (t : ServerTarget) (try : ℕ → Duration → Bool) (n k j : ℕ)
    → (run_attempts t try n k ≡ some j) ↔ (
        (k ≤ j)
        × (j < k + n)
        × (try j (backoff t j) ≡ true)
        × ((i : ℕ) → k ≤ i → i < j → try i (backoff t i) ≡ false))
unfolding run_attempts
run_attempts_lem t try n k j = (forth n k, back n k)
  where
    forth :
        (n k : ℕ)
        → run_attempts t try n k ≡ some j
        → (k ≤ j)
          × (j < k + n)
          × (try j (backoff t j) ≡ true)
          × ((i : ℕ) → k ≤ i → i < j → try i (backoff t i) ≡ false)
    forth zero k h = absurd (ground arith)
    forth (suc n) k h = elim (Bool-cases (try k (backoff t k))) [
      | inl good ↦
          let same : k ≡ j = ground (arith, good, h) in
          (
            ground (arith, same),
            ground (arith, same),
            subst (λ q. try q (backoff t q) ≡ true) same good,
            (λ i a b. absurd (omega (arith, a, b, same))),
          )
      | inr bad ↦
          let (a, b, good, rest) = forth n (k + 1) (ground (arith, bad, h)) in
          (
            omega (arith, a),
            omega (arith, b),
            good,
            λ i c d. elim (ℕ_discrete k i) [
              | yes e ↦ subst (λ q. try q (backoff t q) ≡ false) e bad
              | no ne ↦ rest i (omega (arith, c, ne)) d
            ],
          )
    ]

    back :
        (n k : ℕ)
        → ((k ≤ j)
            × (j < k + n)
            × (try j (backoff t j) ≡ true)
            × ((i : ℕ) → k ≤ i → i < j → try i (backoff t i) ≡ false))
        → run_attempts t try n k ≡ some j
    back zero k (a, b, _, _) = absurd (omega (arith, a, b))
    back (suc n) k (a, b, good, bad) = elim (ℕ_discrete k j) [
      | yes e ↦ ground (arith, e, subst (λ q. try q (backoff t q) ≡ true) (sym e) good)
      | no ne ↦
          let miss = bad k (omega arith) (omega (arith, a, ne)) in
          ground (
            arith,
            miss,
            back n (k + 1) (
              omega (arith, a, ne),
              omega (arith, b),
              good,
              (λ i c d. bad i (omega (arith, c)) d),
            ),
          )
    ]

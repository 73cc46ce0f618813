-- ===== src/Client/Run/Outcome.antt =====
-- What a single run over all the servers reports.
use signedpulse.Base.{
  ℕ, ◌+◌, ◌≡◌, refl, ap, Bool, not, Option, List, [], ◌∷◌, map, arith, ◌==◌, if◌then◌else◌, ok, err,
  length, select, Bytes, nat_key, bytes_key, ip_key,
}
use signedpulse.Client.Target.{ServerTarget}
use signedpulse.Client.Cycle.{Mode}
use signedpulse.Client.Run.{Cycles, is_ok, attempts_of, Report, try_targets, run_targets}

abbrev pub reaches : Cycles → Mode → Bool → Option Bytes → ServerTarget → Bool
reaches cycle mode retry param t = is_ok (cycle t (attempts_of retry t) mode param)

-- The servers that are not reached.
abbrev pub unreached : Cycles → Mode → Bool → Option Bytes → List ServerTarget → List ServerTarget
unreached cycle mode retry param ts = select (λ t. not (reaches cycle mode retry param t)) ts

abbrev pub report_of : Cycles → Mode → Bool → Option Bytes → ServerTarget → Report
report_of cycle mode retry param t = record {
  name = t.name;
  reached = reaches cycle mode retry param t;
}

module _ (cycle : Cycles) (mode : Mode) (retry : Bool) (param : Option Bytes) where
  try_targets_lem :
      (ts : List ServerTarget) (n : ℕ)
      → ((try_targets cycle mode retry param ts n).0 ≡ map (report_of cycle mode retry param) ts)
        × ((try_targets cycle mode retry param ts n).1
            ≡ n + length (unreached cycle mode retry param ts))
  unfolding try_targets select
  try_targets_lem [] n = (refl, omega arith)
  try_targets_lem (t ∷ ts) n =
      let m = if reaches cycle mode retry param t then n else n + 1 in
      let (reports, failures) = try_targets_lem ts m in
      (ap (◌∷◌ (report_of cycle mode retry param t)) reports, ground (arith, failures))

  -- A run tries every server once, in order, whatever became of those before, and reports each. It
  -- succeeds exactly if every server is reached, and fails with the number of those that are not.
  pub run_targets_lem :
      (ts : List ServerTarget)
      → let failures = length (unreached cycle mode retry param ts) in
        run_targets cycle mode retry param ts ≡ (
          map (report_of cycle mode retry param) ts,
          (if failures == 0
              then ok tt
              else err (record { failures = failures; servers = length ts })),
        )
  unfolding run_targets
  run_targets_lem ts =
      let (reports, failures) = try_targets_lem ts 0 in ground (arith, reports, failures)

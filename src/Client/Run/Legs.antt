-- ===== src/Client/Run/Legs.antt =====
-- What the leg of a server tells of its pulse loop.
use signedpulse.Base.{
  ◌≡◌, refl, ap, ◌∙◌, inl, inr, Bool, true, false, Option, none, some, List, [], ◌∷◌, arith,
  if◌then◌else◌, Option-cases, select, unwrap_or, ℤ, codes, ok, err, Bytes, nat_key, bytes_key,
  ip_key, eq, get, get-insert,
}
use signedpulse.Client.Run.{
  Leg, Legs, update_leg, LegEvent, attempts, concludes, attempted, concluded, label_of, change_of,
  after, run,
}

-- What the events do to one leg, if it exists.
abbrev pub step_leg : LegEvent → Option Leg → Option Leg
step_leg e none = none
step_leg e (some leg) = some (change_of e leg)

abbrev pub run_leg : List LegEvent → Option Leg → Option Leg
run_leg [] leg = leg
run_leg (e ∷ es) leg = run_leg es (step_leg e leg)

abbrev pub concerns : Bytes → LegEvent → Bool
concerns name e = eq (label_of e) name

get-update :
    (name : Bytes) (e : LegEvent) (legs : Legs)
    → get name (after e legs)
      ≡ (if concerns name e then step_leg e (get name legs) else get name legs)
unfolding after update_leg
get-update name e legs = elim (Option-cases (get (label_of e) legs)) [
  | inl gone ↦ ground (arith, gone)
  | inr (leg, found) ↦ ground (arith, found, get-insert (label_of e) name (change_of e leg) legs)
]

choose :
    (b : Bool) (e : LegEvent) (es : List LegEvent) (leg : Option Leg)
    → run_leg es (if b then step_leg e leg else leg) ≡ run_leg (if b then e ∷ es else es) leg
choose true e es leg = refl
choose false e es leg = refl

-- A leg after any events is that after those of its own label alone, in their order.
own_events_lem :
    (name : Bytes) (es : List LegEvent) (legs : Legs)
    → get name (run es legs) ≡ run_leg (select (concerns name) es) (get name legs)
unfolding run select
own_events_lem name [] legs = refl
own_events_lem name (e ∷ es) legs =
    own_events_lem name es (after e legs)
    ∙ ap (run_leg (select (concerns name) es)) (get-update name e legs)
    ∙ choose (concerns name e) e (select (concerns name) es) (get name legs)

-- The last value that the events give, or `d` if none gives one.
abbrev pub latest : {A : Type 0} → (LegEvent → Option A) → List LegEvent → A → A
latest f [] d = d
latest f (e ∷ es) d = latest f es (unwrap_or (f e) d)

-- What an event says of the times and of the result.
abbrev pub attempt_time : LegEvent → Option (Option ℤ)
attempt_time (attempts name now) = some (some now)
attempt_time (concludes name now result) = none

abbrev pub success_time : LegEvent → Option (Option ℤ)
success_time (attempts name now) = none
success_time (concludes name now (ok _)) = some (some now)
success_time (concludes name now (err text)) = none

abbrev pub result_text : LegEvent → Option Bytes
result_text (attempts name now) = none
result_text (concludes name now (ok _)) = some (codes "ok")
result_text (concludes name now (err text)) = some text

abbrev pub summary : List LegEvent → Leg → Leg
summary es leg = record {
  server_addr = leg.server_addr;
  server_id = leg.server_id;
  interval_seconds = leg.interval_seconds;
  last_attempt_at_unix = latest attempt_time es leg.last_attempt_at_unix;
  last_success_at_unix = latest success_time es leg.last_success_at_unix;
  last_result = latest result_text es leg.last_result;
}

summary_lem : (es : List LegEvent) (leg : Leg) → run_leg es (some leg) ≡ some (summary es leg)
summary_lem [] leg = refl
summary_lem (attempts name now ∷ es) leg = summary_lem es (attempted now leg)
summary_lem (concludes name now (ok u) ∷ es) leg = summary_lem es (concluded now (ok u) leg)
summary_lem (concludes name now (err text) ∷ es) leg = summary_lem es (concluded now (err text) leg)

-- In any interleaving of the pulse loops, the leg of a server tells of its own loop alone: it holds
-- the time of the last attempt, the time of the last success, and the result of the last cycle to
-- end, "ok" or the text of the error, each as before where there was none; the rest is unchanged.
pub legs_tell_of_own_loop :
    (name : Bytes) (es : List LegEvent) (legs : Legs) (leg : Leg)
    → get name legs ≡ some leg
    → get name (run es legs) ≡ some (summary (select (concerns name) es) leg)
legs_tell_of_own_loop name es legs leg found =
    own_events_lem name es legs
    ∙ ap (run_leg (select (concerns name) es)) found
    ∙ summary_lem (select (concerns name) es) leg

-- ===== src/Client/Run.antt =====
-- The runs of a client over all its servers: the single pulse or release, and the pulse loops with
-- their shared status. `cycle` is `run_cycle` against one server.
pub mod Legs
pub mod Outcome
use signedpulse.Base.{
  ℕ, zero, suc, ◌+◌, ◌-◌, ◌*◌, ◌/◌, ◌%◌, ◌^◌, ◌≤◌, ◌<◌, min, max, ◌≡◌, refl, sym, ap, ap₂, ◌∙◌,
  subst, ◌≢◌, ◌↔◌, ◌⊎◌, inl, inr, ite, Bool, true, false, not, ◌&&◌, ◌||◌, Option, none, some, List,
  [], ◌∷◌, ◌++◌, map, arith, dec_lt, dec_le, ltb, leb, ◌==◌, if◌then◌else◌, Bool-cases,
  Option-cases, is_some, unwrap_or, Result, ok, err, length, take, drop, replicate, length-append,
  All, select, Bytes, ℤ, pos, negsuc, pos_part, neg_part, ◌+ℤ◌, ◌-ℤ◌, ◌≤ℤ◌, ◌<ℤ◌, ltb_ℤ, leb_ℤ,
  min_ℤ, abs, i64_max, IsI64, abs_lem, +ℤ_parts, Key, nat_key, bytes_key, ip_key, eq, Map, get,
  insert, remove, retain, contains_key, keep_if, get-insert, get-insert_self, get-insert_ne,
  get-remove, get-retain, length-insert, length-retain-le, length-remove-le, IsMap, insert-IsMap,
  remove-IsMap, retain-IsMap, IpAddr, v4, v6, SocketAddr, bytes_dec, ip_dec, ℕ_discrete,
  append_assoc, append-nil, Fresh, Fresh-get, Instant, Duration, from_secs, as_millis,
  duration_since, codes, decimal, decimal_ℤ, from_utf8, is_control, starts_with, replace_from,
  replace, flat, flat-flat, flat-append, flat-ext, replace_one, drop-drop, take_append, drop_append,
}
use signedpulse.Client.Target.{ServerTarget}
use signedpulse.Client.Cycle.{Mode, renew, release, CycleError}

pub record Leg : Type 0 where
  pub server_addr : Bytes
  pub server_id : Bytes
  pub interval_seconds : ℕ
  pub last_attempt_at_unix : Option ℤ
  pub last_success_at_unix : Option ℤ
  pub last_result : Bytes

abbrev pub Legs : Type 0
Legs = Map Bytes Leg

-- `Duration::as_secs`
abbrev pub as_secs : Duration → ℕ
as_secs d = d / 1_000_000_000

abbrev pub pending : ServerTarget → Leg
pending t = record {
  server_addr = t.server_addr;
  server_id = t.server_id;
  interval_seconds = as_secs t.interval;
  last_attempt_at_unix = none;
  last_success_at_unix = none;
  last_result = codes "pending";
}

-- The legs of `Client::from_config`, put in one after the other.
unfoldable pub seed : List ServerTarget → Legs → Legs
seed [] legs = legs
seed (t ∷ ts) legs = seed ts (insert t.name (pending t) legs)

-- `if let Some(leg) = servers.get_mut(name)`
unfoldable pub update_leg : Bytes → (Leg → Leg) → Legs → Legs
update_leg name f legs = elim (get name legs) [ none ↦ legs | some leg ↦ insert name (f leg) legs ]

-- The two updates of a turn of `run_loop`, before and after its cycle; an error is its text.
abbrev pub attempted : ℤ → Leg → Leg
attempted now leg = record leg { last_attempt_at_unix = some now }

abbrev pub concluded : ℤ → Result Bytes (Unit {0}) → Leg → Leg
concluded now (ok _) leg = record leg { last_success_at_unix = some now; last_result = codes "ok" }
concluded now (err text) leg = record leg { last_result = text }

-- The steps of the loops over the shared legs, each with the label of its server.
pub data LegEvent : Type 0 where
  attempts : Bytes → ℤ → LegEvent
  concludes : Bytes → ℤ → Result Bytes (Unit {0}) → LegEvent

abbrev pub label_of : LegEvent → Bytes
label_of (attempts name now) = name
label_of (concludes name now result) = name

abbrev pub change_of : LegEvent → Leg → Leg
change_of (attempts name now) = attempted now
change_of (concludes name now result) = concluded now result

unfoldable pub after : LegEvent → Legs → Legs
unfolding update_leg
after e legs = update_leg (label_of e) (change_of e) legs

unfoldable pub run : List LegEvent → Legs → Legs
run [] legs = legs
run (e ∷ es) legs = run es (after e legs)

-- The events of one turn of the loop of a server.
abbrev pub turn : ServerTarget → ℤ → Result Bytes (Unit {0}) → List LegEvent
turn t now result = attempts t.name now ∷ concludes t.name now result ∷ []

abbrev pub Cycles : Type 0
Cycles = ServerTarget → ℕ → Mode → Option Bytes → Result CycleError (Unit {0})

abbrev pub is_ok : {E A : Type 0} → Result E A → Bool
is_ok (ok a) = true
is_ok (err e) = false

-- The number of attempts of a single run.
abbrev pub attempts_of : Bool → ServerTarget → ℕ
attempts_of retry t = if retry then max t.retries 1 else 1

-- What is printed of a server, less its address and the words: its label, and whether its cycle
-- succeeded.
pub record Report : Type 0 where
  pub name : Bytes
  pub reached : Bool

-- The loop over the targets, with the failures so far.
unfoldable pub try_targets :
    Cycles → Mode → Bool → Option Bytes → List ServerTarget → ℕ → List Report × ℕ
try_targets cycle mode retry param [] failures = ([], failures)
try_targets cycle mode retry param (t ∷ ts) failures =
    let reached = is_ok (cycle t (attempts_of retry t) mode param) in
    let (reports, total) =
      try_targets cycle mode retry param ts (if reached then failures else failures + 1) in
    (record { name = t.name; reached = reached } ∷ reports, total)

-- The failures and the number of servers, where a run fails.
pub record RunError : Type 0 where
  pub failures : ℕ
  pub servers : ℕ

unfoldable pub run_targets :
    Cycles
    → Mode
    → Bool
    → Option Bytes
    → List ServerTarget
    → List Report × Result RunError (Unit {0})
unfolding try_targets
run_targets cycle mode retry param targets =
    let (reports, failures) = try_targets cycle mode retry param targets 0 in
    (
      reports,
      (if ltb 0 failures
          then err (record { failures = failures; servers = length targets })
          else ok tt),
    )

unfoldable pub run_once :
    Cycles → Bool → Option Bytes → List ServerTarget → List Report × Result RunError (Unit {0})
unfolding run_targets
run_once cycle retry param targets = run_targets cycle renew retry param targets

unfoldable pub release_all :
    Cycles → Option Bytes → List ServerTarget → List Report × Result RunError (Unit {0})
unfolding run_targets
release_all cycle param targets = run_targets cycle release false param targets

-- The releases on shutdown, with their results: a failure ends nothing.
unfoldable pub send_bye_all : Cycles → List ServerTarget → List (Result CycleError (Unit {0}))
send_bye_all cycle targets = map (λ t. cycle t 1 release none) targets

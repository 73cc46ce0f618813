-- ===== src/Tests/Statuses.antt =====
-- The status of a client and of the daemons, on concrete data.
use signedpulse.Base.{
  false, ℕ, ◌≡◌, refl, true, none, some, List, [], ◌∷◌, ok, err, All, select, pos, ◌-ℤ◌, nat_key,
  bytes_key, ip_key, get, bytes_dec, codes, decimal,
}
use signedpulse.Client.Run.{Leg, Legs, LegEvent, attempts, concludes, run}
use signedpulse.Client.Run.Legs.{concerns, summary, legs_tell_of_own_loop}
use signedpulse.Status.{
  named_signedpulse, System, read_pid, duration_words, refresh_and_read_component,
}
use signedpulse.Status.Signals.{IsTarget, signals_own_daemons}

abbrev leg : Leg
leg = record {
  server_addr = codes "203.0.113.5:7370";
  server_id = codes "main";
  interval_seconds = 300;
  last_attempt_at_unix = none;
  last_success_at_unix = none;
  last_result = codes "pending";
}

abbrev legs : Legs
legs = (codes "main", leg) ∷ (codes "backup", leg) ∷ []

found_leg : get (codes "main") legs ≡ some leg
unfolding get bytes_dec
found_leg = refl

-- The turns of two loops, one within the other.
abbrev turns : List LegEvent
turns =
    attempts (codes "main") (pos 100)
    ∷ attempts (codes "backup") (pos 101)
    ∷ concludes (codes "backup") (pos 101) (err (codes "timed out"))
    ∷ concludes (codes "main") (pos 100) (ok tt)
    ∷ []

legs_tell_of_own_loop_example :
    get (codes "main") (run turns legs)
    ≡ some (summary (select (concerns (codes "main")) turns) leg)
legs_tell_of_own_loop_example = legs_tell_of_own_loop (codes "main") turns legs leg found_leg

pid_of_file : read_pid (some (codes " 4711")) ≡ some (pos 4711)
unfolding read_pid signedpulse.Protocol.Hex.trim
pid_of_file = refl

no_group : read_pid (some (codes "-4711")) ≡ none
unfolding read_pid signedpulse.Protocol.Hex.trim ◌-ℤ◌
no_group = refl

no_overflow : read_pid (some (codes "2147483648")) ≡ none
unfolding read_pid signedpulse.Protocol.Hex.trim
no_overflow = refl

words_of_duration : duration_words (pos 7_980) ≡ codes "2h13m"
unfolding duration_words decimal
words_of_duration = refl

abbrev sys : System ℕ
sys = record {
  is_linux = true;
  file = λ _. some (codes "4711");
  responds = λ _. true;
  exe = λ _. some (codes "/usr/bin/signedpulse-server");
  comm = λ _. none;
  snapshot = λ _. some 7;
}

signals_own_daemons_example :
    All (IsTarget sys) (refresh_and_read_component sys (λ p. p) none (codes "server") none).0
signals_own_daemons_example = signals_own_daemons sys (λ p. p) none (codes "server") none

own_process : named_signedpulse (some (codes "/usr/bin/signedpulse-server")) none ≡ true
unfolding named_signedpulse
own_process = refl

other_process :
    named_signedpulse (some (codes "/usr/signedpulse/bin/sh")) (some (codes "signedpulse")) ≡ false
unfolding named_signedpulse
other_process = refl

-- ===== src/Status/Signals.antt =====
-- Whose process the status command signals, and whose snapshot it reads.
use signedpulse.Base.{
  All-append, ◌≡◌, sym, subst, inl, inr, true, false, not, ◌||◌, Option, none, some, List, [], ◌∷◌,
  arith, Bool-cases, Option-cases, All, Bytes, ℤ, pos, ◌<ℤ◌, nat_key, bytes_key, ip_key,
}
use signedpulse.Status.{
  process_is_signedpulse, named_signedpulse, System, read_pid, process_alive, refresh_and_read,
  or_next, first_live, paths_of, refresh_and_read_component, contains,
}

module _ {S : Type 0} (sys : System S) where
  -- A process that exists and has a positive number, and on Linux also the program's name.
  pub record IsTarget (pid : ℤ) : Type 0 where
    pub single : pos 0 <ℤ pid
    pub alive : sys.responds pid ≡ true
    pub own : (not sys.is_linux || named_signedpulse (sys.exe pid) (sys.comm pid)) ≡ true

  refusal_lem :
      (pid : ℤ)
      → (not (process_alive sys pid) || not (process_is_signedpulse sys pid)) ≡ false
      → IsTarget pid
  unfolding process_alive process_is_signedpulse
  refusal_lem pid h = record {
    single = ground (arith, h);
    alive = ground (arith, h);
    own = ground (arith, h);
  }

  abbrev Signals : List ℤ × Option S → Type 0
  Signals r = All IsTarget r.0

  nobody : (snap : Option S) → Signals ([], snap)
  nobody snap = tt

  somebody : (pid : ℤ) (snap : Option S) → IsTarget pid → Signals (pid ∷ [], snap)
  somebody pid snap h = (h, tt)

  along : (r t : List ℤ × Option S) → r ≡ t → Signals t → Signals r
  along r t e h = subst Signals (sym e) h

  one_signal : (sp pp : Bytes) → Signals (refresh_and_read sys sp pp)
  unfolding refresh_and_read
  one_signal sp pp = elim (Option-cases (read_pid (sys.file pp))) [
    | inl gone ↦ along (refresh_and_read sys sp pp) ([], none) (ground (arith, gone)) (nobody none)
    | inr (pid, found) ↦
        elim (Bool-cases (not (process_alive sys pid) || not (process_is_signedpulse sys pid))) [
          | inl refused ↦
              along (refresh_and_read sys sp pp) ([], none) (ground (arith, found, refused))
                (nobody none)
          | inr open_to ↦
              along (refresh_and_read sys sp pp) (pid ∷ [], sys.snapshot sp)
                (ground (arith, found, open_to))
                (somebody pid (sys.snapshot sp) (refusal_lem pid open_to))
        ]
  ]

  next_targets :
      (r next : List ℤ × Option S)
      → All IsTarget r.0
      → All IsTarget next.0
      → All IsTarget (or_next sys r next).0
  next_targets (pids, some snap) next h h' = h
  next_targets (pids, none) (more, found) h h' = All-append IsTarget pids more h h'

  loop_targets :
      (pid_path : Bytes → Bytes) (paths : List Bytes)
      → All IsTarget (first_live sys pid_path paths).0
  unfolding first_live
  loop_targets pid_path [] = tt
  loop_targets pid_path (sp ∷ paths) =
      next_targets (refresh_and_read sys sp (pid_path sp)) (first_live sys pid_path paths)
        (one_signal sp (pid_path sp)) (loop_targets pid_path paths)

  -- Whatever the PID files hold, the status command sends its signal only to single processes,
  -- never to a group, that exist and, on Linux, bear the program's name. On other platforms the
  -- name is not checked.
  pub signals_own_daemons :
      (pid_path : Bytes → Bytes) (xdg : Option Bytes) (component : Bytes)
      (configured : Option Bytes)
      → All IsTarget (refresh_and_read_component sys pid_path xdg component configured).0
  unfolding refresh_and_read_component
  signals_own_daemons pid_path xdg component configured =
      loop_targets pid_path (paths_of sys configured xdg component)

  -- The snapshot is that of a path that is looked at, whose PID file names such a process.
  pub record IsLive (pid_path : Bytes → Bytes) (paths : List Bytes) (snap : S) : Type 0 where
    pub path : Bytes
    pub pid : ℤ
    pub listed : contains path paths ≡ true
    pub holds : sys.snapshot path ≡ some snap
    pub named : read_pid (sys.file (pid_path path)) ≡ some pid
    pub target : IsTarget pid

  later :
      {pid_path : Bytes → Bytes} {sp : Bytes} {paths : List Bytes} {snap : S}
      → IsLive pid_path paths snap
      → IsLive pid_path (sp ∷ paths) snap
  later v = record {
    path = v.path;
    pid = v.pid;
    listed = ground (arith, v.listed);
    holds = v.holds;
    named = v.named;
    target = v.target;
  }

  read_live :
      (sp pp : Bytes) (snap : S)
      → (refresh_and_read sys sp pp).1 ≡ some snap
      → (pid : ℤ) × (sys.snapshot sp ≡ some snap)
        × (read_pid (sys.file pp) ≡ some pid)
        × IsTarget pid
  unfolding refresh_and_read
  read_live sp pp snap h = elim (Option-cases (read_pid (sys.file pp))) [
    | inl gone ↦ absurd (ground (arith, gone, h))
    | inr (pid, found) ↦
        elim (Bool-cases (not (process_alive sys pid) || not (process_is_signedpulse sys pid))) [
          | inl refused ↦ absurd (ground (arith, found, h, refused))
          | inr open_to ↦ (pid, ground (arith, found, h, open_to), found, refusal_lem pid open_to)
        ]
  ]

  loop_live :
      (pid_path : Bytes → Bytes) (paths : List Bytes) (snap : S)
      → (first_live sys pid_path paths).1 ≡ some snap
      → IsLive pid_path paths snap
  unfolding first_live
  loop_live pid_path [] snap h = absurd (ground (arith, h))
  loop_live pid_path (sp ∷ paths) snap h =
      elim (Option-cases (refresh_and_read sys sp (pid_path sp)).1) [
        | inl nothing ↦ later (loop_live pid_path paths snap (ground (arith, h, nothing)))
        | inr (found, here) ↦
            let (pid, holds, named, target) =
              read_live sp (pid_path sp) snap (ground (arith, h, here)) in
            record {
              path = sp;
              pid = pid;
              listed = ground arith;
              holds = holds;
              named = named;
              target = target;
            }
      ]

  -- A snapshot that the status command shows is read from a path that it looks at, the PID file of
  -- which names a process that exists and, on Linux, bears the program's name.
  pub snapshot-IsLive :
      (pid_path : Bytes → Bytes) (xdg : Option Bytes) (component : Bytes)
      (configured : Option Bytes) (snap : S)
      → (refresh_and_read_component sys pid_path xdg component configured).1 ≡ some snap
      → IsLive pid_path (paths_of sys configured xdg component) snap
  unfolding refresh_and_read_component
  snapshot-IsLive pid_path xdg component configured snap h =
      loop_live pid_path (paths_of sys configured xdg component) snap h

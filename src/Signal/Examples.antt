-- ===== src/Signal/Examples.antt =====
-- The properties of signals at concrete inputs.
use kum_os.Base.{refl, true, false, List, ◌∷◌, set, replicate}
use kum_os.Sched.{Sched, sched_init}
use kum_os.Signal.{SigSet, no_signals, nsig, sigint, sigterm, signal_check}
use kum_os.Signal.Check.{Checked, signal_check_lem}

abbrev booted : Sched
booted = sched_init 1 4096

-- SIGINT has a handler, SIGTERM ends the task, signal 20 comes too late.
abbrev three_pending : List SigSet
three_pending =
    record no_signals {
      pending = set (set (set (replicate nsig false) sigint true) sigterm true) 20 true;
      handlers = set (replicate nsig 0) sigint 4096;
    }
    ∷ replicate 15 no_signals

signal_check_lem_example : Checked 7 booted three_pending (signal_check 7 booted three_pending)
signal_check_lem_example = signal_check_lem 7 booted three_pending refl

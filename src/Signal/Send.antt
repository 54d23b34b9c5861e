-- ===== src/Signal/Send.antt =====
-- What signal_send does with SIGKILL.
use kum_os.Base.{ap, ◌∙◌, sym, ℕ, ◌≡◌, some, List, pos, ℤ, failed}
use kum_os.Sched.{Sched, sched_get_task, sched_exit_code}
use kum_os.Signal.{SigSet, sigkill, signal_send, send_found}

-- Sent to two tasks that sched_get_task finds, SIGKILL has the same effect, whichever of the two it
-- is sent to: the current task ends with code -1.
pub kill_ignores_pid :
    (now : ℕ) (s : Sched) (sets : List SigSet) (pid pid' : ℤ) (k k' : ℕ)
    → sched_get_task s pid ≡ some k
    → sched_get_task s pid' ≡ some k'
    → (signal_send now s sets pid (pos sigkill) ≡ signal_send now s sets pid' (pos sigkill))
      × ((signal_send now s sets pid (pos sigkill)).1 ≡ (sched_exit_code now s failed).0)
unfolding signal_send send_found
kill_ignores_pid now s sets pid pid' k k' e e' =
    (ended pid k e ∙ sym (ended pid' k' e'), ap (λ r. r.1) (ended pid k e))
  where
    ended :
        (p : ℤ) (j : ℕ)
        → sched_get_task s p ≡ some j
        → send_found now s sets sigkill (sched_get_task s p)
          ≡ (pos 0, (sched_exit_code now s failed).0, sets, (sched_exit_code now s failed).1)
    ended p j q = ap (send_found now s sets sigkill) q

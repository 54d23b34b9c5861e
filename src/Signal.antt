-- ===== src/Signal.antt =====
-- src/signal.c and src/signal.h. The words `pending` and `blocked` are lists of their 32 bits, the
-- lowest first; a handler is its address, SIG_DFL 0 and SIG_IGN 1. A handler's call is an entry of a
-- list: what it does is not modelled.
pub mod Check
pub mod Slots
pub mod Send
pub mod Examples
use kum_os.Base.{
  ℕ, zero, suc, ◌+◌, ◌-◌, ◌<◌, Bool, true, false, not, ◌&&◌, ◌||◌, Option, none, some, List, [],
  ◌∷◌, ◌++◌, if◌then◌else◌, ltb, leb, ◌==◌, get_or, set, replicate, ℤ, pos, negsuc, failed,
}
use kum_os.Sched.{
  Sched, Task, task, current, blank, max_tasks, zombie, sched_get_task, sched_exit_code,
}

abbrev pub nsig : ℕ
nsig = 32

abbrev pub sigint : ℕ
sigint = 2

abbrev pub sigkill : ℕ
sigkill = 9

abbrev pub sigterm : ℕ
sigterm = 15

abbrev pub sigchld : ℕ
sigchld = 17

abbrev pub sigcont : ℕ
sigcont = 18

abbrev pub sig_dfl : ℕ
sig_dfl = 0

abbrev pub sig_ign : ℕ
sig_ign = 1

-- sigset_t
pub record SigSet : Type 0 where
  pub pending : List Bool
  pub blocked : List Bool
  pub handlers : List ℕ

abbrev pub bit : List Bool → ℕ → Bool
bit bits sig = get_or bits sig false

pub no_signals : SigSet
no_signals = record {
  pending = replicate nsig false;
  blocked = replicate nsig false;
  handlers = replicate nsig 0;
}

pub signal_init : List SigSet
signal_init = replicate max_tasks no_signals

abbrev pub sigset : List SigSet → ℕ → SigSet
sigset sets i = get_or sets i no_signals

-- `pending & ~blocked`
pub unblocked : List Bool → List Bool → List Bool
unblocked [] blocked = []
unblocked (p ∷ ps) [] = p ∷ ps
unblocked (p ∷ ps) (b ∷ bs) = (p && not b) ∷ unblocked ps bs

-- The loop over the slots from i on that looks for a pid; 0 if it finds none.
pub slot_from : ℕ → ℕ → Sched → ℕ → ℕ
slot_from zero i s pid = 0
slot_from (suc rounds) i s pid =
    let rest = slot_from rounds (i + 1) s pid in
    elim (sched_get_task s (pos (i + 1))) [
      | none ↦ rest
      | some k ↦ if (task s k).pid == pid then i else rest
    ]

pub slot_of : Sched → ℕ → ℕ
slot_of s pid = slot_from max_tasks 0 s pid

-- `sig <= 0 || sig >= NSIG`
abbrev pub signal_of : ℤ → Option ℕ
signal_of (pos n) = if n == 0 then none else if leb nsig n then none else some n
signal_of (negsuc n) = none

abbrev pub with_pending : SigSet → ℕ → SigSet
with_pending g sig = record g { pending = set g.pending sig true }

abbrev ends_task : ℕ → Bool
ends_task sig = sig == sigint || sig == sigterm

-- signal_send of a signal n that exists, once sched_get_task has been asked for the pid.
pub send_found : ℕ → Sched → List SigSet → ℕ → Option ℕ → ℤ × Sched × List SigSet × List ℕ
send_found now s sets n none = (failed, s, sets, [])
send_found now s sets n (some k) =
    let (killed, freed) = sched_exit_code now s failed in
    let idx = slot_of s (task s k).pid in
    let marked = set sets idx (with_pending (sigset sets idx) n) in
    let ended = record s { tasks = set s.tasks k (record (task s k) { state = zombie }) } in
    if n == sigkill
    then (pos 0, killed, sets, freed)
    else (pos 0, if ends_task n then ended else s, marked, [])

-- The result, the tasks, the signals and what was given to kfree.
pub signal_send : ℕ → Sched → List SigSet → ℤ → ℤ → ℤ × Sched × List SigSet × List ℕ
signal_send now s sets pid sig = elim (signal_of sig) [
  | none ↦ (failed, s, sets, [])
  | some n ↦ send_found now s sets n (sched_get_task s pid)
]

pub signal_set_handler : Sched → List SigSet → ℤ → ℕ → ℤ × List SigSet
signal_set_handler s sets sig handler = elim (signal_of sig) [
  | none ↦ (failed, sets)
  | some n ↦
      let idx = slot_of s (current s).pid in
      let g = sigset sets idx in
      (pos 0, set sets idx (record g { handlers = set g.handlers n handler }))
]

-- Whether the loop of signal_check ends the task for a signal that is pending.
abbrev pub is_default : SigSet → ℕ → Bool
is_default g sig = get_or g.handlers sig 0 == sig_dfl

abbrev pub is_harmless : ℕ → Bool
is_harmless sig = sig == sigchld || sig == sigcont

-- The loop of signal_check from `sig` on: the signals that are left pending, the handlers called
-- with their signals, and the signal that ends the task, if one does.
pub check_loop : ℕ → ℕ → List Bool → SigSet → SigSet × List (ℕ × ℕ) × Option ℕ
check_loop zero sig pending g = (g, [], none)
check_loop (suc rounds) sig pending g =
    let cleared = record g { pending = set g.pending sig false } in
    let h = get_or g.handlers sig 0 in
    let skip = check_loop rounds (sig + 1) pending g in
    let (g', calls, end) = check_loop rounds (sig + 1) pending cleared in
    if not (bit pending sig)
    then skip
    else if h == sig_ign
    then (g', calls, end)
    else if h == sig_dfl
    then if is_harmless sig then (g', calls, end) else (cleared, [], some sig)
    else (g', (h, sig) ∷ calls, end)

-- What signal_check does with the loop's results.
pub checked :
    ℕ
    → Sched
    → List SigSet
    → SigSet × List (ℕ × ℕ) × Option ℕ
    → Sched × List SigSet × List (ℕ × ℕ) × List ℕ
checked now s sets (g', calls, end) =
    let sets' = set sets (slot_of s (current s).pid) g' in
    elim end [
      | none ↦ (s, sets', calls, [])
      | some sig ↦
          let (s', freed) = sched_exit_code now s (pos (128 + sig)) in (s', sets', calls, freed)
    ]

-- The tasks, the signals, the calls of handlers and what was given to kfree.
pub signal_check : ℕ → Sched → List SigSet → Sched × List SigSet × List (ℕ × ℕ) × List ℕ
signal_check now s sets =
    let g = sigset sets (slot_of s (current s).pid) in
    checked now s sets (check_loop 31 1 (unblocked g.pending g.blocked) g)

pub any : List Bool → Bool
any [] = false
any (b ∷ bs) = b || any bs

pub signal_pending : Sched → List SigSet → Bool
signal_pending s sets =
    let g = sigset sets (slot_of s (current s).pid) in any (unblocked g.pending g.blocked)

-- ===== src/Signal/Slots.antt =====
-- The slot of a pid in the table of signals.
use kum_os.Base.{ℕ, zero, suc, ◌+◌, ◌<◌, inl, inr, arith, ◌==◌, Bool-cases, Option-cases, pos}
use kum_os.Sched.{Sched, task, max_tasks, sched_get_task}
use kum_os.Signal.{slot_from, slot_of}

slot_from_fits :
    (rounds i : ℕ) (s : Sched) (pid : ℕ) → 0 < i + rounds → slot_from rounds i s pid < i + rounds
unfolding slot_from
slot_from_fits zero i s pid h = omega arith
slot_from_fits (suc n) i s pid h = elim (Option-cases (sched_get_task s (pos (i + 1)))) [
  | inl e ↦ rw (slot_from, e) (omega (arith, slot_from_fits n (i + 1) s pid (omega arith)))
  | inr (k, e) ↦ elim (Bool-cases ((task s k).pid == pid)) [
    | inl y ↦ rw (slot_from, e, y) (omega arith)
    | inr n' ↦ rw (slot_from, e, n') (omega (arith, slot_from_fits n (i + 1) s pid (omega arith)))
  ]
]

pub slot_of_fits : (s : Sched) (pid : ℕ) → slot_of s pid < max_tasks
unfolding slot_of
slot_of_fits s pid = slot_from_fits max_tasks 0 s pid (omega arith)

-- ===== src/Sched/Switch/Steps.antt =====
-- Every sequence of calls of sched.c and timer ticks, from sched_init on.
use native.Mathlib.Decide.{dec_lt}
use kum_os.Base.{
  ℕ, zero, suc, ◌+◌, ◌-◌, ◌≤◌, ◌<◌, ◌≡◌, inl, inr, refl, ap, ◌∙◌, Bool, false, some, List, [], ◌∷◌,
  arith, leb, ◌==◌, ◌&&◌, not, Bool-cases, Option-cases, length, get_or, set, take, length-take,
  length-set, find_index, find_index-lt, find_index-first, ℤ, eqb_ℤ, get_or-replicate, replicate,
  length-replicate, length-append, ◌++◌,
}
use kum_os.Sched.{
  Task, Sched, blank, task, sched_yield, sched_tick, sched_spawn, sched_init, kshell, idle_task,
  put_task, spawned, is_spawn_slot, is_over, is_dead, exit_current, sched_exit_code, sched_sleep,
  waitpid_round, wait_round, dead, max_tasks,
}
use kum_os.Sched.Switch.{Inv, task_after, set-Inv, is_running, sched_yield-Inv, sched_tick-Inv}

-- The slot that sched_spawn takes is not beyond the first one that was never used.
spawn-slot-le :
    (s : Sched) (slot : ℕ)
    → Inv s
    → find_index is_spawn_slot s.tasks ≡ some slot
    → slot ≤ s.task_count
spawn-slot-le s slot v e = elim (dec_lt s.task_count slot) [
  | yes l ↦ ground (
    arith,
    find_index-first is_spawn_slot s.tasks slot s.task_count blank e l,
    v.beyond s.task_count,
  )
  | no n ↦ omega arith
]

put_task-Inv :
    (s : Sched) (slot stack : ℕ) (name : List ℕ) (kum_level : ℤ)
    → Inv s
    → slot ≤ s.task_count
    → slot < max_tasks
    → Inv (put_task s slot stack name kum_level)
put_task-Inv s slot stack name kum_level v h m = record {
  size = omega (arith, v.size, length-set s.tasks slot new);
  bound = ground (arith, v.bound);
  current_in = ground (arith, v.current_in);
  beyond = λ j hj. elim (task_after s.tasks slot j new slot_in) [
    | inl (e, now) ↦ absurd (ground arith)
    | inr (n, now) ↦ rw now (v.beyond j (ground arith))
  ];
  only_current = λ j hj n. elim (task_after s.tasks slot j new slot_in) [
    | inl (e, now) ↦ rw now refl
    | inr (k, now) ↦ rw now (v.only_current j (ground arith) n)
  ];
}
  where
    new : Task
    new = spawned s (task s slot) stack name kum_level

    slot_in : slot < length s.tasks
    slot_in = omega (arith, v.size)

pub sched_spawn-Inv :
    (s : Sched) (stack : ℕ) (name : List ℕ) (kum_level : ℤ)
    → Inv s
    → Inv (sched_spawn s stack name kum_level).1
unfolding sched_spawn
sched_spawn-Inv s stack name kum_level v = elim (Bool-cases (leb max_tasks s.task_count)) [
  | inl full ↦ rw full v
  | inr room ↦ elim (Bool-cases (stack == 0)) [
    | inl no_stack ↦ rw (room, no_stack) v
    | inr some_stack ↦ elim (Option-cases (find_index is_spawn_slot s.tasks)) [
      | inl e ↦
          rw (sched_spawn, room, some_stack, e, room)
            (put_task-Inv s s.task_count stack name kum_level v (omega arith) (ground arith))
      | inr (slot, e) ↦
          rw (sched_spawn, room, some_stack, e)
            (put_task-Inv s slot stack name kum_level v (spawn-slot-le s slot v e)
              (omega (arith, find_index-lt is_spawn_slot s.tasks slot e, v.size)))
    ]
  ]
]

exit_current-Inv : (s : Sched) (code : ℤ) → Inv s → Inv (exit_current s code).0
unfolding exit_current
exit_current-Inv s code v = set-Inv s s.current_idx _ v v.current_in (inl refl)

-- A task among the first ones is in the table.
taken_in :
    (p : Task → Bool) (s : Sched) (i : ℕ)
    → find_index p (take s.task_count s.tasks) ≡ some i
    → i < s.task_count
taken_in p s i e =
    omega (arith, find_index-lt p (take s.task_count s.tasks) i e, length-take s.task_count s.tasks)

bury-Inv :
    (s : Sched) (i : ℕ)
    → Inv s
    → i < s.task_count
    → Inv (record s { tasks = set s.tasks i (record (task s i) { state = dead }) })
bury-Inv s i v h = set-Inv s i _ v h (inr refl)

pub waitpid-Inv : (s : Sched) (pid : ℤ) → Inv s → Inv (waitpid_round s pid).1
unfolding waitpid_round
waitpid-Inv s pid v =
    elim (Option-cases (find_index (λ t. eqb_ℤ pid t.pid) (take s.task_count s.tasks))) [
      | inl e ↦ rw (waitpid_round, e) v
      | inr (i, e) ↦ elim (Bool-cases (is_over (task s i))) [
        | inl over ↦
            rw (waitpid_round, e, over) (bury-Inv s i v (taken_in (λ t. eqb_ℤ pid t.pid) s i e))
        | inr on ↦ rw (waitpid_round, e, on) v
      ]
    ]

abbrev ended_child : ℕ → Task → Bool
ended_child my_pid t = t.parent_pid == my_pid && is_over t

abbrev undead_child : ℕ → Task → Bool
undead_child my_pid t = t.parent_pid == my_pid && not (is_dead t)

wait-Inv : (s : Sched) (my_pid : ℕ) → Inv s → Inv (wait_round s my_pid).1
unfolding wait_round
wait-Inv s my_pid v =
    elim (Option-cases (find_index (ended_child my_pid) (take s.task_count s.tasks))) [
      | inl e ↦ elim (Option-cases (find_index (undead_child my_pid) (take s.task_count s.tasks))) [
        | inl f ↦ rw (wait_round, e, f) v
        | inr (j, f) ↦ rw (wait_round, e, f) v
      ]
      | inr (i, e) ↦ rw (wait_round, e) (bury-Inv s i v (taken_in (ended_child my_pid) s i e))
    ]

-- What a running system does to the table: the timer ticks, and the running task calls sched.c.
pub data Step : Sched → Sched → Type 0 where
  tick : (now : ℕ) (s : Sched) → Step s (sched_tick now s)
  yield_cpu : (now : ℕ) (s : Sched) → Step s (sched_yield now s)
  sleep : (now ms : ℕ) (s : Sched) → Step s (sched_sleep now s ms)
  exit : (now : ℕ) (code : ℤ) (s : Sched) → Step s (sched_exit_code now s code).0
  spawn :
      (stack : ℕ) (name : List ℕ) (kum_level : ℤ) (s : Sched)
      → Step s (sched_spawn s stack name kum_level).1
  wait_pid : (pid : ℤ) (s : Sched) → Step s (waitpid_round s pid).1
  wait : (my_pid : ℕ) (s : Sched) → Step s (wait_round s my_pid).1

pub data Reaches (s : Sched) : Sched → Type 0 where
  here : Reaches s s
  next : {t u : Sched} → Reaches s t → Step t u → Reaches s u

Step-Inv : {s t : Sched} → Step s t → Inv s → Inv t
unfolding sched_sleep sched_exit_code
Step-Inv (tick now s) v = sched_tick-Inv now s v
Step-Inv (yield_cpu now s) v = sched_yield-Inv now s v
Step-Inv (sleep now ms s) v =
    sched_yield-Inv now _ (set-Inv s s.current_idx _ v v.current_in (inl refl))
Step-Inv (exit now code s) v = sched_yield-Inv now _ (exit_current-Inv s code v)
Step-Inv (spawn stack name kum_level s) v = sched_spawn-Inv s stack name kum_level v
Step-Inv (wait_pid pid s) v = waitpid-Inv s pid v
Step-Inv (wait my_pid s) v = wait-Inv s my_pid v

blank_after : (n j : ℕ) → (get_or (replicate n blank) j blank).pid ≡ 0
unfolding blank
blank_after n j = ap (λ (t : Task). t.pid) (get_or-replicate n j blank)

-- The first n tasks of a table whose other entries are blank.
fresh-Inv :
    (s : Sched) (first : List Task)
    → s.tasks ≡ first ++ replicate (16 - length first) blank
    → s.task_count ≡ length first
    → length first ≤ 16
    → s.current_idx ≡ 0
    → 0 < length first
    → ((j : ℕ) → 0 < j → j < length first → is_running (get_or first j blank) ≡ false)
    → Inv s
fresh-Inv s first e n h c p quiet = record {
  size =
      ap length e
      ∙ omega (
        arith,
        length-append first (replicate (16 - length first) blank),
        length-replicate (16 - length first) blank,
      );
  bound = omega arith;
  current_in = omega arith;
  beyond = λ j hj. ap (λ (ts : List Task). (get_or ts j blank).pid) e ∙ past first j (omega arith);
  only_current = λ j hj k.
      ap (λ (ts : List Task). is_running (get_or ts j blank)) e
      ∙ ap (λ (t : Task). is_running t) (within first j (omega arith))
      ∙ quiet j (omega arith) (omega arith);
}
  where
    past :
        (ts : List Task) (j : ℕ)
        → length ts ≤ j
        → (get_or (ts ++ replicate (16 - length first) blank) j blank).pid ≡ 0
    past [] j l = blank_after (16 - length first) j
    past (t ∷ ts) zero l = absurd (omega arith)
    past (t ∷ ts) (suc j) l = past ts j (omega arith)

    within :
        (ts : List Task) (j : ℕ)
        → j < length ts
        → get_or (ts ++ replicate (16 - length first) blank) j blank ≡ get_or ts j blank
    within [] j l = absurd (omega arith)
    within (t ∷ ts) zero l = refl
    within (t ∷ ts) (suc j) l = within ts j (omega arith)

sched_init-Inv : (first idle_stack : ℕ) → Inv (sched_init first idle_stack)
unfolding sched_init
sched_init-Inv first idle_stack = elim (Bool-cases (idle_stack == 0)) [
  | inl e ↦ rw e (
      fresh-Inv _ (kshell first ∷ []) refl refl (omega arith) refl (omega arith)
        (λ j p h. absurd (omega arith)))
  | inr e ↦ rw e (
      fresh-Inv _ (kshell first ∷ idle_task (first + 1) idle_stack ∷ []) refl refl (omega arith)
        refl (omega arith) idle_is_ready)
]
  where
    idle_is_ready :
        (j : ℕ)
        → 0 < j
        → j < 2
        → is_running (get_or (kshell first ∷ idle_task (first + 1) idle_stack ∷ []) j blank) ≡ false
    idle_is_ready zero p h = absurd (omega arith)
    idle_is_ready (suc zero) p h = refl
    idle_is_ready (suc (suc j)) p h = absurd (omega arith)

-- From sched_init on, whatever calls and ticks follow, the table has sixteen entries, the current
-- index is in its used part, which pids mark, and no task but the current one is marked RUNNING.
pub Reaches-Inv :
    (first idle_stack : ℕ) {s : Sched} → Reaches (sched_init first idle_stack) s → Inv s
Reaches-Inv first idle_stack here = sched_init-Inv first idle_stack
Reaches-Inv first idle_stack (next r st) = Step-Inv st (Reaches-Inv first idle_stack r)

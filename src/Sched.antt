-- ===== src/Sched.antt =====
-- src/sched.c and src/sched.h: the round-robin scheduler.
-- Parameters: `now` is timer_ticks(), `stack` is what kmalloc returns (0 on failure). What is passed
-- to kfree is returned as a list. The saved stack pointer, the frame that task_setup_stack builds
-- and switch_context are not modelled: a switch is the change of current_idx.
pub mod Pick
pub mod Switch
pub mod Tasks
pub mod Examples
use kum_os.Base.{
  ℕ, zero, suc, ◌+◌, ◌*◌, ◌/◌, ◌%◌, Bool, true, false, not, ◌&&◌, ◌||◌, Option, none, some, List,
  [], ◌∷◌, if◌then◌else◌, ltb, leb, ◌==◌, get_or, set, take, replicate, find_index, length, ℤ, pos,
  negsuc, failed, eqb_ℤ, add32, mul32,
}

-- task_state_t
pub data TaskState : Type 0 where
  running ready sleeping dead zombie : TaskState

abbrev pub max_tasks : ℕ
max_tasks = 16

abbrev pub quantum : ℕ
quantum = 10

abbrev pub stack_bytes : ℕ
stack_bytes = 4096

-- task_t, without the register context and the fields that sched.c does not use. A stack is its
-- address, 0 if there is none.
pub record Task : Type 0 where
  pub stack : ℕ
  pub stack_size : ℕ
  pub state : TaskState
  pub pid : ℕ
  pub parent_pid : ℕ
  pub exit_code : ℤ
  pub name : List ℕ
  pub ticks : ℕ
  pub sleep_until : ℕ
  pub kum_level : ℤ

pub record Sched : Type 0 where
  pub tasks : List Task
  pub task_count : ℕ
  pub current_idx : ℕ
  pub next_pid : ℕ
  pub tick_accum : ℕ

-- A task after kmemset to 0: TASK_RUNNING is 0.
unfoldable pub blank : Task
blank = record {
  stack = 0;
  stack_size = 0;
  state = running;
  pid = 0;
  parent_pid = 0;
  exit_code = pos 0;
  name = [];
  ticks = 0;
  sleep_until = 0;
  kum_level = pos 0;
}

abbrev pub task : Sched → ℕ → Task
task s i = get_or s.tasks i blank

abbrev pub current : Sched → Task
current s = task s s.current_idx

abbrev pub is_sleeping : Task → Bool
is_sleeping t = elim t.state [
  | running ↦ false
  | ready ↦ false
  | sleeping ↦ true
  | dead ↦ false
  | zombie ↦ false
]

-- READY or RUNNING
abbrev pub is_runnable : Task → Bool
is_runnable t = elim t.state [
  | running ↦ true
  | ready ↦ true
  | sleeping ↦ false
  | dead ↦ false
  | zombie ↦ false
]

-- ZOMBIE or DEAD
abbrev pub is_over : Task → Bool
is_over t = elim t.state [
  | running ↦ false
  | ready ↦ false
  | sleeping ↦ false
  | dead ↦ true
  | zombie ↦ true
]

abbrev pub is_dead : Task → Bool
is_dead t = elim t.state [
  | running ↦ false
  | ready ↦ false
  | sleeping ↦ false
  | dead ↦ true
  | zombie ↦ false
]

abbrev pub kshell_name : List ℕ
kshell_name = 107 ∷ 115 ∷ 104 ∷ 101 ∷ 108 ∷ 108 ∷ []

abbrev pub idle_name : List ℕ
idle_name = 105 ∷ 100 ∷ 108 ∷ 101 ∷ []

abbrev pub kshell : ℕ → Task
kshell pid = record blank { pid = pid; state = running; kum_level = pos 1; name = kshell_name }

abbrev pub idle_task : ℕ → ℕ → Task
idle_task pid stack = record blank {
  pid = pid;
  state = ready;
  stack = stack;
  stack_size = stack_bytes;
  kum_level = pos 1;
  name = idle_name;
}

-- sched_init, called with the pid counter at `next_pid`.
unfoldable pub sched_init : ℕ → ℕ → Sched
unfolding blank
sched_init next_pid idle_stack =
    if idle_stack == 0
    then record {
      tasks = kshell next_pid ∷ replicate 15 blank;
      task_count = 1;
      current_idx = 0;
      next_pid = next_pid + 1;
      tick_accum = 0;
    }
    else record {
      tasks = kshell next_pid ∷ idle_task (next_pid + 1) idle_stack ∷ replicate 14 blank;
      task_count = 2;
      current_idx = 0;
      next_pid = next_pid + 2;
      tick_accum = 0;
    }

-- `tasks[i].state == TASK_SLEEPING && timer_ticks() >= tasks[i].sleep_until`: READY again.
abbrev pub wake : ℕ → Task → Task
wake now t = if is_sleeping t && leb t.sleep_until now then record t { state = ready } else t

-- The loop of pick_next from index i on; `fuel` bounds the rounds.
pub pick_loop : ℕ → ℕ → ℕ → ℕ → List Task → ℕ → ℕ × List Task
unfolding blank
pick_loop zero now count start ts i = (0, ts)
pick_loop (suc fuel) now count start ts i =
    let t = wake now (get_or ts i blank) in
    let ts' = set ts i t in
    let i' = (i + 1) % count in
    let rest = pick_loop fuel now count start ts' i' in
    if is_runnable t then (i, ts') else if i' == start then (0, ts') else rest

pub pick_next : ℕ → Sched → ℕ × Sched
pick_next now s =
    let start = (s.current_idx + 1) % s.task_count in
    let (i, ts) = pick_loop s.task_count now s.task_count start s.tasks start in
    (i, record s { tasks = ts })

abbrev pub yielded : Task → Task
yielded t = elim t.state [
  | running ↦ record t { state = ready }
  | ready ↦ t
  | sleeping ↦ t
  | dead ↦ t
  | zombie ↦ t
]

-- The switch in sched_yield and sched_tick, to a task other than the current one.
pub switch_to : Sched → ℕ → Sched
unfolding blank
switch_to s next =
    let ts = set s.tasks s.current_idx (yielded (get_or s.tasks s.current_idx blank)) in
    record s {
      tasks = set ts next (record (get_or ts next blank) { state = running });
      current_idx = next;
    }

pub sched_yield : ℕ → Sched → Sched
sched_yield now s =
    let (next, s') = pick_next now s in if next == s'.current_idx then s' else switch_to s' next

-- `for (i = 0; i < task_count; i++)` over the first n tasks.
pub wake_all : ℕ → ℕ → List Task → List Task
wake_all now zero ts = ts
wake_all now (suc n) [] = []
wake_all now (suc n) (t ∷ ts) = wake now t ∷ wake_all now n ts

pub sched_tick : ℕ → Sched → Sched
unfolding blank
sched_tick now s =
    let t = get_or s.tasks s.current_idx blank in
    let ts = set s.tasks s.current_idx (record t { ticks = add32 t.ticks 1 }) in
    let s' = record s { tasks = wake_all now s.task_count ts; tick_accum = add32 s.tick_accum 1 } in
    if leb quantum s'.tick_accum then sched_yield now (record s' { tick_accum = 0 }) else s'

abbrev pub is_spawn_slot : Task → Bool
is_spawn_slot t = is_over t || t.pid == 0

abbrev pub spawned : Sched → Task → ℕ → List ℕ → ℤ → Task
spawned s old stack name kum_level = record old {
  pid = s.next_pid;
  state = ready;
  stack = stack;
  stack_size = stack_bytes;
  ticks = 0;
  exit_code = pos 0;
  kum_level = kum_level;
  parent_pid = (current s).pid;
  name = name;
}

abbrev pub put_task : Sched → ℕ → ℕ → List ℕ → ℤ → Sched
put_task s slot stack name kum_level = record s {
  tasks = set s.tasks slot (spawned s (task s slot) stack name kum_level);
  next_pid = s.next_pid + 1;
  task_count = if leb s.task_count slot then slot + 1 else s.task_count;
}

-- The result, the new state, and what was given back to kfree.
pub sched_spawn : Sched → ℕ → List ℕ → ℤ → ℤ × Sched × List ℕ
sched_spawn s stack name kum_level =
    if leb max_tasks s.task_count
    then (failed, s, [])
    else if stack == 0
    then (failed, s, [])
    else elim (find_index is_spawn_slot s.tasks) [
      | some slot ↦ (pos s.next_pid, put_task s slot stack name kum_level, [])
      | none ↦
          if leb max_tasks s.task_count
          then (failed, s, stack ∷ [])
          else (pos s.next_pid, put_task s s.task_count stack name kum_level, [])
    ]

-- A loop `i < task_count` reaches `take s.task_count s.tasks`.
abbrev pub is_live_pid : ℕ → Task → Bool
is_live_pid pid t = t.pid == pid && not (is_over t)

-- sched_exit_code up to the final sched_yield: the state, and what was given to kfree.
pub exit_current : Sched → ℤ → Sched × List ℕ
exit_current s code =
    let t = current s in
    let end =
      elim (find_index (is_live_pid t.parent_pid) (take s.task_count s.tasks)) as (λ _. TaskState) [
        | some _ ↦ zombie
        | none ↦ dead
      ] in
    (
      record s {
        tasks = set s.tasks s.current_idx (record t { exit_code = code; state = end; stack = 0 });
      },
      if t.stack == 0 then [] else t.stack ∷ [],
    )

pub sched_exit_code : ℕ → Sched → ℤ → Sched × List ℕ
unfolding exit_current
sched_exit_code now s code = let (s', freed) = exit_current s code in (sched_yield now s', freed)

pub sched_sleep : ℕ → Sched → ℕ → Sched
sched_sleep now s ms = sched_yield now (record s {
  tasks =
      set s.tasks s.current_idx
        (record (current s) { state = sleeping; sleep_until = add32 now (mul32 ms 100 / 1000) });
})

unfoldable pub sched_get_task : Sched → ℤ → Option ℕ
sched_get_task s pid =
    find_index (λ t. eqb_ℤ pid t.pid && not (is_dead t)) (take s.task_count s.tasks)

-- One round of the loop of sched_waitpid: it returns a code, or calls sched_yield and goes round.
pub data Wait : Type 0 where
  reaped : ℤ → Wait
  again : Wait

pub waitpid_round : Sched → ℤ → Wait × Sched
waitpid_round s pid = elim (find_index (λ t. eqb_ℤ pid t.pid) (take s.task_count s.tasks)) [
  | none ↦ (reaped (pos 0), s)
  | some i ↦
      if is_over (task s i)
      then (
        reaped (task s i).exit_code,
        record s { tasks = set s.tasks i (record (task s i) { state = dead }) },
      )
      else (again, s)
]

-- One round of the loop of sched_wait: a child's pid and code, -1, or another round.
pub data WaitAny : Type 0 where
  child : ℕ → ℤ → WaitAny
  no_children : WaitAny
  round_again : WaitAny

pub wait_round : Sched → ℕ → WaitAny × Sched
wait_round s my_pid =
    elim (find_index (λ t. t.parent_pid == my_pid && is_over t) (take s.task_count s.tasks)) [
      | some i ↦ (
        child (task s i).pid (task s i).exit_code,
        record s { tasks = set s.tasks i (record (task s i) { state = dead }) },
      )
      | none ↦
          elim (find_index (λ t. t.parent_pid == my_pid && not (is_dead t))
            (take s.task_count s.tasks)) [ some _ ↦ (round_again, s) | none ↦ (no_children, s) ]
    ]

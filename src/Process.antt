-- ===== src/Process.antt =====
-- src/process.c and src/process.h: the table of sixteen process records behind ps and kill.
-- `int` pids that a caller passes are ℤ; those that the kernel hands out count up from 1 and are
-- natural numbers. Names are byte lists: the copy into name[32] is not bounded by the source, and
-- an overrun of it is not modelled.
pub mod Accounting
pub mod Kill
pub mod Examples
use kum_os.Base.{
  ℕ, zero, suc, ◌+◌, Bool, true, false, not, ◌&&◌, ◌||◌, Option, none, some, List, [], ◌∷◌, ◌++◌,
  map, if◌then◌else◌, ltb, ◌==◌, get_or, set, replicate, find_index, length, ℤ, pos, negsuc, failed,
  inc_ℤ, dec_ℤ, geb_ℤ, eqb_ℤ,
}

-- proc_state_t
pub data ProcState : Type 0 where
  running sleeping zombie idle : ProcState

abbrev pub max_processes : ℕ
max_processes = 16

-- process_t
pub record Process : Type 0 where
  pub pid : ℕ
  pub name : List ℕ
  pub state : ProcState
  pub memory_kb : ℕ
  pub ticks : ℕ
  pub kum_level : ℤ

pub record Procs : Type 0 where
  pub table : List Process
  pub next_pid : ℕ
  pub count : ℤ

-- A record after kmemset to 0: PROC_RUNNING is 0.
pub blank : Process
blank = record { pid = 0; name = []; state = running; memory_kb = 0; ticks = 0; kum_level = pos 0 }

pub idle_process : Process
idle_process = record {
  pid = 0;
  name = 105 ∷ 100 ∷ 108 ∷ 101 ∷ [];
  state = idle;
  memory_kb = 4;
  ticks = 0;
  kum_level = pos 1;
}

pub kumos_process : Process
kumos_process = record {
  pid = 1;
  name = 107 ∷ 117 ∷ 109 ∷ 111 ∷ 115 ∷ [];
  state = running;
  memory_kb = 128;
  ticks = 0;
  kum_level = pos 1;
}

pub proc_init : Procs
unfolding blank idle_process kumos_process
proc_init = record {
  table = idle_process ∷ kumos_process ∷ replicate 14 blank;
  next_pid = 2;
  count = pos 2;
}

abbrev pub is_zombie : Process → Bool
is_zombie p = elim p.state [ running ↦ false | sleeping ↦ false | zombie ↦ true | idle ↦ false ]

abbrev pub is_running : Process → Bool
is_running p = elim p.state [ running ↦ true | sleeping ↦ false | zombie ↦ false | idle ↦ false ]

-- The record that proc_spawn writes.
abbrev pub spawned : ℕ → List ℕ → ℕ → ℤ → Process
spawned pid name mem_kb kum_level = record {
  pid = pid;
  name = name;
  state = running;
  memory_kb = mem_kb;
  ticks = 0;
  kum_level = kum_level;
}

abbrev pub install : Procs → ℕ → Process → Procs
install s i p = record s {
  table = set s.table i p;
  next_pid = s.next_pid + 1;
  count = inc_ℤ s.count;
}

-- proc_spawn: a zombie's slot first, else the slot at index `proc_count_val`. `none` is a write
-- outside the table, at a negative index. The first loop of the source has an empty body.
pub proc_spawn : Procs → List ℕ → ℕ → ℤ → Option (ℤ × Procs)
proc_spawn s name mem_kb kum_level =
    let p = spawned s.next_pid name mem_kb kum_level in
    if geb_ℤ s.count max_processes then some (failed, s) else elim (find_index is_zombie s.table) [
      | some i ↦ some (pos s.next_pid, install s i p)
      | none ↦ elim s.count [ pos i ↦ some (pos s.next_pid, install s i p) | negsuc _ ↦ none ]
    ]

-- proc_kill: the first record with the pid, whatever its state.
pub proc_kill : Procs → ℤ → Procs
unfolding blank
proc_kill s pid = elim (find_index (λ p. eqb_ℤ pid p.pid) s.table) [
  | none ↦ s
  | some i ↦ record s {
    table = set s.table i (record (get_or s.table i blank) { state = zombie });
    count = dec_ℤ s.count;
  }
]

pub proc_get : Procs → ℤ → Option ℕ
proc_get s pid = find_index (λ p. eqb_ℤ pid p.pid) s.table

-- Every slot of the table is visited, the unused ones as well.
pub proc_tick : Procs → Procs
proc_tick s = record s {
  table =
      map (λ (p : Process). if is_running p then record p { ticks = p.ticks + 1 } else p) s.table;
}

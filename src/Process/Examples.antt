-- ===== src/Process/Examples.antt =====
-- The properties of the process table at concrete inputs.
use kum_os.Base.{
  ℕ, zero, suc, ◌+◌, ◌≤◌, ◌<◌, ◌≡◌, ◌⊎◌, refl, ap, false, true, some, [], arith, get_or, set,
  get_or-replicate, find_index, count, pos,
}
use kum_os.Process.{
  Process, Procs, blank, idle_process, kumos_process, proc_init, is_zombie, spawned, install,
  proc_spawn, proc_kill,
}
use kum_os.Process.Accounting.{Counts, spawn-Counts}
use kum_os.Process.Kill.{kill-Counts, kill_twice_breaks, has_pid}

init-Counts : Counts proc_init 2
unfolding proc_init count blank idle_process kumos_process
init-Counts = record {
  size = refl;
  counted = refl;
  fits = omega arith;
  pids = omega arith;
  in_use = started;
  unused = λ j h. (rest_pid j h, rest_live j h);
}
  where
    started : (j : ℕ) → 0 < j → j < 2 → 0 < (get_or proc_init.table j blank).pid
    started zero p h = absurd (omega arith)
    started (suc zero) p h = omega arith
    started (suc (suc j)) p h = absurd (omega arith)

    rest_pid : (j : ℕ) → 2 ≤ j → (get_or proc_init.table j blank).pid ≡ 0
    rest_pid zero h = absurd (omega arith)
    rest_pid (suc zero) h = absurd (omega arith)
    rest_pid (suc (suc j)) h = ap (λ (p : Process). p.pid) (get_or-replicate 14 j blank)

    rest_live : (j : ℕ) → 2 ≤ j → is_zombie (get_or proc_init.table j blank) ≡ false
    rest_live zero h = absurd (omega arith)
    rest_live (suc zero) h = absurd (omega arith)
    rest_live (suc (suc j)) h = ap (λ (p : Process). is_zombie p) (get_or-replicate 14 j blank)

spawn-Counts_example :
    let p = spawned proc_init.next_pid [] 8 (pos 0) in
    (i : ℕ) × (proc_spawn proc_init [] 8 (pos 0)
      ≡ some (pos proc_init.next_pid, install proc_init i p))
    × ((is_zombie (get_or proc_init.table i blank) ≡ true)
        ⊎ (2 + count is_zombie proc_init.table ≤ i))
    × (get_or (set proc_init.table i p) i blank ≡ p)
    × Counts (install proc_init i p) 3
spawn-Counts_example = spawn-Counts proc_init 2 [] 8 (pos 0) init-Counts (omega arith)

kumos_found : find_index (has_pid 1) proc_init.table ≡ some 1
unfolding proc_init find_index blank idle_process kumos_process
kumos_found = refl

kumos_alive : is_zombie (get_or proc_init.table 1 blank) ≡ false
unfolding proc_init idle_process kumos_process
kumos_alive = refl

kill-Counts_example : Counts (proc_kill proc_init (pos 1)) 1
kill-Counts_example = kill-Counts proc_init 1 1 1 init-Counts (omega arith) kumos_found kumos_alive

-- The table after the process with pid 1 was killed once.
abbrev killed_once : Procs
killed_once = proc_kill proc_init (pos 1)

once_found : find_index (has_pid 1) killed_once.table ≡ some 1
unfolding proc_kill proc_init find_index blank idle_process kumos_process
once_found = refl

once_dead : is_zombie (get_or killed_once.table 1 blank) ≡ true
unfolding proc_kill proc_init find_index blank idle_process kumos_process
once_dead = refl

killed_once-Counts : Counts killed_once 1
killed_once-Counts = kill-Counts proc_init 1 1 1 init-Counts (omega arith) kumos_found kumos_alive

kill_twice_breaks_example : ¬ Counts (proc_kill killed_once (pos 1)) 0
kill_twice_breaks_example =
    kill_twice_breaks killed_once 0 1 1 0 killed_once-Counts (omega arith) (omega arith) once_found
      once_dead

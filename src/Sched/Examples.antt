-- ===== src/Sched/Examples.antt =====
-- The properties of the scheduler at concrete inputs.
use kum_os.Base.{
  ℕ, zero, suc, ◌<◌, ◌≡◌, ◌≢◌, inr, refl, true, [], arith, set, find_index, pos, failed,
}
use kum_os.Sched.{
  Sched, blank, task, idle_task, sched_init, sched_spawn, sched_tick, pick_next, exit_current,
  waitpid_round, is_dead, reaped, again, zombie,
}
use kum_os.Sched.Pick.{Found, pick_next_lem}
use kum_os.Sched.Switch.{Inv, set-Inv}
use kum_os.Sched.Switch.Steps.{here, next, spawn, tick, Reaches-Inv}
use kum_os.Sched.Tasks.{exit-waitpid, spawn_loses_exit_code, full_forever}

abbrev booted : Sched
booted = sched_init 1 4096

booted-Inv : Inv booted
booted-Inv = Reaches-Inv 1 4096 here

pick_next_lem_example :
    Found 0 2 1 booted.tasks 0 ((pick_next 0 booted).0, (pick_next 0 booted).1.tasks)
unfolding sched_init
pick_next_lem_example = pick_next_lem 0 booted (omega arith)

Reaches-Inv_example : Inv (sched_spawn booted 8192 [] (pos 0)).1
Reaches-Inv_example = Reaches-Inv 1 4096 (next here (spawn 8192 [] (pos 0) booted))

exit-waitpid_example :
    let s' = (exit_current booted (pos 7)).0 in
    (waitpid_round booted (pos 1) ≡ (again, booted))
    × ((waitpid_round s' (pos 1)).0 ≡ reaped (pos 7))
    × (is_dead (task (waitpid_round s' (pos 1)).1 booted.current_idx) ≡ true)
unfolding sched_init find_index blank
exit-waitpid_example = exit-waitpid booted 1 (pos 7) booted-Inv refl refl refl

-- The idle task's slot holds a zombie that ended with code 3.
abbrev with_zombie : Sched
with_zombie = record booted {
  tasks = set booted.tasks 1 (record (idle_task 2 0) { state = zombie; exit_code = pos 3 });
}

with_zombie-Inv : Inv with_zombie
unfolding sched_init
with_zombie-Inv =
    set-Inv booted 1 (record (idle_task 2 0) { state = zombie; exit_code = pos 3 }) booted-Inv
      (omega arith) (inr refl)

spawn_loses_exit_code_example :
    let (r, s', freed) = sched_spawn with_zombie 8192 [] (pos 0) in
    (r ≡ pos with_zombie.next_pid) × ((waitpid_round s' (pos 2)).0 ≡ reaped (pos 0))
unfolding sched_init find_index blank
spawn_loses_exit_code_example =
    spawn_loses_exit_code with_zombie 1 2 8192 [] (pos 0) with_zombie-Inv (omega arith)
      (omega arith) refl (omega arith) refl (omega arith) other_pids
  where
    other_pids : (j : ℕ) → j < 2 → j ≢ 1 → (task with_zombie j).pid ≢ 2
    other_pids zero h n = omega arith
    other_pids (suc zero) h n = absurd (n refl)
    other_pids (suc (suc j)) h n = absurd (omega arith)

-- Every slot has been used once.
abbrev all_used : Sched
all_used = record booted { task_count = 16 }

full_forever_example :
    sched_spawn (sched_tick 0 all_used) 8192 [] (pos 0) ≡ (failed, sched_tick 0 all_used, [])
full_forever_example = full_forever 8192 [] (pos 0) refl (next here (tick 0 all_used))

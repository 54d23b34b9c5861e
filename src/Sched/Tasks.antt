-- ===== src/Sched/Tasks.antt =====
-- The life of a task: its exit status and who collects it, and the size of the table.
use kum_os.Base.{
  ℕ, ◌<◌, ◌≡◌, ◌≢◌, ◌⊎◌, inl, inr, refl, sym, ap, ◌∙◌, Bool, true, false, none, some, List, [],
  arith, if◌then◌else◌, leb, ne→==, Bool-cases, length, get_or, set, take, length-take, length-set,
  find_index, ℤ, pos, failed, eqb_ℤ, add32, find_index-set_self, find_index-absent, take-set,
  get_or-take, get_or-set_self,
}
use kum_os.Sched.{
  Task, Sched, blank, task, current, is_runnable, sched_yield, sched_tick, sched_spawn, put_task,
  spawned, is_spawn_slot, is_over, is_dead, exit_current, sched_exit_code, sched_sleep,
  waitpid_round, wait_round, dead, max_tasks, Wait, reaped, again, pick_next, switch_to,
}
use kum_os.Sched.Switch.{Inv, task_after}
use kum_os.Sched.Switch.Steps.{
  Step, Reaches, here, next, tick, yield_cpu, sleep, exit, spawn, wait_pid, wait,
}

abbrev pub has_pid : ℕ → Task → Bool
has_pid pid t = eqb_ℤ (pos pid) t.pid

waitpid-found :
    (s : Sched) (pid i : ℕ)
    → find_index (has_pid pid) (take s.task_count s.tasks) ≡ some i
    → waitpid_round s (pos pid) ≡ (
        if is_over (task s i)
        then (
          reaped (task s i).exit_code,
          record s { tasks = set s.tasks i (record (task s i) { state = dead }) },
        )
        else (again, s))
unfolding waitpid_round
waitpid-found s pid i e = rw (waitpid_round, e)

-- What exit_current leaves in the current slot.
exit-slot :
    (s : Sched) (code : ℤ)
    → Inv s
    → let t = task (exit_current s code).0 s.current_idx in
      (is_over t ≡ true) × (t.exit_code ≡ code) × (t.pid ≡ (current s).pid) × (t.stack ≡ 0)
unfolding exit_current
exit-slot s code v =
    let h : s.current_idx < length s.tasks = omega (arith, v.size, v.bound, v.current_in) in
    rw (get_or-set_self s.tasks s.current_idx _ blank h) (ground arith)

found-set :
    (s : Sched) (pid i : ℕ) (t : Task)
    → find_index (has_pid pid) (take s.task_count s.tasks) ≡ some i
    → t.pid ≡ pid
    → find_index (has_pid pid) (take s.task_count (set s.tasks i t)) ≡ some i
found-set s pid i t e h =
    ap (find_index (has_pid pid)) (take-set s.task_count s.tasks i t)
    ∙ find_index-set_self (has_pid pid) (take s.task_count s.tasks) i t e (ground arith)

exit-found :
    (s : Sched) (pid : ℕ) (code : ℤ)
    → find_index (has_pid pid) (take s.task_count s.tasks) ≡ some s.current_idx
    → (current s).pid ≡ pid
    → find_index (has_pid pid) (take s.task_count (exit_current s code).0.tasks)
      ≡ some s.current_idx
unfolding exit_current
exit-found s pid code e h = found-set s pid s.current_idx _ e h

-- A task that runs is waited for; after it exits, waitpid on its pid returns its exit code, and
-- marks the slot DEAD.
pub exit-waitpid :
    (s : Sched) (pid : ℕ) (code : ℤ)
    → Inv s
    → find_index (has_pid pid) (take s.task_count s.tasks) ≡ some s.current_idx
    → (current s).pid ≡ pid
    → is_runnable (current s) ≡ true
    → let s' = (exit_current s code).0 in
      (waitpid_round s (pos pid) ≡ (again, s))
      × ((waitpid_round s' (pos pid)).0 ≡ reaped code)
      × (is_dead (task (waitpid_round s' (pos pid)).1 s.current_idx) ≡ true)
exit-waitpid s pid code v e h run = (
  waitpid-found s pid s.current_idx e ∙ ground arith,
  ap (λ (r : Wait × Sched). r.0) after ∙ ap reaped (slot.1),
  ap (λ (r : Wait × Sched). is_dead (task r.1 s.current_idx)) after
      ∙ ap (λ (t : Task). is_dead t)
          (get_or-set_self s'.tasks s.current_idx (record t { state = dead }) blank in_table),
)
  where
    s' : Sched
    s' = (exit_current s code).0

    t : Task
    t = task s' s.current_idx

    slot : (is_over t ≡ true) × (t.exit_code ≡ code) × (t.pid ≡ (current s).pid) × (t.stack ≡ 0)
    slot = exit-slot s code v

    in_table : s.current_idx < length s'.tasks
    in_table =
        unfold exit_current in
        omega (arith, length-set s.tasks s.current_idx _, v.size, v.bound, v.current_in)

    same_count : s'.task_count ≡ s.task_count
    same_count = unfold exit_current in refl

    after : waitpid_round s' (pos pid) ≡ (
      reaped t.exit_code,
      record s' { tasks = set s'.tasks s.current_idx (record t { state = dead }) },
    )
    after =
        waitpid-found s' pid s.current_idx (rw same_count (exit-found s pid code e h))
        ∙ rw (slot.0) refl

spawn-at :
    (s : Sched) (i stack : ℕ) (name : List ℕ) (kum_level : ℤ)
    → s.task_count < max_tasks
    → stack ≢ 0
    → find_index is_spawn_slot s.tasks ≡ some i
    → sched_spawn s stack name kum_level ≡ (pos s.next_pid, put_task s i stack name kum_level, [])
unfolding sched_spawn
spawn-at s i stack name kum_level room hs e =
    let some_stack = ne→== stack 0 hs in
    let not_full : leb max_tasks s.task_count ≡ false = ground arith in
    rw (sched_spawn, not_full, some_stack, e) refl

waitpid-absent :
    (s : Sched) (pid : ℕ)
    → find_index (has_pid pid) (take s.task_count s.tasks) ≡ none
    → waitpid_round s (pos pid) ≡ (reaped (pos 0), s)
unfolding waitpid_round
waitpid-absent s pid e = rw (waitpid_round, e) refl

-- sched_spawn looks for a slot among zombies too. If the first free slot is that of a zombie which
-- nobody has waited for, the spawn succeeds, and from then on waitpid on the zombie's pid returns 0,
-- whatever the exit code was.
pub spawn_loses_exit_code :
    (s : Sched) (i pid stack : ℕ) (name : List ℕ) (kum_level : ℤ)
    → Inv s
    → s.task_count < max_tasks
    → stack ≢ 0
    → find_index is_spawn_slot s.tasks ≡ some i
    → i < s.task_count
    → (task s i).pid ≡ pid
    → pid ≢ s.next_pid
    → ((j : ℕ) → j < s.task_count → j ≢ i → (task s j).pid ≢ pid)
    → let (r, s', freed) = sched_spawn s stack name kum_level in
      (r ≡ pos s.next_pid) × ((waitpid_round s' (pos pid)).0 ≡ reaped (pos 0))
spawn_loses_exit_code s i pid stack name kum_level v room hs e h he hn alone =
    rw (spawn-at s i stack name kum_level room hs e) (
      refl,
      ap (λ (r : Wait × Sched). r.0) (waitpid-absent (put_task s i stack name kum_level) pid gone),
    )
  where
    new : Task
    new = spawned s (task s i) stack name kum_level

    same : (put_task s i stack name kum_level).task_count ≡ s.task_count
    same = ground arith

    no_pid :
        (j : ℕ)
        → j < length (take s.task_count (set s.tasks i new))
        → has_pid pid (get_or (take s.task_count (set s.tasks i new)) j blank) ≡ false
    no_pid j l =
        let j_in : j < s.task_count = omega (arith, length-take s.task_count (set s.tasks i new)) in
        ap (has_pid pid) (get_or-take s.task_count j (set s.tasks i new) blank j_in)
        ∙ other j j_in (task_after s.tasks i j new (omega (arith, v.size, v.bound)))
      where
        other :
            (j : ℕ)
            → j < s.task_count
            → ((i ≡ j) × (get_or (set s.tasks i new) j blank ≡ new))
              ⊎ ((i ≢ j) × (get_or (set s.tasks i new) j blank ≡ get_or s.tasks j blank))
            → has_pid pid (get_or (set s.tasks i new) j blank) ≡ false
        other j j_in (inl (eq, now)) = ap (has_pid pid) now ∙ ne→== _ _ hn
        other j j_in (inr (ne, now)) =
            ap (has_pid pid) now ∙ ne→== _ _ (λ z. alone j j_in (λ q. ne (sym q)) (sym z))

    gone :
        find_index
          (has_pid pid)
          (take (put_task s i stack name kum_level).task_count (set s.tasks i new))
        ≡ none
    gone =
        rw same
          (find_index-absent (has_pid pid) (take s.task_count (set s.tasks i new)) blank no_pid)

-- No call changes the number of slots in use but a spawn, and a spawn never lowers it.
count-yield : (now : ℕ) (s : Sched) → (sched_yield now s).task_count ≡ s.task_count
unfolding sched_yield pick_next switch_to
count-yield now s = ground arith

count-tick : (now : ℕ) (s : Sched) → (sched_tick now s).task_count ≡ s.task_count
unfolding sched_tick
count-tick now s = elim (Bool-cases (leb 10 (add32 s.tick_accum 1))) [
  | inl e ↦ rw e (count-yield now _)
  | inr e ↦ rw e refl
]

count-spawn :
    (s : Sched) (stack : ℕ) (name : List ℕ) (kum_level : ℤ)
    → s.task_count ≡ max_tasks
    → sched_spawn s stack name kum_level ≡ (failed, s, [])
unfolding sched_spawn
count-spawn s stack name kum_level h = rw (sched_spawn, h) refl

count-waitpid : (s : Sched) (pid : ℤ) → (waitpid_round s pid).1.task_count ≡ s.task_count
unfolding waitpid_round
count-waitpid s pid = ground arith

count-wait : (s : Sched) (my_pid : ℕ) → (wait_round s my_pid).1.task_count ≡ s.task_count
unfolding wait_round
count-wait s my_pid = ground arith

count-Step : {s t : Sched} → Step s t → s.task_count ≡ max_tasks → t.task_count ≡ max_tasks
unfolding sched_sleep sched_exit_code exit_current
count-Step (tick now s) h = count-tick now s ∙ h
count-Step (yield_cpu now s) h = count-yield now s ∙ h
count-Step (sleep now ms s) h = count-yield now _ ∙ h
count-Step (exit now code s) h = count-yield now _ ∙ h
count-Step (spawn stack name kum_level s) h =
    ap (λ (r : ℤ × Sched × List ℕ). r.1.task_count) (count-spawn s stack name kum_level h) ∙ h
count-Step (wait_pid pid s) h = count-waitpid s pid ∙ h
count-Step (wait my_pid s) h = count-wait s my_pid ∙ h

count-Reaches : {s t : Sched} → Reaches s t → s.task_count ≡ max_tasks → t.task_count ≡ max_tasks
count-Reaches here h = h
count-Reaches (next r st) h = count-Step st (count-Reaches r h)

-- Once sixteen slots have been used, sched_spawn fails in every later state, however many of the
-- tasks have ended and been waited for since.
pub full_forever :
    {s t : Sched} (stack : ℕ) (name : List ℕ) (kum_level : ℤ)
    → s.task_count ≡ max_tasks
    → Reaches s t
    → sched_spawn t stack name kum_level ≡ (failed, t, [])
full_forever {t = t} stack name kum_level h r =
    count-spawn t stack name kum_level (count-Reaches r h)

-- ===== src/Sched/Switch.antt =====
-- The scheduler's table: bounds, and that no task but the current one is marked RUNNING. Every
-- operation of sched.c keeps this, so it holds after any sequence of calls and ticks.
pub mod Steps
use native.Mathlib.Decide.{dec_lt, ℕ_discrete}
use kum_os.Base.{
  ℕ, zero, suc, ◌+◌, ◌-◌, ◌%◌, ◌≤◌, ◌<◌, ◌≡◌, ◌≢◌, ◌⊎◌, inl, inr, refl, sym, ap, ◌∙◌, Bool, true,
  false, List, [], ◌∷◌, arith, if◌then◌else◌, ltb, leb, ◌==◌, ==→eq, ==-refl, ne→==, Bool-cases,
  length, add32, get_or, set, length-set, get_or-set_self, get_or-set_ne, get_or-beyond,
}
use kum_os.Sched.{
  Task, Sched, blank, task, current, wake, yielded, is_runnable, is_sleeping, pick_next, switch_to,
  sched_yield, wake_all, sched_tick, running, ready, sleeping, dead, zombie, TaskState, max_tasks,
}
use kum_os.Sched.Pick.{Found, pick_next_lem, place, place-lt}

abbrev pub is_running : Task → Bool
is_running t = elim t.state [
  | running ↦ true
  | ready ↦ false
  | sleeping ↦ false
  | dead ↦ false
  | zombie ↦ false
]

pub record Inv (s : Sched) : Type 0 where
  pub size : length s.tasks ≡ max_tasks
  pub bound : s.task_count ≤ max_tasks
  pub current_in : s.current_idx < s.task_count
  pub beyond : (j : ℕ) → s.task_count ≤ j → (task s j).pid ≡ 0
  pub only_current : (j : ℕ) → j < s.task_count → j ≢ s.current_idx → is_running (task s j) ≡ false

-- A slot of the table after a write at i.
pub task_after :
    (ts : List Task) (i j : ℕ) (t : Task)
    → i < length ts
    → ((i ≡ j) × (get_or (set ts i t) j blank ≡ t))
      ⊎ ((i ≢ j) × (get_or (set ts i t) j blank ≡ get_or ts j blank))
task_after ts i j t h = elim (ℕ_discrete i j) [
  | yes e ↦ inl (e, rw (← e) (get_or-set_self ts i t blank h))
  | no n ↦ inr (n, get_or-set_ne ts i j t blank n)
]

-- A write to one task in the table keeps the invariant, if it marks no other task RUNNING.
pub set-Inv :
    (s : Sched) (i : ℕ) (t : Task)
    → Inv s
    → i < s.task_count
    → (i ≡ s.current_idx) ⊎ (is_running t ≡ false)
    → Inv (record s { tasks = set s.tasks i t })
set-Inv s i t v h c = record {
  size = omega (arith, length-set s.tasks i t, v.size);
  bound = v.bound;
  current_in = v.current_in;
  beyond = λ j hj. elim (task_after s.tasks i j t i_in) [
    | inl (e, now) ↦ absurd (omega arith)
    | inr (n, now) ↦ rw now (v.beyond j hj)
  ];
  only_current = λ j hj n. elim (task_after s.tasks i j t i_in) [
    | inl (e, now) ↦ rw now (quiet (λ z. n (sym e ∙ z)) c)
    | inr (m, now) ↦ rw now (v.only_current j hj n)
  ];
}
  where
    i_in : i < length s.tasks
    i_in = omega (arith, v.size, v.bound)

    quiet : i ≢ s.current_idx → (i ≡ s.current_idx) ⊎ (is_running t ≡ false) → is_running t ≡ false
    quiet n (inl e) = absurd (n e)
    quiet n (inr r) = r

is_running-wake : (now : ℕ) (t : Task) → is_running (wake now t) ≡ is_running t
is_running-wake now t = ground arith

is_running-yielded : (t : Task) → is_running (yielded t) ≡ false
is_running-yielded t = ground arith

-- Waking a task keeps the invariant.
wake-Inv :
    (now : ℕ) (s : Sched) (i : ℕ)
    → Inv s
    → i < s.task_count
    → Inv (record s { tasks = set s.tasks i (wake now (task s i)) })
wake-Inv now s i v h = set-Inv s i (wake now (task s i)) v h (which (ℕ_discrete i s.current_idx))
  where
    which :
        Dec (i ≡ s.current_idx) → (i ≡ s.current_idx) ⊎ (is_running (wake now (task s i)) ≡ false)
    which (yes e) = inl e
    which (no n) = inr (is_running-wake now (task s i) ∙ v.only_current i h n)

-- pick_next changes only tasks, keeps the invariant, and its index is in the table.
pub pick_next-Inv :
    (now : ℕ) (s : Sched)
    → Inv s
    → Inv (pick_next now s).1
      × ((pick_next now s).0 < s.task_count)
      × ((pick_next now s).1.task_count ≡ s.task_count)
pick_next-Inv now s v = picked (pick_next_lem now s v.current_in)
  where
    start : ℕ
    start = (s.current_idx + 1) % s.task_count

    shape : (pick_next now s).1 ≡ record s { tasks = (pick_next now s).1.tasks }
    shape = unfold pick_next in refl

    from :
        {ts : List Task}
        → (pick_next now s).1.tasks ≡ ts
        → Inv (record s { tasks = ts })
        → Inv (pick_next now s).1
    from e w = rw (shape, e) w

    picked :
        Found now s.task_count start s.tasks 0 ((pick_next now s).0, (pick_next now s).1.tasks)
        → Inv (pick_next now s).1
          × ((pick_next now s).0 < s.task_count)
          × ((pick_next now s).1.task_count ≡ s.task_count)
    picked (inl (m, km, mc, e, awake, before)) =
        let p = place-lt s.task_count start m (omega (arith, v.current_in)) in
        (
          from (ap (λ (r : ℕ × List Task). r.1) e)
              (wake-Inv now s (place s.task_count start m) v p),
          rw (ap (λ (r : ℕ × List Task). r.0) e) p,
          ap (λ (t : Sched). t.task_count) shape,
        )
    picked (inr (e, all)) = (
      from (ap (λ (r : ℕ × List Task). r.1) e) v,
      rw (ap (λ (r : ℕ × List Task). r.0) e) (omega (arith, v.current_in)),
      ap (λ (t : Sched). t.task_count) shape,
    )

switch_to-Inv : (s : Sched) (next : ℕ) → Inv s → next < s.task_count → Inv (switch_to s next)
unfolding switch_to
switch_to-Inv s next v h = record {
  size = omega (
    arith,
    v.size,
    length-set s.tasks s.current_idx old,
    length-set ts next (record (get_or ts next blank) { state = running }),
  );
  bound = v.bound;
  current_in = h;
  beyond = λ j hj.
      elim (task_after ts next j (record (get_or ts next blank) { state = running }) in_ts) [
        | inl (e, now) ↦ absurd (omega arith)
        | inr (n, now) ↦ rw now (w.beyond j hj)
      ];
  only_current = λ j hj n.
      rw
        (get_or-set_ne ts next j (record (get_or ts next blank) { state = running }) blank
          (λ z. n (sym z)))
        (nobody j hj (ℕ_discrete j s.current_idx));
}
  where
    old : Task
    old = yielded (get_or s.tasks s.current_idx blank)

    ts : List Task
    ts = set s.tasks s.current_idx old

    w : Inv (record s { tasks = ts })
    w = set-Inv s s.current_idx old v v.current_in (inl refl)

    in_ts : next < length ts
    in_ts = omega (arith, w.size, w.bound)

    nobody :
        (j : ℕ)
        → j < s.task_count
        → Dec (j ≡ s.current_idx)
        → is_running (get_or ts j blank) ≡ false
    nobody j hj (yes e) =
        rw
          (
            e,
            get_or-set_self s.tasks s.current_idx old blank
                (omega (arith, v.size, v.bound, v.current_in)),
          )
          (is_running-yielded (get_or s.tasks s.current_idx blank))
    nobody j hj (no n) = w.only_current j hj n

-- sched_yield keeps the invariant.
pub sched_yield-Inv : (now : ℕ) (s : Sched) → Inv s → Inv (sched_yield now s)
unfolding sched_yield
sched_yield-Inv now s v =
    elim (Bool-cases ((pick_next now s).0 == (pick_next now s).1.current_idx)) [
      | inl e ↦ rw e (pick_next-Inv now s v).0
      | inr e ↦
          let p = pick_next-Inv now s v in
          rw e (switch_to-Inv (pick_next now s).1 (pick_next now s).0 p.0 (rw (p.2) (p.1)))
    ]

wake_all-length : (now n : ℕ) (ts : List Task) → length (wake_all now n ts) ≡ length ts
unfolding wake_all
wake_all-length now zero ts = refl
wake_all-length now (suc n) [] = refl
wake_all-length now (suc n) (t ∷ ts) = ap suc (wake_all-length now n ts)

wake-pid : (now : ℕ) (t : Task) → (wake now t).pid ≡ t.pid
wake-pid now t = ground arith

wake_all-pid :
    (now n : ℕ) (ts : List Task) (j : ℕ)
    → (get_or (wake_all now n ts) j blank).pid ≡ (get_or ts j blank).pid
unfolding wake_all
wake_all-pid now zero ts j = refl
wake_all-pid now (suc n) [] j = refl
wake_all-pid now (suc n) (t ∷ ts) zero = wake-pid now t
wake_all-pid now (suc n) (t ∷ ts) (suc j) = wake_all-pid now n ts j

wake_all-running :
    (now n : ℕ) (ts : List Task) (j : ℕ)
    → is_running (get_or (wake_all now n ts) j blank) ≡ is_running (get_or ts j blank)
unfolding wake_all
wake_all-running now zero ts j = refl
wake_all-running now (suc n) [] j = refl
wake_all-running now (suc n) (t ∷ ts) zero = is_running-wake now t
wake_all-running now (suc n) (t ∷ ts) (suc j) = wake_all-running now n ts j

wake_all-Inv :
    (now : ℕ) (s : Sched) → Inv s → Inv (record s { tasks = wake_all now s.task_count s.tasks })
wake_all-Inv now s v = record {
  size = wake_all-length now s.task_count s.tasks ∙ v.size;
  bound = v.bound;
  current_in = v.current_in;
  beyond = λ j hj. wake_all-pid now s.task_count s.tasks j ∙ v.beyond j hj;
  only_current = λ j hj n. wake_all-running now s.task_count s.tasks j ∙ v.only_current j hj n;
}

accum-Inv : (s : Sched) (a : ℕ) → Inv s → Inv (record s { tick_accum = a })
accum-Inv s a v = record {
  size = v.size;
  bound = v.bound;
  current_in = v.current_in;
  beyond = v.beyond;
  only_current = v.only_current;
}

-- The timer interrupt keeps the invariant.
pub sched_tick-Inv : (now : ℕ) (s : Sched) → Inv s → Inv (sched_tick now s)
unfolding sched_tick
sched_tick-Inv now s v = elim (Bool-cases (leb 10 (add32 s.tick_accum 1))) [
  | inl e ↦ rw e (sched_yield-Inv now _ (accum-Inv _ 0 (accum-Inv _ (add32 s.tick_accum 1) woken)))
  | inr e ↦ rw e (accum-Inv _ (add32 s.tick_accum 1) woken)
]
  where
    ticked : Task
    ticked = record (task s s.current_idx) { ticks = add32 (task s s.current_idx).ticks 1 }

    woken : Inv (record s { tasks = wake_all now s.task_count (set s.tasks s.current_idx ticked) })
    woken =
        wake_all-Inv now (record s { tasks = set s.tasks s.current_idx ticked })
          (set-Inv s s.current_idx ticked v v.current_in (inl refl))

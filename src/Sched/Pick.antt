-- ===== src/Sched/Pick.antt =====
-- pick_next: which task the round robin chooses, and that its loop ends after one lap.
use native.Mathlib.Decide.{dec_lt}
use native.Mathlib.Nat.{mod-add-mod, mod-eq_of_lt, mod-eq-sub-mod}
use kum_os.Base.{
  ℕ, zero, suc, ◌+◌, ◌-◌, ◌%◌, ◌≤◌, ◌<◌, ◌≡◌, ◌≢◌, ◌⊎◌, inl, inr, refl, sym, ap, ◌∙◌, true, false,
  List, arith, ==-refl, ne→==, Bool-cases, get_or, set, set-get_or,
}
use kum_os.Sched.{Task, Sched, blank, wake, is_runnable, pick_loop, pick_next}

-- The task at index j would run: it is READY or RUNNING, or it sleeps and its time has come.
abbrev pub Awake : ℕ → List Task → ℕ → Type 0
Awake now ts j = is_runnable (wake now (get_or ts j blank)) ≡ true

abbrev pub Asleep : ℕ → List Task → ℕ → Type 0
Asleep now ts j = is_runnable (wake now (get_or ts j blank)) ≡ false

-- The index k places after `start`, round a table of `count` tasks.
abbrev pub place : ℕ → ℕ → ℕ → ℕ
place count start k = (start + k) % count

place-suc : (count start k : ℕ) → (place count start k + 1) % count ≡ place count start (k + 1)
place-suc count start k = rw mod-add-mod (ap (λ n. n % count) (omega arith))

pub place-lt : (count start k : ℕ) → 0 < count → place count start k < count
place-lt count start k h = omega arith

place-start : (count start : ℕ) → start < count → place count start 0 ≡ start
place-start count start h = omega (arith, mod-eq_of_lt {n = start + 0} {m = count} (omega arith))

place-lap : (count start : ℕ) → start < count → place count start count ≡ start
place-lap count start h = omega (
  arith,
  mod-eq-sub-mod {n = start + count} {m = count} (omega arith),
  mod-eq_of_lt {n = start + count - count} {m = count} (omega arith),
)

place-ne : (count start k : ℕ) → start < count → 0 < k → k < count → place count start k ≢ start
place-ne count start k h p q = elim (dec_lt (start + k) count) [
  | yes l ↦ omega (arith, mod-eq_of_lt l)
  | no l ↦ omega (
    arith,
    mod-eq-sub-mod {n = start + k} {m = count} (omega arith),
    mod-eq_of_lt {n = start + k - count} {m = count} (omega arith),
  )
]

wake-Asleep : (now : ℕ) (t : Task) → is_runnable (wake now t) ≡ false → wake now t ≡ t
wake-Asleep now t h = ground arith

module _ (now count start : ℕ) (ts : List Task) where
  -- What the loop returns when it has passed k places in vain.
  abbrev pub Found : ℕ → ℕ × List Task → Type 0
  Found k r =
      ((m : ℕ) × (k ≤ m)
        × (m < count)
        × (r ≡ (
          place count start m,
          set ts (place count start m) (wake now (get_or ts (place count start m) blank)),
        ))
        × Awake now ts (place count start m)
        × ((l : ℕ) → k ≤ l → l < m → Asleep now ts (place count start l)))
      ⊎ ((r ≡ (0, ts)) × ((l : ℕ) → k ≤ l → l < count → Asleep now ts (place count start l)))

  loop-Awake :
      (fuel i : ℕ)
      → Awake now ts i
      → pick_loop (suc fuel) now count start ts i ≡ (i, set ts i (wake now (get_or ts i blank)))
  unfolding pick_loop
  loop-Awake fuel i h = rw (pick_loop, h) refl

  same_tasks : (i : ℕ) → Asleep now ts i → set ts i (wake now (get_or ts i blank)) ≡ ts
  same_tasks i h = ap (set ts i) (wake-Asleep now (get_or ts i blank) h) ∙ set-get_or ts i blank

  loop-last :
      (fuel i : ℕ)
      → Asleep now ts i
      → (i + 1) % count ≡ start
      → pick_loop (suc fuel) now count start ts i ≡ (0, ts)
  unfolding pick_loop
  loop-last fuel i h e = rw (pick_loop, h, e, ==-refl start, same_tasks i h) refl

  loop-on :
      (fuel i : ℕ)
      → Asleep now ts i
      → (i + 1) % count ≢ start
      → pick_loop (suc fuel) now count start ts i
        ≡ pick_loop fuel now count start ts ((i + 1) % count)
  unfolding pick_loop
  loop-on fuel i h n = rw (pick_loop, h, ne→== _ _ n, same_tasks i h) refl

  Found-skip :
      (k : ℕ) {r : ℕ × List Task}
      → Asleep now ts (place count start k)
      → Found (k + 1) r
      → Found k r
  Found-skip k h (inl (m, km, mc, e, awake, before)) =
      inl (m, omega arith, mc, e, awake, λ l kl lm. earlier l kl lm (dec_lt k l))
    where
      earlier : (l : ℕ) → k ≤ l → l < m → Dec (k < l) → Asleep now ts (place count start l)
      earlier l kl lm (yes p) = before l (omega arith) lm
      earlier l kl lm (no p) = let e' : l ≡ k = omega arith in rw e' h
  Found-skip k h (inr (e, all)) = inr (e, λ l kl lc. earlier l kl lc (dec_lt k l))
    where
      earlier : (l : ℕ) → k ≤ l → l < count → Dec (k < l) → Asleep now ts (place count start l)
      earlier l kl lc (yes p) = all l (omega arith) lc
      earlier l kl lc (no p) = let e' : l ≡ k = omega arith in rw e' h

  Found-last :
      (k : ℕ) {r : ℕ × List Task}
      → k + 1 ≡ count
      → Asleep now ts (place count start k)
      → r ≡ (0, ts)
      → Found k r
  Found-last k h s e = inr (e, λ l kl lc. let e' : l ≡ k = omega arith in rw e' s)

  Found-here :
      (fuel k i : ℕ)
      → k < count
      → i ≡ place count start k
      → Awake now ts i
      → Found k (pick_loop (suc fuel) now count start ts i)
  Found-here fuel k i h e awake = inl (
    k,
    omega arith,
    h,
    rw (← e) (loop-Awake fuel i awake),
    rw (← e) awake,
    λ l kl lk. absurd (omega arith),
  )

  next_place : (k i : ℕ) → i ≡ place count start k → (i + 1) % count ≡ place count start (k + 1)
  next_place k i e = rw e (place-suc count start k)

  -- One lap is enough fuel.
  loop-Found :
      (fuel k i : ℕ)
      → start < count
      → i ≡ place count start k
      → suc fuel + k ≡ count
      → Found k (pick_loop (suc fuel) now count start ts i)
  loop-Found zero k i hs e f = elim (Bool-cases (is_runnable (wake now (get_or ts i blank)))) [
    | inl awake ↦ Found-here 0 k i (omega arith) e awake
    | inr asleep ↦
        let last : k + 1 ≡ count = omega arith in
        let lap : (i + 1) % count ≡ start =
          next_place k i e ∙ ap (place count start) last ∙ place-lap count start hs in
        Found-last k last (rw (← e) asleep) (loop-last 0 i asleep lap)
  ]
  loop-Found (suc fuel) k i hs e f =
      elim (Bool-cases (is_runnable (wake now (get_or ts i blank)))) [
        | inl awake ↦ Found-here (suc fuel) k i (omega arith) e awake
        | inr asleep ↦
            let on = place-ne count start (k + 1) hs (omega arith) (omega arith) in
            rw (loop-on (suc fuel) i asleep (λ z. on (sym (next_place k i e) ∙ z))) (
              Found-skip k (rw (← e) asleep)
                (loop-Found fuel (k + 1) ((i + 1) % count) hs (next_place k i e) (omega arith)))
      ]

  lap-Found : start < count → Found 0 (pick_loop count now count start ts start)
  lap-Found hs =
      let full : suc (count - 1) ≡ count = omega arith in
      rw full at
        (loop-Found (count - 1) 0 start hs (sym (place-start count start hs)) (omega arith))

-- The index chosen is that of the first task after the current one, round the table, that would
-- run: the loop finds it within one lap, and only that task is changed, if its sleep is over. If no
-- task would run the index is 0, and the table is as it was.
pub pick_next_lem :
    (now : ℕ) (s : Sched)
    → s.current_idx < s.task_count
    → let start = (s.current_idx + 1) % s.task_count in
      Found now s.task_count start s.tasks 0 ((pick_next now s).0, (pick_next now s).1.tasks)
unfolding pick_next
pick_next_lem now s h = lap-Found now s.task_count _ s.tasks (omega arith)

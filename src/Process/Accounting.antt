-- ===== src/Process/Accounting.antt =====
-- What proc_count_val counts: with the zombies it makes up the slots in use, which are the first
-- ones of the table. Under that invariant proc_spawn finds a slot of its own.
use kum_os.Base.{
  ℕ, ◌+◌, ◌≤◌, ◌<◌, ◌≡◌, ◌≢◌, ◌⊎◌, inl, inr, refl, true, false, none, some, List, [], ◌∷◌, arith,
  length, get_or, set, find_index, find_index-holds, count, count-set, length-set, get_or-set_self,
  get_or-set_ne, to_ℕ, Option-cases, ℤ, pos, failed,
}
use native.Mathlib.Decide.{ℕ_discrete, dec_lt}
use kum_os.Process.{max_processes, Process, Procs, blank, is_zombie, spawned, install, proc_spawn}

-- `live` slots are counted; they and the zombies are the first slots, and the rest have pid 0.
pub record Counts (s : Procs) (live : ℕ) : Type 0 where
  pub size : length s.table ≡ max_processes
  pub counted : s.count ≡ pos live
  pub fits : live + count is_zombie s.table ≤ max_processes
  pub pids : 0 < s.next_pid
  pub in_use :
      (j : ℕ) → 0 < j → j < live + count is_zombie s.table → 0 < (get_or s.table j blank).pid
  pub unused :
      (j : ℕ)
      → live + count is_zombie s.table ≤ j
      → ((get_or s.table j blank).pid ≡ 0) × (is_zombie (get_or s.table j blank) ≡ false)

pub zombie-set :
    (s : Procs) (i : ℕ) (p : Process)
    → i < length s.table
    → count is_zombie (set s.table i p) + to_ℕ (is_zombie (get_or s.table i blank))
      ≡ count is_zombie s.table + to_ℕ (is_zombie p)
zombie-set s i p h = count-set is_zombie s.table i p blank h

count-zero : (ps : List Process) → find_index is_zombie ps ≡ none → count is_zombie ps ≡ 0
unfolding find_index count
count-zero [] h = refl
count-zero (p ∷ ps) h = ground (arith, count-zero ps)

abbrev pub used : Procs → ℕ → ℕ
used s live = live + count is_zombie s.table

-- A spawn takes a zombie's slot, or the first unused one.
abbrev Takes : Procs → ℕ → ℕ → Type 0
Takes s live i =
    (is_zombie (get_or s.table i blank) ≡ true)
    ⊎ ((i ≡ live) × (count is_zombie s.table ≡ 0) × (live < max_processes))

zombie-lt-used :
    (s : Procs) (live i : ℕ)
    → Counts s live
    → is_zombie (get_or s.table i blank) ≡ true
    → i < used s live
zombie-lt-used s live i c z = elim (dec_lt i (used s live)) [
  | yes l ↦ l
  | no n ↦ absurd (ground (arith, c.unused i (omega arith)))
]

used_after :
    (s : Procs) (live i : ℕ) (p : Process)
    → Counts s live
    → is_zombie p ≡ false
    → Takes s live i
    → ((used (install s i p) (live + 1) ≡ used s live) × (i < used s live))
      ⊎ ((used (install s i p) (live + 1) ≡ used s live + 1)
          × (i ≡ used s live)
          × (i < max_processes))
used_after s live i p c z (inl t) =
    let l = zombie-lt-used s live i c t in
    inl (ground (arith, zombie-set s i p (omega (arith, c.size, c.fits, l))), l)
used_after s live i p c z (inr (e, none_left, room)) =
    let free = (c.unused i (omega arith)).1 in
    inr (
      ground (arith, zombie-set s i p (omega (arith, c.size, e, room)), free),
      omega arith,
      omega arith,
    )

-- The slots of a table after a write at i.
pub slot_after :
    (s : Procs) (i j : ℕ) (p : Process)
    → i < length s.table
    → ((i ≡ j) × (get_or (set s.table i p) j blank ≡ p))
      ⊎ ((i ≢ j) × (get_or (set s.table i p) j blank ≡ get_or s.table j blank))
slot_after s i j p h = elim (ℕ_discrete i j) [
  | yes e ↦ inl (e, rw (← e) (get_or-set_self s.table i p blank h))
  | no n ↦ inr (n, get_or-set_ne s.table i j p blank n)
]

module _ (s : Procs) (live i : ℕ) (p : Process) (c : Counts s live) (pid : 0 < p.pid)
    (z : is_zombie p ≡ false) (t : Takes s live i) where
  slot_in : i < length s.table
  slot_in = elim (used_after s live i p c z t) [
    | inl (e, l) ↦ omega (arith, c.size, c.fits)
    | inr (e, l, m) ↦ omega (arith, c.size)
  ]

  install-in_use :
      (j : ℕ)
      → 0 < j
      → j < used (install s i p) (live + 1)
      → 0 < (get_or (set s.table i p) j blank).pid
  install-in_use j hj hl = elim (slot_after s i j p slot_in) [
    | inl (e, now) ↦ rw now pid
    | inr (n, now) ↦ rw now (c.in_use j hj (omega (arith, used_after s live i p c z t)))
  ]

  install-unused :
      (j : ℕ)
      → used (install s i p) (live + 1) ≤ j
      → ((get_or (set s.table i p) j blank).pid ≡ 0)
        × (is_zombie (get_or (set s.table i p) j blank) ≡ false)
  install-unused j hj = elim (slot_after s i j p slot_in) [
    | inl (e, now) ↦ absurd (omega (arith, used_after s live i p c z t))
    | inr (n, now) ↦ rw now (c.unused j (omega (arith, used_after s live i p c z t)))
  ]

  install-Counts : Counts (install s i p) (live + 1)
  install-Counts = record {
    size = omega (arith, length-set s.table i p, c.size);
    counted = rw (c.counted) refl;
    fits = omega (arith, used_after s live i p c z t, c.fits);
    pids = omega (arith, c.pids);
    in_use = install-in_use;
    unused = install-unused;
  }

spawn-takes :
    (s : Procs) (live i : ℕ) (name : List ℕ) (mem_kb : ℕ) (kum_level : ℤ)
    → s.count ≡ pos live
    → live < max_processes
    → (find_index is_zombie s.table ≡ some i) ⊎ ((find_index is_zombie s.table ≡ none) × (i ≡ live))
    → proc_spawn s name mem_kb kum_level
      ≡ some (pos s.next_pid, install s i (spawned s.next_pid name mem_kb kum_level))
unfolding proc_spawn
spawn-takes s live i name mem_kb kum_level c h t = ground arith

-- With fewer than sixteen live processes proc_spawn succeeds with the next pid. It writes the new
-- record into a slot that held a zombie or had no process, leaves every other slot alone, and
-- keeps the accounting.
pub spawn-Counts :
    (s : Procs) (live : ℕ) (name : List ℕ) (mem_kb : ℕ) (kum_level : ℤ)
    → Counts s live
    → live < max_processes
    → let p = spawned s.next_pid name mem_kb kum_level in
      (i : ℕ) × (proc_spawn s name mem_kb kum_level ≡ some (pos s.next_pid, install s i p))
      × ((is_zombie (get_or s.table i blank) ≡ true) ⊎ (live + count is_zombie s.table ≤ i))
      × (get_or (set s.table i p) i blank ≡ p)
      × Counts (install s i p) (live + 1)
spawn-Counts s live name mem_kb kum_level c h = elim (Option-cases (find_index is_zombie s.table)) [
  | inl n ↦
      let t : Takes s live live = inr (refl, count-zero s.table n, h) in
      (
        live,
        spawn-takes s live live name mem_kb kum_level c.counted h (inr (n, refl)),
        inr (omega (arith, count-zero s.table n)),
        get_or-set_self s.table live p blank (slot_in s live live p c c.pids refl t),
        install-Counts s live live p c c.pids refl t,
      )
  | inr (i, e) ↦
      let z = find_index-holds is_zombie s.table i blank e in
      (
        i,
        spawn-takes s live i name mem_kb kum_level c.counted h (inl e),
        inl z,
        get_or-set_self s.table i p blank (slot_in s live i p c c.pids refl (inl z)),
        install-Counts s live i p c c.pids refl (inl z),
      )
]
  where
    p : Process
    p = spawned s.next_pid name mem_kb kum_level

-- With sixteen live processes it fails and changes nothing.
pub spawn-full :
    (s : Procs) (name : List ℕ) (mem_kb : ℕ) (kum_level : ℤ)
    → Counts s max_processes
    → proc_spawn s name mem_kb kum_level ≡ some (failed, s)
unfolding proc_spawn
spawn-full s name mem_kb kum_level c = rw (c.counted)

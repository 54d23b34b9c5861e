-- ===== src/Process/Kill.antt =====
-- proc_kill against the accounting of proc_count_val: right for a live process, wrong for one that is
-- a zombie already.
use native.Mathlib.Decide.{dec_lt}
use kum_os.Base.{
  ℕ, suc, ◌+◌, ◌≤◌, ◌<◌, ◌≡◌, ◌≢◌, inl, inr, refl, ap, ◌∙◌, Bool, true, false, some, List, arith,
  length, get_or, set, find_index, find_index-lt, find_index-holds, count, length-set,
  get_or-set_ne, to_ℕ, pos, dec_ℤ, eqb_ℤ,
}
use kum_os.Process.{zombie, Process, Procs, blank, is_zombie, proc_kill}
use kum_os.Process.Accounting.{Counts, used, zombie-set, slot_after}

abbrev pub has_pid : ℕ → Process → Bool
has_pid pid p = eqb_ℤ (pos pid) p.pid

abbrev pub killed : Process → Process
killed p = record p { state = zombie }

kill-slot :
    (s : Procs) (pid i : ℕ)
    → find_index (has_pid pid) s.table ≡ some i
    → proc_kill s (pos pid)
      ≡ record s { table = set s.table i (killed (get_or s.table i blank)); count = dec_ℤ s.count }
unfolding proc_kill
kill-slot s pid i e = ground arith

module _ (s : Procs) (pid i : ℕ) (found : find_index (has_pid pid) s.table ≡ some i) where
  found_in : i < length s.table
  found_in = find_index-lt (has_pid pid) s.table i found

  pub found-pid : (get_or s.table i blank).pid ≡ pid
  found-pid = ground (arith, find_index-holds (has_pid pid) s.table i blank found)

  abbrev after_kill : List Process
  after_kill = set s.table i (killed (get_or s.table i blank))

  pub kill-zombies :
      count is_zombie after_kill + to_ℕ (is_zombie (get_or s.table i blank))
      ≡ count is_zombie s.table + 1
  kill-zombies = zombie-set s i (killed (get_or s.table i blank)) found_in

  pub kill-pids : (j : ℕ) → (get_or after_kill j blank).pid ≡ (get_or s.table j blank).pid
  kill-pids j = elim (slot_after s i j (killed (get_or s.table i blank)) found_in) [
    | inl (e, now) ↦ ap (λ (p : Process). p.pid) now ∙ ap (λ k. (get_or s.table k blank).pid) e
    | inr (n, now) ↦ ap (λ (p : Process). p.pid) now
  ]

  kill-other :
      (j : ℕ) → i ≢ j → is_zombie (get_or after_kill j blank) ≡ is_zombie (get_or s.table j blank)
  kill-other j n =
      ap (λ (p : Process). is_zombie p)
        (get_or-set_ne s.table i j (killed (get_or s.table i blank)) blank n)

  found-used : (live : ℕ) → Counts s live → 0 < pid → i < used s live
  found-used live c h = elim (dec_lt i (used s live)) [
    | yes l ↦ l
    | no n ↦ absurd (omega (arith, (c.unused i (omega arith)).0, found-pid))
  ]

-- Killing a process that is no zombie moves it from the live ones to the zombies.
pub kill-Counts :
    (s : Procs) (live pid i : ℕ)
    → Counts s (suc live)
    → 0 < pid
    → find_index (has_pid pid) s.table ≡ some i
    → is_zombie (get_or s.table i blank) ≡ false
    → Counts (proc_kill s (pos pid)) live
kill-Counts s live pid i c h found alive = rw (kill-slot s pid i found) (record {
  size = omega (arith, length-set s.table i (killed (get_or s.table i blank)), c.size);
  counted = rw (c.counted) refl;
  fits = omega (arith, one_more, c.fits);
  pids = c.pids;
  in_use = λ j hj hl. rw (kill-pids s pid i found j) (c.in_use j hj (omega (arith, one_more)));
  unused = λ j hj.
      let hj' : suc live + count is_zombie s.table ≤ j = omega (arith, one_more) in
      let ne : i ≢ j = omega (arith, found-used s pid i found (suc live) c h) in
      (
        rw (kill-pids s pid i found j) ((c.unused j hj').0),
        kill-other s pid i found j ne ∙ (c.unused j hj').1,
      );
})
  where
    one_more :
        count is_zombie (set s.table i (killed (get_or s.table i blank)))
        ≡ count is_zombie s.table + 1
    one_more = ground (arith, kill-zombies s pid i found)

-- Killing a process that is a zombie already breaks the accounting: it is counted down although no
-- live process is lost.
pub kill_twice_breaks :
    (s : Procs) (live pid i n : ℕ)
    → Counts s (suc live)
    → 0 < pid
    → 0 < i
    → find_index (has_pid pid) s.table ≡ some i
    → is_zombie (get_or s.table i blank) ≡ true
    → ¬ Counts (proc_kill s (pos pid)) n
kill_twice_breaks s live pid i n c h hi found dead c' =
    absurd (omega (arith, kill-pids s pid i found last, now, was))
  where
    last : ℕ
    last = live + count is_zombie s.table

    after :
        Counts
          (record s {
            table = set s.table i (killed (get_or s.table i blank));
            count = dec_ℤ s.count;
          })
          n
    after = rw (kill-slot s pid i found) at c'

    was : 0 < (get_or s.table last blank).pid
    was = c.in_use last (omega (arith, found-used s pid i found (suc live) c h)) (omega arith)

    same :
        count is_zombie (set s.table i (killed (get_or s.table i blank))) ≡ count is_zombie s.table
    same = ground (arith, kill-zombies s pid i found)

    live_is : n ≡ live
    live_is = ground (arith, after.counted, c.counted)

    now : (get_or (set s.table i (killed (get_or s.table i blank))) last blank).pid ≡ 0
    now = (after.unused last (omega (arith, same, live_is))).0

-- ===== src/Elf/Loading.antt =====
-- src/elf.c: the loop of elf_load_mem over the pages of a segment.
use kum_os.Base.{
  ℕ, zero, suc, ◌+◌, ◌*◌, ◌≤◌, ◌≡◌, inl, inr, refl, ap, true, false, arith, if◌then◌else◌, ltb,
  add32, u32, Bool-cases, ltb→lt,
}
use kum_os.Paging.{Paging, paging_is_mapped}
use kum_os.Frames.{pmm_alloc}
use kum_os.Elf.{ElfPhdr, map_pages, map_frame, segment_start, segment_end, page_rounds}

-- A loop that has come to its end.
map_pages_stop : (fuel va vend : ℕ) (p : Paging) → vend ≤ va → map_pages fuel va vend p ≡ (true, p)
unfolding map_pages
map_pages_stop zero va vend p le = refl
map_pages_stop (suc fuel) va vend p le =
    let stop : ltb va vend ≡ false = ground arith in rw stop refl

-- Fuel for a round of each page is enough: more changes nothing.
map_pages_enough :
    (fuel more va vend : ℕ) (p : Paging)
    → fuel ≤ more
    → vend + 4096 ≤ u32
    → vend ≤ va + 4096 * fuel
    → map_pages more va vend p ≡ map_pages fuel va vend p
unfolding map_pages
map_pages_enough zero more va vend p le small enough = map_pages_stop more va vend p (omega arith)
map_pages_enough (suc fuel) zero va vend p le small enough = absurd (omega arith)
map_pages_enough (suc fuel) (suc more) va vend p le small enough = elim (Bool-cases (ltb va vend)) [
  | inr stop ↦ rw stop refl
  | inl go ↦
      let next : add32 va 4096 ≡ va + 4096 = omega (arith, ltb→lt va vend go) in
      let rest = λ (q : Paging).
        map_pages_enough fuel more (va + 4096) vend q (omega arith) small (omega arith) in
      let done = if paging_is_mapped p va then (true, p) else map_frame va p (pmm_alloc p.frames) in
      rw (go, next) (ap (λ r. if done.0 then r else (false, done.1)) (rest done.1))
]

-- The loop over the pages of a segment ends within its rounds, for every segment.
pub load_rounds_enough :
    (ph : ElfPhdr) (more : ℕ) (p : Paging)
    → page_rounds ph ≤ more
    → map_pages more (segment_start ph) (segment_end ph) p
      ≡ map_pages (page_rounds ph) (segment_start ph) (segment_end ph) p
load_rounds_enough ph more p le =
    map_pages_enough (page_rounds ph) more (segment_start ph) (segment_end ph) p le (omega arith)
      (omega arith)

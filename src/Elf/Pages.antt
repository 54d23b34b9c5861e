-- ===== src/Elf/Pages.antt =====
-- src/elf.c: the pages of a segment, once the loop of elf_load_mem over them has ended.
use native.Mathlib.Decide.{ℕ_discrete}
use kum_os.Base.{
  ℕ, zero, suc, ◌+◌, ◌*◌, ◌/◌, ◌≤◌, ◌<◌, ◌≡◌, ◌≢◌, inl, inr, refl, sym, ap, ◌∙◌, true, false, arith,
  if◌then◌else◌, ltb, ltb→lt, add32, u32, Bool-cases,
}
use kum_os.Frames.{pmm_alloc}
use kum_os.Paging.{Paging, paging_is_mapped}
use kum_os.Paging.Tables.{IsValid}
use kum_os.Elf.{ElfPhdr, map_frame, map_pages, segment_start, segment_end, page_rounds}
use kum_os.Elf.Round.{IsMapped, IsOut, no_confusion, round, round-Step}

round_ok :
    (fuel va vend : ℕ) (p : Paging)
    → ltb va vend ≡ true
    → (round p va).0 ≡ true
    → map_pages (suc fuel) va vend p ≡ map_pages fuel (add32 va 4096) vend (round p va).1
unfolding map_pages round
round_ok fuel va vend p go ok = rw go (
    ap
      (λ b.
        if b then map_pages fuel (add32 va 4096) vend (round p va).1 else (false, (round p va).1))
      ok)

round_failed :
    (fuel va vend : ℕ) (p : Paging)
    → ltb va vend ≡ true
    → (round p va).0 ≡ false
    → (map_pages (suc fuel) va vend p).0 ≡ false
unfolding map_pages round
round_failed fuel va vend p go bad = rw go (
    ap
      (λ b.
        (if b
          then map_pages fuel (add32 va 4096) vend (round p va).1
          else (false, (round p va).1)).0)
      bad)

map_pages-end :
    (fuel va vend : ℕ) (p : Paging) → ltb va vend ≡ false → map_pages fuel va vend p ≡ (true, p)
unfolding map_pages
map_pages-end zero va vend p stop = refl
map_pages-end (suc fuel) va vend p stop = rw stop refl

-- A round of a loop that does not fail does not fail.
round_of :
    (fuel va vend : ℕ) (p q : Paging)
    → ltb va vend ≡ true
    → map_pages (suc fuel) va vend p ≡ (true, q)
    → ((round p va).0 ≡ true) × (map_pages fuel (add32 va 4096) vend (round p va).1 ≡ (true, q))
round_of fuel va vend p q go e = elim (Bool-cases (round p va).0) [
  | inl ok ↦ (ok, sym (round_ok fuel va vend p go ok) ∙ e)
  | inr bad ↦ absurd (no_confusion (sym (round_failed fuel va vend p go bad) ∙ ap (λ r. r.0) e))
]

-- Once the frames are out, the loop only passes over pages that are mapped.
round_same : (p : Paging) (n : ℕ) → IsOut p → (round p n).0 ≡ true → (round p n).1 ≡ p
unfolding round map_frame
round_same p n out = elim (Bool-cases (paging_is_mapped p n)) [
  | inl on ↦ rw on (λ _. refl)
  | inr off ↦ rw (off, out) (λ e. absurd (no_confusion e))
]

stays-IsOut :
    (fuel va vend : ℕ) (p q : Paging) → IsOut p → map_pages fuel va vend p ≡ (true, q) → IsOut q
unfolding map_pages
stays-IsOut zero va vend p q out e = ap (λ r. (pmm_alloc r.1.frames).0) (sym e) ∙ out
stays-IsOut (suc fuel) va vend p q out e = elim (Bool-cases (ltb va vend)) [
  | inr stop ↦
      ap (λ r. (pmm_alloc r.1.frames).0) (sym e ∙ map_pages-end (suc fuel) va vend p stop) ∙ out
  | inl go ↦
      let (ok, rest) = round_of fuel va vend p q go e in
      let same = round_same p va out ok in
      stays-IsOut fuel (add32 va 4096) vend p q out
        (ap (map_pages fuel (add32 va 4096) vend) (sym same) ∙ rest)
]

-- The loop over the pages n to e of a segment in a valid directory, where it does not fail and leaves
-- a free frame: the directory is valid, each of the pages is mapped, and those that were mapped are.
pub map_pages_lem :
    (fuel n e : ℕ) (p q : Paging)
    → IsValid p
    → e < 1048576
    → e ≤ n + fuel
    → map_pages fuel (4096 * n) (4096 * e) p ≡ (true, q)
    → (pmm_alloc q.frames).0 ≢ 0
    → IsValid q × ((k : ℕ) → n ≤ k → k < e → IsMapped q k) × ((k : ℕ) → IsMapped p k → IsMapped q k)
unfolding map_pages
map_pages_lem zero n e p q valid small enough done left =
    let same : p ≡ q = ap (λ r. r.1) done in
    rw (← same) (valid, λ k lo hi. absurd (omega arith), λ k h. h)
map_pages_lem (suc fuel) n e p q valid small enough done left =
    elim (Bool-cases (ltb (4096 * n) (4096 * e))) [
      | inr stop ↦
          let same : p ≡ q =
            ap (λ r. r.1) (sym (map_pages-end (suc fuel) (4096 * n) (4096 * e) p stop) ∙ done) in
          rw (← same) (valid, λ k lo hi. absurd (ground arith), λ k h. h)
      | inl go ↦
          let l = ltb→lt (4096 * n) (4096 * e) go in
          let (ok, rest) = round_of fuel (4096 * n) (4096 * e) p q go done in
          let step = round-Step p n valid (omega arith) ok in
          let p' = (round p (4096 * n)).1 in
          let next : add32 (4096 * n) 4096 ≡ 4096 * (n + 1) = omega arith in
          let rest' : map_pages fuel (4096 * (n + 1)) (4096 * e) p' ≡ (true, q) =
            ap (λ v. map_pages fuel v (4096 * e) p') (sym next) ∙ rest in
          let (valid', here, others) =
            map_pages_lem fuel (n + 1) e p' q step.valid small (omega arith) rest' left in
          elim step.done [
            | inr out ↦ absurd (left (stays-IsOut fuel (4096 * (n + 1)) (4096 * e) p' q out rest'))
            | inl (on, kept) ↦ (
              valid',
              λ k lo hi. elim (ℕ_discrete n k) [
                | yes s ↦ others k (ap (λ k. paging_is_mapped p' (4096 * k)) (sym s) ∙ on)
                | no d ↦ here k (omega arith) hi
              ],
              λ k h. others k (kept k h),
            )
          ]
    ]

-- The loop over the pages of a segment, in a valid directory, where the segment does not end in the
-- last page below 2^32 or behind it, the loop does not fail, and leaves a free frame: the directory is
-- valid, the page of each of the segment's bytes is mapped, and the pages that were mapped still are.
pub segment_pages :
    (ph : ElfPhdr) (p q : Paging)
    → IsValid p
    → ph.vaddr + ph.memsz + 4096 < u32
    → map_pages (page_rounds ph) (segment_start ph) (segment_end ph) p ≡ (true, q)
    → (pmm_alloc q.frames).0 ≢ 0
    → IsValid q
      × ((a : ℕ)
          → ph.vaddr ≤ a
          → a < ph.vaddr + ph.memsz
          → paging_is_mapped q (a / 4096 * 4096) ≡ true)
      × ((k : ℕ) → paging_is_mapped p (4096 * k) ≡ true → paging_is_mapped q (4096 * k) ≡ true)
segment_pages ph p q valid small done left =
    let n = ph.vaddr / 4096 in
    let e = (ph.vaddr + ph.memsz + 4095) / 4096 in
    let from : segment_start ph ≡ 4096 * n = omega arith in
    let to : segment_end ph ≡ 4096 * e = omega arith in
    let done' : map_pages (page_rounds ph) (4096 * n) (4096 * e) p ≡ (true, q) =
      ap (λ v. map_pages (page_rounds ph) v (4096 * e) p) (sym from)
      ∙ ap (λ v. map_pages (page_rounds ph) (segment_start ph) v p) (sym to)
      ∙ done in
    let (valid', pages, kept) =
      map_pages_lem (page_rounds ph) n e p q valid (omega arith) (omega arith) done' left in
    (
      valid',
      λ a lo hi.
          let at : 4096 * (a / 4096) ≡ a / 4096 * 4096 = omega arith in
          ap (paging_is_mapped q) (sym at) ∙ pages (a / 4096) (omega arith) (omega arith),
      kept,
    )

-- ===== src/Swap/Out.antt =====
-- What swap_out does to the frames.
use kum_os.Base.{
  ℤ, not, leb, ltb, ℕ, ◌+◌, ◌-◌, ◌*◌, ◌<◌, ◌≡◌, refl, ap, ◌∙◌, true, none, some, arith, ==-refl,
  length, get_or, find_index, find_index-lt, pos, get_or-set_self,
}
use kum_os.Frames.{page_size, pmm_free}
use kum_os.Paging.{Paging, page_of, pte_of, paging_unmap, paging_virt_to_phys}
use kum_os.Paging.Tables.{IsValid}
use kum_os.Paging.Maps.{unmap-found, to_phys-some, to_phys-none, pte_of-frames}
use kum_os.Paging.Regions.{copy_page}
use kum_os.Swap.{Swap, no_entry, holds, alloc_slot, put_out, out_to, swap_out}

-- What swap_out of the page at virt leaves, whose entry was e, with the slot.
pub record SwappedOut (s : Swap) (p : Paging) (virt e slot : ℕ) (r : ℤ × Swap × Paging)
    : Type 0 where
  pub result : r.0 ≡ pos 0
  pub unmapped : pte_of r.2 virt ≡ none
  pub kept :
      (off : ℕ) → off < page_size → r.1.buf (slot * page_size + off) ≡ p.mem (page_of e + off)
  pub recorded : holds virt (get_or r.1.table slot no_entry) ≡ true
  pub frames : r.2.frames ≡ pmm_free (pmm_free p.frames (page_of e)) 0

copied :
    (mem from : ℕ → ℕ) (dst src off : ℕ)
    → off < page_size
    → copy_page mem dst from src (dst + off) ≡ from (src + off)
unfolding copy_page
copied mem from dst src off h =
    let low : leb dst (dst + off) ≡ true = ground arith in
    let high : ltb (dst + off) (dst + page_size) ≡ true = ground arith in
    let back : dst + off - dst ≡ off = omega arith in rw (low, high, back) refl

-- On a valid directory, where swap is ready, no slot holds the page and a slot is free, swap_out of a
-- mapped page succeeds: the page is no longer mapped, and the slot has its bytes. But besides the
-- page's frame, the frame at address 0 is given to pmm_free.
pub swap_out_lem :
    (addr : ℕ) (s : Swap) (p : Paging) (e slot : ℕ)
    → IsValid p
    → s.ready ≡ true
    → find_index (holds (page_of addr)) s.table ≡ none
    → alloc_slot s.table ≡ some slot
    → pte_of p (page_of addr) ≡ some e
    → SwappedOut s p (page_of addr) e slot (swap_out addr s p)
unfolding swap_out out_to put_out alloc_slot
swap_out_lem addr s p e slot valid ready not_held free mapped =
    let virt = page_of addr in
    let (frames, gone) = unmap-found p virt e valid mapped in
    let phys : paging_virt_to_phys p virt ≡ page_of e =
      to_phys-some p virt e mapped ∙ omega arith in
    let l : slot < length s.table = find_index-lt (λ b. not b.used) s.table slot free in
    rw (ready, not_held, free)
      (record {
        result = refl;
        unmapped = pte_of-frames (paging_unmap p virt) _ virt ∙ gone;
        kept = λ off h.
            copied s.buf p.mem (slot * page_size) _ off h ∙ ap p.mem (ap (λ a. a + off) phys);
        recorded =
            rw
              (get_or-set_self s.table slot (record { virt_addr = virt; slot = slot; used = true })
                no_entry l)
              (==-refl virt);
        frames =
            ap (pmm_free (paging_unmap p virt).frames)
              (to_phys-none (paging_unmap p virt) virt gone)
            ∙ ap (λ f. pmm_free f 0) frames;
      })

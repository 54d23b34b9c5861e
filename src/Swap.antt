-- ===== src/Swap.antt =====
-- src/swap.c: pages of memory kept in slots of a buffer. The serial port's messages are not modelled;
-- a page is read through its mapping, and the fault for a page that is not mapped is not modelled.
-- `mounted` is fat12_mounted().
pub mod Out
pub mod Examples
use kum_os.Base.{
  ℕ, zero, suc, ◌+◌, ◌-◌, ◌*◌, ◌/◌, ◌%◌, Bool, true, false, not, ◌&&◌, Option, none, some, List, [],
  ◌∷◌, if◌then◌else◌, ltb, leb, ◌==◌, get_or, set, replicate, find_index, ℤ, pos, failed, add32,
  sub32,
}
use kum_os.Frames.{Frames, page_size, pmm_alloc, pmm_free}
use kum_os.Paging.{Paging, page_of, paging_map, paging_unmap, paging_virt_to_phys}
use kum_os.Paging.Regions.{copy_page}

abbrev pub swap_slots : ℕ
swap_slots = 256

-- swap_entry_t
pub record SwapEntry : Type 0 where
  pub virt_addr : ℕ
  pub slot : ℕ
  pub used : Bool

abbrev pub no_entry : SwapEntry
no_entry = record { virt_addr = 0; slot = 0; used = false }

-- swap_table, swap_ready, swap_used and swap_buf
pub record Swap : Type 0 where
  pub table : List SwapEntry
  pub ready : Bool
  pub count : ℕ
  pub buf : ℕ → ℕ

pub swap_init : Bool → Swap → ℤ × Swap
swap_init mounted s =
    if mounted
    then (
      pos 0,
      record { table = replicate swap_slots no_entry; ready = true; count = 0; buf = λ b. 0 },
    )
    else (failed, s)

abbrev pub holds : ℕ → SwapEntry → Bool
holds virt e = e.used && e.virt_addr == virt

pub alloc_slot : List SwapEntry → Option ℕ
alloc_slot table = find_index (λ e. not e.used) table

-- The end of swap_out, with a slot.
pub put_out : Swap → Paging → ℕ → ℕ → Swap × Paging
put_out s p virt slot =
    let p' = paging_unmap p virt in
    (
      record s {
        table = set s.table slot (record { virt_addr = virt; slot = slot; used = true });
        count = add32 s.count 1;
        buf = copy_page s.buf (slot * page_size) p.mem (paging_virt_to_phys p virt);
      },
      record p' { frames = pmm_free p'.frames (paging_virt_to_phys p' virt) },
    )

-- swap_out of the page at virt, once it is known whether a slot holds it, and which slot is free.
pub out_to : Swap → Paging → ℕ → Option ℕ → Option ℕ → ℤ × Swap × Paging
out_to s p virt (some held) slot = (pos 0, s, p)
out_to s p virt none none = (failed, s, p)
out_to s p virt none (some slot) = let (s', p') = put_out s p virt slot in (pos 0, s', p')

pub swap_out : ℕ → Swap → Paging → ℤ × Swap × Paging
swap_out addr s p =
    let virt = page_of addr in
    if s.ready
    then out_to s p virt (find_index (holds virt) s.table) (alloc_slot s.table)
    else (failed, s, p)

-- swap_in from slot i, with the frame that pmm_alloc gave.
pub in_from : Swap → Paging → ℕ → ℕ → ℕ × Frames → ℤ × Swap × Paging
in_from s p virt i (phys, frames) =
    if phys == 0 then (failed, s, record p { frames = frames }) else (
      pos 0,
      record s {
        table = set s.table i (record (get_or s.table i no_entry) { used = false });
        count = sub32 s.count 1;
      },
      paging_map (record p { frames = frames; mem = copy_page p.mem phys s.buf (i * page_size) })
          virt phys 6,
    )

pub swap_in : ℕ → Swap → Paging → ℤ × Swap × Paging
swap_in addr s p =
    let virt = page_of addr in
    if s.ready
    then elim (find_index (holds virt) s.table) [
      | none ↦ (failed, s, p)
      | some i ↦ in_from s p virt i (pmm_alloc p.frames)
    ]
    else (failed, s, p)

pub swap_is_swapped : ℕ → Swap → Bool
swap_is_swapped addr s = elim (find_index (holds (page_of addr)) s.table) [
  | none ↦ false
  | some i ↦ true
]

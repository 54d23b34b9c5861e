-- ===== src/Faults.antt =====
-- src/paging.c: page_fault_handler. `present` and `write` are the bits of the error code, the address
-- is what CR2 holds. None stands for the message and the halt; the counters are not modelled.
use kum_os.Base.{ℕ, Bool, not, ◌&&◌, Option, none, some, if◌then◌else◌, ltb, leb, ◌==◌, eqb_ℤ}
use kum_os.Paging.{Paging, page_of}
use kum_os.Paging.Heap.{heap_virt_base, heap_virt_max, back_page}
use kum_os.Paging.Regions.{cow_fault}
use kum_os.Swap.{Swap, swap_in, swap_is_swapped}

abbrev pub in_heap : ℕ → Bool
in_heap addr = leb heap_virt_base addr && ltb addr heap_virt_max

-- The end of the handler, for a page that is not present.
pub swap_fault : ℕ → Swap → Paging → Option (Swap × Paging)
swap_fault addr s p =
    let (r, s', p') = swap_in (page_of addr) s p in
    if swap_is_swapped (page_of addr) s && eqb_ℤ r 0 then some (s', p') else none

-- The handler after the first test.
pub later_fault : Bool → Bool → ℕ → Swap → Paging → Option (Swap × Paging)
later_fault present write addr s p =
    if present
    then (if write then elim (cow_fault addr p) [ none ↦ none | some p' ↦ some (s, p') ] else none)
    else swap_fault addr s p

pub page_fault_handler : Bool → Bool → ℕ → Swap → Paging → Option (Swap × Paging)
page_fault_handler present write addr s p =
    let (phys, p') = back_page (page_of addr) p in
    if not present && in_heap addr
    then (if phys == 0 then later_fault present write addr s p' else some (s, p'))
    else later_fault present write addr s p

-- ===== src/Paging/Heap/Break.antt =====
-- A request whose end wraps around lowers the break of the heap.
use kum_os.Base.{
  ℕ, suc, ◌+◌, ◌-◌, ◌%◌, ◌≤◌, ◌<◌, ◌≡◌, refl, true, false, none, arith, ltb, leb, length,
  find_index, add32,
}
use kum_os.Paging.{Paging}
use kum_os.Paging.Heap.{
  heap_virt_base, heap_virt_max, heap_max_blocks, Heap, page_align, grow_loop, heap_grow, is_fit,
  new_block, alloc_rounded, heap_alloc,
}

no_round :
    (n addr new_brk : ℕ) (p : Paging)
    → new_brk ≤ addr
    → grow_loop (suc n) addr new_brk p ≡ (true, p)
unfolding grow_loop
no_round n addr new_brk p h = let past : ltb addr new_brk ≡ false = ground arith in rw past refl

grow_lowers :
    (h : Heap)
    → heap_virt_base ≤ h.brk
    → h.brk < heap_virt_max
    → h.brk % 4096 ≡ 0
    → heap_grow 0xFFFFF000 h ≡ (true, record h { brk = h.brk - 4096 })
unfolding heap_grow
grow_lowers h lo hi aligned =
    let target : page_align (add32 h.brk 0xFFFFF000) ≡ h.brk - 4096 = omega arith in
    let start : page_align h.brk ≡ h.brk = omega arith in
    let near : leb heap_virt_max (h.brk - 4096) ≡ false = ground arith in
    rw (target, start, near, no_round 4095 h.brk (h.brk - 4096) h.paging (omega arith)) refl

-- On a heap with no block to reuse and room in the table, whose break is a multiple of the page size,
-- heap_alloc of 0xFFFFF000 bytes returns the break as a block and lowers the break by a page.
pub alloc_lowers_break :
    (h : Heap)
    → heap_virt_base ≤ h.brk
    → h.brk < heap_virt_max
    → h.brk % 4096 ≡ 0
    → length h.blocks < heap_max_blocks
    → find_index (is_fit 0xFFFFF000) h.blocks ≡ none
    → ((heap_alloc 0xFFFFF000 h).0 ≡ h.brk) × ((heap_alloc 0xFFFFF000 h).1.brk + 4096 ≡ h.brk)
unfolding heap_alloc alloc_rounded new_block
alloc_lowers_break h lo hi aligned room none' =
    let full : leb heap_max_blocks (length h.blocks) ≡ false = ground arith in
    rw (none', full, grow_lowers h lo hi aligned) (refl, omega arith)

-- ===== src/Paging/Heap.antt =====
-- src/paging.c: the kernel heap, a break that grows page by page and a table of blocks. The list has
-- the first hnum_blocks entries of hblocks. A page is cleared through its mapping; the fault that an
-- access to an unmapped page raises is not modelled.
pub mod Layout
pub mod Alloc
pub mod Calls
pub mod Break
use kum_os.Base.{
  ℕ, zero, suc, ◌+◌, ◌-◌, ◌*◌, ◌/◌, ◌%◌, Bool, true, false, not, ◌&&◌, Option, none, some, List, [],
  ◌∷◌, ◌++◌, if◌then◌else◌, ltb, leb, ◌==◌, get_or, set, length, find_index, add32,
}
use kum_os.Frames.{Frames, page_size, pmm_alloc}
use kum_os.Paging.{
  Paging, page_of, page_write, clear_page, paging_map, paging_is_mapped, paging_virt_to_phys,
}

abbrev pub heap_virt_base : ℕ
heap_virt_base = 0x00200000

abbrev pub heap_virt_max : ℕ
heap_virt_max = 0x01000000

abbrev pub heap_max_blocks : ℕ
heap_max_blocks = 512

-- PAGE_ALIGN
abbrev pub page_align : ℕ → ℕ
page_align a = page_of (add32 a 4095)

-- hblock_t
pub record Block : Type 0 where
  pub addr : ℕ
  pub size : ℕ
  pub used : Bool

abbrev pub no_block : Block
no_block = record { addr = 0; size = 0; used = false }

-- hblocks, heap_brk_ptr and heap_bytes_used, with the page tables.
pub record Heap : Type 0 where
  pub paging : Paging
  pub blocks : List Block
  pub brk : ℕ
  pub bytes_used : ℕ

unfoldable pub heap_init : Paging → Heap
heap_init p = record { paging = p; blocks = []; brk = heap_virt_base; bytes_used = 0 }

-- A frame for the page at addr, cleared. The result is 0 if there is no frame.
pub back_page : ℕ → Paging → ℕ × Paging
back_page addr p =
    let (phys, frames) = pmm_alloc p.frames in
    let taken = record p { frames = frames } in
    let mapped = paging_map taken addr phys page_write in
    if phys == 0
    then (0, taken)
    else (phys, record mapped { mem = clear_page mapped.mem (paging_virt_to_phys mapped addr) })

-- The loop of heap_grow from addr on. `fuel` bounds its rounds.
pub grow_loop : ℕ → ℕ → ℕ → Paging → Bool × Paging
grow_loop zero addr new_brk p = (true, p)
grow_loop (suc fuel) addr new_brk p =
    let (phys, p') = back_page addr p in
    let skip = grow_loop fuel (add32 addr page_size) new_brk p in
    let next = grow_loop fuel (add32 addr page_size) new_brk p' in
    if not (ltb addr new_brk)
    then (true, p)
    else if paging_is_mapped p addr
    then skip
    else if phys == 0
    then (false, p')
    else next

-- The heap has fewer pages than the fuel.
pub heap_grow : ℕ → Heap → Bool × Heap
heap_grow size h =
    let new_brk = page_align (add32 h.brk size) in
    let (ok, p) = grow_loop 4096 (page_align h.brk) new_brk h.paging in
    if leb heap_virt_max new_brk
    then (false, h)
    else if ok
    then (true, record h { paging = p; brk = new_brk })
    else (false, record h { paging = p })

abbrev pub is_fit : ℕ → Block → Bool
is_fit size b = not b.used && leb size b.size

abbrev pub is_used_at : ℕ → Block → Bool
is_used_at addr b = b.addr == addr && b.used

abbrev pub block : Heap → ℕ → Block
block h i = get_or h.blocks i no_block

-- `(size + 7) & ~7`
abbrev pub rounded : ℕ → ℕ
rounded size = add32 size 7 / 8 * 8

-- Block i is given out again.
pub reuse : Heap → ℕ → Heap
reuse h i = record h {
  blocks = set h.blocks i (record (block h i) { used = true });
  bytes_used = add32 h.bytes_used (block h i).size;
}

-- The end of heap_alloc: a new block at the break.
pub new_block : ℕ → Heap → ℕ × Heap
new_block size h =
    let (ok, h') = heap_grow size h in
    if leb heap_max_blocks (length h.blocks)
    then (0, h)
    else if ok
    then (
      h.brk,
      record h' {
        blocks = h'.blocks ++ record { addr = h.brk; size = size; used = true } ∷ [];
        bytes_used = add32 h'.bytes_used size;
      },
    )
    else (0, h')

-- The part of heap_alloc after the size is rounded up.
pub alloc_rounded : ℕ → Heap → Option ℕ → ℕ × Heap
alloc_rounded size h (some i) = ((block h i).addr, reuse h i)
alloc_rounded size h none = new_block size h

pub heap_alloc : ℕ → Heap → ℕ × Heap
heap_alloc size h =
    if size == 0
    then (0, h)
    else alloc_rounded (rounded size) h (find_index (is_fit (rounded size)) h.blocks)

pub release : Heap → Option ℕ → Heap
release h none = h
release h (some i) = record h {
  blocks = set h.blocks i (record (block h i) { used = false });
  bytes_used =
      if leb (block h i).size h.bytes_used then h.bytes_used - (block h i).size else h.bytes_used;
}

pub heap_free : ℕ → Heap → Heap
heap_free addr h = release h (find_index (is_used_at addr) h.blocks)

pub heap_capacity : Heap → ℕ
heap_capacity h = h.brk - heap_virt_base

-- ===== src/Paging.antt =====
-- src/paging.c: the page directory and its tables. Memory is a function from byte addresses of 32-bit
-- words to words, read and written at physical addresses, which the kernel maps to themselves; the
-- directory stands apart. tlb_flush_page is not modelled.
pub mod Tables
pub mod NewTable
pub mod Maps
pub mod Heap
pub mod Regions
pub mod Examples
use kum_os.Base.{
  ℕ, zero, suc, ◌+◌, ◌-◌, ◌*◌, ◌/◌, ◌%◌, Bool, true, false, not, ◌&&◌, ◌||◌, Option, none, some,
  List, [], ◌∷◌, if◌then◌else◌, ltb, leb, ◌==◌, get_or, set, replicate, map, u32,
}
use kum_os.Frames.{Frames, page_size, pmm_alloc, pmm_free, pmm_ref, pmm_init}

abbrev pub page_entries : ℕ
page_entries = 1024

-- PAGE_DIR_IDX and PAGE_TBL_IDX
abbrev pub dir_idx : ℕ → ℕ
dir_idx virt = virt / 4194304

abbrev pub tbl_idx : ℕ → ℕ
tbl_idx virt = virt / page_size % page_entries

-- `a & ~0xFFF`, and `e & PAGE_PRESENT`
abbrev pub page_of : ℕ → ℕ
page_of a = a / page_size * page_size

abbrev pub is_present : ℕ → Bool
is_present e = e % 2 == 1

-- `PAGE_PRESENT | flags`
abbrev pub present_with : ℕ → ℕ
present_with flags = flags / 2 * 2 + 1

abbrev pub page_write : ℕ
page_write = 2

pub record Paging : Type 0 where
  pub frames : Frames
  pub dir : List ℕ
  pub mem : ℕ → ℕ

-- `*(uint32_t *)a = v`
unfoldable pub store : (ℕ → ℕ) → ℕ → ℕ → ℕ → ℕ
store mem a v b = if a == b then v else mem b

-- kmemset((void *)a, 0, PAGE_SIZE)
unfoldable pub clear_page : (ℕ → ℕ) → ℕ → ℕ → ℕ
clear_page mem a b = if leb a b && ltb b (a + page_size) then 0 else mem b

abbrev pub dir_entry : Paging → ℕ → ℕ
dir_entry p virt = get_or p.dir (dir_idx virt) 0

-- The address of the entry for virt in the table that is at `tbl`.
abbrev pub entry_at : ℕ → ℕ → ℕ
entry_at tbl virt = tbl + 4 * tbl_idx virt

-- pte_ptr(virt, 0)
unfoldable pub pte_ptr : Paging → ℕ → Option ℕ
pte_ptr p virt =
    if is_present (dir_entry p virt)
    then some (entry_at (page_of (dir_entry p virt)) virt)
    else none

-- The directory and the memory with a new table in the frame at phys.
abbrev pub with_table : Paging → ℕ → ℕ → Frames → Paging
with_table p virt phys frames = record p {
  frames = frames;
  dir = set p.dir (dir_idx virt) (phys + 3);
  mem = clear_page p.mem phys;
}

-- The frame that pmm_alloc gives to pte_ptr becomes a table.
unfoldable pub new_table : Paging → ℕ → ℕ × Frames → Option ℕ × Paging
new_table p virt (phys, frames) =
    if phys == 0
    then (none, record p { frames = frames })
    else (some (entry_at phys virt), with_table p virt phys frames)

-- pte_ptr(virt, 1)
unfoldable pub pte_ptr_alloc : Paging → ℕ → Option ℕ × Paging
pte_ptr_alloc p virt =
    if is_present (dir_entry p virt)
    then (some (entry_at (page_of (dir_entry p virt)) virt), p)
    else new_table p virt (pmm_alloc p.frames)

-- paging_map with the entry's address, for flags below 2^12.
unfoldable pub map_at : ℕ → ℕ → Option ℕ × Paging → Paging
map_at phys flags (none, p) = p
map_at phys flags (some a, p) = record p { mem = store p.mem a (page_of phys + present_with flags) }

unfoldable pub paging_map : Paging → ℕ → ℕ → ℕ → Paging
paging_map p virt phys flags = map_at phys flags (pte_ptr_alloc p virt)

-- The entry that pte_ptr finds, if it is present.
unfoldable pub pte_of : Paging → ℕ → Option ℕ
pte_of p virt = elim (pte_ptr p virt) [
  | none ↦ none
  | some a ↦ if is_present (p.mem a) then some (p.mem a) else none
]

-- paging_unmap with the entry's address.
pub unmap_at : Paging → Option ℕ → Paging
unmap_at p none = p
unmap_at p (some a) =
    if is_present (p.mem a)
    then record p { frames = pmm_free p.frames (page_of (p.mem a)); mem = store p.mem a 0 }
    else p

pub paging_unmap : Paging → ℕ → Paging
paging_unmap p virt = unmap_at p (pte_ptr p virt)

pub paging_virt_to_phys : Paging → ℕ → ℕ
paging_virt_to_phys p virt = elim (pte_of p virt) [
  | none ↦ 0
  | some e ↦ page_of e + virt % page_size
]

unfoldable pub paging_is_mapped : Paging → ℕ → Bool
paging_is_mapped p virt = elim (pte_of p virt) [ none ↦ false | some e ↦ true ]

abbrev pub num_preinit_tables : ℕ
num_preinit_tables = 4

-- The first directory entries, from entry t on, for n tables that stand one behind the other.
pub preinit_entries : ℕ → ℕ → ℕ → List ℕ → List ℕ
preinit_entries zero t tables dir = dir
preinit_entries (suc n) t tables dir =
    preinit_entries n (t + 1) tables (set dir t (tables + t * page_size + 3))

-- The word at address b once the tables at `tables` map every page to itself.
pub preinit_tables : (ℕ → ℕ) → ℕ → ℕ → ℕ
preinit_tables mem tables b =
    if leb tables b && ltb b (tables + num_preinit_tables * page_size)
    then (b - tables) / 4 * page_size + 3
    else mem b

-- paging_init, before the processor's registers are set; kern_tables is at `tables`.
pub paging_init : ℕ → ℕ → (ℕ → ℕ) → Paging
paging_init mem_kb tables mem = record {
  frames = pmm_init mem_kb;
  dir = preinit_entries num_preinit_tables 0 tables (replicate page_entries 0);
  mem = preinit_tables mem tables;
}

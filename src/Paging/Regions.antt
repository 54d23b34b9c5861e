-- ===== src/Paging/Regions.antt =====
-- src/paging.c: vmalloc, vmfree and copy on write. A region's pages are cleared through their mapping.
pub mod Cow
pub mod Write
use kum_os.Base.{
  ℕ, zero, suc, ◌+◌, ◌-◌, ◌*◌, ◌/◌, ◌%◌, Bool, true, false, not, ◌&&◌, ◌||◌, Option, none, some,
  List, [], ◌∷◌, ◌++◌, if◌then◌else◌, ltb, leb, ◌==◌, get_or, set, length, find_index, add32,
}
use kum_os.Frames.{Frames, page_size, pmm_alloc, pmm_free, pmm_ref, pmm_refcount}
use kum_os.Paging.{Paging, page_of, is_present, page_write, store, pte_ptr, paging_unmap}
use kum_os.Paging.Heap.{page_align, back_page}

abbrev pub vmalloc_base : ℕ
vmalloc_base = 0x01000000

abbrev pub vmalloc_end : ℕ
vmalloc_end = 0x02000000

abbrev pub vmalloc_max_regions : ℕ
vmalloc_max_regions = 64

-- vregion_t
pub record Region : Type 0 where
  pub virt_start : ℕ
  pub size : ℕ
  pub active : Bool

-- The first vnum_regions entries of vregions, and vmalloc_ptr.
pub record Regions : Type 0 where
  pub regions : List Region
  pub ptr : ℕ

pub no_regions : Regions
no_regions = record { regions = []; ptr = vmalloc_base }

-- The n pages from virt on are unmapped.
pub unmap_pages : ℕ → ℕ → Paging → Paging
unmap_pages zero virt p = p
unmap_pages (suc n) virt p = unmap_pages n (add32 virt page_size) (paging_unmap p virt)

-- The loop of vmalloc at page `done`, with the pages that are left.
pub back_pages : ℕ → ℕ → ℕ → Paging → Bool × Paging
back_pages zero virt done p = (true, p)
back_pages (suc n) virt done p =
    let (phys, p') = back_page (add32 virt (done * page_size)) p in
    let rest = back_pages n virt (done + 1) p' in
    if phys == 0 then (false, unmap_pages done virt p') else rest

-- The end of vmalloc, for a size that is a multiple of the page size.
pub put_region : ℕ → Regions → Paging → ℕ × Regions × Paging
put_region size r p =
    let (ok, p') = back_pages (size / page_size) r.ptr 0 p in
    if ok
    then (
      r.ptr,
      record {
        regions = r.regions ++ record { virt_start = r.ptr; size = size; active = true } ∷ [];
        ptr = add32 r.ptr size;
      },
      p',
    )
    else (0, r, p')

pub vmalloc : ℕ → Regions → Paging → ℕ × Regions × Paging
vmalloc size r p =
    if size == 0 || leb vmalloc_max_regions (length r.regions)
    then (0, r, p)
    else if leb vmalloc_end (add32 r.ptr (page_align size))
    then (0, r, p)
    else put_region (page_align size) r p

abbrev no_region : Region
no_region = record { virt_start = 0; size = 0; active = false }

pub vmfree : ℕ → Regions → Paging → Regions × Paging
vmfree virt r p = elim (find_index (λ g. g.active && g.virt_start == virt) r.regions) [
  | none ↦ (r, p)
  | some i ↦
      let g = get_or r.regions i no_region in
      (
        record r { regions = set r.regions i (record g { active = false }) },
        unmap_pages (g.size / page_size) virt p,
      )
]

-- `(e & ~PAGE_WRITE) | PAGE_COW`, and its test and opposite
abbrev pub is_cow : ℕ → Bool
is_cow e = e / 512 % 2 == 1

abbrev pub as_cow : ℕ → ℕ
as_cow e =
    let read_only = e / 4 * 4 + e % 2 in if is_cow read_only then read_only else read_only + 512

abbrev pub as_writable : ℕ → ℕ
as_writable e =
    let own = if is_cow e then e - 512 else e in if own / 2 % 2 == 1 then own else own + page_write

-- vmalloc_copy_on_write with the entry's address.
pub share_at : Paging → Option ℕ → Bool × Paging
share_at p none = (false, p)
share_at p (some a) =
    if is_present (p.mem a)
    then (
      true,
      record p {
        frames = pmm_ref p.frames (page_of (p.mem a));
        mem = store p.mem a (as_cow (p.mem a));
      },
    )
    else (false, p)

pub vmalloc_copy_on_write : ℕ → Paging → Bool × Paging
vmalloc_copy_on_write virt p = share_at p (pte_ptr p (page_of virt))

-- kmemcpy of a page.
unfoldable pub copy_page : (ℕ → ℕ) → ℕ → (ℕ → ℕ) → ℕ → ℕ → ℕ
copy_page mem dst from src b =
    if leb dst b && ltb b (dst + page_size) then from (src + (b - dst)) else mem b

-- The part of page_fault_handler for a write to a page that is present, with the address of its
-- entry; none if it does not handle the fault.
pub cow_frame : Paging → ℕ → ℕ × Frames → Option Paging
cow_frame p a (phys, frames) =
    let old = page_of (p.mem a) in
    if phys == 0
    then none
    else some (record p {
      frames = pmm_free frames old;
      mem = store (copy_page p.mem phys p.mem old) a (phys + 3);
    })

pub cow_at : Paging → Option ℕ → Option Paging
cow_at p none = none
cow_at p (some a) =
    if not (is_cow (p.mem a))
    then none
    else if ltb 1 (pmm_refcount p.frames (page_of (p.mem a)))
    then cow_frame p a (pmm_alloc p.frames)
    else some (record p { mem = store p.mem a (as_writable (p.mem a)) })

pub cow_fault : ℕ → Paging → Option Paging
cow_fault fault_addr p = cow_at p (pte_ptr p (page_of fault_addr))

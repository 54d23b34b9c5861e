-- ===== src/Paging/Examples.antt =====
-- The properties of paging at concrete inputs.
use kum_os.Base.{
  false, none, length, ltb, zero, suc, set, length-set, get_or, get_or-set_self, some, sym, ap, ◌∙◌,
  ◌/◌, ◌+◌, [], ◌∷◌, find_index, ℕ, ◌≡◌, ◌⊎◌, refl, arith, replicate, get_or-replicate,
  length-replicate, true,
}
use kum_os.Frames.{page_size, pmm_max_frames, pmm_alloc, pmm_refcount}
use kum_os.Paging.{Paging, page_entries, pte_of, pte_ptr, paging_map}
use kum_os.Paging.Regions.{cow_fault}
use kum_os.Paging.Regions.Write.{LastUser, Copied, cow_fault_lem}
use kum_os.Paging.Heap.{Heap, heap_init, heap_virt_base, heap_alloc}
use kum_os.Paging.Heap.Alloc.{Allocated, heap_alloc_lem}
use kum_os.Paging.Heap.Calls.{alloc, free, run, init-IsValid, run-IsValid}
use kum_os.Paging.Heap.Break.{alloc_lowers_break}
use kum_os.Paging.Heap.Layout
use kum_os.Paging.Tables.{IsValid, has_table}
use kum_os.Paging.Maps.{Mapped, paging_map_lem}

-- No table yet, and two free frames.
abbrev no_tables : Paging
no_tables = record {
  frames = record { refs = replicate pmm_max_frames 0; total = 2; used = 0; base = 256 };
  dir = replicate page_entries 0;
  mem = λ a. 0;
}

no_tables-IsValid : IsValid no_tables
no_tables-IsValid = record {
  frames = record { size = length-replicate {A = ℕ} pmm_max_frames 0; window = omega arith };
  base = omega arith;
  size = length-replicate {A = ℕ} page_entries 0;
  held = λ i on. absurd (none' i on);
  apart = λ i j n hi hj. absurd (none' i hi);
}
  where
    none' : (i : ℕ) → has_table no_tables i ≡ true → ⊥
    none' i on = let z = get_or-replicate {A = ℕ} page_entries i 0 in ground arith

paging_map_lem_example :
    ((paging_map no_tables 0x00200000 0x00300000 2 ≡ no_tables)
      × ((pmm_alloc no_tables.frames).0 ≡ 0))
    ⊎ Mapped no_tables 0x00200000 0x00300000 (paging_map no_tables 0x00200000 0x00300000 2)
paging_map_lem_example =
    paging_map_lem no_tables 0x00200000 0x00300000 2 no_tables-IsValid (omega arith) (omega arith)

-- One table, in frame 1024; every word of memory is the entry of a writable page at 0x00300000, whose
-- frame has two references.
abbrev pub one_table : Paging
one_table = record {
  frames = record {
    refs = set (set (replicate pmm_max_frames 0) 768 2) 1024 1;
    total = 2;
    used = 0;
    base = 256;
  };
  dir = set (replicate page_entries 0) 0 0x00400003;
  mem = λ a. 0x00300003;
}

one_table-first : (i : ℕ) → has_table one_table i ≡ true → i ≡ 0
one_table-first zero on = refl
one_table-first (suc i) on = let z = get_or-replicate {A = ℕ} 1023 i 0 in absurd (ground arith)

length-shared_refs : length {A = ℕ} (set (replicate pmm_max_frames 0) 768 2) ≡ pmm_max_frames
length-shared_refs =
    length-set {A = ℕ} (replicate pmm_max_frames 0) 768 2
    ∙ length-replicate {A = ℕ} pmm_max_frames 0

pub one_table-IsValid : IsValid one_table
one_table-IsValid = record {
  frames = record {
    size = length-set {A = ℕ} (set (replicate pmm_max_frames 0) 768 2) 1024 1 ∙ length-shared_refs;
    window = omega arith;
  };
  base = omega arith;
  size =
      length-set {A = ℕ} (replicate page_entries 0) 0 0x00400003
      ∙ length-replicate {A = ℕ} page_entries 0;
  held = λ i on z.
      let one =
        get_or-set_self {A = ℕ} (set (replicate pmm_max_frames 0) 768 2) 1024 1 0
          (omega (arith, length-shared_refs)) in
      let e = one_table-first i on in
      absurd (
        omega (
          arith,
          sym one
              ∙ ap (λ k. get_or one_table.frames.refs (get_or one_table.dir k 0 / page_size) 0)
                  (sym e)
              ∙ z,
        ));
  apart = λ i j n hi hj. absurd (n (one_table-first i hi ∙ sym (one_table-first j hj)));
}

pub one_table-pte : pte_of one_table 0 ≡ some 0x00300003
unfolding pte_of pte_ptr
one_table-pte = refl

-- The same with entries that are marked as shared.
abbrev shared_page : Paging
shared_page = record one_table { mem = λ a. 0x00300201 }

shared_page-IsValid : IsValid shared_page
shared_page-IsValid = record {
  frames = one_table-IsValid.frames;
  base = one_table-IsValid.base;
  size = one_table-IsValid.size;
  held = one_table-IsValid.held;
  apart = one_table-IsValid.apart;
}

cow_fault_lem_example :
    ((ltb 1 (pmm_refcount shared_page.frames 0x00300000) ≡ false)
      × LastUser shared_page 0 0x00300201 (cow_fault 0 shared_page))
    ⊎ ((((pmm_alloc shared_page.frames).0 ≡ 0) × (cow_fault 0 shared_page ≡ none))
        ⊎ Copied shared_page 0 0x00300201 (cow_fault 0 shared_page))
unfolding pte_of pte_ptr
cow_fault_lem_example = cow_fault_lem shared_page 0 0x00300201 shared_page-IsValid refl refl

abbrev fresh : Heap
fresh = heap_init no_tables

-- 16 bytes, then 8 in their place once they are free, then too many.
run-IsValid_example : kum_os.Paging.Heap.Layout.IsValid (
    run fresh (
      alloc 16 (omega arith)
      ∷ free heap_virt_base
      ∷ alloc 8 (omega arith)
      ∷ alloc 0x01000000 (omega arith)
      ∷ []))
run-IsValid_example = run-IsValid no_tables (
    alloc 16 (omega arith)
    ∷ free heap_virt_base
    ∷ alloc 8 (omega arith)
    ∷ alloc 0x01000000 (omega arith)
    ∷ [])

heap_alloc_lem_example : Allocated 16 fresh (heap_alloc 16 fresh)
heap_alloc_lem_example = heap_alloc_lem 16 fresh (init-IsValid no_tables) (omega arith)

alloc_lowers_break_example :
    ((heap_alloc 0xFFFFF000 fresh).0 ≡ fresh.brk)
    × ((heap_alloc 0xFFFFF000 fresh).1.brk + 4096 ≡ fresh.brk)
unfolding heap_init find_index
alloc_lowers_break_example =
    alloc_lowers_break fresh (omega arith) (omega arith) (omega arith) (omega arith) refl

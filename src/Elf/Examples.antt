-- ===== src/Elf/Examples.antt =====
-- A segment of one page, at which the theorems are used.
use kum_os.Base.{
  ℕ, ◌+◌, ◌*◌, ◌/◌, ◌≤◌, ◌<◌, ◌≡◌, refl, true, arith, replicate, length-replicate, get_or-replicate,
}
use kum_os.Frames.{pmm_max_frames, pmm_alloc, first_free}
use kum_os.Paging.{
  Paging, page_entries, pte_ptr, pte_of, paging_is_mapped, pte_ptr_alloc, new_table, map_at,
  paging_map, store, clear_page,
}
use kum_os.Paging.Tables.{IsValid, has_table}
use kum_os.Elf.{ElfPhdr, map_frame, map_pages, segment_start, segment_end, page_rounds}
use kum_os.Elf.Pages.{segment_pages}

-- No table yet, and three free frames.
abbrev bare : Paging
bare = record {
  frames = record { refs = replicate pmm_max_frames 0; total = 3; used = 0; base = 256 };
  dir = replicate page_entries 0;
  mem = λ a. 0;
}

bare-IsValid : IsValid bare
bare-IsValid = record {
  frames = record { size = length-replicate {A = ℕ} pmm_max_frames 0; window = omega arith };
  base = omega arith;
  size = length-replicate {A = ℕ} page_entries 0;
  held = λ i on. absurd (tableless i on);
  apart = λ i j n hi hj. absurd (tableless i hi);
}
  where
    tableless : (i : ℕ) → has_table bare i ≡ true → ⊥
    tableless i on = let z = get_or-replicate {A = ℕ} page_entries i 0 in ground arith

abbrev text : ElfPhdr
text = record { type = 1; offset = 0; vaddr = 0x8048000; filesz = 0; memsz = 16 }

abbrev loaded : Paging
loaded = (map_pages (page_rounds text) (segment_start text) (segment_end text) bare).1

text_maps :
    map_pages (page_rounds text) (segment_start text) (segment_end text) bare ≡ (true, loaded)
unfolding map_pages map_frame pte_ptr pte_of paging_is_mapped pte_ptr_alloc new_table map_at
    paging_map store clear_page pmm_alloc first_free
text_maps = refl

-- The frame left is the one behind those of the page and of its table.
last_frame : (pmm_alloc loaded.frames).0 ≡ 258 * 4096
unfolding map_pages map_frame pte_ptr pte_of paging_is_mapped pte_ptr_alloc new_table map_at
    paging_map store clear_page pmm_alloc first_free
last_frame = refl

segment_pages_example :
    IsValid loaded
    × ((a : ℕ)
        → text.vaddr ≤ a
        → a < text.vaddr + text.memsz
        → paging_is_mapped loaded (a / 4096 * 4096) ≡ true)
    × ((k : ℕ)
        → paging_is_mapped bare (4096 * k) ≡ true
        → paging_is_mapped loaded (4096 * k) ≡ true)
segment_pages_example =
    segment_pages text bare loaded bare-IsValid (omega arith) text_maps
      (λ z. omega (arith, last_frame))

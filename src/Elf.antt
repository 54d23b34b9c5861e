-- ===== src/Elf.antt =====
-- src/elf.c: elf_validate and elf_load_mem, over the page directory of src/paging.c. What kmemcpy and kmemset
-- do at a virtual address goes through the processor's translation and is a parameter; it may change
-- any part of the memory, the page tables included. `none` means that the loader copies bytes that the
-- file does not have.
pub mod Loading
pub mod Round
pub mod Pages
pub mod Examples
use kum_os.Base.{
  ℕ, zero, suc, ◌+◌, ◌-◌, ◌*◌, ◌/◌, ◌%◌, Bool, true, false, not, ◌&&◌, ◌||◌, Option, none, some,
  List, [], ◌∷◌, ◌++◌, if◌then◌else◌, ltb, leb, ◌==◌, length, take, drop, get_or, ℤ, pos, negsuc,
  add32, sub32, mul32, u32,
}
use kum_os.Fat12.Volume.{le16, le32}
use kum_os.Frames.{Frames, pmm_alloc}
use kum_os.Paging.{Paging, clear_page, paging_map, paging_is_mapped}

-- kmemcpy and kmemset at virtual addresses.
pub record Processor : Type 0 where
  pub copy_to : ℕ → List ℕ → Paging → Paging
  pub clear : ℕ → ℕ → Paging → Paging

-- elf32_hdr_t, the fields that are read.
pub record ElfHdr : Type 0 where
  pub magic : ℕ
  pub class : ℕ
  pub type : ℕ
  pub machine : ℕ
  pub entry : ℕ
  pub phoff : ℕ
  pub phentsize : ℕ
  pub phnum : ℕ

-- elf32_phdr_t, the fields that are read.
pub record ElfPhdr : Type 0 where
  pub type : ℕ
  pub offset : ℕ
  pub vaddr : ℕ
  pub filesz : ℕ
  pub memsz : ℕ

-- elf_load_result_t
pub record LoadResult : Type 0 where
  pub entry : ℕ
  pub load_base : ℕ
  pub load_end : ℕ
  pub error : ℤ

abbrev pub hdr_of : List ℕ → ElfHdr
hdr_of d = record {
  magic = le32 d 0;
  class = get_or d 4 0;
  type = le16 d 16;
  machine = le16 d 18;
  entry = le32 d 24;
  phoff = le32 d 28;
  phentsize = le16 d 42;
  phnum = le16 d 44;
}

abbrev pub phdr_at : List ℕ → ℕ → ElfPhdr
phdr_at d i = record {
  type = le32 d i;
  offset = le32 d (i + 4);
  vaddr = le32 d (i + 8);
  filesz = le32 d (i + 16);
  memsz = le32 d (i + 20);
}

abbrev pub elf_magic : ℕ
elf_magic = 0x464C457F

pub elf_validate : ElfHdr → ℤ
elf_validate h =
    if not (h.magic == elf_magic)
    then negsuc 0
    else if not (h.class == 1)
    then negsuc 1
    else if not (h.machine == 3)
    then negsuc 1
    else if not (h.type == 2)
    then negsuc 1
    else if h.phnum == 0
    then negsuc 1
    else pos 0

-- `if (src_off + copy > bufsz) copy = bufsz - src_off;`
abbrev pub copy_count : ℕ → ℕ → ℕ → ℕ
copy_count off filesz bufsz = if ltb bufsz (add32 off filesz) then sub32 bufsz off else filesz

-- What becomes of a program header.
pub data Verdict : Type 0 where
  skipped refused wanted : Verdict

pub verdict : ElfPhdr → Verdict
verdict ph =
    if not (ph.type == 1) || ph.memsz == 0
    then skipped
    else if ltb ph.vaddr 0x100000 || leb 0xC0000000 ph.vaddr
    then skipped
    else if ltb ph.vaddr 0x500000
    then refused
    else wanted

abbrev pub with_segment : LoadResult → ElfPhdr → LoadResult
with_segment r ph =
    let end = add32 ph.vaddr ph.memsz in
    record r {
      load_base = if ltb ph.vaddr r.load_base then ph.vaddr else r.load_base;
      load_end = if ltb r.load_end end then end else r.load_end;
    }

-- PAGE_USER | PAGE_WRITE
abbrev pub user_flags : ℕ
user_flags = 6

-- The frame that pmm_alloc gives is cleared and mapped at va; `false` if there is none. Where no frame
-- is left for a page table, paging_map maps nothing.
pub map_frame : ℕ → Paging → ℕ × Frames → Bool × Paging
map_frame va p (phys, frames) =
    let given = record p { frames = frames; mem = clear_page p.mem phys } in
    if phys == 0
    then (false, record p { frames = frames })
    else (true, paging_map given va phys user_flags)

-- The loop over the pages from va on; `false` if there is no frame.
pub map_pages : ℕ → ℕ → ℕ → Paging → Bool × Paging
map_pages zero va vend p = (true, p)
map_pages (suc fuel) va vend p =
    let (ok, p') =
      if paging_is_mapped p va then (true, p) else map_frame va p (pmm_alloc p.frames) in
    let rest = map_pages fuel (add32 va 4096) vend p' in
    if ltb va vend then (if ok then rest else (false, p')) else (true, p)

-- PAGE_ALIGN(ph->vaddr + ph->memsz)
abbrev pub segment_end : ElfPhdr → ℕ
segment_end ph = add32 (add32 ph.vaddr ph.memsz) 4095 / 4096 * 4096

abbrev pub segment_start : ElfPhdr → ℕ
segment_start ph = ph.vaddr / 4096 * 4096

-- The rounds of the loop over the pages of a segment.
abbrev pub page_rounds : ElfPhdr → ℕ
page_rounds ph = (segment_end ph - segment_start ph) / 4096 + 1

module _ (cpu : Processor) where
  -- kmemset behind the bytes of the file.
  abbrev pub clear_rest : ElfPhdr → Paging → Paging
  clear_rest ph p =
      if ltb ph.filesz ph.memsz
      then cpu.clear (add32 ph.vaddr ph.filesz) (ph.memsz - ph.filesz) p
      else p

  -- The bytes of a segment, once the loop over its pages has ended.
  pub fill_segment : List ℕ → ElfPhdr → Paging → Option Paging
  fill_segment d ph p =
      let n = copy_count ph.offset ph.filesz (length d) in
      if ltb 0 ph.filesz
      then (if leb (ph.offset + n) (length d)
          then some (clear_rest ph (cpu.copy_to ph.vaddr (take n (drop ph.offset d)) p))
          else none)
      else some (clear_rest ph p)

  pub load_segment : List ℕ → ElfPhdr → Paging → Option (Bool × Paging)
  load_segment d ph p =
      let (ok, p') = map_pages (page_rounds ph) (segment_start ph) (segment_end ph) p in
      elim (if ok then fill_segment d ph p' else some p') [
        | none ↦ none
        | some p'' ↦ some (ok, p'')
      ]

  -- A program header, and the loop over the others.
  pub load_from : ℕ → ℕ → List ℕ → ElfHdr → LoadResult → Paging → Option (LoadResult × Paging)
  load_from zero i d h r p = some (r, p)
  load_from (suc rounds) i d h r p =
      let phoff = add32 h.phoff (mul32 i h.phentsize) in
      let ph = phdr_at d phoff in
      let next = load_from rounds (i + 1) d h in
      if ltb (length d) (add32 phoff 32) then next r p else elim (verdict ph) [
        | skipped ↦ next r p
        | refused ↦ some (record r { error = negsuc 1 }, p)
        | wanted ↦ elim (load_segment d ph p) [
          | none ↦ none
          | some (true, p') ↦ next (with_segment r ph) p'
          | some (false, p') ↦ some (record r { error = negsuc 2 }, p')
        ]
      ]

  -- `if (res.load_base == 0xFFFFFFFF) { res.error = -2; return res; }`, where the loop came to its end.
  pub finished : LoadResult → LoadResult
  finished r = elim r.error as (λ _. LoadResult) [
    | pos n ↦ if r.load_base == 0xFFFFFFFF then record r { error = negsuc 1 } else r
    | negsuc n ↦ r
  ]

  pub elf_load_mem : List ℕ → Paging → Option (LoadResult × Paging)
  elf_load_mem d p =
      let h = hdr_of d in
      let none' : LoadResult = record { entry = 0; load_base = 0; load_end = 0; error = pos 0 } in
      let start : LoadResult = record none' { entry = h.entry; load_base = 0xFFFFFFFF } in
      let loaded = load_from h.phnum 0 d h start p in
      if ltb (length d) 52
      then some (record none' { error = negsuc 0 }, p)
      else elim (elf_validate h) [
        | pos n ↦ elim loaded [ none ↦ none | some (r, p') ↦ some (finished r, p') ]
        | negsuc n ↦ some (record none' { error = negsuc 1 }, p)
      ]

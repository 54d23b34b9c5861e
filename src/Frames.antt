-- ===== src/Frames.antt =====
-- src/paging.c, the pmm_ functions: reference counts of the physical frames.
-- Counts are bytes and stay below 255 by the guard of pmm_ref; the number of frames in use, at most
-- 65536, does not overflow.
pub mod Alloc
pub mod Examples
use kum_os.Base.{
  ℕ, zero, suc, ◌+◌, ◌-◌, ◌*◌, ◌/◌, ◌%◌, Bool, ◌&&◌, Option, none, some, List, if◌then◌else◌, ltb,
  leb, ◌==◌, get_or, set, replicate, min, sub32, u32,
}

abbrev pub page_size : ℕ
page_size = 4096

abbrev pub pmm_max_frames : ℕ
pmm_max_frames = 65536

-- pmm_refs, pmm_total_frames, pmm_used_frames and pmm_base_frame
pub record Frames : Type 0 where
  pub refs : List ℕ
  pub total : ℕ
  pub used : ℕ
  pub base : ℕ

abbrev pub frame_idx : ℕ → ℕ
frame_idx phys = phys / page_size

-- pmm_refs[i] = v for n frames from i on.
pub fill : ℕ → ℕ → ℕ → List ℕ → List ℕ
fill zero i v refs = refs
fill (suc n) i v refs = fill n (i + 1) v (set refs i v)

-- The kernel's frames are those from 1 MB to 5 MB.
pub pmm_init : ℕ → Frames
pmm_init mem_kb =
    let end = min (mem_kb * 1024 % u32) (pmm_max_frames * page_size) in
    let base = frame_idx 0x00100000 in
    let total = min (sub32 end 0x00100000 / page_size) (pmm_max_frames - base) in
    let kernel = frame_idx 0x00500000 - base in
    record {
      refs = fill kernel base 1 (fill total base 0 (replicate pmm_max_frames 255));
      total = total;
      used = kernel;
      base = base;
    }

-- The loop of pmm_alloc at frame i, with the rounds that are left.
unfoldable pub first_free : ℕ → List ℕ → ℕ → Option ℕ
first_free zero refs i = none
first_free (suc n) refs i =
    let rest = first_free n refs (i + 1) in
    if leb pmm_max_frames i then none else if get_or refs i 0 == 0 then some i else rest

unfoldable pub pmm_alloc : Frames → ℕ × Frames
pmm_alloc f = elim (first_free f.total f.refs f.base) [
  | none ↦ (0, f)
  | some i ↦ (i * page_size, record f { refs = set f.refs i 1; used = f.used + 1 })
]

pub pmm_free : Frames → ℕ → Frames
pmm_free f addr =
    let idx = frame_idx addr in
    let count = get_or f.refs idx 0 in
    if leb pmm_max_frames idx then f else if count == 0 then f else record f {
      refs = set f.refs idx (count - 1);
      used = if count - 1 == 0 && ltb 0 f.used then f.used - 1 else f.used;
    }

pub pmm_ref : Frames → ℕ → Frames
pmm_ref f addr =
    let idx = frame_idx addr in
    let count = get_or f.refs idx 0 in
    if ltb idx pmm_max_frames && ltb count 254
    then record f { refs = set f.refs idx (count + 1) }
    else f

pub pmm_refcount : Frames → ℕ → ℕ
pmm_refcount f addr =
    let idx = frame_idx addr in if ltb idx pmm_max_frames then get_or f.refs idx 0 else 0

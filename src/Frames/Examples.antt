-- ===== src/Frames/Examples.antt =====
-- A table with a window of two frames, on which the theorem is used.
use kum_os.Base.{ℕ, ◌*◌, ◌≤◌, ◌<◌, ◌≡◌, ◌≢◌, ◌⊎◌, arith, replicate, get_or, length-replicate}
use kum_os.Frames.{Frames, page_size, pmm_max_frames, pmm_alloc, pmm_free, pmm_refcount}
use kum_os.Frames.Alloc.{IsValid, pmm_alloc_lem}

abbrev two_frames : Frames
two_frames = record { refs = replicate pmm_max_frames 0; total = 2; used = 0; base = 256 }

two_frames-IsValid : IsValid two_frames
two_frames-IsValid = record {
  size = length-replicate {A = ℕ} pmm_max_frames 0;
  window = omega arith;
}

pmm_alloc_lem_example :
    ((pmm_alloc two_frames ≡ (0, two_frames))
      × ((m : ℕ) → 256 ≤ m → m < 258 → get_or two_frames.refs m 0 ≢ 0))
    ⊎ ((i : ℕ) × (256 ≤ i)
        × (i < 258)
        × (get_or two_frames.refs i 0 ≡ 0)
        × ((m : ℕ) → 256 ≤ m → m < i → get_or two_frames.refs m 0 ≢ 0)
        × ((pmm_alloc two_frames).0 ≡ i * page_size)
        × (pmm_refcount (pmm_alloc two_frames).1 (i * page_size) ≡ 1)
        × ((m : ℕ) → m ≢ i → get_or (pmm_alloc two_frames).1.refs m 0 ≡ get_or two_frames.refs m 0)
        × (pmm_free (pmm_alloc two_frames).1 (i * page_size) ≡ two_frames))
pmm_alloc_lem_example = pmm_alloc_lem two_frames two_frames-IsValid

-- ===== src/Kmalloc/Apart.antt =====
-- What the invariant says of two blocks in use, and the heap it starts from.
use kum_os.Base.{ℕ, ◌+◌, ◌≤◌, ◌<◌, ◌≡◌, refl, true, List, [], arith, u32, some}
use kum_os.Kmalloc.{header_size, Memory, Kmalloc, kmalloc_init}
use kum_os.Kmalloc.Lists.{holds}
use kum_os.Kmalloc.Tiles.{Tiles-bounds, Tiles-apart}
use kum_os.Kmalloc.Shape.{Shape}
use kum_os.Kmalloc.Owned.{owned}

-- Two blocks in use lie inside the heap and do not overlap.
pub apart :
    (k : Kmalloc) (bs fl : List ℕ) (a b n m : ℕ)
    → Shape k bs fl
    → owned k bs a ≡ some n
    → owned k bs b ≡ some m
    → a < b
    → (k.heap_start ≤ a) × (a + header_size + n ≤ b) × (b + header_size + m ≤ k.heap_end)
apart k bs fl a b n m s oa ob l =
    let (ha, na) = owned_size k bs a n oa in
    let (hb, nb) = owned_size k bs b m ob in
    let (lo, hi) = Tiles-bounds k.mem k.heap_start bs k.heap_end a s.tiles ha in
    let (lo', hi') = Tiles-bounds k.mem k.heap_start bs k.heap_end b s.tiles hb in
    let gap = Tiles-apart k.mem k.heap_start bs k.heap_end a b s.tiles ha hb l in
    (lo, omega arith, omega arith)
  where
    owned_size :
        (k : Kmalloc) (bs : List ℕ) (a n : ℕ)
        → owned k bs a ≡ some n
        → (holds bs a ≡ true) × ((k.mem a).size ≡ n)
    owned_size k bs a n o = (ground arith, ground arith)

-- The heap that kmalloc_init sets up.
pub kmalloc_init-Shape :
    (mem : Memory) (start size : ℕ)
    → 0 < start
    → start + size < u32
    → Shape (kmalloc_init mem start size) [] []
unfolding kmalloc_init
kmalloc_init-Shape mem start size pos small = record {
  positive = pos;
  below = omega arith;
  small = omega arith;
  tiles = refl;
  links = tt;
  first = refl;
  nodup = tt;
  listed = λ a. refl;
  marked = λ a h. absurd (ground arith);
}

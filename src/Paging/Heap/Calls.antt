-- ===== src/Paging/Heap/Calls.antt =====
-- The heap under any calls, from heap_init on.
use kum_os.Base.{
  ℕ, ◌≤◌, ◌≡◌, refl, false, Option, none, some, List, [], ◌∷◌, arith, find_index, find_index-lt,
}
use kum_os.Paging.{Paging}
use kum_os.Paging.Heap.{Heap, heap_init, is_used_at, block, heap_alloc, release, heap_free}
use kum_os.Paging.Heap.Layout.{IsValid, max_request, marked-IsValid}
use kum_os.Paging.Heap.Alloc.{heap_alloc_lem}

heap_free-IsValid : (addr : ℕ) (h : Heap) → IsValid h → IsValid (heap_free addr h)
unfolding heap_free release
heap_free-IsValid addr h valid = go (find_index (is_used_at addr) h.blocks) refl
  where
    go : (o : Option ℕ) → find_index (is_used_at addr) h.blocks ≡ o → IsValid (release h o)
    go none e = valid
    go (some i) e =
        marked-IsValid h _ i (record (block h i) { used = false }) valid
          (find_index-lt (is_used_at addr) h.blocks i e) refl refl refl refl

-- A call of the heap.
pub data Call : Type 0 where
  alloc : (size : ℕ) → size ≤ max_request → Call
  free : ℕ → Call

pub run : Heap → List Call → Heap
run h [] = h
run h (alloc size few ∷ cs) = run (heap_alloc size h).1 cs
run h (free addr ∷ cs) = run (heap_free addr h) cs

run-IsValid_from : (cs : List Call) (h : Heap) → IsValid h → IsValid (run h cs)
unfolding run
run-IsValid_from [] h valid = valid
run-IsValid_from (alloc size few ∷ cs) h valid =
    run-IsValid_from cs _ (heap_alloc_lem size h valid few).0
run-IsValid_from (free addr ∷ cs) h valid = run-IsValid_from cs _ (heap_free-IsValid addr h valid)

pub init-IsValid : (p : Paging) → IsValid (heap_init p)
unfolding heap_init
init-IsValid p = record {
  base = omega arith;
  max = omega arith;
  inside = λ i l. absurd (omega arith);
  apart = λ i j lij lj. absurd (omega arith);
}

-- From heap_init on, after any calls of heap_free and of heap_alloc with at most max_request bytes,
-- the blocks lie between the base and the break of the heap and do not overlap, and the break is
-- below HEAP_VIRT_MAX.
pub run-IsValid : (p : Paging) (cs : List Call) → IsValid (run (heap_init p) cs)
run-IsValid p cs = run-IsValid_from cs (heap_init p) (init-IsValid p)

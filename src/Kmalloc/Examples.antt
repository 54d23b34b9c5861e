-- ===== src/Kmalloc/Examples.antt =====
-- Small heaps, and the theorems at them.
use kum_os.Base.{
  List, get_or, ℕ, ◌+◌, ◌*◌, ◌≤◌, ◌<◌, ◌≡◌, ◌⊎◌, refl, true, [], ◌∷◌, arith, length, u32,
}
use kum_os.Kmalloc.{header_size, Kmalloc, kmalloc_init, kmalloc_used, kmalloc_free}
use kum_os.Kmalloc.Shape.{Shape}
use kum_os.Kmalloc.{kmalloc, kfree, take_block, unlink, push_free}
use kum_os.Kmalloc.Shape.{take-Shape}
use kum_os.Kmalloc.Push.{end_at, last-Shape}
use kum_os.Kmalloc.Alloc.{smaller, Allocated}
use kum_os.Kmalloc.{rounded_size, relink, alloc_at, find_fit, extend_heap, split_block}
use kum_os.Kmalloc.Calls.{kmalloc_lem}
use kum_os.Kmalloc.Frees.{kfree_lem, Freed}
use kum_os.Kmalloc.Count.{kmalloc_used-kmalloc_free}
use kum_os.Kmalloc.Apart.{kmalloc_init-Shape}
use kum_os.Kmalloc.{Memory, coalesce}
use kum_os.Kmalloc.Runs.{null, Call, malloc, free, run}
use kum_os.Kmalloc.Runs.Calls.{from_init, run_apart}

-- A heap of 256 bytes from 4096 on.
abbrev empty_heap : Kmalloc
empty_heap = kmalloc_init (λ a. record { magic = 0; size = 0; prev = 0; next = 0 }) 4096 256

empty-Shape : Shape empty_heap [] []
empty-Shape = kmalloc_init-Shape _ 4096 256 (omega arith) (omega arith)

kmalloc_init-Shape_example :
    Shape (kmalloc_init (λ a. record { magic = 0; size = 0; prev = 0; next = 0 }) 4096 256) [] []
kmalloc_init-Shape_example =
    kmalloc_init-Shape (λ a. record { magic = 0; size = 0; prev = 0; next = 0 }) 4096 256
      (omega arith) (omega arith)

-- The heap with a block of 64 bytes, free and in use.
abbrev free_heap : Kmalloc
free_heap = end_at (push_free empty_heap 4096 64) 4176

free-Shape : Shape free_heap (4096 ∷ []) (4096 ∷ [])
unfolding kmalloc_init
free-Shape = last-Shape empty_heap [] [] 64 empty-Shape (omega arith)

abbrev used_heap : Kmalloc
used_heap = take_block (unlink free_heap 4096) 4096

used-Shape : Shape used_heap (4096 ∷ []) []
used-Shape = take-Shape free_heap (4096 ∷ []) [] 4096 [] free-Shape

-- With a second block of 32 bytes in use.
abbrev two_heap : Kmalloc
two_heap = take_block (unlink (end_at (push_free used_heap 4176 32) 4224) 4176) 4176

two-Shape : Shape two_heap (4096 ∷ 4176 ∷ []) []
unfolding kmalloc_init take_block unlink relink push_free
two-Shape =
    take-Shape (end_at (push_free used_heap 4176 32) 4224) (4096 ∷ 4176 ∷ []) [] 4176 []
      (last-Shape used_heap (4096 ∷ []) [] 32 used-Shape (omega arith))

free_small : free_heap.heap_cap + 10 + 40 ≤ u32
unfolding kmalloc_init push_free
free_small = omega arith

kmalloc_lem_example :
    ((kmalloc 10 free_heap ≡ (0, free_heap))
      × (smaller free_heap.mem (rounded_size 10) (4096 ∷ []) ≡ true)
      × (free_heap.heap_cap < free_heap.heap_end + header_size + rounded_size 10))
    ⊎ Allocated free_heap (4096 ∷ []) 10 (kmalloc 10 free_heap)
kmalloc_lem_example =
    kmalloc_lem free_heap (4096 ∷ []) (4096 ∷ []) 10 free-Shape (omega arith) free_small

kfree_lem_example : Freed two_heap (4096 ∷ 4176 ∷ []) 4176 (kfree two_heap (4176 + header_size))
kfree_lem_example = kfree_lem two_heap (4096 ∷ 4176 ∷ []) [] 4176 two-Shape refl

kmalloc_used-kmalloc_free_example :
    two_heap.heap_start
      + header_size * length {A = ℕ} (4096 ∷ 4176 ∷ [])
      + kmalloc_used two_heap
      + kmalloc_free two_heap
    ≡ two_heap.heap_end
kmalloc_used-kmalloc_free_example =
    kmalloc_used-kmalloc_free two_heap (4096 ∷ 4176 ∷ []) [] two-Shape

-- Two requests, a free of the second, and one more, which takes part of its block.
abbrev some_calls : List Call
some_calls = malloc 10 ∷ malloc 90 ∷ free 0 ∷ malloc 5 ∷ []

abbrev raw : Memory
raw a = record { magic = 0; size = 0; prev = 0; next = 0 }

first_held : (get_or (run some_calls (from_init raw 4096 256)).held 0 null).address ≡ 4144
unfolding run kmalloc kfree coalesce alloc_at find_fit extend_heap kmalloc_init push_free
    split_block relink unlink take_block
first_held = refl

last_held : (get_or (run some_calls (from_init raw 4096 256)).held 2 null).address ≡ 4112
unfolding run kmalloc kfree coalesce alloc_at find_fit extend_heap kmalloc_init push_free
    split_block relink unlink take_block
last_held = refl

run_apart_example :
    (let a = get_or (run some_calls (from_init raw 4096 256)).held 0 null in
      let b = get_or (run some_calls (from_init raw 4096 256)).held 2 null in
      (4096 + header_size ≤ a.address)
      × (a.address + a.size ≤ 4096 + 256)
      × ((a.address + a.size + header_size ≤ b.address)
          ⊎ (b.address + b.size + header_size ≤ a.address)))
run_apart_example =
    run_apart raw 4096 256 some_calls 0 2 (omega arith) (omega arith)
      (omega arith, (omega arith, (omega arith, (omega arith, omega arith)))) (λ e. omega arith)
      (omega (arith, first_held)) (omega (arith, last_held))

-- A request that is split from the free block, and one there is no room for.
kmalloc_small : (kmalloc 10 free_heap).0 ≡ 4112
unfolding kmalloc alloc_at find_fit extend_heap kmalloc_init push_free split_block relink unlink
    take_block
kmalloc_small = refl

kmalloc_wraps : (kmalloc 4294967295 free_heap).0 ≡ 4112
unfolding kmalloc alloc_at find_fit extend_heap kmalloc_init push_free split_block relink unlink
    take_block
kmalloc_wraps = refl

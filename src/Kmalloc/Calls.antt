-- ===== src/Kmalloc/Calls.antt =====
-- The calls of the allocator: kmalloc and kfree keep the invariant, and what is in use changes by one block.
use kum_os.Base.{
  ℕ, ◌+◌, ◌≤◌, ◌<◌, ◌≡◌, ◌≢◌, ◌⊎◌, inl, inr, refl, ap, ◌∙◌, true, false, List, [], ◌∷◌, ◌++◌, arith,
  if◌then◌else◌, ◌==◌, Bool-cases, ne→==, u32, ltb, leb, some, add32,
}
use kum_os.Kmalloc.{
  header_size, min_split, Kmalloc, unlink, take_block, push_free, extend_heap, find_fit, alloc_at,
  kmalloc, heap_rounds, rounded_size,
}
use kum_os.Kmalloc.Lists.{holds, holds-Around, length_le}
use kum_os.Kmalloc.Tiles.{Tiles-le}
use kum_os.Kmalloc.Shape.{Shape, Shape-free, take-Shape}
use kum_os.Kmalloc.Push.{push-fields, end_at, end_out, last-Shape}
use kum_os.Kmalloc.Owned.{owned, take-owned, last-owned}
use kum_os.Kmalloc.Alloc.{
  smaller, Fit, find_fit_lem, Allocated, alloc_take, alloc_split, taken-Allocated, split-Allocated,
}

rounded_bounds :
    (size cap : ℕ)
    → 0 < size
    → cap + size + 40 ≤ u32
    → (size ≤ rounded_size size) × (cap + rounded_size size + 32 < u32)
rounded_bounds size cap pos small = (omega arith, omega arith)

-- The loop finds what there is: the list is no longer than the fuel.
Fit-found :
    (k : Kmalloc) (bs fl : List ℕ) (size : ℕ)
    → Shape k bs fl
    → Fit k.mem size fl (find_fit (heap_rounds k) k size k.free_list)
Fit-found k bs fl size s =
    let le = length_le fl bs s.nodup (λ a h. (Shape-free k bs fl s a h).0) in
    let fill = Tiles-le k.mem k.heap_start bs k.heap_end s.tiles in
    find_fit_lem (heap_rounds k) k size 0 k.free_list fl s.links
      (λ a h. (Shape-free k bs fl s a h).2) s.first (omega arith)

found-Allocated :
    (k : Kmalloc) (bs fl : List ℕ) (size b : ℕ)
    → Shape k bs fl
    → holds fl b ≡ true
    → size ≤ (k.mem b).size
    → size + header_size + min_split < u32
    → Allocated k bs size (alloc_at size k b)
found-Allocated k bs fl size b s h enough small =
    let (in', free, nz) = Shape-free k bs fl s b h in
    let around = holds-Around fl b h in
    let s' : Shape k bs (around.before ++ b ∷ around.after) = rw (← around.whole) s in
    elim (Bool-cases (leb (add32 (add32 size header_size) min_split) (k.mem b).size)) [
      | inl large ↦
          let cut = holds-Around bs b in' in
          let s'' : Shape k (cut.before ++ b ∷ cut.after) (around.before ++ b ∷ around.after) =
            rw (← cut.whole) s' in
          let r =
            split-Allocated k cut.before b cut.after around.before around.after size s''
              (ground arith) in
          rw (alloc_split size k b nz large, cut.whole) r
      | inr exact ↦
          rw (alloc_take size k b nz exact)
            (taken-Allocated k bs around.before b around.after size s' enough)
    ]

alloc_full :
    (size : ℕ) (k : Kmalloc)
    → ltb k.heap_cap (add32 k.heap_end (add32 header_size size)) ≡ true
    → alloc_at size k 0 ≡ (0, k)
unfolding alloc_at extend_heap
alloc_full size k l = rw l refl

-- The allocator with a new block at the end of the heap.
abbrev extended : Kmalloc → ℕ → ℕ → Kmalloc
extended k size e = end_at (push_free k k.heap_end size) e

alloc_last :
    (size : ℕ) (k : Kmalloc)
    → ltb k.heap_cap (add32 k.heap_end (add32 header_size size)) ≡ false
    → k.heap_end ≢ 0
    → alloc_at size k 0 ≡ (
      k.heap_end + header_size,
      take_block
          (unlink (extended k size (add32 k.heap_end (add32 header_size size))) k.heap_end)
          k.heap_end,
    )
unfolding alloc_at extend_heap
alloc_last size k l n = rw (l, ne→== k.heap_end 0 n) refl

sum_exact :
    (cap e size : ℕ)
    → e ≤ cap
    → cap + size + 32 < u32
    → add32 e (add32 header_size size) ≡ e + header_size + size
sum_exact cap e size le small = omega arith

last-Allocated :
    (k : Kmalloc) (bs fl : List ℕ) (size : ℕ)
    → Shape k bs fl
    → k.heap_end + header_size + size ≤ k.heap_cap
    → Allocated k bs size (
      k.heap_end + header_size,
      take_block (unlink (extended k size (k.heap_end + header_size + size)) k.heap_end) k.heap_end,
    )
last-Allocated k bs fl size s fits =
    let k' = extended k size (k.heap_end + header_size + size) in
    let s' = last-Shape k bs fl size s fits in
    let listed : holds (bs ++ k.heap_end ∷ []) k.heap_end ≡ true =
      (Shape-free k' (bs ++ k.heap_end ∷ []) (k.heap_end ∷ fl) s' k.heap_end (ground arith)).0 in
    let out = end_out k bs fl s in
    let own = last-owned k bs fl size (k.heap_end + header_size + size) s in
    let is_size : (k'.mem k.heap_end).size ≡ size =
      (push-fields k k.heap_end size k.heap_end).1 ∙ ground arith in
    record {
      block = k.heap_end;
      bytes = size;
      blocks = bs ++ k.heap_end ∷ [];
      frees = fl;
      address = refl;
      enough = omega arith;
      shape = take-Shape k' (bs ++ k.heap_end ∷ []) [] k.heap_end fl s';
      fresh = ground arith;
      owns = λ a.
          take-owned k' (bs ++ k.heap_end ∷ []) [] k.heap_end fl s' listed a
          ∙ ap (λ n. if k.heap_end == a then some n else owned k' (bs ++ k.heap_end ∷ []) a) is_size
          ∙ ap (λ o. if k.heap_end == a then some size else o) (own a);
    }

Allocated-le :
    (k : Kmalloc) (bs : List ℕ) (size size' : ℕ) (out : ℕ × Kmalloc)
    → size ≤ size'
    → Allocated k bs size' out
    → Allocated k bs size out
Allocated-le k bs size size' out le r =
    let more = r.enough in
    record {
      block = r.block;
      bytes = r.bytes;
      blocks = r.blocks;
      frees = r.frees;
      address = r.address;
      enough = omega arith;
      shape = r.shape;
      fresh = r.fresh;
      owns = r.owns;
    }

kmalloc_start :
    (size : ℕ) (k : Kmalloc)
    → 0 < size
    → kmalloc size k
      ≡ alloc_at (rounded_size size) k (find_fit (heap_rounds k) k (rounded_size size) k.free_list)
unfolding kmalloc
kmalloc_start size k pos = rw (ne→== size 0 (λ z. omega arith)) refl

-- kmalloc on a well-formed heap, for a request that does not wrap around behind its end: no block,
-- an unchanged heap, no free block of the size and no room at the end, or a block for the request.
pub kmalloc_lem :
    (k : Kmalloc) (bs fl : List ℕ) (size : ℕ)
    → Shape k bs fl
    → 0 < size
    → k.heap_cap + size + 40 ≤ u32
    → ((kmalloc size k ≡ (0, k))
        × (smaller k.mem (rounded_size size) fl ≡ true)
        × (k.heap_cap < k.heap_end + header_size + rounded_size size))
      ⊎ Allocated k bs size (kmalloc size k)
kmalloc_lem k bs fl size s pos small =
    let (more, fits) = rounded_bounds size k.heap_cap pos small in
    let lo = Tiles-le k.mem k.heap_start bs k.heap_end s.tiles in
    let below = s.below in
    let p = s.positive in
    let start = kmalloc_start size k pos in
    elim (Fit-found k bs fl (rounded_size size) s) [
      | inl (none', small_all) ↦
          let from = start ∙ ap (alloc_at (rounded_size size) k) none' in
          let exact = sum_exact k.heap_cap k.heap_end (rounded_size size) below fits in
          elim (Bool-cases
            (ltb k.heap_cap (add32 k.heap_end (add32 header_size (rounded_size size))))) [
              | inl full ↦
                  inl (from ∙ alloc_full (rounded_size size) k full, small_all, ground arith)
              | inr room ↦
                  let at_end = from ∙ alloc_last (rounded_size size) k room (λ z. omega arith) in
                  inr (
                    rw (at_end, exact)
                      (Allocated-le k bs size (rounded_size size) _ more
                        (last-Allocated k bs fl (rounded_size size) s (ground arith))))
            ]
      | inr (h, enough) ↦ inr (
          rw start (
            Allocated-le k bs size (rounded_size size) _ more
              (found-Allocated k bs fl (rounded_size size) _ s h enough (omega arith))))
    ]

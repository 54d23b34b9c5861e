-- ===== src/Kmalloc/Runs/Malloc.antt =====
-- A kmalloc by an owner.
use native.Mathlib.Decide.{ℕ_discrete}
use kum_os.Base.{
  ℕ, zero, suc, ◌+◌, ◌≤◌, ◌<◌, ◌≡◌, ◌≢◌, inl, inr, refl, sym, ap, ◌∙◌, List, ◌∷◌, arith, u32, some,
  none,
}
use kum_os.Kmalloc.{
  Kmalloc, kmalloc, alloc_at, extend_heap, push_free, unlink, take_block, split_block, relink,
}
use kum_os.Kmalloc.Owned.{owned}
use kum_os.Kmalloc.Alloc.{Allocated}
use kum_os.Kmalloc.Calls.{kmalloc_lem}
use kum_os.Kmalloc.Runs.{Held, malloc, Owners, step, at, Block, IsValid}

kmalloc_zero : (k : Kmalloc) → kmalloc 0 k ≡ (0, k)
unfolding kmalloc
kmalloc_zero k = refl

same_fields :
    (n : ℕ) (k : Kmalloc)
    → ((kmalloc n k).1.heap_start ≡ k.heap_start) × ((kmalloc n k).1.heap_cap ≡ k.heap_cap)
unfolding kmalloc alloc_at extend_heap push_free unlink relink split_block take_block
same_fields n k = (ground arith, ground arith)

no_block : (n : ℕ) → none ≢ some n
no_block n e = ground (arith, e)

module _ (start cap : ℕ) (s : Owners) (v : IsValid start cap s) where
  refused-IsValid :
      (n : ℕ)
      → IsValid start cap
          (record { heap = s.heap; held = record { address = 0; size = n } ∷ s.held })
  refused-IsValid n = record {
    blocks = v.blocks;
    frees = v.frees;
    shape = v.shape;
    begins = v.begins;
    ends = v.ends;
    owned_blocks = λ i. entry i;
    distinct = λ i j. differ i j;
  }
    where
      held' : List Held
      held' = record { address = 0; size = n } ∷ s.held

      entry : (i : ℕ) → 0 < (at held' i).address → Block s.heap v.blocks (at held' i)
      entry zero p = absurd (omega arith)
      entry (suc i) p = v.owned_blocks i p

      differ :
          (i j : ℕ) → i ≢ j → 0 < (at held' i).address → (at held' i).address ≢ (at held' j).address
      differ zero j d p = absurd (omega arith)
      differ (suc i) zero d p = λ e. omega arith
      differ (suc i) (suc j) d p = v.distinct i j (λ e. d (ap suc e)) p

  pub malloc-IsValid : (n : ℕ) → cap + n + 40 ≤ u32 → IsValid start cap (step (malloc n) s)
  malloc-IsValid n small = elim (ℕ_discrete n 0) [
    | yes z ↦ rw (z, kmalloc_zero s.heap) (refused-IsValid 0)
    | no z ↦
        let fits : s.heap.heap_cap + n + 40 ≤ u32 = let e = v.ends in omega arith in
        elim (kmalloc_lem s.heap v.blocks v.frees n v.shape (omega arith) fits) [
          | inl (same, smaller, full) ↦ rw same (refused-IsValid n)
          | inr r ↦
              let (b, c) = same_fields n s.heap in
              record {
                blocks = r.blocks;
                frees = r.frees;
                shape = r.shape;
                begins = b ∙ v.begins;
                ends = c ∙ v.ends;
                owned_blocks = λ i. entry r i;
                distinct = λ i j. differ r i j;
              }
        ]
  ]
    where
      out : Kmalloc
      out = (kmalloc n s.heap).1

      held' : List Held
      held' = record { address = (kmalloc n s.heap).0; size = n } ∷ s.held

      old_block :
          (r : Allocated s.heap v.blocks n (kmalloc n s.heap)) (h : Held)
          → (b : Block s.heap v.blocks h) → r.block ≢ b.block
      old_block r h b e = no_block b.bytes (sym r.fresh ∙ ap (owned s.heap v.blocks) e ∙ b.owns)

      entry :
          (r : Allocated s.heap v.blocks n (kmalloc n s.heap)) (i : ℕ)
          → 0 < (at held' i).address
          → Block out r.blocks (at held' i)
      entry r zero p = record {
        block = r.block;
        bytes = r.bytes;
        address = r.address;
        enough = r.enough;
        owns = r.owns r.block ∙ ground arith;
      }
      entry r (suc i) p =
          let b = v.owned_blocks i p in
          let apart = old_block r (at s.held i) b in
          record {
            block = b.block;
            bytes = b.bytes;
            address = b.address;
            enough = b.enough;
            owns = r.owns b.block ∙ ground arith ∙ b.owns;
          }

      new_apart :
          (r : Allocated s.heap v.blocks n (kmalloc n s.heap)) (j : ℕ)
          → 0 < (kmalloc n s.heap).0
          → (kmalloc n s.heap).0 ≢ (at s.held j).address
      new_apart r j p e =
          let b = v.owned_blocks j (rw (← e) p) in
          old_block r (at s.held j) b (let q = r.address in let q' = b.address in omega arith)

      differ :
          (r : Allocated s.heap v.blocks n (kmalloc n s.heap)) (i j : ℕ)
          → i ≢ j
          → 0 < (at held' i).address
          → (at held' i).address ≢ (at held' j).address
      differ r zero zero d p = absurd (d refl)
      differ r zero (suc j) d p = new_apart r j p
      differ r (suc i) zero d p = λ e. new_apart r i (rw (← e) p) (sym e)
      differ r (suc i) (suc j) d p = v.distinct i j (λ e. d (ap suc e)) p

-- ===== src/Paging/Heap/Alloc.antt =====
-- heap_alloc gives out a block that was not in use, and keeps the blocks apart.
use kum_os.Base.{
  ℕ, ◌+◌, ◌≤◌, ◌<◌, ◌≡◌, ◌≢◌, ◌⊎◌, inl, inr, refl, ap, ◌∙◌, true, false, Option, none, some, [],
  ◌∷◌, ◌++◌, arith, leb, ◌==◌, Bool-cases, length, get_or-beyond, find_index, find_index-lt,
  find_index-holds,
}
use kum_os.Paging.Heap.{
  heap_virt_max, heap_max_blocks, Block, no_block, Heap, heap_grow, is_fit, block, rounded, reuse,
  new_block, alloc_rounded, heap_alloc,
}
use kum_os.Paging.Heap.Layout.{
  IsValid, max_request, heap_grow-Grown, marked, unmarked, marked-IsValid, added, old_block,
  added-IsValid,
}

-- Block i of the new state is at `addr`, in use, and has `size` bytes at least; it was not in use
-- before, and the blocks that were there have not changed but for it.
pub record Gives (size : ℕ) (h h' : Heap) (addr : ℕ) : Type 0 where
  pub index : ℕ
  pub place : (block h' index).addr ≡ addr
  pub room : size ≤ (block h' index).size
  pub in_use : (block h' index).used ≡ true
  pub was_free : (block h index).used ≡ false
  pub others : (j : ℕ) → j < length h.blocks → index ≢ j → block h' j ≡ block h j

-- A state with the same blocks and the same break.
abbrev pub Same : Heap → Heap → Type 0
Same h h' = (h'.blocks ≡ h.blocks) × (h'.brk ≡ h.brk)

-- The result of heap_alloc: 0 and the same blocks, or the address of a block.
abbrev pub Allocated : ℕ → Heap → ℕ × Heap → Type 0
Allocated size h r = IsValid r.1 × (((r.0 ≡ 0) × Same h r.1) ⊎ Gives size h r.1 r.0)

Same-IsValid : (h h' : Heap) → IsValid h → Same h h' → IsValid h'
Same-IsValid h h' valid (bs, brk) = record {
  base = rw brk valid.base;
  max = rw brk valid.max;
  inside = λ i l. rw (bs, brk) (valid.inside i (omega (arith, ap (λ x. length x) bs)));
  apart = λ i j lij lj. rw bs (valid.apart i j lij (omega (arith, ap (λ x. length x) bs)));
}

fit-free : (size : ℕ) (b : Block) → is_fit size b ≡ true → (b.used ≡ false) × (size ≤ b.size)
fit-free size b h = elim (Bool-cases b.used) [
  | inl u ↦ absurd (ground arith)
  | inr u ↦ (u, ground arith)
]

reuse-Allocated :
    (size : ℕ) (h : Heap) (i : ℕ)
    → IsValid h
    → find_index (is_fit size) h.blocks ≡ some i
    → Allocated size h ((block h i).addr, reuse h i)
unfolding reuse
reuse-Allocated size h i valid e =
    let l = find_index-lt (is_fit size) h.blocks i e in
    let (free, fits) =
      fit-free size (block h i) (find_index-holds (is_fit size) h.blocks i no_block e) in
    let b : Block = record (block h i) { used = true } in
    let here = marked h (reuse h i) i b valid l refl refl refl refl in
    (
      marked-IsValid h (reuse h i) i b valid l refl refl refl refl,
      inr (record {
        index = i;
        place = ap (λ c. c.addr) here;
        room = rw here fits;
        in_use = ap (λ c. c.used) here;
        was_free = free;
        others = λ j lj n. unmarked h (reuse h i) i b valid l refl refl refl refl j n;
      }),
    )

added-Allocated :
    (size : ℕ) (h h' h'' : Heap)
    → IsValid h
    → (h.brk + size ≤ h'.brk) × (h'.brk < heap_virt_max)
    → h'.blocks ≡ h.blocks
    → h''.brk ≡ h'.brk
    → h''.blocks ≡ h'.blocks ++ record { addr = h.brk; size = size; used = true } ∷ []
    → Allocated size h (h.brk, h'')
added-Allocated size h h' h'' valid (above, low) old brk blocks =
    let b : Block = record { addr = h.brk; size = size; used = true } in
    let all = blocks ∙ ap (λ bs. bs ++ b ∷ []) old in
    let above' : h.brk + size ≤ h''.brk = omega (arith, brk) in
    let low' : h''.brk < heap_virt_max = omega (arith, brk) in
    let here = added h h'' b valid refl above' low' all in
    (
      added-IsValid h h'' b valid refl above' low' all,
      inr (record {
        index = length h.blocks;
        place = ap (λ c. c.addr) here;
        room = rw here (omega arith);
        in_use = ap (λ c. c.used) here;
        was_free =
            ap (λ c. c.used) (get_or-beyond h.blocks (length h.blocks) no_block (omega arith));
        others = λ j lj n. old_block h h'' b valid refl above' low' all j lj;
      }),
    )

new-Allocated :
    (size : ℕ) (h : Heap) → IsValid h → size ≤ max_request → Allocated size h (new_block size h)
unfolding new_block
new-Allocated size h valid few =
    let g = heap_grow-Grown size h valid.max few in
    elim (Bool-cases (leb heap_max_blocks (length h.blocks))) [
      | inl full ↦ rw full (valid, inl (refl, (refl, refl)))
      | inr room ↦ elim (Bool-cases (heap_grow size h).0) [
        | inr stop ↦
            let same : Same h (heap_grow size h).1 = (g.blocks, g.failure stop) in
            rw (room, stop) (Same-IsValid h _ valid same, inl (refl, same))
        | inl ok ↦
            rw (room, ok)
              (added-Allocated size h (heap_grow size h).1 _ valid (g.success ok) g.blocks refl
                refl)
      ]
    ]

alloc-Allocated :
    (size : ℕ) (h : Heap) (o : Option ℕ)
    → IsValid h
    → size ≤ max_request
    → find_index (is_fit size) h.blocks ≡ o
    → Allocated size h (alloc_rounded size h o)
unfolding alloc_rounded
alloc-Allocated size h none valid few e = new-Allocated size h valid few
alloc-Allocated size h (some i) valid few e = reuse-Allocated size h i valid e

less :
    (size : ℕ) (h : Heap) (r : ℕ × Heap)
    → size ≤ rounded size
    → Allocated (rounded size) h r
    → Allocated size h r
less size h r more (valid, inl same) = (valid, inl same)
less size h r more (valid, inr g) = (
  valid,
  inr (record {
    index = g.index;
    place = g.place;
    room = let fits = g.room in omega arith;
    in_use = g.in_use;
    was_free = g.was_free;
    others = g.others;
  }),
)

-- On a valid heap, heap_alloc of at most max_request bytes keeps the heap valid. It returns 0, and
-- the blocks and the break stay as they were; or it returns the address of a block of at least the
-- bytes asked for that was not in use and now is, and the other blocks stay as they were.
pub heap_alloc_lem :
    (size : ℕ) (h : Heap) → IsValid h → size ≤ max_request → Allocated size h (heap_alloc size h)
unfolding heap_alloc
heap_alloc_lem size h valid few = elim (Bool-cases (size == 0)) [
  | inl z ↦ rw z (valid, inl (refl, (refl, refl)))
  | inr n ↦ rw n (
      less size h _ (omega arith) (
        alloc-Allocated (rounded size) h (find_index (is_fit (rounded size)) h.blocks) valid
          (omega arith) refl))
]

-- ===== src/Paging/Heap/Layout.antt =====
-- The blocks of the heap lie one behind the other below the break.
use native.Mathlib.Decide.{ℕ_discrete, dec_lt}
use kum_os.Base.{
  ℕ, zero, suc, ◌+◌, ◌≤◌, ◌<◌, ◌≡◌, ◌≢◌, inl, inr, refl, sym, ap, ◌∙◌, Bool, true, false, List, [],
  ◌∷◌, ◌++◌, arith, leb, Bool-cases, length, get_or, set, length-set, length-append,
  get_or-set_self, get_or-set_ne, add32,
}
use kum_os.Paging.Heap.{
  heap_virt_base, heap_virt_max, page_align, Block, no_block, Heap, grow_loop, heap_grow, block,
}

-- The blocks lie between the base and the break, in the order of the table, and do not overlap.
pub record IsValid (h : Heap) : Type 0 where
  pub base : heap_virt_base ≤ h.brk
  pub max : h.brk < heap_virt_max
  pub inside :
      (i : ℕ)
      → i < length h.blocks
      → (heap_virt_base ≤ (block h i).addr) × ((block h i).addr + (block h i).size ≤ h.brk)
  pub apart :
      (i j : ℕ)
      → i < j
      → j < length h.blocks
      → (block h i).addr + (block h i).size ≤ (block h j).addr

-- The largest request whose end does not wrap around.
abbrev pub max_request : ℕ
max_request = 0xF0000000

-- What heap_grow did.
pub record Grown (size : ℕ) (h : Heap) (r : Bool × Heap) : Type 0 where
  pub blocks : r.1.blocks ≡ h.blocks
  pub success : r.0 ≡ true → (h.brk + size ≤ r.1.brk) × (r.1.brk < heap_virt_max)
  pub failure : r.0 ≡ false → r.1.brk ≡ h.brk

pub heap_grow-Grown :
    (size : ℕ) (h : Heap)
    → h.brk < heap_virt_max
    → size ≤ max_request
    → Grown size h (heap_grow size h)
unfolding heap_grow
heap_grow-Grown size h low few =
    elim (Bool-cases (leb heap_virt_max (page_align (add32 h.brk size)))) [
      | inl far ↦
          rw far
            (record { blocks = refl; success = λ e. absurd (ground arith); failure = λ e. refl })
      | inr near ↦
          elim (Bool-cases
            (grow_loop 4096 (page_align h.brk) (page_align (add32 h.brk size)) h.paging).0) [
              | inl ok ↦
                  rw (near, ok)
                    (record {
                      blocks = refl;
                      success = λ e. (omega arith, ground arith);
                      failure = λ e. absurd (ground arith);
                    })
              | inr stop ↦
                  rw (near, stop)
                    (record {
                      blocks = refl;
                      success = λ e. absurd (ground arith);
                      failure = λ e. refl;
                    })
            ]
    ]

-- A block that is given other marks, but the same place.
module _ (h h' : Heap) (i : ℕ) (b : Block) (valid : IsValid h) (l : i < length h.blocks)
    (brk : h'.brk ≡ h.brk) (blocks : h'.blocks ≡ set h.blocks i b) (at : b.addr ≡ (block h i).addr)
    (size : b.size ≡ (block h i).size) where
  pub marked : block h' i ≡ b
  marked = ap (λ bs. get_or bs i no_block) blocks ∙ get_or-set_self h.blocks i b no_block l

  pub unmarked : (j : ℕ) → i ≢ j → block h' j ≡ block h j
  unmarked j n = ap (λ bs. get_or bs j no_block) blocks ∙ get_or-set_ne h.blocks i j b no_block n

  same_place :
      (j : ℕ) → ((block h' j).addr ≡ (block h j).addr) × ((block h' j).size ≡ (block h j).size)
  same_place j = elim (ℕ_discrete i j) [
    | yes s ↦
        let here : block h' j ≡ b = ap (block h') (sym s) ∙ marked in
        (
          ap (λ c. c.addr) here ∙ at ∙ ap (λ k. (block h k).addr) s,
          ap (λ c. c.size) here ∙ size ∙ ap (λ k. (block h k).size) s,
        )
    | no n ↦ (ap (λ c. c.addr) (unmarked j n), ap (λ c. c.size) (unmarked j n))
  ]

  same_length : length h'.blocks ≡ length h.blocks
  same_length = ap (λ bs. length bs) blocks ∙ length-set h.blocks i b

  pub marked-IsValid : IsValid h'
  marked-IsValid = record {
    base = rw brk valid.base;
    max = rw brk valid.max;
    inside = λ j lj.
        let (a, s) = same_place j in
        let (lo, hi) = valid.inside j (omega (arith, same_length)) in
        (omega (arith, a), omega (arith, a, s, brk));
    apart = λ j k ljk lk.
        let (a, s) = same_place j in
        let (a', s') = same_place k in
        let below = valid.apart j k ljk (omega (arith, same_length)) in omega (arith, a, s, a');
  }

get_or-append_left :
    (bs cs : List Block) (i : ℕ)
    → i < length bs
    → get_or (bs ++ cs) i no_block ≡ get_or bs i no_block
get_or-append_left [] cs i l = absurd (omega arith)
get_or-append_left (b ∷ bs) cs zero l = refl
get_or-append_left (b ∷ bs) cs (suc i) l = get_or-append_left bs cs i (omega arith)

get_or-append_last : (bs : List Block) (b : Block) → get_or (bs ++ b ∷ []) (length bs) no_block ≡ b
get_or-append_last [] b = refl
get_or-append_last (c ∷ bs) b = get_or-append_last bs b

-- A new block from the old break on.
module _ (h h' : Heap) (b : Block) (valid : IsValid h) (at : b.addr ≡ h.brk)
    (grown : h.brk + b.size ≤ h'.brk) (low : h'.brk < heap_virt_max)
    (blocks : h'.blocks ≡ h.blocks ++ b ∷ []) where
  pub added : block h' (length h.blocks) ≡ b
  added = ap (λ bs. get_or bs (length h.blocks) no_block) blocks ∙ get_or-append_last h.blocks b

  pub old_block : (j : ℕ) → j < length h.blocks → block h' j ≡ block h j
  old_block j l = ap (λ bs. get_or bs j no_block) blocks ∙ get_or-append_left h.blocks (b ∷ []) j l

  one_more : length h'.blocks ≡ length h.blocks + 1
  one_more = ap (λ bs. length bs) blocks ∙ length-append h.blocks (b ∷ [])

  added-inside :
      (j : ℕ)
      → j < length h'.blocks
      → (heap_virt_base ≤ (block h' j).addr) × ((block h' j).addr + (block h' j).size ≤ h'.brk)
  added-inside j l = elim (dec_lt j (length h.blocks)) [
    | yes old ↦ let (lo, hi) = valid.inside j old in rw (old_block j old) (lo, omega arith)
    | no new ↦
        let here : j ≡ length h.blocks = omega (arith, one_more) in
        rw (here, added) (let base = valid.base in omega arith, omega arith)
  ]

  added-apart :
      (j k : ℕ)
      → j < k
      → k < length h'.blocks
      → (block h' j).addr + (block h' j).size ≤ (block h' k).addr
  added-apart j k ljk lk = elim (dec_lt k (length h.blocks)) [
    | yes old ↦ rw (old_block j (omega arith), old_block k old) (valid.apart j k ljk old)
    | no new ↦
        let here : k ≡ length h.blocks = omega (arith, one_more) in
        let (lo, hi) = valid.inside j (omega arith) in
        rw (old_block j (omega arith), here, added) (omega arith)
  ]

  pub added-IsValid : IsValid h'
  added-IsValid = record {
    base = let base = valid.base in omega arith;
    max = low;
    inside = added-inside;
    apart = added-apart;
  }

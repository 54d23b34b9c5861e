-- ===== src/Kmalloc/Frees.antt =====
-- What kfree leaves behind.
use native.Mathlib.Decide.{ℕ_discrete}
use kum_os.Base.{
  ℕ, ◌+◌, ◌-◌, ◌<◌, ◌≡◌, inl, inr, refl, sym, ap, ◌∙◌, Bool, true, false, ◌&&◌, List, ◌∷◌, ◌++◌,
  arith, if◌then◌else◌, ◌==◌, Bool-cases, ne→==, ltb, none,
}
use kum_os.Kmalloc.{magic_free, magic_used, header_size, Kmalloc, push_free, coalesce, kfree}
use kum_os.Kmalloc.Lists.{holds, holds-middle, holds-Around}
use kum_os.Kmalloc.Shape.{Shape, Shape-free}
use kum_os.Kmalloc.Owned.{owned}
use kum_os.Kmalloc.Tiles.{stop}
use kum_os.Kmalloc.Push.{push-Shape}
use kum_os.Kmalloc.Merge.{merged, merged-Shape, Tiles-Next}
use kum_os.Kmalloc.Owned.{push-owned, merged-owned}

-- The heap after block b was given back.
pub record Freed (k : Kmalloc) (bs : List ℕ) (b : ℕ) (k' : Kmalloc) : Type 0 where
  pub blocks : List ℕ
  pub frees : List ℕ
  pub shape : Shape k' blocks frees
  pub owns : (a : ℕ) → owned k' blocks a ≡ (if b == a then none else owned k bs a)

coalesce-merged :
    (k : Kmalloc) (b : ℕ)
    → ltb (stop k.mem b) k.heap_end && (k.mem (stop k.mem b)).magic == magic_free ≡ true
    → coalesce k b ≡ merged k b
unfolding coalesce
coalesce-merged k b t = rw t refl

coalesce_apart :
    (k : Kmalloc) (b : ℕ)
    → ltb (stop k.mem b) k.heap_end && (k.mem (stop k.mem b)).magic == magic_free ≡ false
    → coalesce k b ≡ k
unfolding coalesce
coalesce_apart k b t = rw t refl

-- Joining a free block with the one behind it leaves what is in use as it is.
pub record Joined (k : Kmalloc) (bs : List ℕ) (k' : Kmalloc) : Type 0 where
  pub blocks : List ℕ
  pub frees : List ℕ
  pub shape : Shape k' blocks frees
  pub owns : (a : ℕ) → owned k' blocks a ≡ owned k bs a

coalesce-Joined :
    (k : Kmalloc) (bs fl : List ℕ) (b : ℕ)
    → Shape k bs fl
    → holds fl b ≡ true
    → Joined k bs (coalesce k b)
coalesce-Joined k bs fl b s h =
    let next = stop k.mem b in
    let (in', free, nz) = Shape-free k bs fl s b h in
    elim (Bool-cases (ltb next k.heap_end && (k.mem next).magic == magic_free)) [
      | inl t ↦
          let n =
            Tiles-Next k.mem k.heap_start bs k.heap_end b s.tiles in'
              (in_heap ((k.mem next).magic == magic_free) t) in
          let in_bs : holds bs next ≡ true =
            ap (λ bs. holds bs next) n.whole ∙ next_in n.before b next n.after in
          let in_fl =
            both (holds fl next) (holds bs next) (ltb next k.heap_end)
              ((k.mem next).magic == magic_free) (s.listed next) in_bs t in
          let around = holds-Around fl next in_fl in
          let s' : Shape k (n.before ++ b ∷ next ∷ n.after) (around.before ++ next ∷ around.after) =
            rw (← n.whole, ← around.whole) s in
          rw (coalesce-merged k b t) (record {
            blocks = n.before ++ b ∷ n.after;
            frees = around.before ++ around.after;
            shape = merged-Shape k n.before b n.after around.before around.after s';
            owns = λ a.
                merged-owned k n.before b n.after around.before around.after s' free a
                ∙ ap (λ bs. owned k bs a) (sym n.whole);
          })
      | inr f ↦
          rw (coalesce_apart k b f)
            (record { blocks = bs; frees = fl; shape = s; owns = λ a. refl })
    ]
  where
    next_in :
        (before : List ℕ) (b next : ℕ) (after : List ℕ)
        → holds (before ++ b ∷ next ∷ after) next ≡ true
    next_in before b next after =
        ground
          (arith, holds-middle before b (next ∷ after) next, holds-middle before next after next)

    both : (f h x y : Bool) → f ≡ (h && y) → h ≡ true → (x && y) ≡ true → f ≡ true
    both f h' x y e h t = ground arith

    in_heap : (y : Bool) → (ltb (stop k.mem b) k.heap_end && y) ≡ true → stop k.mem b < k.heap_end
    in_heap y t = ground arith

kfree_used :
    (k : Kmalloc) (b : ℕ)
    → (k.mem b).magic ≡ magic_used
    → kfree k (b + header_size) ≡ coalesce (push_free k b (k.mem b).size) b
unfolding kfree
kfree_used k b u =
    let back : b + header_size - header_size ≡ b = omega arith in
    rw (back, ne→== (b + header_size) 0 (λ z. omega arith), u) refl

kfree_free :
    (k : Kmalloc) (b : ℕ) → (k.mem b).magic == magic_used ≡ false → kfree k (b + header_size) ≡ k
unfolding kfree
kfree_free k b u =
    let back : b + header_size - header_size ≡ b = omega arith in
    rw (back, ne→== (b + header_size) 0 (λ z. omega arith), u) refl

-- kfree of the address of a block, in use or not, on a well-formed heap: afterwards the heap is
-- well-formed, the block is not in use, and what else is in use keeps its size.
pub kfree_lem :
    (k : Kmalloc) (bs fl : List ℕ) (b : ℕ)
    → Shape k bs fl
    → holds bs b ≡ true
    → Freed k bs b (kfree k (b + header_size))
kfree_lem k bs fl b s h = elim (Bool-cases ((k.mem b).magic == magic_used)) [
  | inl t ↦
      let u : (k.mem b).magic ≡ magic_used = ground arith in
      let k' = push_free k b (k.mem b).size in
      let r = coalesce-Joined k' bs (b ∷ fl) b (push-Shape k bs fl b s h u) (ground arith) in
      rw (kfree_used k b u) (record {
        blocks = r.blocks;
        frees = r.frees;
        shape = r.shape;
        owns = λ a. r.owns a ∙ push-owned k bs b a;
      })
  | inr f ↦
      rw (kfree_free k b f)
        (record { blocks = bs; frees = fl; shape = s; owns = λ a. unowned k bs b a f })
]
  where
    unowned :
        (k : Kmalloc) (bs : List ℕ) (b a : ℕ)
        → (k.mem b).magic == magic_used ≡ false
        → owned k bs a ≡ (if b == a then none else owned k bs a)
    unowned k bs b a f = elim (ℕ_discrete b a) [
      | yes e ↦
          let f' : ((k.mem a).magic == magic_used) ≡ false =
            ap (λ c. (k.mem c).magic == magic_used) (sym e) ∙ f in
          ground arith
      | no n ↦ ground arith
    ]

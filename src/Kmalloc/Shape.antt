-- ===== src/Kmalloc/Shape.antt =====
-- The invariant of the allocator, and the steps that its functions are made of.
use native.Mathlib.Decide.{ℕ_discrete}
use kum_os.Base.{
  ℕ, ◌≤◌, ◌<◌, ◌≡◌, ◌≢◌, ◌⊎◌, inl, inr, sym, ap, ◌∙◌, Bool, true, false, ◌||◌, ◌&&◌, List, ◌∷◌,
  ◌++◌, arith, if◌then◌else◌, ◌==◌, u32,
}
use kum_os.Kmalloc.{magic_free, magic_used, Kmalloc, unlink, take_block, relink}
use kum_os.Kmalloc.Lists.{holds, NoDup, head_or_null, NoDup-drop, holds-drop, holds-middle}
use kum_os.Kmalloc.Tiles.{Tiles, Tiles-same, Tiles-bounds}
use kum_os.Kmalloc.Links.{Links, Links-same}
use kum_os.Kmalloc.Relink.{relink-Relinked, Chain, prev_ne, behind, replaced, Links-tail}

-- The blocks `bs` fill the heap; each is free or in use; the free ones make up the list `fl`.
pub record Shape (k : Kmalloc) (bs fl : List ℕ) : Type 0 where
  pub positive : 0 < k.heap_start
  pub below : k.heap_end ≤ k.heap_cap
  pub small : k.heap_cap < u32
  pub tiles : Tiles k.mem k.heap_start bs k.heap_end
  pub links : Links k.mem 0 fl
  pub first : k.free_list ≡ head_or_null fl
  pub nodup : NoDup fl
  pub listed : (a : ℕ) → holds fl a ≡ (holds bs a && (k.mem a).magic == magic_free)
  pub marked :
      (a : ℕ) → holds bs a ≡ true → ((k.mem a).magic ≡ magic_used) ⊎ ((k.mem a).magic ≡ magic_free)

pub Shape-positive :
    (k : Kmalloc) (bs fl : List ℕ) → Shape k bs fl → (a : ℕ) → holds bs a ≡ true → k.heap_start ≤ a
Shape-positive k bs fl s a h = (Tiles-bounds k.mem k.heap_start bs k.heap_end a s.tiles h).0

-- A free block.
pub Shape-free :
    (k : Kmalloc) (bs fl : List ℕ)
    → Shape k bs fl
    → (a : ℕ) → holds fl a ≡ true
    → (holds bs a ≡ true) × ((k.mem a).magic ≡ magic_free) × (a ≢ 0)
Shape-free k bs fl s a h =
    let eq = s.listed a in
    let inside : holds bs a ≡ true = ground arith in
    let is : (k.mem a).magic ≡ magic_free = ground arith in
    let lo = Shape-positive k bs fl s a inside in
    let p = s.positive in (inside, is, λ z. omega arith)

pub Shape-Chain :
    (k : Kmalloc) (bs xs : List ℕ) (b : ℕ) (ys : List ℕ)
    → Shape k bs (xs ++ b ∷ ys)
    → Chain k xs b ys
Shape-Chain k bs xs b ys s = record {
  links = s.links;
  first = s.first;
  nodup = s.nodup;
  nonzero = λ a h. (Shape-free k bs (xs ++ b ∷ ys) s a h).2;
}

-- What unlink does.
pub record Unlinked (k : Kmalloc) (l : List ℕ) (k' : Kmalloc) : Type 0 where
  pub links : Links k'.mem 0 l
  pub first : k'.free_list ≡ head_or_null l
  pub same : (a : ℕ) → ((k'.mem a).magic ≡ (k.mem a).magic) × ((k'.mem a).size ≡ (k.mem a).size)

pub unlink-Unlinked :
    (k : Kmalloc) (xs : List ℕ) (b : ℕ) (ys : List ℕ)
    → Chain k xs b ys
    → Unlinked k (xs ++ ys) (unlink k b)
unfolding unlink
unlink-Unlinked k xs b ys c =
    let r = relink-Relinked k b (k.mem b).next (k.mem b).prev (prev_ne k xs b ys c) in
    let (next_b, l) = Links-tail k.mem 0 xs b ys c.links in
    let (links, first) =
      replaced k xs b ys c (k.mem b).next (k.mem b).prev _ ys r next_b
        (behind k xs b ys c (k.mem b).next (k.mem b).prev _ r) in
    record { links = links; first = first; same = r.same }

-- What take_block does.
take-fields :
    (k : Kmalloc) (b a : ℕ)
    → (((take_block k b).mem a).magic ≡ (if b == a then magic_used else (k.mem a).magic))
      × (((take_block k b).mem a).size ≡ (k.mem a).size)
      × (b ≢ a → (take_block k b).mem a ≡ k.mem a)
unfolding take_block
take-fields k b a = (ground arith, ground (arith, b), λ n. ground arith)

either_if :
    (g g' : ℕ) (t : Bool)
    → (g ≡ magic_used) ⊎ (g ≡ magic_free)
    → g' ≡ (if t then magic_used else g)
    → (g' ≡ magic_used) ⊎ (g' ≡ magic_free)
either_if g h true m e = inl e
either_if g h false (inl m) e = inl (e ∙ m)
either_if g h false (inr m) e = inr (e ∙ m)

take_listed :
    (fl fl' bs : List ℕ) (b a g g' : ℕ)
    → holds fl a ≡ (holds bs a && g == magic_free)
    → holds fl a ≡ (b == a || holds fl' a)
    → holds fl' b ≡ false
    → g' ≡ (if b == a then magic_used else g)
    → holds fl' a ≡ (holds bs a && g' == magic_free)
take_listed fl fl' bs b a g g' l m out mg = elim (ℕ_discrete b a) [
  | yes e ↦ let out' : holds fl' a ≡ false = ap (holds fl') (sym e) ∙ out in ground arith
  | no n ↦ ground arith
]

-- Block b is taken out of the list of free blocks.
pub take-Shape :
    (k : Kmalloc) (bs xs : List ℕ) (b : ℕ) (ys : List ℕ)
    → Shape k bs (xs ++ b ∷ ys)
    → Shape (take_block (unlink k b) b) bs (xs ++ ys)
unfolding take_block unlink relink
take-Shape k bs xs b ys s =
    let c = Shape-Chain k bs xs b ys s in
    let u = unlink-Unlinked k xs b ys c in
    let k' = unlink k b in
    let m = (take_block k' b).mem in
    let out = holds-drop xs b ys s.nodup in
    record {
      positive = s.positive;
      below = s.below;
      small = s.small;
      tiles =
          Tiles-same k.mem m k.heap_start bs k.heap_end
            (λ a h. (take-fields k' b a).1 ∙ (u.same a).1) s.tiles;
      links =
          Links-same k'.mem m 0 (xs ++ ys)
            (λ a h.
              let same = (take-fields k' b a).2 (λ e. ground arith) in
              (ap (λ h. h.prev) same, ap (λ h. h.next) same))
            u.links;
      first = u.first;
      nodup = NoDup-drop xs b ys s.nodup;
      listed = λ a.
          take_listed (xs ++ b ∷ ys) (xs ++ ys) bs b a (k.mem a).magic (m a).magic (s.listed a)
            (holds-middle xs b ys a) out
            ((take-fields k' b a).0 ∙ ap (λ g. if b == a then magic_used else g) (u.same a).0);
      marked = λ a h.
          either_if (k.mem a).magic (m a).magic (b == a) (s.marked a h)
            ((take-fields k' b a).0 ∙ ap (λ g. if b == a then magic_used else g) (u.same a).0);
    }

pub taken_fields :
    (k : Kmalloc) (bs xs : List ℕ) (b : ℕ) (ys : List ℕ)
    → Shape k bs (xs ++ b ∷ ys)
    → (a : ℕ)
    → (((take_block (unlink k b) b).mem a).magic ≡ (if b == a then magic_used else (k.mem a).magic))
      × (((take_block (unlink k b) b).mem a).size ≡ (k.mem a).size)
taken_fields k bs xs b ys s a =
    let u = (unlink-Unlinked k xs b ys (Shape-Chain k bs xs b ys s)).same a in
    let t = take-fields (unlink k b) b a in
    (t.0 ∙ ap (λ g. if b == a then magic_used else g) u.0, t.1 ∙ u.1)

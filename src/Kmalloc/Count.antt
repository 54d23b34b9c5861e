-- ===== src/Kmalloc/Count.antt =====
-- What is counted: kmalloc_used walks over the blocks, kmalloc_free over the list of free blocks.
use native.Mathlib.Decide.{ℕ_discrete}
use kum_os.Base.{
  ℕ, zero, suc, ◌+◌, ◌*◌, ◌≤◌, ◌<◌, ◌≡◌, ◌≢◌, ◌⊎◌, inl, inr, refl, sym, ap, ◌∙◌, Bool, true, false,
  ◌||◌, ◌&&◌, List, [], ◌∷◌, ◌++◌, arith, if◌then◌else◌, ◌==◌, Bool-cases, length, u32,
}
use kum_os.Kmalloc.{
  magic_free, magic_used, header_size, Memory, Kmalloc, used_from, kmalloc_used, free_from,
  kmalloc_free, heap_rounds,
}
use kum_os.Kmalloc.Lists.{
  holds, NoDup, head_or_null, holds-middle, holds-drop, NoDup-drop, holds-Around, length_le,
}
use kum_os.Kmalloc.Tiles.{stop, Tiles, Tiles-le, Tiles-bounds}
use kum_os.Kmalloc.Links.{Links}
use kum_os.Kmalloc.Shape.{Shape, Shape-free}

-- The bytes of the blocks with a magic number, and of all blocks of a list.
abbrev pub bytes_with : ℕ → Memory → List ℕ → ℕ
bytes_with g m [] = 0
bytes_with g m (b ∷ bs) = (if (m b).magic == g then (m b).size else 0) + bytes_with g m bs

abbrev pub bytes_of : Memory → List ℕ → ℕ
bytes_of m [] = 0
bytes_of m (b ∷ bs) = (m b).size + bytes_of m bs

bytes_of-middle :
    (m : Memory) (xs : List ℕ) (b : ℕ) (ys : List ℕ)
    → bytes_of m (xs ++ b ∷ ys) ≡ (m b).size + bytes_of m (xs ++ ys)
bytes_of-middle m [] b ys = refl
bytes_of-middle m (x ∷ xs) b ys = omega (arith, bytes_of-middle m xs b ys)

Tiles-NoDup : (m : Memory) (a : ℕ) (bs : List ℕ) (e : ℕ) → Tiles m a bs e → NoDup bs
Tiles-NoDup m a [] e t = tt
Tiles-NoDup m a (b ∷ bs) e (at_a, t) = (
  elim (Bool-cases (holds bs b)) [
    | inl h ↦ let (lo, hi) = Tiles-bounds m (stop m b) bs e b t h in absurd (omega arith)
    | inr f ↦ f
  ],
  Tiles-NoDup m (stop m b) bs e t,
)

nothing : (xs : List ℕ) → ((a : ℕ) → holds xs a ≡ false) → xs ≡ []
nothing [] none' = refl
nothing (x ∷ xs) none' = let h = none' x in absurd (ground arith)

-- The list of free blocks has the bytes of the free blocks.
free_bytes :
    (m : Memory) (bs fl : List ℕ)
    → NoDup bs
    → NoDup fl
    → ((a : ℕ) → holds fl a ≡ (holds bs a && (m a).magic == magic_free))
    → bytes_of m fl ≡ bytes_with magic_free m bs
free_bytes m [] fl nb nf listed = ap (bytes_of m) (nothing fl listed)
free_bytes m (b ∷ bs) fl (out, nb) nf listed = elim (Bool-cases ((m b).magic == magic_free)) [
  | inl free ↦
      let at_b = listed b in
      let around = holds-Around fl b (ground arith) in
      let nf' : NoDup (around.before ++ b ∷ around.after) = rw (← around.whole) nf in
      let rest =
        free_bytes m bs (around.before ++ around.after) nb
          (NoDup-drop around.before b around.after nf')
          (λ a.
            fewer (holds fl a) (holds (around.before ++ around.after) a) (holds bs a) b a
              ((m a).magic == magic_free) (listed a)
              (ap (λ l. holds l a) around.whole ∙ holds-middle around.before b around.after a)
              (λ e. (
                ap (holds (around.before ++ around.after)) (sym e)
                    ∙ holds-drop around.before b around.after nf',
                ap (holds bs) (sym e) ∙ out,
              ))) in
      ap (bytes_of m) around.whole
      ∙ bytes_of-middle m around.before b around.after
      ∙ ap (◌+◌ (m b).size) rest
      ∙ ap (λ t. (if t then (m b).size else 0) + bytes_with magic_free m bs) (sym free)
  | inr used ↦
      free_bytes m bs fl nb nf (λ a.
        same (holds fl a) (holds bs a) b a ((m a).magic == magic_free) (listed a)
          (λ e. ap (λ c. (m c).magic == magic_free) (sym e) ∙ used))
      ∙ omega arith
      ∙ ap (λ t. (if t then (m b).size else 0) + bytes_with magic_free m bs) (sym used)
]
  where
    fewer :
        (f f' h : Bool) (b a : ℕ) (g : Bool)
        → f ≡ ((b == a || h) && g)
        → f ≡ (b == a || f')
        → (b ≡ a → (f' ≡ false) × (h ≡ false))
        → f' ≡ (h && g)
    fewer f f' h b a g l e out = elim (ℕ_discrete b a) [
      | yes e ↦ let (z, z') = out e in ground arith
      | no n ↦ ground arith
    ]

    same :
        (f h : Bool) (b a : ℕ) (g : Bool)
        → f ≡ ((b == a || h) && g)
        → (b ≡ a → g ≡ false)
        → f ≡ (h && g)
    same f h b a g l out = elim (ℕ_discrete b a) [
      | yes e ↦ let z = out e in ground arith
      | no n ↦ ground arith
    ]

Tiles-bytes :
    (m : Memory) (a : ℕ) (bs : List ℕ) (e : ℕ)
    → Tiles m a bs e
    → a + (header_size * length bs + bytes_of m bs) ≡ e
Tiles-bytes m a [] e t = omega arith
Tiles-bytes m a (b ∷ bs) e (at_a, t) = omega (arith, Tiles-bytes m (stop m b) bs e t)

-- Every block is in use or free.
bytes_both :
    (m : Memory) (bs : List ℕ)
    → ((a : ℕ) → holds bs a ≡ true → ((m a).magic ≡ magic_used) ⊎ ((m a).magic ≡ magic_free))
    → bytes_with magic_used m bs + bytes_with magic_free m bs ≡ bytes_of m bs
bytes_both m [] marked = refl
bytes_both m (b ∷ bs) marked =
    let rest = bytes_both m bs (λ a h. marked a (ground arith)) in
    one (m b).magic (m b).size _ _ _ rest (marked b (ground arith))
  where
    one :
        (g z u f t : ℕ)
        → u + f ≡ t
        → (g ≡ magic_used) ⊎ (g ≡ magic_free)
        → (if g == magic_used then z else 0) + u + ((if g == magic_free then z else 0) + f) ≡ z + t
    one g z u f t e (inl is) = ground arith
    one g z u f t e (inr is) = ground arith

used_step :
    (fuel : ℕ) (k : Kmalloc) (a n : ℕ)
    → used_from fuel k (stop k.mem a) ≡ n
    → a < k.heap_end
    → (k.mem a).size + n < u32
    → used_from (suc fuel) k a ≡ (if (k.mem a).magic == magic_used then (k.mem a).size else 0) + n
unfolding used_from
used_step fuel k a n rec l small =
    let at : a + (header_size + (k.mem a).size) ≡ stop k.mem a = omega arith in
    rw (at, rec) (ground arith)

bytes_with_le : (g : ℕ) (m : Memory) (bs : List ℕ) → bytes_with g m bs ≤ bytes_of m bs
bytes_with_le g m [] = omega arith
bytes_with_le g m (b ∷ bs) = ground (arith, bytes_with_le g m bs)

used_end : (fuel : ℕ) (k : Kmalloc) (a : ℕ) → a ≡ k.heap_end → used_from (suc fuel) k a ≡ 0
unfolding used_from
used_end fuel k a e = ground arith

used_from_lem :
    (fuel : ℕ) (k : Kmalloc) (a : ℕ) (bs : List ℕ)
    → Tiles k.mem a bs k.heap_end
    → length bs < fuel
    → bytes_of k.mem bs < u32
    → used_from fuel k a ≡ bytes_with magic_used k.mem bs
used_from_lem zero k a bs t short small = absurd (omega arith)
used_from_lem (suc fuel) k a [] t short small = used_end fuel k a t
used_from_lem (suc fuel) k a (b ∷ bs) (at_a, t) short small =
    let below = Tiles-le k.mem (stop k.mem b) bs k.heap_end t in
    let le = bytes_with_le magic_used k.mem bs in
    rw (← at_a) (
      used_step fuel k b (bytes_with magic_used k.mem bs)
        (used_from_lem fuel k (stop k.mem b) bs t (omega arith) (omega arith)) (omega arith)
        (omega arith))

free_step :
    (fuel : ℕ) (k : Kmalloc) (b n : ℕ)
    → free_from fuel k (k.mem b).next ≡ n
    → b ≢ 0
    → (k.mem b).size + n < u32
    → free_from (suc fuel) k b ≡ (k.mem b).size + n
unfolding free_from
free_step fuel k b n rec nz small = rw rec (ground arith)

free_end : (fuel : ℕ) (k : Kmalloc) (b : ℕ) → b ≡ 0 → free_from (suc fuel) k b ≡ 0
unfolding free_from
free_end fuel k b e = ground arith

free_from_lem :
    (fuel : ℕ) (k : Kmalloc) (p b : ℕ) (fl : List ℕ)
    → Links k.mem p fl
    → ((a : ℕ) → holds fl a ≡ true → a ≢ 0)
    → b ≡ head_or_null fl
    → length fl < fuel
    → bytes_of k.mem fl < u32
    → free_from fuel k b ≡ bytes_of k.mem fl
free_from_lem zero k p b fl l nz e short small = absurd (omega arith)
free_from_lem (suc fuel) k p b [] l nz e short small = free_end fuel k b e
free_from_lem (suc fuel) k p b (a ∷ fl) (lp, ln, l) nz e short small = rw e (
    free_step fuel k a (bytes_of k.mem fl)
      (free_from_lem fuel k a (k.mem a).next fl l (λ c h. nz c (ground arith)) ln (omega arith)
        (omega arith))
      (nz a (ground arith)) (omega arith))

-- On a well-formed heap kmalloc_used and kmalloc_free, with a header for each block, add up to the
-- heap.
pub kmalloc_used-kmalloc_free :
    (k : Kmalloc) (bs fl : List ℕ)
    → Shape k bs fl
    → k.heap_start + header_size * length bs + kmalloc_used k + kmalloc_free k ≡ k.heap_end
unfolding kmalloc_used kmalloc_free
kmalloc_used-kmalloc_free k bs fl s =
    let fill = Tiles-bytes k.mem k.heap_start bs k.heap_end s.tiles in
    let free =
      free_bytes k.mem bs fl (Tiles-NoDup k.mem k.heap_start bs k.heap_end s.tiles) s.nodup
        s.listed in
    let some_free = bytes_with_le magic_free k.mem bs in
    let below = s.below in
    let small = s.small in
    let le = length_le fl bs s.nodup (λ a h. (Shape-free k bs fl s a h).0) in
    let used =
      used_from_lem (heap_rounds k) k k.heap_start bs s.tiles (omega arith) (omega arith) in
    let frees =
      free_from_lem (heap_rounds k) k 0 k.free_list fl s.links (λ a h. (Shape-free k bs fl s a h).2)
        s.first (omega arith) (omega arith) in
    let both = bytes_both k.mem bs s.marked in rw (used, frees) (omega arith)

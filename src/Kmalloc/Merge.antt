-- ===== src/Kmalloc/Merge.antt =====
-- A free block takes in the free block behind it.
use native.Mathlib.Decide.{ℕ_discrete}
use kum_os.Base.{
  ℕ, ◌+◌, ◌<◌, ◌≡◌, ◌≢◌, inl, inr, refl, sym, ap, ◌∙◌, Bool, true, false, ◌||◌, ◌&&◌, List, [], ◌∷◌,
  ◌++◌, arith, if◌then◌else◌, ◌==◌, Bool-cases, ne→==,
}
use kum_os.Kmalloc.{magic_free, header_size, Memory, Kmalloc, put_header, relink, unlink}
use kum_os.Kmalloc.Lists.{holds, holds-append, holds-middle, holds-drop, NoDup-drop}
use kum_os.Kmalloc.Tiles.{Tiles, Tiles-same, Tiles-bounds, Tiles-append, Tiles-split, stop}
use kum_os.Kmalloc.Links.{Links-same}
use kum_os.Kmalloc.Shape.{Shape, Shape-free, Unlinked, unlink-Unlinked}

-- Block b with the size of the block at `next` added.
abbrev pub grown : Kmalloc → ℕ → ℕ → Kmalloc
grown k b next = record k {
  mem =
      put_header k.mem b
        (record (k.mem b) { size = (k.mem b).size + (header_size + (k.mem next).size) });
}

-- A list with two blocks one behind the other.
pub record Next (bs : List ℕ) (b next : ℕ) : Type 0 where
  pub before : List ℕ
  pub after : List ℕ
  pub whole : bs ≡ before ++ b ∷ next ∷ after

-- What stands behind b starts with the block at `next`, if there is a block there.
pub Tiles-Next :
    (m : Memory) (a : ℕ) (bs : List ℕ) (e b : ℕ)
    → Tiles m a bs e
    → holds bs b ≡ true
    → stop m b < e
    → Next bs b (stop m b)
Tiles-Next m a [] e b t h l = absurd (ground arith)
Tiles-Next m a (c ∷ []) e b (at_a, t) h l =
    let s : c ≡ b = ground arith in
    let last : stop m b ≡ e = ap (stop m) (sym s) ∙ t in absurd (omega arith)
Tiles-Next m a (c ∷ d ∷ bs) e b (at_a, (at_d, t)) h l = elim (ℕ_discrete c b) [
  | yes s ↦
      let d_at : d ≡ stop m b = at_d ∙ ap (stop m) s in
      record { before = []; after = bs; whole = ap (λ x. x ∷ d ∷ bs) s ∙ ap (λ x. b ∷ x ∷ bs) d_at }
  | no n ↦
      let r = Tiles-Next m (stop m c) (d ∷ bs) e b (at_d, t) (ground arith) l in
      record { before = c ∷ r.before; after = r.after; whole = ap (◌∷◌ c) r.whole }
]

grown_fields :
    (k : Kmalloc) (b next a : ℕ)
    → (((grown k b next).mem a).magic ≡ (k.mem a).magic)
      × (((grown k b next).mem a).size
          ≡ (if b == a then (k.mem b).size + (header_size + (k.mem next).size) else (k.mem a).size))
      × ((((grown k b next).mem a).prev ≡ (k.mem a).prev)
          × (((grown k b next).mem a).next ≡ (k.mem a).next))
grown_fields k b next a = (ground (arith, b), ground arith, (ground (arith, b), ground (arith, b)))

merge_listed :
    (f f' h h' : Bool) (next a g g' : ℕ)
    → f ≡ (h && g == magic_free)
    → f ≡ (next == a || f')
    → h ≡ (next == a || h')
    → (next ≡ a → (f' ≡ false) × (h' ≡ false))
    → g' ≡ g
    → f' ≡ (h' && g' == magic_free)
merge_listed f f' h h' next a g g' l e1 e2 out m = elim (ℕ_discrete next a) [
  | yes e ↦ let (z, z') = out e in ground arith
  | no d ↦ ground arith
]

-- Block b with the block behind it.
abbrev pub merged : Kmalloc → ℕ → Kmalloc
merged k b = unlink (grown k b (stop k.mem b)) (stop k.mem b)

module _ (k : Kmalloc) (before : List ℕ) (b : ℕ) (after xs ys : List ℕ)
    (s : Shape k (before ++ b ∷ stop k.mem b ∷ after) (xs ++ stop k.mem b ∷ ys)) where
  merged_links : Unlinked (grown k b (stop k.mem b)) (xs ++ ys) (merged k b)
  merged_links =
      let g = grown k b (stop k.mem b) in
      unlink-Unlinked g xs (stop k.mem b) ys (record {
        links =
            Links-same k.mem g.mem 0 (xs ++ stop k.mem b ∷ ys)
              (λ a h. (grown_fields k b (stop k.mem b) a).2) s.links;
        first = s.first;
        nodup = s.nodup;
        nonzero = λ a h.
            (Shape-free k (before ++ b ∷ stop k.mem b ∷ after) (xs ++ stop k.mem b ∷ ys) s a h).2;
      })

  pub merged_fields :
      (a : ℕ)
      → (((merged k b).mem a).magic ≡ (k.mem a).magic)
        × (((merged k b).mem a).size ≡ (
            if b == a
            then (k.mem b).size + (header_size + (k.mem (stop k.mem b)).size)
            else (k.mem a).size))
  merged_fields a =
      let u = merged_links.same a in
      let g = grown_fields k b (stop k.mem b) a in (u.0 ∙ g.0, u.1 ∙ g.1)

  merged-Tiles : Tiles (merged k b).mem k.heap_start (before ++ b ∷ after) k.heap_end
  merged-Tiles =
      let next = stop k.mem b in
      let m = (merged k b).mem in
      let (left, (at_next, right)) =
        Tiles-split k.mem k.heap_start before b (next ∷ after) k.heap_end s.tiles in
      let sum = (k.mem b).size + (header_size + (k.mem next).size) in
      let at_b : (m b).size ≡ sum = (merged_fields b).1 ∙ if_itself b sum (k.mem b).size in
      let other : (a : ℕ) → b ≢ a → (m a).size ≡ (k.mem a).size =
        λ a n. (merged_fields a).1 ∙ if_other b a sum (k.mem a).size n in
      let ends : stop m b ≡ stop k.mem next = omega arith in
      Tiles-append m k.heap_start before b (b ∷ after) k.heap_end
        (Tiles-same k.mem m k.heap_start before b
          (λ a h.
            let (lo, hi) = Tiles-bounds k.mem k.heap_start before b a left h in
            other a (λ e. omega arith))
          left)
        (
          refl,
          rw ends (
              Tiles-same k.mem m (stop k.mem next) after k.heap_end
                (λ a h.
                  let (lo, hi) = Tiles-bounds k.mem (stop k.mem next) after k.heap_end a right h in
                  other a (λ e. omega arith))
                right),
        )
    where
      if_itself : (b x y : ℕ) → (if b == b then x else y) ≡ x
      if_itself b x y = ground arith

      if_other : (b a x y : ℕ) → b ≢ a → (if b == a then x else y) ≡ y
      if_other b a x y n = ground arith

  next_out : holds (before ++ b ∷ after) (stop k.mem b) ≡ false
  next_out =
      let next = stop k.mem b in
      let (left, (at_next, right)) =
        Tiles-split k.mem k.heap_start before b (next ∷ after) k.heap_end s.tiles in
      let front : holds before next ≡ false = elim (Bool-cases (holds before next)) [
        | inl t ↦
            let (lo, hi) = Tiles-bounds k.mem k.heap_start before b next left t in
            absurd (omega arith)
        | inr f ↦ f
      ] in
      let back : holds after next ≡ false = elim (Bool-cases (holds after next)) [
        | inl t ↦
            let (lo, hi) = Tiles-bounds k.mem (stop k.mem next) after k.heap_end next right t in
            absurd (omega arith)
        | inr f ↦ f
      ] in
      let apart : (b == next) ≡ false = ne→== b next (λ e. omega arith) in
      ground (arith, holds-append before (b ∷ after) next)

  pub merged-Shape : Shape (merged k b) (before ++ b ∷ after) (xs ++ ys)
  unfolding unlink relink
  merged-Shape =
      let next = stop k.mem b in
      record {
        positive = s.positive;
        below = s.below;
        small = s.small;
        tiles = merged-Tiles;
        links = merged_links.links;
        first = merged_links.first;
        nodup = NoDup-drop xs next ys s.nodup;
        listed = λ a.
            merge_listed (holds (xs ++ next ∷ ys) a) (holds (xs ++ ys) a)
              (holds (before ++ b ∷ next ∷ after) a) (holds (before ++ b ∷ after) a) next a
              (k.mem a).magic ((merged k b).mem a).magic (s.listed a) (holds-middle xs next ys a)
              (holds_merged a)
              (λ e. (
                ap (holds (xs ++ ys)) (sym e) ∙ holds-drop xs next ys s.nodup,
                ap (holds (before ++ b ∷ after)) (sym e) ∙ next_out,
              ))
              (merged_fields a).0;
        marked = λ a h.
            elim (s.marked a
              (holds_merged a ∙ or_right (next == a) (holds (before ++ b ∷ after) a) h)) [
                | inl u ↦ inl ((merged_fields a).0 ∙ u)
                | inr f ↦ inr ((merged_fields a).0 ∙ f)
              ];
      }
    where
      holds_merged :
          (a : ℕ)
          → holds (before ++ b ∷ stop k.mem b ∷ after) a
            ≡ (stop k.mem b == a || holds (before ++ b ∷ after) a)
      holds_merged a = ground (
        arith,
        holds-middle before b (stop k.mem b ∷ after) a,
        holds-middle before (stop k.mem b) after a,
        holds-middle before b after a,
      )

      or_right : (x y : Bool) → y ≡ true → (x || y) ≡ true
      or_right x y h = ground arith

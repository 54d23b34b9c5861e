-- ===== src/Kmalloc/Front.antt =====
-- The invariant after a free block was split and its front taken.
use native.Mathlib.Decide.{ℕ_discrete}
use kum_os.Base.{
  ℕ, ◌+◌, ◌-◌, ◌<◌, ◌≡◌, ◌≢◌, ◌⊎◌, inl, inr, refl, sym, ap, ◌∙◌, Bool, true, false, ◌||◌, ◌&&◌,
  List, ◌∷◌, ◌++◌, arith, if◌then◌else◌, ◌==◌,
}
use kum_os.Kmalloc.{magic_free, magic_used, header_size, Kmalloc, relink, take_block, split_block}
use kum_os.Kmalloc.Lists.{holds, NoDup, holds-middle, holds-drop, NoDup-put}
use kum_os.Kmalloc.Tiles.{Tiles, Tiles-same, Tiles-bounds, Tiles-append, Tiles-split, stop}
use kum_os.Kmalloc.Links.{Links, Links-same}
use kum_os.Kmalloc.Shape.{Shape}
use kum_os.Kmalloc.Split.{
  split_unlisted, relinked-Links, taken-relinked, relinked, front_taken, front_fields,
}

split_listed :
    (f f0 f' h h0 h1 h' : Bool) (b split a g g' : ℕ)
    → f ≡ (h && g == magic_free)
    → f ≡ (b == a || f0)
    → f' ≡ (split == a || f0)
    → h ≡ (b == a || h0)
    → h' ≡ (b == a || h1)
    → h1 ≡ (split == a || h0)
    → (b ≡ a → f0 ≡ false)
    → b ≢ split
    → g' ≡ (if b == a then magic_used else if split == a then magic_free else g)
    → f' ≡ (h' && g' == magic_free)
split_listed f f0 f' h h0 h1 h' b split a g g' l e1 e2 e3 e4 e5 out n m = elim (ℕ_discrete b a) [
  | yes e ↦ let z = out e in ground arith
  | no d ↦ ground arith
]

either_new :
    (g g' : ℕ) (t u : Bool)
    → (u ≡ false → (g ≡ magic_used) ⊎ (g ≡ magic_free))
    → g' ≡ (if t then magic_used else if u then magic_free else g)
    → (g' ≡ magic_used) ⊎ (g' ≡ magic_free)
either_new g h true u m e = inl e
either_new g h false true m e = inr e
either_new g h false false m e = elim (m refl) [ inl l ↦ inl (e ∙ l) | inr r ↦ inr (e ∙ r) ]

-- The sizes of the two parts.
if_apart :
    (b split a x y z : ℕ)
    → b ≢ a
    → split ≢ a
    → (if b == a then x else if split == a then y else z) ≡ z
if_apart b split a x y z n m = ground arith

if_second :
    (b split x y z : ℕ)
    → b ≢ split
    → (if b == split then x else if split == split then y else z) ≡ y
if_second b split x y z n = ground arith

if_itself : (b x y : ℕ) → (if b == b then x else y) ≡ x
if_itself b x y = ground arith

module _ (k : Kmalloc) (before : List ℕ) (b : ℕ) (after xs ys : List ℕ) (size : ℕ)
    (s : Shape k (before ++ b ∷ after) (xs ++ b ∷ ys))
    (fits : size + header_size < (k.mem b).size) where
  front-Tiles :
      Tiles
        (front_taken k b size).mem
        k.heap_start
        (before ++ b ∷ (b + header_size + size) ∷ after)
        k.heap_end
  front-Tiles =
      let sp = b + header_size + size in
      let m = (front_taken k b size).mem in
      let (left, right) = Tiles-split k.mem k.heap_start before b after k.heap_end s.tiles in
      let at_b : (m b).size ≡ size =
        (front_fields k before b after xs ys size s fits b).1 ∙ if_itself b size _ in
      let at_split : (m sp).size ≡ (k.mem b).size - size - header_size =
        (front_fields k before b after xs ys size s fits sp).1
        ∙ if_second b sp size _ (k.mem sp).size (λ e. omega arith) in
      let ends : stop m sp ≡ stop k.mem b = omega arith in
      let rest : Tiles m (stop m sp) after k.heap_end = rw ends (
        Tiles-same k.mem m (stop k.mem b) after k.heap_end
          (λ a h.
            let (lo, hi) = Tiles-bounds k.mem (stop k.mem b) after k.heap_end a right h in
            (front_fields k before b after xs ys size s fits a).1
            ∙ if_apart b sp a size _ (k.mem a).size (λ e. omega arith) (λ e. omega arith))
          right) in
      Tiles-append m k.heap_start before b (b ∷ sp ∷ after) k.heap_end
        (Tiles-same k.mem m k.heap_start before b
          (λ a h.
            let (lo, hi) = Tiles-bounds k.mem k.heap_start before b a left h in
            (front_fields k before b after xs ys size s fits a).1
            ∙ if_apart b sp a size _ (k.mem a).size (λ e. omega arith) (λ e. omega arith))
          left)
        (refl, (ap (λ n. b + header_size + n) (sym at_b), rest))

  front-NoDup : NoDup (xs ++ (b + header_size + size) ∷ ys)
  front-NoDup =
      NoDup-put xs b (b + header_size + size) ys s.nodup
        (split_unlisted k before b after xs ys size s fits)

  -- The links outside block b.
  front-Links : Links (front_taken k b size).mem 0 (xs ++ (b + header_size + size) ∷ ys)
  front-Links =
      let sp = b + header_size + size in
      let out = holds-drop xs b ys s.nodup in
      let (links, first) = relinked-Links k before b after xs ys size s fits in
      Links-same (relinked k b size).mem (front_taken k b size).mem 0 (xs ++ sp ∷ ys)
        (λ a h.
          let n : b ≢ a = λ e.
            let h' : holds (xs ++ sp ∷ ys) b ≡ true = ap (holds (xs ++ sp ∷ ys)) e ∙ h in
            absurd (ground (arith, holds-middle xs sp ys b)) in
          let same = (taken-relinked k b size a).2 n in
          (ap (λ h. h.prev) same, ap (λ h. h.next) same))
        links

  pub front-Shape :
      Shape
        (front_taken k b size)
        (before ++ b ∷ (b + header_size + size) ∷ after)
        (xs ++ (b + header_size + size) ∷ ys)
  unfolding take_block split_block relink
  front-Shape =
      let sp = b + header_size + size in
      let bs = before ++ b ∷ sp ∷ after in
      let m = (front_taken k b size).mem in
      record {
        positive = s.positive;
        below = s.below;
        small = s.small;
        tiles = front-Tiles;
        links = front-Links;
        first = (relinked-Links k before b after xs ys size s fits).1;
        nodup = front-NoDup;
        listed = λ a.
            split_listed (holds (xs ++ b ∷ ys) a) (holds (xs ++ ys) a) (holds (xs ++ sp ∷ ys) a)
              (holds (before ++ b ∷ after) a) (holds (before ++ after) a)
              (holds (before ++ sp ∷ after) a) (holds bs a) b sp a (k.mem a).magic (m a).magic
              (s.listed a) (holds-middle xs b ys a) (holds-middle xs sp ys a)
              (holds-middle before b after a) (holds-middle before b (sp ∷ after) a)
              (holds-middle before sp after a)
              (λ e. ap (holds (xs ++ ys)) (sym e) ∙ holds-drop xs b ys s.nodup) (λ e. omega arith)
              (front_fields k before b after xs ys size s fits a).0;
        marked = λ a h.
            either_new (k.mem a).magic (m a).magic (b == a) (sp == a)
              (λ n. s.marked a (
                ground (
                  arith,
                  holds-middle before b after a,
                  holds-middle before b (sp ∷ after) a,
                  holds-middle before sp after a,
                )))
              (front_fields k before b after xs ys size s fits a).0;
      }

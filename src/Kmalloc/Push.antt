-- ===== src/Kmalloc/Push.antt =====
-- A block is put in front of the list of free blocks: one that is given back, or one behind the others.
use native.Mathlib.Decide.{ℕ_discrete}
use kum_os.Base.{
  ℕ, ◌+◌, ◌≤◌, ◌<◌, ◌≡◌, ◌≢◌, ◌⊎◌, inl, inr, refl, sym, ap, ◌∙◌, Bool, true, false, not, ◌&&◌, List,
  [], ◌∷◌, ◌++◌, arith, if◌then◌else◌, ◌==◌, Bool-cases,
}
use kum_os.Kmalloc.{magic_free, magic_used, header_size, Memory, Kmalloc, push_free}
use kum_os.Kmalloc.Lists.{holds, NoDup, head_or_null, head-holds, holds-append}
use kum_os.Kmalloc.Tiles.{Tiles-same, Tiles-bounds, Tiles-le, Tiles-append}
use kum_os.Kmalloc.Links.{Links, Links-behind}
use kum_os.Kmalloc.Shape.{Shape, Shape-free}

-- What push_free does to the headers.
pub push-fields :
    (k : Kmalloc) (b size a : ℕ)
    → (((push_free k b size).mem a).magic ≡ (if b == a then magic_free else (k.mem a).magic))
      × (((push_free k b size).mem a).size ≡ (if b == a then size else (k.mem a).size))
unfolding push_free
push-fields k b size a = (ground arith, ground arith)

push-next :
    (k : Kmalloc) (b size a : ℕ)
    → ((push_free k b size).mem a).next ≡ (if b == a then k.free_list else (k.mem a).next)
unfolding push_free
push-next k b size a = ground arith

push-prev :
    (k : Kmalloc) (b size a : ℕ)
    → ((push_free k b size).mem a).prev ≡ (
        if not (k.free_list == 0) && k.free_list == a
        then b
        else if b == a
        then 0
        else (k.mem a).prev)
unfolding push_free
push-prev k b size a = ground arith

if_first :
    (f a b p : ℕ)
    → a ≢ 0
    → a ≢ b
    → (if not (f == 0) && f == a then b else if b == a then 0 else p) ≡ (if a == f then b else p)
if_first f a b p nz n = ground arith

if_new : (f b p : ℕ) → f ≢ b → (if not (f == 0) && f == b then b else if b == b then 0 else p) ≡ 0
if_new f b p n = ground arith

pub push-Links :
    (k : Kmalloc) (b size : ℕ) (fl : List ℕ)
    → Links k.mem 0 fl
    → k.free_list ≡ head_or_null fl
    → NoDup fl
    → ((a : ℕ) → holds fl a ≡ true → a ≢ 0)
    → holds fl b ≡ false
    → b ≢ 0
    → Links (push_free k b size).mem 0 (b ∷ fl)
push-Links k b size fl l first n nz new bnz =
    let apart : (a : ℕ) → holds fl a ≡ true → a ≢ b =
      λ a h e. let h' : holds fl b ≡ true = ap (holds fl) (sym e) ∙ h in absurd (ground arith) in
    let front : k.free_list ≢ b = λ e.
      let e' = sym first ∙ e in
      apart (head_or_null fl) (head-holds fl (λ z. bnz (sym e' ∙ z))) e' in
    (
      push-prev k b size b ∙ if_new k.free_list b (k.mem b).prev front,
      push-next k b size b ∙ if_same b k.free_list (k.mem b).next ∙ first,
      Links-behind k.mem (push_free k b size).mem 0 b fl n
          (λ a h. push-next k b size a ∙ if_ne b a k.free_list (k.mem a).next (apart a h))
          (λ a h.
            push-prev k b size a
            ∙ if_first k.free_list a b (k.mem a).prev (nz a h) (apart a h)
            ∙ ap (λ f. if a == f then b else (k.mem a).prev) first)
          l,
    )
  where
    if_same : (b t u : ℕ) → (if b == b then t else u) ≡ t
    if_same b t u = ground arith

    if_ne : (b a t u : ℕ) → a ≢ b → (if b == a then t else u) ≡ u
    if_ne b a t u n = ground arith

if_own : (m : Memory) (b a : ℕ) → (if b == a then (m b).size else (m a).size) ≡ (m a).size
if_own m b a = elim (ℕ_discrete b a) [
  | yes e ↦ let same : (m b).size ≡ (m a).size = ap (λ c. (m c).size) e in ground arith
  | no n ↦ ground arith
]

either_free :
    (g g' : ℕ) (t : Bool)
    → (g ≡ magic_used) ⊎ (g ≡ magic_free)
    → g' ≡ (if t then magic_free else g)
    → (g' ≡ magic_used) ⊎ (g' ≡ magic_free)
either_free g h true m e = inr e
either_free g h false (inl m) e = inl (e ∙ m)
either_free g h false (inr m) e = inr (e ∙ m)

push_listed :
    (fl bs : List ℕ) (b a g g' : ℕ)
    → holds bs b ≡ true
    → holds fl a ≡ (holds bs a && g == magic_free)
    → g' ≡ (if b == a then magic_free else g)
    → holds (b ∷ fl) a ≡ (holds bs a && g' == magic_free)
push_listed fl bs b a g g' h l m = elim (ℕ_discrete b a) [
  | yes e ↦ let h' : holds bs a ≡ true = ap (holds bs) (sym e) ∙ h in ground arith
  | no n ↦ ground arith
]

-- Block b, in use, is put on the list.
pub push-Shape :
    (k : Kmalloc) (bs fl : List ℕ) (b : ℕ)
    → Shape k bs fl
    → holds bs b ≡ true
    → (k.mem b).magic ≡ magic_used
    → Shape (push_free k b (k.mem b).size) bs (b ∷ fl)
unfolding push_free
push-Shape k bs fl b s h u =
    let l = s.listed b in
    let lo = (Tiles-bounds k.mem k.heap_start bs k.heap_end b s.tiles h).0 in
    let p = s.positive in
    let out : holds fl b ≡ false = ground arith in
    let size = (k.mem b).size in
    let m = (push_free k b size).mem in
    record {
      positive = s.positive;
      below = s.below;
      small = s.small;
      tiles =
          Tiles-same k.mem m k.heap_start bs k.heap_end
            (λ a h. (push-fields k b size a).1 ∙ if_own k.mem b a) s.tiles;
      links =
          push-Links k b size fl s.links s.first s.nodup (λ a h. (Shape-free k bs fl s a h).2) out
            (λ z. omega arith);
      first = refl;
      nodup = (out, s.nodup);
      listed = λ a.
          push_listed fl bs b a (k.mem a).magic (m a).magic h (s.listed a)
            (push-fields k b size a).0;
      marked = λ a h.
          either_free (k.mem a).magic (m a).magic (b == a) (s.marked a h)
            (push-fields k b size a).0;
    }

last_listed :
    (fl bs : List ℕ) (b a g g' : ℕ)
    → holds fl a ≡ (holds bs a && g == magic_free)
    → g' ≡ (if b == a then magic_free else g)
    → holds (b ∷ fl) a ≡ (holds (bs ++ b ∷ []) a && g' == magic_free)
last_listed fl bs b a g g' l m = elim (ℕ_discrete b a) [
  | yes e ↦ ground (arith, holds-append bs (b ∷ []) a)
  | no n ↦ ground (arith, holds-append bs (b ∷ []) a)
]

-- The heap with its end at e.
abbrev pub end_at : Kmalloc → ℕ → Kmalloc
end_at k e = record k { heap_end = e }

-- No block stands at the end of the heap.
pub end_out : (k : Kmalloc) (bs fl : List ℕ) → Shape k bs fl → holds bs k.heap_end ≡ false
end_out k bs fl s = elim (Bool-cases (holds bs k.heap_end)) [
  | inl t ↦
      let (lo, hi) = Tiles-bounds k.mem k.heap_start bs k.heap_end k.heap_end s.tiles t in
      absurd (omega arith)
  | inr f ↦ f
]

-- A new block of `need` bytes at the end of the heap.
pub last-Shape :
    (k : Kmalloc) (bs fl : List ℕ) (need : ℕ)
    → Shape k bs fl
    → k.heap_end + header_size + need ≤ k.heap_cap
    → Shape
        (end_at (push_free k k.heap_end need) (k.heap_end + header_size + need))
        (bs ++ k.heap_end ∷ [])
        (k.heap_end ∷ fl)
unfolding push_free
last-Shape k bs fl need s fits =
    let b = k.heap_end in
    let fresh : (a : ℕ) → holds bs a ≡ true → (k.mem a).size + a < b = λ a h.
      let (lo, hi) = Tiles-bounds k.mem k.heap_start bs k.heap_end a s.tiles h in omega arith in
    let new = end_out k bs fl s in
    let l = s.listed b in
    let out : holds fl b ≡ false = ground arith in
    let lo = Tiles-le k.mem k.heap_start bs k.heap_end s.tiles in
    let p = s.positive in
    let m = (push_free k b need).mem in
    record {
      positive = s.positive;
      below = fits;
      small = s.small;
      tiles =
          Tiles-append m k.heap_start bs b (b ∷ []) (k.heap_end + header_size + need)
            (Tiles-same k.mem m k.heap_start bs k.heap_end
              (λ a h. let f = fresh a h in (push-fields k b need a).1 ∙ ground arith) s.tiles)
            (refl, ap (λ n. b + header_size + n) ((push-fields k b need b).1 ∙ ground arith));
      links =
          push-Links k b need fl s.links s.first s.nodup (λ a h. (Shape-free k bs fl s a h).2) out
            (λ z. omega arith);
      first = refl;
      nodup = (out, s.nodup);
      listed = λ a.
          last_listed fl bs b a (k.mem a).magic (m a).magic (s.listed a) (push-fields k b need a).0;
      marked = λ a h. elim (ℕ_discrete b a) [
        | yes e ↦ inr ((push-fields k b need a).0 ∙ ground arith)
        | no n ↦
            let h' : holds bs a ≡ true = ground (arith, holds-append bs (b ∷ []) a) in
            either_free (k.mem a).magic (m a).magic (b == a) (s.marked a h')
              (push-fields k b need a).0
      ];
    }

-- ===== src/Kmalloc/Owned.antt =====
-- What the owners of blocks see of the heap: which blocks are in use, and how large they are.
use native.Mathlib.Decide.{ℕ_discrete}
use kum_os.Base.{
  ℕ, ◌+◌, ◌-◌, ◌<◌, ◌≡◌, sym, ap, ◌∙◌, Bool, true, false, ◌||◌, ◌&&◌, List, [], ◌∷◌, ◌++◌, arith,
  if◌then◌else◌, ◌==◌, Option, some, none,
}
use kum_os.Kmalloc.{magic_free, magic_used, header_size, Kmalloc, unlink, take_block, push_free}
use kum_os.Kmalloc.Lists.{holds, holds-append, holds-middle}
use kum_os.Kmalloc.Tiles.{stop}
use kum_os.Kmalloc.Shape.{Shape, Shape-free}
use kum_os.Kmalloc.Shape.{taken_fields}
use kum_os.Kmalloc.Push.{push-fields, end_at, end_out}
use kum_os.Kmalloc.Split.{front_taken, front_fields, split_out}
use kum_os.Kmalloc.Merge.{merged, merged_fields}

-- The size of the block at an address, if it is in use.
abbrev pub owned : Kmalloc → List ℕ → ℕ → Option ℕ
owned k bs a = if holds bs a && (k.mem a).magic == magic_used then some (k.mem a).size else none

pub take-owned :
    (k : Kmalloc) (bs xs : List ℕ) (b : ℕ) (ys : List ℕ)
    → Shape k bs (xs ++ b ∷ ys)
    → holds bs b ≡ true
    → (a : ℕ)
    → owned (take_block (unlink k b) b) bs a
      ≡ (if b == a then some (k.mem b).size else owned k bs a)
take-owned k bs xs b ys s h a =
    let (mg, sz) = taken_fields k bs xs b ys s a in
    let k' = take_block (unlink k b) b in own_new (k'.mem a).magic (k'.mem a).size mg sz
  where
    own_new :
        (g' z' : ℕ)
        → g' ≡ (if b == a then magic_used else (k.mem a).magic)
        → z' ≡ (k.mem a).size
        → (if holds bs a && g' == magic_used then some z' else none)
          ≡ (if b == a then some (k.mem b).size else owned k bs a)
    own_new g' z' mg sz = elim (ℕ_discrete b a) [
      | yes e ↦
          let h' : holds bs a ≡ true = ap (holds bs) (sym e) ∙ h in
          let z : (k.mem b).size ≡ (k.mem a).size = ap (λ c. (k.mem c).size) e in ground arith
      | no n ↦ ground arith
    ]

pub front-owned :
    (k : Kmalloc) (before : List ℕ) (b : ℕ) (after xs ys : List ℕ) (size : ℕ)
    → Shape k (before ++ b ∷ after) (xs ++ b ∷ ys)
    → size + header_size < (k.mem b).size
    → (a : ℕ)
    → owned (front_taken k b size) (before ++ b ∷ (b + header_size + size) ∷ after) a
      ≡ (if b == a then some size else owned k (before ++ b ∷ after) a)
front-owned k before b after xs ys size s fits a =
    let sp = b + header_size + size in
    let (mg, sz) = front_fields k before b after xs ys size s fits a in
    let k' = front_taken k b size in
    own_front (holds (before ++ b ∷ sp ∷ after) a) (holds (before ++ b ∷ after) a)
      (holds (before ++ after) a) (k.mem a).magic (k'.mem a).magic (k.mem a).size (k'.mem a).size
      ((k.mem b).size - size - header_size)
      (holds-middle before b (sp ∷ after) a
        ∙ ap (λ t. b == a || t) (holds-middle before sp after a))
      (holds-middle before b after a)
      (λ e. ap (holds (before ++ b ∷ after)) (sym e) ∙ split_out k before b after xs ys size s fits)
      mg sz
  where
    own_front :
        (h' h h0 : Bool) (g g' z z' r : ℕ)
        → h' ≡ (b == a || (b + header_size + size == a || h0))
        → h ≡ (b == a || h0)
        → (b + header_size + size ≡ a → h ≡ false)
        → g'
          ≡ (if b == a then magic_used else if (b + header_size + size) == a then magic_free else g)
        → z' ≡ (if b == a then size else if (b + header_size + size) == a then r else z)
        → (if h' && g' == magic_used then some z' else none)
          ≡ (if b == a then some size else if h && g == magic_used then some z else none)
    own_front h' h h0 g g' z z' r e1 e2 out mg sz = elim (ℕ_discrete b a) [
      | yes e ↦ ground arith
      | no n ↦ elim (ℕ_discrete (b + header_size + size) a) [
        | yes e ↦ let f = out e in ground arith
        | no m ↦ ground arith
      ]
    ]

pub push-owned :
    (k : Kmalloc) (bs : List ℕ) (b a : ℕ)
    → owned (push_free k b (k.mem b).size) bs a ≡ (if b == a then none else owned k bs a)
push-owned k bs b a =
    let (mg, sz) = push-fields k b (k.mem b).size a in
    let k' = push_free k b (k.mem b).size in own_free (k'.mem a).magic (k'.mem a).size mg sz
  where
    own_free :
        (g' z' : ℕ)
        → g' ≡ (if b == a then magic_free else (k.mem a).magic)
        → z' ≡ (if b == a then (k.mem b).size else (k.mem a).size)
        → (if holds bs a && g' == magic_used then some z' else none)
          ≡ (if b == a then none else owned k bs a)
    own_free g' z' mg sz = ground arith

pub last-owned :
    (k : Kmalloc) (bs fl : List ℕ) (need e : ℕ)
    → Shape k bs fl
    → (a : ℕ)
    → owned (end_at (push_free k k.heap_end need) e) (bs ++ k.heap_end ∷ []) a ≡ owned k bs a
last-owned k bs fl need e s a =
    let (mg, sz) = push-fields k k.heap_end need a in
    let k' = push_free k k.heap_end need in
    let out = end_out k bs fl s in
    own_last (k'.mem a).magic (k'.mem a).size (holds (bs ++ k.heap_end ∷ []) a) mg sz
      (holds-append bs (k.heap_end ∷ []) a) (λ e. ap (holds bs) (sym e) ∙ out)
  where
    own_last :
        (g' z' : ℕ) (h' : Bool)
        → g' ≡ (if k.heap_end == a then magic_free else (k.mem a).magic)
        → z' ≡ (if k.heap_end == a then need else (k.mem a).size)
        → h' ≡ (holds bs a || (k.heap_end == a || false))
        → (k.heap_end ≡ a → holds bs a ≡ false)
        → (if h' && g' == magic_used then some z' else none) ≡ owned k bs a
    own_last g' z' h' mg sz eh out = elim (ℕ_discrete k.heap_end a) [
      | yes e ↦ let f = out e in ground arith
      | no n ↦ ground arith
    ]

pub merged-owned :
    (k : Kmalloc) (before : List ℕ) (b : ℕ) (after xs ys : List ℕ)
    → Shape k (before ++ b ∷ stop k.mem b ∷ after) (xs ++ stop k.mem b ∷ ys)
    → (k.mem b).magic ≡ magic_free
    → (a : ℕ)
    → owned (merged k b) (before ++ b ∷ after) a ≡ owned k (before ++ b ∷ stop k.mem b ∷ after) a
merged-owned k before b after xs ys s free a =
    let next = stop k.mem b in
    let (mg, sz) = merged_fields k before b after xs ys s a in
    let k' = merged k b in
    let (in', free', nz) =
      Shape-free k (before ++ b ∷ next ∷ after) (xs ++ next ∷ ys) s next
        (ground (arith, holds-middle xs next ys next)) in
    own_merged (holds (before ++ b ∷ after) a) (holds (before ++ b ∷ next ∷ after) a)
      (holds (before ++ after) a) (k'.mem a).magic (k'.mem a).size
      ((k.mem b).size + (header_size + (k.mem next).size)) (holds-middle before b after a)
      (holds-middle before b (next ∷ after) a
        ∙ ap (λ t. b == a || t) (holds-middle before next after a))
      mg sz (λ e. ap (λ c. (k.mem c).magic) (sym e) ∙ free)
      (λ e. ap (λ c. (k.mem c).magic) (sym e) ∙ free')
  where
    own_merged :
        (h' h h0 : Bool) (g' z' r : ℕ)
        → h' ≡ (b == a || h0)
        → h ≡ (b == a || (stop k.mem b == a || h0))
        → g' ≡ (k.mem a).magic
        → z' ≡ (if b == a then r else (k.mem a).size)
        → (b ≡ a → (k.mem a).magic ≡ magic_free)
        → (stop k.mem b ≡ a → (k.mem a).magic ≡ magic_free)
        → (if h' && g' == magic_used then some z' else none)
          ≡ (if h && (k.mem a).magic == magic_used then some (k.mem a).size else none)
    own_merged h' h h0 g' z' r e1 e2 mg sz f1 f2 = elim (ℕ_discrete b a) [
      | yes e ↦ let f = f1 e in ground arith
      | no n ↦ elim (ℕ_discrete (stop k.mem b) a) [
        | yes e ↦ let f = f2 e in ground arith
        | no m ↦ ground arith
      ]
    ]

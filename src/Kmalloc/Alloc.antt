-- ===== src/Kmalloc/Alloc.antt =====
-- What kmalloc returns and leaves behind.
use kum_os.Base.{
  ℕ, zero, suc, ◌+◌, ◌≤◌, ◌<◌, ◌≡◌, ◌≢◌, ◌⊎◌, inl, inr, refl, sym, ap, ◌∙◌, Bool, true, false, ◌&&◌,
  List, [], ◌∷◌, ◌++◌, arith, if◌then◌else◌, ◌==◌, Bool-cases, ne→==, length, ltb, leb, some, none,
  add32,
}
use kum_os.Kmalloc.{header_size, min_split, Memory, Kmalloc, unlink, take_block, find_fit, alloc_at}
use kum_os.Kmalloc.Lists.{holds, head_or_null, holds-middle}
use kum_os.Kmalloc.Links.{Links}
use kum_os.Kmalloc.Shape.{Shape, Shape-free, take-Shape}
use kum_os.Kmalloc.Split.{front_taken}
use kum_os.Kmalloc.Front.{front-Shape}
use kum_os.Kmalloc.Owned.{owned, take-owned, front-owned}

-- Every block of the list has less than `size` bytes.
abbrev pub smaller : Memory → ℕ → List ℕ → Bool
smaller m size [] = true
smaller m size (a ∷ as') = ltb (m a).size size && smaller m size as'

-- What the search for a block returns.
abbrev pub Fit : Memory → ℕ → List ℕ → ℕ → Type 0
Fit m size fl r =
    ((r ≡ 0) × (smaller m size fl ≡ true)) ⊎ ((holds fl r ≡ true) × (size ≤ (m r).size))

find_step :
    (fuel : ℕ) (k : Kmalloc) (size b : ℕ)
    → b ≢ 0
    → find_fit (suc fuel) k size b
      ≡ (if ltb (k.mem b).size size then find_fit fuel k size (k.mem b).next else b)
unfolding find_fit
find_step fuel k size b n = rw (ne→== b 0 n) refl

find_end : (fuel : ℕ) (k : Kmalloc) (size b : ℕ) → b ≡ 0 → find_fit (suc fuel) k size b ≡ 0
unfolding find_fit
find_end fuel k size b e = ground arith

Fit-behind :
    (m : Memory) (size a : ℕ) (fl : List ℕ) (r : ℕ)
    → ltb (m a).size size ≡ true
    → Fit m size fl r
    → Fit m size (a ∷ fl) r
Fit-behind m size a fl r l (inl (z, s)) = inl (z, ground arith)
Fit-behind m size a fl r l (inr (h, s)) = inr (ground arith, s)

pub find_fit_lem :
    (fuel : ℕ) (k : Kmalloc) (size p b : ℕ) (fl : List ℕ)
    → Links k.mem p fl
    → ((a : ℕ) → holds fl a ≡ true → a ≢ 0)
    → b ≡ head_or_null fl
    → length fl < fuel
    → Fit k.mem size fl (find_fit fuel k size b)
find_fit_lem zero k size p b fl l nz e short = absurd (omega arith)
find_fit_lem (suc fuel) k size p b [] l nz e short = inl (find_end fuel k size b e, refl)
find_fit_lem (suc fuel) k size p b (a ∷ fl) (lp, ln, l) nz e short =
    let next_b : (k.mem b).next ≡ head_or_null fl = ap (λ c. (k.mem c).next) e ∙ ln in
    let b_nz : b ≢ 0 = λ z. nz a (ground arith) (sym e ∙ z) in
    let step = find_step fuel k size b b_nz in
    let same : (k.mem b).size ≡ (k.mem a).size = ap (λ c. (k.mem c).size) e in
    elim (Bool-cases (ltb (k.mem b).size size)) [
      | inl small ↦
          rw (step ∙ ap (λ t. if t then find_fit fuel k size (k.mem b).next else b) small) (
            Fit-behind k.mem size a fl _ (ap (λ n. ltb n size) (sym same) ∙ small) (
              find_fit_lem fuel k size a (k.mem b).next fl l (λ c h. nz c (ground arith)) next_b
                (omega arith)))
      | inr large ↦
          rw (step ∙ ap (λ t. if t then find_fit fuel k size (k.mem b).next else b) large)
            (inr (ground arith, ground arith))
    ]

-- A block for a request of `size` bytes: what was in use before is in use with its size, and block
-- b with it.
pub record Allocated (k : Kmalloc) (bs : List ℕ) (size : ℕ) (out : ℕ × Kmalloc) : Type 0 where
  pub block : ℕ
  pub bytes : ℕ
  pub blocks : List ℕ
  pub frees : List ℕ
  pub address : out.0 ≡ block + header_size
  pub enough : size ≤ bytes
  pub shape : Shape out.1 blocks frees
  pub fresh : owned k bs block ≡ none
  pub owns : (a : ℕ) → owned out.1 blocks a ≡ (if block == a then some bytes else owned k bs a)

free-owned :
    (k : Kmalloc) (bs fl : List ℕ) (b : ℕ) → Shape k bs fl → holds fl b ≡ true → owned k bs b ≡ none
free-owned k bs fl b s h = let (in', free, nz) = Shape-free k bs fl s b h in ground arith

pub alloc_take :
    (size : ℕ) (k : Kmalloc) (b : ℕ)
    → b ≢ 0
    → leb (add32 (add32 size header_size) min_split) (k.mem b).size ≡ false
    → alloc_at size k b ≡ (b + header_size, take_block (unlink k b) b)
unfolding alloc_at
alloc_take size k b n l = rw (ne→== b 0 n, l) refl

pub alloc_split :
    (size : ℕ) (k : Kmalloc) (b : ℕ)
    → b ≢ 0
    → leb (add32 (add32 size header_size) min_split) (k.mem b).size ≡ true
    → alloc_at size k b ≡ (b + header_size, front_taken k b size)
unfolding alloc_at
alloc_split size k b n l = rw (ne→== b 0 n, l) refl

pub taken-Allocated :
    (k : Kmalloc) (bs xs : List ℕ) (b : ℕ) (ys : List ℕ) (size : ℕ)
    → Shape k bs (xs ++ b ∷ ys)
    → size ≤ (k.mem b).size
    → Allocated k bs size (b + header_size, take_block (unlink k b) b)
taken-Allocated k bs xs b ys size s enough =
    let listed : holds (xs ++ b ∷ ys) b ≡ true = ground (arith, holds-middle xs b ys b) in
    record {
      block = b;
      bytes = (k.mem b).size;
      blocks = bs;
      frees = xs ++ ys;
      address = refl;
      enough = enough;
      shape = take-Shape k bs xs b ys s;
      fresh = free-owned k bs (xs ++ b ∷ ys) b s listed;
      owns = take-owned k bs xs b ys s (Shape-free k bs (xs ++ b ∷ ys) s b listed).0;
    }

pub split-Allocated :
    (k : Kmalloc) (before : List ℕ) (b : ℕ) (after xs ys : List ℕ) (size : ℕ)
    → Shape k (before ++ b ∷ after) (xs ++ b ∷ ys)
    → size + header_size < (k.mem b).size
    → Allocated k (before ++ b ∷ after) size (b + header_size, front_taken k b size)
split-Allocated k before b after xs ys size s fits =
    let listed : holds (xs ++ b ∷ ys) b ≡ true = ground (arith, holds-middle xs b ys b) in
    record {
      block = b;
      bytes = size;
      blocks = before ++ b ∷ (b + header_size + size) ∷ after;
      frees = xs ++ (b + header_size + size) ∷ ys;
      address = refl;
      enough = omega arith;
      shape = front-Shape k before b after xs ys size s fits;
      fresh = free-owned k (before ++ b ∷ after) (xs ++ b ∷ ys) b s listed;
      owns = front-owned k before b after xs ys size s fits;
    }

-- ===== src/Kmalloc/Links.antt =====
-- The list of free blocks: each block names the one before it and the one behind it.
use kum_os.Base.{
  ℕ, ◌≡◌, ◌≢◌, ◌∙◌, true, false, List, [], ◌∷◌, ◌++◌, arith, if◌then◌else◌, ◌==◌, ne→==,
}
use kum_os.Kmalloc.{Memory}
use kum_os.Kmalloc.Lists.{holds, NoDup, head_or_null, holds-append}

abbrev pub Links : Memory → ℕ → List ℕ → Type 0
Links m p [] = Unit {0}
Links m p (a ∷ as') = ((m a).prev ≡ p) × ((m a).next ≡ head_or_null as') × Links m a as'

pub Links-same :
    (m m' : Memory) (p : ℕ) (xs : List ℕ)
    → ((a : ℕ) → holds xs a ≡ true → ((m' a).prev ≡ (m a).prev) × ((m' a).next ≡ (m a).next))
    → Links m p xs
    → Links m' p xs
Links-same m m' p [] same l = tt
Links-same m m' p (x ∷ xs) same (prev, next, l) =
    let (sp, sn) = same x (ground arith) in
    (sp ∙ prev, sn ∙ next, Links-same m m' x xs (λ a h. same a (ground arith)) l)

-- The list with another block in front of it.
pub Links-behind :
    (m m' : Memory) (p q : ℕ) (xs : List ℕ)
    → NoDup xs
    → ((a : ℕ) → holds xs a ≡ true → (m' a).next ≡ (m a).next)
    → ((a : ℕ) → holds xs a ≡ true → (m' a).prev ≡ (if a == head_or_null xs then q else (m a).prev))
    → Links m p xs
    → Links m' q xs
Links-behind m m' p q [] n next prev l = tt
Links-behind m m' p q (x ∷ xs) (out, n) next prev (lp, ln, l) = (
  ground (arith, prev x),
  next x (ground arith) ∙ ln,
  Links-same m m' x xs (λ a h. (ground (arith, prev a), next a (ground arith))) l,
)

-- The block before a member of the list stands in the list.
pub Links-prev :
    (m : Memory) (p x : ℕ) (xs : List ℕ) (b : ℕ) (ys : List ℕ)
    → Links m p (x ∷ xs ++ b ∷ ys)
    → holds (x ∷ xs) (m b).prev ≡ true
Links-prev m p x [] b ys (lp, ln, (lp', ln', l)) = ground arith
Links-prev m p x (y ∷ xs) b ys (lp, ln, l) = ground (arith, Links-prev m x y xs b ys l)

-- The part of the list behind `xs` is replaced by `ws`.
pub Links-replace :
    (m m' : Memory) (p : ℕ) (xs : List ℕ) (b : ℕ) (ys ws : List ℕ)
    → NoDup (xs ++ b ∷ ys)
    → ((a : ℕ) → holds xs a ≡ true → (m' a).prev ≡ (m a).prev)
    → ((a : ℕ)
        → holds xs a ≡ true
        → (m' a).next ≡ (if a == (m b).prev then head_or_null ws else (m a).next))
    → Links m p (xs ++ b ∷ ys)
    → Links m' (m b).prev ws
    → Links m' p (xs ++ ws)
Links-replace m m' p [] b ys ws n prev next (lp, ln, l) r = rw (← lp) r
Links-replace m m' p (x ∷ []) b ys ws n prev next (lp, ln, (lb, lb', l)) r =
    (prev x (ground arith) ∙ lp, ground (arith, next x), rw (← lb) r)
Links-replace m m' p (x ∷ y ∷ xs) b ys ws (out, n) prev next (lp, ln, l) r =
    let inside = Links-prev m x y xs b ys l in
    let apart : x ≢ (m b).prev = λ e. ground (arith, holds-append (y ∷ xs) (b ∷ ys) x) in
    let other : (x == (m b).prev) ≡ false = ne→== x (m b).prev apart in
    (
      prev x (ground arith) ∙ lp,
      next x (ground arith) ∙ rw other ln,
      Links-replace m m' x (y ∷ xs) b ys ws n (λ a h. prev a (ground arith))
          (λ a h. next a (ground arith)) l r,
    )

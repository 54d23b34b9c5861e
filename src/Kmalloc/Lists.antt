-- ===== src/Kmalloc/Lists.antt =====
-- Lists of addresses without repetition.
use native.Mathlib.Decide.{ℕ_discrete}
use kum_os.Base.{
  ℕ, suc, ◌≤◌, ◌≡◌, ◌≢◌, refl, ap, ◌∙◌, Bool, true, false, ◌||◌, List, [], ◌∷◌, ◌++◌, arith,
  if◌then◌else◌, ◌==◌, length,
}

abbrev pub holds : List ℕ → ℕ → Bool
holds [] a = false
holds (x ∷ xs) a = x == a || holds xs a

abbrev pub NoDup : List ℕ → Type 0
NoDup [] = Unit {0}
NoDup (x ∷ xs) = (holds xs x ≡ false) × NoDup xs

abbrev pub head_or_null : List ℕ → ℕ
head_or_null [] = 0
head_or_null (x ∷ xs) = x

-- A list around one of its members.
pub record Around (xs : List ℕ) (a : ℕ) : Type 0 where
  pub before : List ℕ
  pub after : List ℕ
  pub whole : xs ≡ before ++ a ∷ after

pub holds-Around : (xs : List ℕ) (a : ℕ) → holds xs a ≡ true → Around xs a
holds-Around [] a h = absurd (ground arith)
holds-Around (x ∷ xs) a h = elim (ℕ_discrete x a) [
  | yes e ↦ record { before = []; after = xs; whole = ap (λ y. y ∷ xs) e }
  | no n ↦
      let r = holds-Around xs a (ground arith) in
      record { before = x ∷ r.before; after = r.after; whole = ap (◌∷◌ x) r.whole }
]

pub holds-append : (xs ys : List ℕ) (a : ℕ) → holds (xs ++ ys) a ≡ holds xs a || holds ys a
holds-append [] ys a = refl
holds-append (x ∷ xs) ys a = ground (arith, holds-append xs ys a)

erase : List ℕ → ℕ → List ℕ
erase [] a = []
erase (x ∷ xs) a = let rest = erase xs a in if x == a then xs else x ∷ rest

length-erase : (xs : List ℕ) (a : ℕ) → holds xs a ≡ true → length xs ≡ suc (length (erase xs a))
unfolding erase
length-erase [] a h = absurd (ground arith)
length-erase (x ∷ xs) a h = ground (arith, length-erase xs a)

holds-erase : (xs : List ℕ) (a b : ℕ) → a ≢ b → holds (erase xs a) b ≡ holds xs b
unfolding erase
holds-erase [] a b n = refl
holds-erase (x ∷ xs) a b n = ground (arith, holds-erase xs a b)

-- A list without repetition is no longer than one that has its members.
pub length_le :
    (xs ys : List ℕ)
    → NoDup xs
    → ((a : ℕ) → holds xs a ≡ true → holds ys a ≡ true)
    → length xs ≤ length ys
length_le [] ys n sub = omega arith
length_le (x ∷ xs) ys (out, n) sub =
    let rest = length_le xs (erase ys x) n (λ a h. elim (ℕ_discrete x a) [
      | yes e ↦ absurd (ground arith)
      | no d ↦ holds-erase ys x a d ∙ sub a (ground arith)
    ]) in
    omega (arith, length-erase ys x (sub x (ground arith)))

pub NoDup-apart :
    (xs ys : List ℕ) (a : ℕ) → NoDup (xs ++ ys) → holds xs a ≡ true → holds ys a ≡ false
NoDup-apart [] ys a n h = absurd (ground arith)
NoDup-apart (x ∷ xs) ys a (out, n) h = elim (ℕ_discrete x a) [
  | yes e ↦ ground (arith, holds-append xs ys x)
  | no d ↦ NoDup-apart xs ys a n (ground arith)
]

pub NoDup-right : (xs ys : List ℕ) → NoDup (xs ++ ys) → NoDup ys
NoDup-right [] ys n = n
NoDup-right (x ∷ xs) ys (out, n) = NoDup-right xs ys n

-- A member that is taken out, or replaced by another.
pub NoDup-drop : (xs : List ℕ) (b : ℕ) (ys : List ℕ) → NoDup (xs ++ b ∷ ys) → NoDup (xs ++ ys)
NoDup-drop [] b ys (out, n) = n
NoDup-drop (x ∷ xs) b ys (out, n) =
    (ground (arith, holds-append xs (b ∷ ys) x, holds-append xs ys x), NoDup-drop xs b ys n)

pub NoDup-put :
    (xs : List ℕ) (b c : ℕ) (ys : List ℕ)
    → NoDup (xs ++ b ∷ ys)
    → holds (xs ++ b ∷ ys) c ≡ false
    → NoDup (xs ++ c ∷ ys)
NoDup-put [] b c ys (out, n) new = (ground arith, n)
NoDup-put (x ∷ xs) b c ys (out, n) new = (
  ground (arith, holds-append xs (b ∷ ys) x, holds-append xs (c ∷ ys) x),
  NoDup-put xs b c ys n (ground arith),
)

pub head-holds : (ys : List ℕ) → head_or_null ys ≢ 0 → holds ys (head_or_null ys) ≡ true
head-holds [] n = absurd (n refl)
head-holds (y ∷ ys) n = ground arith

-- A list with a member more.
pub holds-middle :
    (xs : List ℕ) (b : ℕ) (ys : List ℕ) (a : ℕ)
    → holds (xs ++ b ∷ ys) a ≡ (b == a || holds (xs ++ ys) a)
holds-middle [] b ys a = refl
holds-middle (x ∷ xs) b ys a = ground (arith, holds-middle xs b ys a)

pub holds-drop :
    (xs : List ℕ) (b : ℕ) (ys : List ℕ) → NoDup (xs ++ b ∷ ys) → holds (xs ++ ys) b ≡ false
holds-drop [] b ys (out, n) = out
holds-drop (x ∷ xs) b ys (out, n) = ground (arith, holds-middle xs b ys x, holds-drop xs b ys n)

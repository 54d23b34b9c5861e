-- ===== src/Frames/Alloc.antt =====
-- pmm_alloc takes the first frame that nobody refers to; pmm_free undoes it.
use kum_os.Base.{
  ℕ, zero, suc, ◌+◌, ◌-◌, ◌*◌, ◌≤◌, ◌<◌, ◌≡◌, ◌≢◌, ◌⊎◌, inl, inr, refl, sym, ap, ◌∙◌, true, false,
  none, some, List, [], ◌∷◌, arith, ltb, leb, lt→ltb, ==→eq, ◌==◌, Bool-cases, Option-cases, length,
  get_or, set, get_or-set_self, get_or-set_ne, set-get_or,
}
use native.Mathlib.Decide.{dec_lt}
use kum_os.Frames.{
  Frames, page_size, pmm_max_frames, frame_idx, first_free, pmm_alloc, pmm_free, pmm_refcount,
}

-- The table has an entry for every frame, and its window lies inside.
pub record IsValid (f : Frames) : Type 0 where
  pub size : length f.refs ≡ pmm_max_frames
  pub window : f.base + f.total ≤ pmm_max_frames

first_free-some :
    (n : ℕ) (refs : List ℕ) (i j : ℕ)
    → first_free n refs i ≡ some j
    → (i ≤ j)
      × (j < i + n)
      × (j < pmm_max_frames)
      × (get_or refs j 0 ≡ 0)
      × ((m : ℕ) → i ≤ m → m < j → get_or refs m 0 ≢ 0)
unfolding first_free
first_free-some zero refs i j h = absurd (ground (arith, h))
first_free-some (suc n) refs i j h = elim (Bool-cases (leb pmm_max_frames i)) [
  | inl o ↦ absurd (ground arith)
  | inr o ↦ elim (Bool-cases (get_or refs i 0 == 0)) [
    | inl e ↦
        let same : i ≡ j = ground arith in
        (
          omega arith,
          omega arith,
          ground arith,
          rw (← same) (==→eq (get_or refs i 0) 0 e),
          λ m a b. absurd (omega arith),
        )
    | inr e ↦
        let (a, b, c, d, first) = first_free-some n refs (i + 1) j (ground arith) in
        (
          omega arith,
          omega arith,
          c,
          d,
          λ m p q. elim (dec_lt i m) [
            | yes l ↦ first m (omega arith) q
            | no l ↦ let at_i : m ≡ i = omega arith in rw at_i (λ z. ground arith)
          ],
        )
  ]
]

first_free-none :
    (n : ℕ) (refs : List ℕ) (i : ℕ)
    → i + n ≤ pmm_max_frames
    → first_free n refs i ≡ none
    → (m : ℕ) → i ≤ m
    → m < i + n
    → get_or refs m 0 ≢ 0
unfolding first_free
first_free-none zero refs i b h m p q = absurd (omega arith)
first_free-none (suc n) refs i b h m p q = elim (Bool-cases (get_or refs i 0 == 0)) [
  | inl e ↦ absurd (ground arith)
  | inr e ↦ elim (dec_lt i m) [
    | yes l ↦
        first_free-none n refs (i + 1) (omega arith) (ground arith) m (omega arith) (omega arith)
    | no l ↦ let at_i : m ≡ i = omega arith in rw at_i (λ z. ground arith)
  ]
]

set-set : (xs : List ℕ) (i a b : ℕ) → set (set xs i a) i b ≡ set xs i b
set-set [] i a b = refl
set-set (x ∷ xs) zero a b = refl
set-set (x ∷ xs) (suc i) a b = ap (◌∷◌ x) (set-set xs i a b)

-- The frames once frame i is handed out.
abbrev pub taken : Frames → ℕ → Frames
taken f i = record f { refs = set f.refs i 1; used = f.used + 1 }

module _ (f : Frames) (valid : IsValid f) where
  alloc-none : first_free f.total f.refs f.base ≡ none → pmm_alloc f ≡ (0, f)
  unfolding pmm_alloc
  alloc-none e = ground arith

  alloc-some :
      (i : ℕ) → first_free f.total f.refs f.base ≡ some i → pmm_alloc f ≡ (i * page_size, taken f i)
  unfolding pmm_alloc
  alloc-some i e = ground arith

  module _ (i : ℕ) (l : i < pmm_max_frames) where
    at_i : get_or (set f.refs i 1) i 0 ≡ 1
    at_i = get_or-set_self f.refs i 1 0 (omega (arith, l, valid.size))

    idx_is : frame_idx (i * page_size) ≡ i
    idx_is = omega arith

    taken-refcount : pmm_refcount (taken f i) (i * page_size) ≡ 1
    unfolding pmm_refcount
    taken-refcount = rw (idx_is, lt→ltb i pmm_max_frames l) at_i

    taken-free : get_or f.refs i 0 ≡ 0 → pmm_free (taken f i) (i * page_size) ≡ f
    unfolding pmm_free
    taken-free z =
        let below : leb pmm_max_frames i ≡ false = ground arith in
        let more : ltb 0 (f.used + 1) ≡ true = lt→ltb 0 (f.used + 1) (omega arith) in
        let back : f.used + 1 - 1 ≡ f.used = omega arith in
        let zero_at : set f.refs i 0 ≡ f.refs = ap (set f.refs i) (sym z) ∙ set-get_or f.refs i 0 in
        rw (idx_is, below, at_i, set-set f.refs i 1 0, zero_at, more, back) refl

  -- In a valid table pmm_alloc returns 0 and changes nothing, if every frame of the window is
  -- referred to; or it returns the address of the first that is not. Then that frame has one
  -- reference and no other frame's count has changed, and pmm_free of the address restores the state.
  pub pmm_alloc_lem :
      ((pmm_alloc f ≡ (0, f))
        × ((m : ℕ) → f.base ≤ m → m < f.base + f.total → get_or f.refs m 0 ≢ 0))
      ⊎ ((i : ℕ) × (f.base ≤ i)
          × (i < f.base + f.total)
          × (get_or f.refs i 0 ≡ 0)
          × ((m : ℕ) → f.base ≤ m → m < i → get_or f.refs m 0 ≢ 0)
          × ((pmm_alloc f).0 ≡ i * page_size)
          × (pmm_refcount (pmm_alloc f).1 (i * page_size) ≡ 1)
          × ((m : ℕ) → m ≢ i → get_or (pmm_alloc f).1.refs m 0 ≡ get_or f.refs m 0)
          × (pmm_free (pmm_alloc f).1 (i * page_size) ≡ f))
  pmm_alloc_lem = elim (Option-cases (first_free f.total f.refs f.base)) [
    | inl e ↦ inl (alloc-none e, first_free-none f.total f.refs f.base valid.window e)
    | inr (i, e) ↦
        let (a, b, c, z, first) = first_free-some f.total f.refs f.base i e in
        let r = alloc-some i e in
        inr (
          i,
          a,
          b,
          z,
          first,
          rw r refl,
          rw r (taken-refcount i c),
          λ m n. rw r (get_or-set_ne f.refs i m 1 0 (λ q. n (sym q))),
          rw r (taken-free i c z),
        )
  ]

-- pmm_alloc as an equation.
pub alloc_cases :
    (f : Frames)
    → IsValid f
    → (pmm_alloc f ≡ (0, f))
      ⊎ ((i : ℕ) × (f.base ≤ i)
          × (i < pmm_max_frames)
          × (get_or f.refs i 0 ≡ 0)
          × (pmm_alloc f ≡ (i * page_size, taken f i)))
alloc_cases f valid = elim (Option-cases (first_free f.total f.refs f.base)) [
  | inl e ↦ inl (alloc-none f valid e)
  | inr (i, e) ↦
      let (a, b, c, z, first) = first_free-some f.total f.refs f.base i e in
      inr (i, a, c, z, alloc-some f valid i e)
]

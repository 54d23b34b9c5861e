-- ===== src/Kmalloc/Tiles.antt =====
-- The blocks of the heap lie one behind the other, without a gap.
use native.Mathlib.Decide.{ℕ_discrete}
use kum_os.Base.{
  ℕ, ◌+◌, ◌*◌, ◌≤◌, ◌<◌, ◌≡◌, ◌⊎◌, inl, inr, sym, ap, ◌∙◌, true, List, [], ◌∷◌, ◌++◌, arith, length,
}
use kum_os.Kmalloc.{Memory, header_size}
use kum_os.Kmalloc.Lists.{holds}

-- The address behind a block.
abbrev pub stop : Memory → ℕ → ℕ
stop m b = b + header_size + (m b).size

-- The blocks at the addresses of the list fill the memory from a to e.
abbrev pub Tiles : Memory → ℕ → List ℕ → ℕ → Type 0
Tiles m a [] e = a ≡ e
Tiles m a (b ∷ bs) e = (b ≡ a) × Tiles m (stop m b) bs e

pub Tiles-same :
    (m m' : Memory) (a : ℕ) (bs : List ℕ) (e : ℕ)
    → ((b : ℕ) → holds bs b ≡ true → (m' b).size ≡ (m b).size)
    → Tiles m a bs e
    → Tiles m' a bs e
Tiles-same m m' a [] e same t = t
Tiles-same m m' a (b ∷ bs) e same (at_a, t) =
    let size : (m' b).size ≡ (m b).size = same b (ground arith) in
    (at_a, rw size (Tiles-same m m' (stop m b) bs e (λ c h. same c (ground arith)) t))

pub Tiles-le :
    (m : Memory) (a : ℕ) (bs : List ℕ) (e : ℕ) → Tiles m a bs e → a + header_size * length bs ≤ e
Tiles-le m a [] e t = omega arith
Tiles-le m a (b ∷ bs) e (at_a, t) = let rest = Tiles-le m (stop m b) bs e t in omega arith

pub Tiles-bounds :
    (m : Memory) (a : ℕ) (bs : List ℕ) (e b : ℕ)
    → Tiles m a bs e
    → holds bs b ≡ true
    → (a ≤ b) × (stop m b ≤ e)
Tiles-bounds m a [] e b t h = absurd (ground arith)
Tiles-bounds m a (c ∷ bs) e b (at_a, t) h = elim (ℕ_discrete c b) [
  | yes s ↦
      let rest = Tiles-le m (stop m c) bs e t in
      let same : stop m c ≡ stop m b = ap (stop m) s in (omega arith, omega arith)
  | no n ↦ let (lo, hi) = Tiles-bounds m (stop m c) bs e b t (ground arith) in (omega arith, hi)
]

-- Behind a block is the end or another block.
pub Tiles-after :
    (m : Memory) (a : ℕ) (bs : List ℕ) (e b : ℕ)
    → Tiles m a bs e
    → holds bs b ≡ true
    → (stop m b ≡ e) ⊎ (holds bs (stop m b) ≡ true)
Tiles-after m a [] e b t h = absurd (ground arith)
Tiles-after m a (c ∷ []) e b (at_a, t) h =
    let s : c ≡ b = ground arith in inl (ap (stop m) (sym s) ∙ t)
Tiles-after m a (c ∷ d ∷ bs) e b (at_a, (at_d, t)) h = elim (ℕ_discrete c b) [
  | yes s ↦ let same : stop m b ≡ d = ap (stop m) (sym s) ∙ sym at_d in inr (ground arith)
  | no n ↦ elim (Tiles-after m (stop m c) (d ∷ bs) e b (at_d, t) (ground arith)) [
    | inl last ↦ inl last
    | inr more ↦ inr (ground arith)
  ]
]

pub Tiles-append :
    (m : Memory) (a : ℕ) (bs : List ℕ) (c : ℕ) (cs : List ℕ) (e : ℕ)
    → Tiles m a bs c
    → Tiles m c cs e
    → Tiles m a (bs ++ cs) e
Tiles-append m a [] c cs e t u = rw t u
Tiles-append m a (b ∷ bs) c cs e (at_a, t) u = (at_a, Tiles-append m (stop m b) bs c cs e t u)

pub Tiles-split :
    (m : Memory) (a : ℕ) (bs : List ℕ) (b : ℕ) (cs : List ℕ) (e : ℕ)
    → Tiles m a (bs ++ b ∷ cs) e
    → Tiles m a bs b × Tiles m (stop m b) cs e
Tiles-split m a [] b cs e (at_a, t) = (sym at_a, t)
Tiles-split m a (c ∷ bs) b cs e (at_a, t) =
    let (left, right) = Tiles-split m (stop m c) bs b cs e t in ((at_a, left), right)

-- Two blocks do not overlap.
pub Tiles-apart :
    (m : Memory) (a : ℕ) (bs : List ℕ) (e b c : ℕ)
    → Tiles m a bs e
    → holds bs b ≡ true
    → holds bs c ≡ true
    → b < c
    → stop m b ≤ c
Tiles-apart m a [] e b c t hb hc l = absurd (ground arith)
Tiles-apart m a (d ∷ bs) e b c (at_a, t) hb hc l = elim (ℕ_discrete d c) [
  | yes s ↦ let (lo, hi) = Tiles-bounds m (stop m d) bs e b t (ground arith) in absurd (omega arith)
  | no nc ↦
      let hc' : holds bs c ≡ true = ground arith in
      elim (ℕ_discrete d b) [
        | yes s ↦
            let (lo, hi) = Tiles-bounds m (stop m d) bs e c t hc' in
            let same : stop m d ≡ stop m b = ap (stop m) s in omega arith
        | no nb ↦ Tiles-apart m (stop m d) bs e b c t (ground arith) hc' l
      ]
]

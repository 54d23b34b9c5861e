-- ===== src/Fat12/Alloc.antt =====
-- fat_alloc: the first free cluster, marked as the end of a chain.
use native.Mathlib.Decide.{dec_lt}
use kum_os.Base.{
  ℕ, zero, suc, ◌+◌, ◌≤◌, ◌<◌, ◌≡◌, ◌≢◌, ◌⊎◌, inl, inr, refl, List, arith, ◌==◌, ==→eq, Bool-cases,
  length,
}
use kum_os.Fat12.{entry_byte, fat_get, fat_set, alloc_from, fat_alloc}
use kum_os.Fat12.Entries.{IsBytes, fat_set_lem}

-- What the loop over the clusters from i up to `end` returns.
abbrev pub Allocated : List ℕ → ℕ → ℕ → ℕ × List ℕ → Type 0
Allocated fat i end r =
    ((c : ℕ) × (i ≤ c)
      × (c < end)
      × (fat_get fat c ≡ 0)
      × (r ≡ (c, fat_set fat c 0xFFF))
      × ((m : ℕ) → i ≤ m → m < c → fat_get fat m ≢ 0))
    ⊎ ((r ≡ (0, fat)) × ((m : ℕ) → i ≤ m → m < end → fat_get fat m ≢ 0))

earlier :
    (fat : List ℕ) (i end : ℕ)
    → fat_get fat i ≢ 0
    → ((m : ℕ) → i + 1 ≤ m → m < end → fat_get fat m ≢ 0)
    → (m : ℕ) → i ≤ m
    → m < end
    → fat_get fat m ≢ 0
earlier fat i end n all m h l = elim (dec_lt i m) [
  | yes p ↦ all m (omega arith) l
  | no p ↦ let e : m ≡ i = omega arith in rw e n
]

alloc_from-Allocated :
    (rounds : ℕ) (fat : List ℕ) (i end : ℕ)
    → i + rounds ≡ end
    → Allocated fat i end (alloc_from rounds fat i)
unfolding alloc_from
alloc_from-Allocated zero fat i end e = inr (refl, λ m h l. absurd (omega arith))
alloc_from-Allocated (suc rounds) fat i end e = elim (Bool-cases (fat_get fat i == 0)) [
  | inl free ↦ inl (
    i,
    omega arith,
    omega arith,
    ==→eq _ _ free,
    rw (alloc_from, free) refl,
    λ m h l. absurd (omega arith),
  )
  | inr used ↦
      rw (alloc_from, used)
        (skip (λ z. ground arith) (alloc_from-Allocated rounds fat (i + 1) end (omega arith)))
]
  where
    skip :
        {r : ℕ × List ℕ} → fat_get fat i ≢ 0 → Allocated fat (i + 1) end r → Allocated fat i end r
    skip n (inl (c, h, l, z, e', all)) = inl (c, omega arith, l, z, e', earlier fat i c n all)
    skip n (inr (e', all)) = inr (e', earlier fat i end n all)

-- In a table of bytes that has room for every cluster, fat_alloc takes the first free cluster and
-- changes only its entry, to 0xFFF; it returns 0, and changes nothing, if no cluster is free.
pub fat_alloc_lem :
    (fat : List ℕ) (total : ℕ)
    → IsBytes fat
    → entry_byte (total + 1) + 1 < length fat
    → let (c, fat') = fat_alloc fat total in
      ((2 ≤ c)
        × (c < total + 2)
        × (fat_get fat c ≡ 0)
        × ((m : ℕ) → 2 ≤ m → m < c → fat_get fat m ≢ 0)
        × (fat_get fat' c ≡ 0xFFF)
        × ((m : ℕ) → m ≢ c → fat_get fat' m ≡ fat_get fat m))
      ⊎ ((c ≡ 0) × (fat' ≡ fat) × ((m : ℕ) → 2 ≤ m → m < total + 2 → fat_get fat m ≢ 0))
unfolding fat_alloc
fat_alloc_lem fat total b room = result (alloc_from-Allocated total fat 2 (total + 2) (omega arith))
  where
    result :
        {r : ℕ × List ℕ}
        → Allocated fat 2 (total + 2) r
        → ((2 ≤ r.0)
            × (r.0 < total + 2)
            × (fat_get fat r.0 ≡ 0)
            × ((m : ℕ) → 2 ≤ m → m < r.0 → fat_get fat m ≢ 0)
            × (fat_get r.1 r.0 ≡ 0xFFF)
            × ((m : ℕ) → m ≢ r.0 → fat_get r.1 m ≡ fat_get fat m))
          ⊎ ((r.0 ≡ 0) × (r.1 ≡ fat) × ((m : ℕ) → 2 ≤ m → m < total + 2 → fat_get fat m ≢ 0))
    result (inl (c, h, l, z, e, all)) =
        let w = fat_set_lem fat c 0xFFF b (omega arith) (omega arith) in
        rw e (inl (h, l, z, all, w.0, w.1))
    result (inr (e, all)) = rw e (inr (refl, refl, all))

-- What fat_alloc leaves is a table of bytes again, of the same length.
pub fat_alloc-kept :
    (fat : List ℕ) (total : ℕ)
    → IsBytes fat
    → entry_byte (total + 1) + 1 < length fat
    → IsBytes (fat_alloc fat total).1 × (length (fat_alloc fat total).1 ≡ length fat)
unfolding fat_alloc
fat_alloc-kept fat total b room = kept (alloc_from-Allocated total fat 2 (total + 2) (omega arith))
  where
    kept :
        {r : ℕ × List ℕ} → Allocated fat 2 (total + 2) r → IsBytes r.1 × (length r.1 ≡ length fat)
    kept (inl (c, h, l, z, e, all)) =
        let w = fat_set_lem fat c 0xFFF b (omega arith) (omega arith) in rw e (w.2, w.3)
    kept (inr (e, all)) = rw e (b, refl)

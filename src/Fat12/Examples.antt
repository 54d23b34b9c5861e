-- ===== src/Fat12/Examples.antt =====
-- The properties of the file allocation table at concrete inputs.
use kum_os.Base.{
  ℕ, ◌+◌, ◌≤◌, ◌<◌, ◌≡◌, ◌≢◌, ◌⊎◌, List, arith, replicate, length-replicate, get_or-replicate,
}
use kum_os.Fat12.{entry_byte, fat_get, fat_set, fat_alloc, free_chain}
use kum_os.Fat12.Entries.{IsBytes, fat_set_lem}
use kum_os.Fat12.Alloc.{fat_alloc_lem}
use kum_os.Fat12.Chain.{IsLinked, Freed, free_chain_ends}

-- A table with nothing in it.
abbrev empty : List ℕ
empty = replicate 4608 0

pub empty-IsBytes : IsBytes empty
empty-IsBytes i = omega (arith, get_or-replicate {A = ℕ} 4608 i 0)

empty-get : (n : ℕ) → fat_get empty n ≡ 0
unfolding fat_get
empty-get n = ground (
  arith,
  get_or-replicate {A = ℕ} 4608 (entry_byte n) 0,
  get_or-replicate {A = ℕ} 4608 (entry_byte n + 1) 0,
)

empty-IsLinked : IsLinked empty
empty-IsLinked = record {
  size = length-replicate {A = ℕ} 4608 0;
  bytes = empty-IsBytes;
  links = λ n h. omega (arith, empty-get n);
}

fat_set_lem_example : fat_get (fat_set empty 7 0xFFF) 7 ≡ 0xFFF
fat_set_lem_example =
    (fat_set_lem empty 7 0xFFF empty-IsBytes (omega arith)
      (omega (arith, length-replicate {A = ℕ} 4608 0))).0

fat_alloc_lem_example :
    let (c, fat') = fat_alloc empty 3 in
    ((2 ≤ c)
      × (c < 5)
      × (fat_get empty c ≡ 0)
      × ((m : ℕ) → 2 ≤ m → m < c → fat_get empty m ≢ 0)
      × (fat_get fat' c ≡ 0xFFF)
      × ((m : ℕ) → m ≢ c → fat_get fat' m ≡ fat_get empty m))
    ⊎ ((c ≡ 0) × (fat' ≡ empty) × ((m : ℕ) → 2 ≤ m → m < 5 → fat_get empty m ≢ 0))
fat_alloc_lem_example = fat_alloc_lem empty 3 empty-IsBytes (omega arith)

free_chain_ends_example : Freed empty 2 (free_chain 3074 empty 2)
free_chain_ends_example = free_chain_ends empty 2 empty-IsLinked (λ h. omega arith)

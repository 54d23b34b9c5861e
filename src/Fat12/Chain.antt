-- ===== src/Fat12/Chain.antt =====
-- Freeing a chain: the loop ends on every table, a cyclic chain included, since it clears each
-- entry before it follows the link it read.
use native.Mathlib.Decide.{ℕ_discrete}
use kum_os.Base.{
  ℕ, zero, suc, ◌+◌, ◌≤◌, ◌<◌, ◌≡◌, ◌≢◌, ◌⊎◌, inl, inr, refl, sym, ap, ◌∙◌, true, false, List,
  arith, if◌then◌else◌, ◌==◌, Bool-cases, length,
}
use kum_os.Fat12.{fat_get, fat_set, is_data_cluster, free_chain}
use kum_os.Fat12.Entries.{IsBytes, fat_set_lem}

-- `g_fat` has 9 * 512 bytes: room for 3072 entries.
abbrev pub fat_bytes : ℕ
fat_bytes = 4608

abbrev pub entries : ℕ
entries = 3072

-- A table whose links stay inside it. (fat_get does not check this.)
pub record IsLinked (fat : List ℕ) : Type 0 where
  pub size : length fat ≡ fat_bytes
  pub bytes : IsBytes fat
  pub links : (n : ℕ) → is_data_cluster (fat_get fat n) ≡ true → fat_get fat n < entries

-- How many of the first k entries are in use.
pub used : ℕ → List ℕ → ℕ
used zero fat = 0
used (suc k) fat = (if fat_get fat k == 0 then 0 else 1) + used k fat

used-le : (k : ℕ) (fat : List ℕ) → used k fat ≤ k
unfolding used
used-le zero fat = omega arith
used-le (suc k) fat = ground (arith, used-le k fat)

module _ (fat : List ℕ) (c : ℕ) (l : IsLinked fat) (h : c < entries) where
  cleared :
      (fat_get (fat_set fat c 0) c ≡ 0)
      × ((m : ℕ) → m ≢ c → fat_get (fat_set fat c 0) m ≡ fat_get fat m)
      × IsBytes (fat_set fat c 0)
      × (length (fat_set fat c 0) ≡ length fat)
  cleared = fat_set_lem fat c 0 l.bytes (omega arith) (omega (arith, l.size))

  clear-IsLinked : IsLinked (fat_set fat c 0)
  clear-IsLinked = record {
    size = cleared.3 ∙ l.size;
    bytes = cleared.2;
    links = λ n d. elim (ℕ_discrete n c) [
      | yes e ↦ rw (e, cleared.0) (omega arith)
      | no ne ↦ rw (cleared.1 n ne) (l.links n (ap is_data_cluster (sym (cleared.1 n ne)) ∙ d))
    ];
  }

  used-below : (k : ℕ) → k ≤ c → used k (fat_set fat c 0) ≡ used k fat
  unfolding used
  used-below zero p = refl
  used-below (suc k) p = rw (cleared.1 k (omega arith), used-below k (omega arith)) refl

  used-clear :
      (k : ℕ)
      → c < k
      → used k (fat_set fat c 0) + (if fat_get fat c == 0 then 0 else 1) ≡ used k fat
  unfolding used
  used-clear zero p = absurd (omega arith)
  used-clear (suc k) p = elim (ℕ_discrete k c) [
    | yes e ↦ rw (e, cleared.0, used-below c (omega arith)) (omega arith)
    | no ne ↦ rw (cleared.1 k ne) (omega (arith, used-clear k (omega arith)))
  ]

-- What is true of the table when the loop has ended.
pub record Freed (fat : List ℕ) (c : ℕ) (r : ℕ × List ℕ) : Type 0 where
  pub ended : is_data_cluster r.0 ≡ false
  pub linked : IsLinked r.1
  pub start_cleared : is_data_cluster c ≡ true → fat_get r.1 c ≡ 0
  pub only_cleared : (n : ℕ) → (fat_get r.1 n ≡ fat_get fat n) ⊎ (fat_get r.1 n ≡ 0)

free-stop :
    (fuel : ℕ) (fat : List ℕ) (c : ℕ)
    → is_data_cluster c ≡ false
    → free_chain (suc fuel) fat c ≡ (c, fat)
unfolding free_chain
free-stop fuel fat c h = rw (free_chain, h) refl

free-step :
    (fuel : ℕ) (fat : List ℕ) (c : ℕ)
    → is_data_cluster c ≡ true
    → free_chain (suc fuel) fat c ≡ free_chain fuel (fat_set fat c 0) (fat_get fat c)
unfolding free_chain
free-step fuel fat c h = rw (free_chain, h) refl

Freed-step :
    (fat : List ℕ) (c : ℕ) (r : ℕ × List ℕ)
    → IsLinked fat
    → c < entries
    → Freed (fat_set fat c 0) (fat_get fat c) r
    → Freed fat c r
Freed-step fat c r l h f = record {
  ended = f.ended;
  linked = f.linked;
  start_cleared = λ d. zero_stays (f.only_cleared c);
  only_cleared = λ n. after n (ℕ_discrete n c) (f.only_cleared n);
}
  where
    zero_stays :
        (fat_get r.1 c ≡ fat_get (fat_set fat c 0) c) ⊎ (fat_get r.1 c ≡ 0) → fat_get r.1 c ≡ 0
    zero_stays (inl s) = s ∙ (cleared fat c l h).0
    zero_stays (inr z) = z

    after :
        (n : ℕ)
        → Dec (n ≡ c)
        → (fat_get r.1 n ≡ fat_get (fat_set fat c 0) n) ⊎ (fat_get r.1 n ≡ 0)
        → (fat_get r.1 n ≡ fat_get fat n) ⊎ (fat_get r.1 n ≡ 0)
    after n d (inr z) = inr z
    after n (yes e) (inl s) = inr (s ∙ ap (fat_get (fat_set fat c 0)) e ∙ (cleared fat c l h).0)
    after n (no ne) (inl s) = inl (s ∙ (cleared fat c l h).1 n ne)

Freed-nothing :
    (fuel : ℕ) (fat : List ℕ) (c : ℕ)
    → IsLinked fat
    → is_data_cluster c ≡ false
    → Freed fat c (free_chain (suc fuel) fat c)
Freed-nothing fuel fat c l h = rw (free-stop fuel fat c h) (record {
  ended = h;
  linked = l;
  start_cleared = λ d. absurd (cc (sym h ∙ d));
  only_cleared = λ n. inl refl;
})

used-pos :
    (fat : List ℕ) (c : ℕ) → c < entries → fat_get fat c ≢ 0 → IsLinked fat → 0 < used entries fat
used-pos fat c h n l = ground (arith, used-clear fat c l h entries h)

-- A free entry ends the chain one round later; an entry in use leaves one entry less in use.
free_chain-Freed :
    (fuel : ℕ) (fat : List ℕ) (c : ℕ)
    → IsLinked fat
    → (is_data_cluster c ≡ true → c < entries)
    → used entries fat < fuel
    → Freed fat c (free_chain (suc fuel) fat c)
free_chain-Freed zero fat c l h f = absurd (omega arith)
free_chain-Freed (suc fuel) fat c l h f = elim (Bool-cases (is_data_cluster c)) [
  | inr stop ↦ Freed-nothing (suc fuel) fat c l stop
  | inl on ↦ rw (free-step (suc fuel) fat c on) (
      Freed-step fat c _ l (h on) (elim (ℕ_discrete (fat_get fat c) 0) [
        | yes z ↦
            Freed-nothing fuel (fat_set fat c 0) (fat_get fat c) (clear-IsLinked fat c l (h on))
              (rw z refl)
        | no n ↦
            free_chain-Freed fuel (fat_set fat c 0) (fat_get fat c) (clear-IsLinked fat c l (h on))
              (l.links c) (ground (arith, used-clear fat c l (h on) entries (h on)))
      ]))
]

-- In a table whose links stay inside it, freeing a chain from a cluster that lies inside ends by the
-- test of its loop within 3074 rounds, whatever the links, cycles included. The entry of the first
-- cluster is cleared, entries are only cleared, and the links that are left stay inside the table.
pub free_chain_ends :
    (fat : List ℕ) (c : ℕ)
    → IsLinked fat
    → (is_data_cluster c ≡ true → c < entries)
    → Freed fat c (free_chain 3074 fat c)
free_chain_ends fat c l h = free_chain-Freed 3073 fat c l h (omega (arith, used-le entries fat))

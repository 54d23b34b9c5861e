-- ===== src/Fat12/Volume/Files/Rounds.antt =====
-- The loop of fat12_write and that of fat12_read round by round, and what a chain of clusters holds.
use kum_os.Base.{
  ℕ, zero, suc, ◌<◌, ◌≡◌, ◌≢◌, ◌⊎◌, inl, inr, refl, ap, Bool, true, false, some, List, [], ◌∷◌,
  ◌++◌, arith, if◌then◌else◌, ◌==◌, ltb, Bool-cases, length,
}
use kum_os.Fat12.{fat_get, fat_alloc, is_data_cluster}
use kum_os.Fat12.Entries.{IsBytes}
use kum_os.Fat12.Volume.{Device, Volume, cluster_to_lba}
use kum_os.Fat12.Volume.Files.{read_sectors, read_chain, write_sectors, write_chain}
use kum_os.Fat12.Volume.Files.Sectors.{IsDisk, Agree}
use kum_os.Fat12.Volume.Files.Links.{InRange, linked}

-- Everything of a volume but its table stays.
pub record SamePlace (v v' : Volume) : Type 0 where
  pub bpb_same : v'.bpb ≡ v.bpb
  pub start_same : v'.data_start ≡ v.data_start
  pub total_same : v'.total_clusters ≡ v.total_clusters

module _ {D : Type 0} (dev : Device D) (on : IsDisk dev) where
  -- What the loop leaves that goes on from cluster prev, 0 if there is none.
  pub record Chain (prev first : ℕ) (src : List ℕ) (v : Volume) (d : D) (last first' : ℕ)
      (v' : Volume) (d' : D) : Type 0 where
    pub place : SamePlace v v'
    pub bytes : IsBytes v'.fat
    pub len : length v'.fat ≡ length v.fat
    pub table : (m : ℕ) → m ≢ prev → fat_get v.fat m ≢ 0 → fat_get v'.fat m ≡ fat_get v.fat m
    pub disk :
        (m : ℕ)
        → InRange v m
        → fat_get v.fat m ≢ 0
        → Agree dev on v.bpb.sectors_per_cluster (cluster_to_lba v m) d' d
    pub start : first ≢ 0 → first' ≡ first
    pub data_ :
        ((src ≡ []) × (last ≡ prev) × (v' ≡ v))
        ⊎ ((c : ℕ) × InRange v c
            × (prev ≢ 0 → fat_get v'.fat prev ≡ c)
            × (first ≡ 0 → first' ≡ c)
            × (InRange v last × (fat_get v'.fat last ≡ 0xFFF))
            × ((fuel : ℕ)
                → length src < fuel
                → read_chain dev fuel c (length src) v' d' ≡ some src))

  pub chain-end :
      (fuel prev first : ℕ) (v : Volume) (d : D)
      → write_chain dev (suc fuel) prev first [] v d ≡ some (true, prev, first, v, d)
  unfolding write_chain
  chain-end fuel prev first v d = refl

  module _ (v : Volume) (d : D) (prev first x : ℕ) (xs : List ℕ) where
    abbrev pub taken : ℕ
    taken = (fat_alloc v.fat v.total_clusters).0

    abbrev pub after : Volume
    after = record v {
      fat = linked (fat_alloc v.fat v.total_clusters).1 prev taken;
      fat_dirty = true;
    }

    abbrev pub first_of : ℕ
    first_of = if first == 0 then taken else first

    abbrev pub wrote : Bool × List ℕ × D
    wrote = write_sectors dev v.bpb.sectors_per_cluster (cluster_to_lba v taken) (x ∷ xs) d

    -- A step whose result is success took a cluster, wrote it, and went on.
    pub chain-step :
        (fuel last first' : ℕ) (v' : Volume) (d' : D)
        → write_chain dev (suc fuel) prev first (x ∷ xs) v d ≡ some (true, last, first', v', d')
        → (taken ≢ 0)
          × (wrote.0 ≡ true)
          × (write_chain dev fuel taken first_of wrote.1 after wrote.2
              ≡ some (true, last, first', v', d'))
    unfolding write_chain
    chain-step fuel last first' v' d' e = elim (Bool-cases (taken == 0)) [
      | inl full ↦ absurd (ground arith)
      | inr more ↦ elim (Bool-cases wrote.0) [
        | inr fails ↦ absurd (ground arith)
        | inl ok ↦ (ground arith, ok, ground arith)
      ]
    ]

  pub read-end :
      (fuel c n : ℕ) (v : Volume) (d : D) → 0 < fuel → n ≡ 0 → read_chain dev fuel c n v d ≡ some []
  unfolding read_chain
  read-end zero c n v d l z = absurd (omega arith)
  read-end (suc fuel) c n v d l z =
      let none_ : ltb 0 n ≡ false = ground arith in
      elim (Bool-cases (is_data_cluster c)) [ inl e ↦ rw (e, none_) refl | inr e ↦ rw e refl ]

  pub read-step :
      (fuel c n left : ℕ) (front out : List ℕ) (v : Volume) (d : D)
      → is_data_cluster c ≡ true
      → 0 < n
      → read_sectors dev v.bpb.sectors_per_cluster (cluster_to_lba v c) n d ≡ (true, front, left)
      → read_chain dev fuel (fat_get v.fat c) left v d ≡ some out
      → read_chain dev (suc fuel) c n v d ≡ some (front ++ out)
  unfolding read_chain
  read-step fuel c n left front out v d is_c pos_n here rest =
      let more : ltb 0 n ≡ true = ground arith in
      rw (read_chain, is_c, more, here, rest) (ap (λ f. some (f ++ out)) (ap (λ x. x.1) here))

  pub Chain-nothing :
      (prev first : ℕ) (v : Volume) (d : D) → IsBytes v.fat → Chain prev first [] v d prev first v d
  Chain-nothing prev first v d bytes = record {
    place = record { bpb_same = refl; start_same = refl; total_same = refl };
    bytes = bytes;
    len = refl;
    table = λ m n u. refl;
    disk = λ m r u s l. refl;
    start = λ n. refl;
    data_ = inl (refl, refl, refl);
  }

  abbrev pub Before : Volume → ℕ → Type 0
  Before v prev = (prev ≡ 0) ⊎ (InRange v prev × (fat_get v.fat prev ≢ 0))

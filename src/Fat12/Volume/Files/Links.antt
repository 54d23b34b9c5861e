-- ===== src/Fat12/Volume/Files/Links.antt =====
-- One step of fat12_write on the table: the cluster that it takes, linked to the one before; and
-- where the clusters of a sound volume lie.
use native.Mathlib.Decide.{dec_lt}
use kum_os.Base.{
  ℕ, zero, suc, ◌+◌, ◌-◌, ◌*◌, ◌≤◌, ◌<◌, ◌≡◌, ◌≢◌, ◌⊎◌, inl, inr, refl, sym, ap, ◌∙◌, true, false,
  List, arith, if◌then◌else◌, ◌==◌, length, u32,
}
use kum_os.Fat12.{entry_byte, fat_get, fat_set, fat_alloc, is_data_cluster}
use kum_os.Fat12.Entries.{IsBytes, fat_set_lem}
use kum_os.Fat12.Alloc.{fat_alloc_lem, fat_alloc-kept}
use kum_os.Fat12.Volume.{Volume, cluster_to_lba}

-- A table of bytes with room for every cluster, clusters below 0xFF0, and sectors below 2^32.
pub record IsSound (v : Volume) : Type 0 where
  pub bytes : IsBytes v.fat
  pub room : entry_byte (v.total_clusters + 1) + 1 < length v.fat
  pub links : v.total_clusters + 2 ≤ 0xFF0
  pub sectors : 0 < v.bpb.sectors_per_cluster
  pub reach : v.data_start + v.total_clusters * v.bpb.sectors_per_cluster < u32

abbrev pub InRange : Volume → ℕ → Type 0
InRange v c = (2 ≤ c) × (c < v.total_clusters + 2)

times-lt : (a b k : ℕ) → a < b → a * k + k ≤ b * k
times-lt a zero k h = absurd (omega arith)
times-lt a (suc b) k h = elim (dec_lt a b) [
  | yes l ↦ let rec = times-lt a b k l in let e : suc b * k ≡ b * k + k = grind arith in omega arith
  | no l ↦
      let same : a ≡ b = omega arith in
      let e : suc b * k ≡ b * k + k = grind arith in rw same (omega arith)
]

module _ (v : Volume) (sound : IsSound v) (c : ℕ) (in_c : InRange v c) where
  pub lba-eq :
      (cluster_to_lba v c ≡ v.data_start + (c - 2) * v.bpb.sectors_per_cluster)
      × (cluster_to_lba v c + v.bpb.sectors_per_cluster < u32)
  unfolding cluster_to_lba
  lba-eq =
      let fits = times-lt (c - 2) v.total_clusters v.bpb.sectors_per_cluster (omega arith) in
      let r = sound.reach in (omega arith, omega arith)

  pub is_data : is_data_cluster c ≡ true
  is_data = let l = sound.links in ground arith

-- Different clusters share no sector.
pub lba-apart :
    (v : Volume) (c m : ℕ)
    → IsSound v
    → InRange v c
    → InRange v m
    → m ≢ c
    → (s : ℕ) → s < v.bpb.sectors_per_cluster
    → (cluster_to_lba v m + s < cluster_to_lba v c)
      ⊎ (cluster_to_lba v c + v.bpb.sectors_per_cluster ≤ cluster_to_lba v m + s)
lba-apart v c m sound in_c in_m n s l =
    let spc = v.bpb.sectors_per_cluster in
    let (ec, _) = lba-eq v sound c in_c in
    let (em, _) = lba-eq v sound m in_m in
    elim (dec_lt m c) [
      | yes below ↦ let t = times-lt (m - 2) (c - 2) spc (omega arith) in inl (omega arith)
      | no above ↦ let t = times-lt (c - 2) (m - 2) spc (omega arith) in inr (omega arith)
    ]

abbrev pub linked : List ℕ → ℕ → ℕ → List ℕ
linked fat prev c = if prev == 0 then fat else fat_set fat prev c

-- The table after a step that took cluster c and linked prev, 0 if there is none, to it.
pub record IsLinkedTo (fat : List ℕ) (prev c : ℕ) (fat' : List ℕ) : Type 0 where
  pub bytes : IsBytes fat'
  pub len : length fat' ≡ length fat
  pub at_end : fat_get fat' c ≡ 0xFFF
  pub at_prev : prev ≢ 0 → fat_get fat' prev ≡ c
  pub elsewhere : (m : ℕ) → m ≢ prev → m ≢ c → fat_get fat' m ≡ fat_get fat m

pub linked-IsLinkedTo :
    (v : Volume) (prev : ℕ)
    → IsSound v
    → (prev ≡ 0) ⊎ (InRange v prev × (fat_get v.fat prev ≢ 0))
    → (fat_alloc v.fat v.total_clusters).0 ≢ 0
    → let (c, fat) = fat_alloc v.fat v.total_clusters in
      InRange v c × (fat_get v.fat c ≡ 0) × IsLinkedTo v.fat prev c (linked fat prev c)
linked-IsLinkedTo v prev sound before some_c =
    let (c, fat) = fat_alloc v.fat v.total_clusters in
    let (bytes, len) = fat_alloc-kept v.fat v.total_clusters sound.bytes sound.room in
    elim (fat_alloc_lem v.fat v.total_clusters sound.bytes sound.room) [
      | inr (z, _, _) ↦ absurd (some_c z)
      | inl (low, high, free, _, ended, others) ↦ elim before [
        | inl none_ ↦
            let e : (prev == 0) ≡ true = rw none_ refl in
            (
              (low, high),
              free,
              rw e (record {
                bytes = bytes;
                len = len;
                at_end = ended;
                at_prev = λ n. absurd (n none_);
                elsewhere = λ m n o. others m o;
              }),
            )
        | inr ((plow, phigh), used) ↦
            let e : (prev == 0) ≡ false = ground arith in
            let l = sound.links in
            let apart : prev ≢ c = λ q. used (ap (fat_get v.fat) q ∙ free) in
            let room : entry_byte prev + 1 < length fat = omega (arith, sound.room) in
            let (here, rest, bytes', len') = fat_set_lem fat prev c bytes (omega arith) room in
            (
              (low, high),
              free,
              rw e (record {
                bytes = bytes';
                len = len' ∙ len;
                at_end = rest c (λ q. apart (sym q)) ∙ ended;
                at_prev = λ _. here;
                elsewhere = λ m n o. rest m n ∙ others m o;
              }),
            )
      ]
    ]

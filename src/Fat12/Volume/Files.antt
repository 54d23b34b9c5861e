-- ===== src/Fat12/Volume/Files.antt =====
-- src/fat12.c: reading, writing and deleting files, and the format of a disk.
pub mod Sectors
pub mod Links
pub mod Rounds
pub mod Steps
pub mod RoundTrip
use kum_os.Base.{
  ℕ, zero, suc, ◌+◌, ◌-◌, ◌*◌, ◌/◌, ◌%◌, Bool, true, false, not, ◌&&◌, ◌||◌, Option, none, some,
  List, [], ◌∷◌, ◌++◌, map, if◌then◌else◌, ltb, leb, ◌==◌, length, get_or, set, drop, take,
  replicate, min, ℤ, pos, negsuc, failed, add32, eqb_ℤ,
}
use kum_os.Fat12.{fat_get, fat_set, fat_alloc, is_data_cluster, free_chain, name_to_83, upper}
use kum_os.Fat12.Volume.{
  Device, Volume, sector_size, splice, cluster_to_lba, fat_flush, fat12_mount,
}
use kum_os.Fat12.Volume.Directory.{DirFind, fat12_find, add_dirent, new_dirent, dirent_free}

-- A sector of the file, filled up with 0.
pub padded : List ℕ → List ℕ
padded src = take sector_size src ++ replicate (sector_size - length src) 0

module _ {D : Type 0} (dev : Device D) where
  -- The inner loop of fat12_read: `rounds` sectors from lba on, while bytes remain. Whether every
  -- read succeeded, the bytes read, and how many remain.
  pub read_sectors : ℕ → ℕ → ℕ → D → Bool × List ℕ × ℕ
  read_sectors zero lba remaining d = (true, [], remaining)
  read_sectors (suc rounds) lba remaining d =
      if remaining == 0 then (true, [], 0) else elim (dev.ata_read lba d) [
        | none ↦ (false, [], remaining)
        | some buf ↦
            let count = min remaining sector_size in
            let (ok, rest, left) = read_sectors rounds (add32 lba 1) (remaining - count) d in
            (ok, take count buf ++ rest, left)
      ]

  -- The outer loop; `fuel` bounds the clusters. `none` means that it ran out.
  pub read_chain : ℕ → ℕ → ℕ → Volume → D → Option (List ℕ)
  read_chain zero cluster remaining v d = none
  read_chain (suc fuel) cluster remaining v d =
      let (ok, here, left) =
        read_sectors v.bpb.sectors_per_cluster (cluster_to_lba v cluster) remaining d in
      let rest = read_chain fuel (fat_get v.fat cluster) left v d in
      let more = elim rest as (λ _. Option (List ℕ)) [
        | none ↦ none
        | some out ↦ some (here ++ out)
      ] in
      if is_data_cluster cluster && ltb 0 remaining then if ok then more else some here else some []

  -- The bytes read, `none` for -1; each cluster takes a byte or more of those that remain.
  pub fat12_read : Volume → D → List ℕ → ℕ → Option (List ℕ)
  fat12_read v d name bufsz = elim (fat12_find dev v d name) [
    | none ↦ none
    | some f ↦
        let remaining = min f.de.file_size bufsz in
        let out = read_chain (suc remaining) f.de.start_cluster remaining v d in
        if v.mounted then out else none
  ]

  -- fat12_delete frees the chain, writes the table back and marks the entry.
  pub fat12_delete : Volume → D → List ℕ → ℤ × Volume × D
  fat12_delete v d name = elim (fat12_find dev v d name) [
    | none ↦ (failed, v, d)
    | some f ↦
        let start = f.de.start_cluster in
        let fat = (free_chain 3074 v.fat start).1 in
        let freed = record v { fat = fat; fat_dirty = v.fat_dirty || is_data_cluster start } in
        let (_, v', d') = fat_flush dev freed d in
        let marked = elim (dev.ata_read f.sector d') as (λ _. ℤ × Volume × D) [
          | none ↦ (failed, v', d')
          | some buf ↦
              let (ok, d'') = dev.ata_write f.sector (set buf (f.index * 32) dirent_free) d' in
              (if ok then pos 0 else failed, v', d'')
        ] in
        if v.mounted then marked else (failed, v, d)
  ]

  -- The inner loop of fat12_write: the bytes left, and whether every write succeeded.
  pub write_sectors : ℕ → ℕ → List ℕ → D → Bool × List ℕ × D
  write_sectors zero lba src d = (true, src, d)
  write_sectors (suc rounds) lba src d =
      let (ok, d') = dev.ata_write lba (padded src) d in
      let rest = write_sectors rounds (add32 lba 1) (drop sector_size src) d' in
      if length src == 0 then (true, src, d) else if ok then rest else (false, src, d')

  -- The outer loop, with the cluster before and the first one, 0 if there is none. `none` means
  -- that fuel ran out; the Boolean, that the loop ended with all the bytes written.
  pub write_chain : ℕ → ℕ → ℕ → List ℕ → Volume → D → Option (Bool × ℕ × ℕ × Volume × D)
  write_chain zero prev first src v d = none
  write_chain (suc fuel) prev first src v d =
      let (c, fat) = fat_alloc v.fat v.total_clusters in
      let linked = if prev == 0 then fat else fat_set fat prev c in
      let v' = record v { fat = linked; fat_dirty = true } in
      let first' = if first == 0 then c else first in
      let (ok, left, d') = write_sectors v.bpb.sectors_per_cluster (cluster_to_lba v c) src d in
      let rest = write_chain fuel c first' left v' d' in
      if length src == 0
      then some (true, prev, first, v, d)
      else if c == 0
      then some (false, prev, first, v, d)
      else if ok
      then rest
      else some (false, c, first', v', d')

  -- The clusters of a file: none for an empty one, else the chain, ended by 0xFFF.
  pub write_data : Volume → D → List ℕ → Option (Bool × ℕ × Volume × D)
  write_data v d src = elim (write_chain (suc (length src)) 0 0 src v d) [
    | none ↦ none
    | some (ok, prev, first, v', d') ↦
        let ended = record v' { fat = fat_set v'.fat prev 0xFFF; fat_dirty = true } in
        if length src == 0
        then some (true, 0, v, d)
        else if ok
        then some (true, first, ended, d')
        else some (false, first, v', d')
  ]

  -- `none` if the loop does not end, which takes a volume of 0 sectors to a cluster.
  pub fat12_write : Volume → D → List ℕ → List ℕ → Option (ℤ × Volume × D)
  fat12_write v d name src =
      let (_, v1, d1) = fat12_delete v d name in
      let written = elim (write_data v1 d1 src) as (λ _. Option (ℤ × Volume × D)) [
        | none ↦ none
        | some (ok, first, v2, d2) ↦
            let (flushed, v3, d3) = fat_flush dev v2 d2 in
            let de = new_dirent (name_to_83 name) first (length src) in
            let (r, d4) = add_dirent dev v3.root_sectors de 0 v3 d3 in
            if ok
            then if eqb_ℤ flushed 0 then some (r, v3, d4) else some (failed, v3, d3)
            else some (failed, v2, d2)
      ] in
      if v.mounted then written else some (failed, v, d)

  -- fat12_format writes `rounds` sectors from lba on, the first one `first`, the others of 0.
  pub write_blank : ℕ → ℕ → List ℕ → D → Bool × D
  write_blank zero lba first d = (true, d)
  write_blank (suc rounds) lba first d =
      let (ok, d') = dev.ata_write lba first d in
      let rest = write_blank rounds (lba + 1) (replicate sector_size 0) d' in
      if ok then rest else (false, d')

-- The boot sector of fat12_format: 2880 sectors, two tables of nine, 224 entries.
pub boot_sector : Option (List ℕ) → List ℕ
unfolding upper
boot_sector label =
    let volume_label = elim label as (λ _. List ℕ) [ none ↦ [] | some l ↦ map upper (take 11 l) ] in
    (0xEB ∷ 0x3C ∷ 0x90 ∷ [])
    ++ (b'K' ∷ b'U' ∷ b'M' ∷ b'O' ∷ b'S' ∷ b'1' ∷ b'.' ∷ b'0' ∷ [])
    ++ (0 ∷ 2 ∷ 1 ∷ 1 ∷ 0 ∷ 2 ∷ 224 ∷ 0 ∷ 0x40 ∷ 0x0B ∷ 0xF0 ∷ 9 ∷ 0 ∷ 9 ∷ 0 ∷ 2 ∷ 0 ∷ [])
    ++ replicate 10 0
    ++ (0x29 ∷ 0x4F ∷ 0x4D ∷ 0x55 ∷ 0x4B ∷ [])
    ++ (volume_label ++ replicate (11 - length volume_label) b' ')
    ++ (b'F' ∷ b'A' ∷ b'T' ∷ b'1' ∷ b'2' ∷ b' ' ∷ b' ' ∷ b' ' ∷ [])
    ++ replicate 448 0
    ++ (0x55 ∷ 0xAA ∷ [])

module _ {D : Type 0} (dev : Device D) where
  pub fat12_format : Volume → D → Option (List ℕ) → ℤ × Volume × D
  fat12_format v d label =
      let blank = replicate sector_size 0 in
      let fat = 0xF0 ∷ 0xFF ∷ 0xFF ∷ replicate 509 0 in
      let (booted, d1) = dev.ata_write 0 (boot_sector label) d in
      let (first_fat, d2) = write_blank dev 9 1 fat d1 in
      let (second_fat, d3) = write_blank dev 9 10 fat d2 in
      let (root, d4) = write_blank dev 14 19 blank d3 in
      let (r, v') = fat12_mount dev v d4 in
      if not booted
      then (failed, v, d1)
      else if not first_fat
      then (failed, v, d2)
      else if not second_fat
      then (failed, v, d3)
      else if root
      then (r, v', d4)
      else (failed, v, d4)

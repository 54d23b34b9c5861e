-- ===== src/Fat12/Volume.antt =====
-- src/fat12.c: the mount, and the sectors that the driver reads and writes.
-- The disk behind ata_read and ata_write is a parameter: its state D and one operation each for one
-- sector of 512 bytes. A division by sectors_per_cluster 0, which traps, gives 0 here. A mount of
-- more than nine sectors of table writes beyond g_fat; the model drops those bytes.
pub mod Directory
pub mod Files
pub mod Examples
use kum_os.Base.{
  ℕ, zero, suc, ◌+◌, ◌-◌, ◌*◌, ◌/◌, ◌%◌, Bool, true, false, not, ◌&&◌, ◌||◌, Option, none, some,
  List, [], ◌∷◌, ◌++◌, if◌then◌else◌, ltb, leb, ◌==◌, length, get_or, set, drop, take, replicate, ℤ,
  pos, negsuc, failed, add32, mul32, sub32, eqb_ℤ,
}
use kum_os.Kstring.{kstrncmp}
use kum_os.Fat12.{upper}

-- ata_read and ata_write of one sector. A write says whether it succeeded.
pub record Device (D : Type 0) : Type 0 where
  pub ata_read : ℕ → D → Option (List ℕ)
  pub ata_write : ℕ → List ℕ → D → Bool × D

-- bpb_t, the fields that the driver uses.
pub record Bpb : Type 0 where
  pub bytes_per_sector : ℕ
  pub sectors_per_cluster : ℕ
  pub reserved_sectors : ℕ
  pub fat_count : ℕ
  pub root_entry_count : ℕ
  pub total_sectors_16 : ℕ
  pub sectors_per_fat : ℕ
  pub total_sectors_32 : ℕ
  pub fs_type : List ℕ

-- The static variables of the driver. g_drive is the drive that the device stands for.
pub record Volume : Type 0 where
  pub mounted : Bool
  pub bpb : Bpb
  pub fat_start : ℕ
  pub root_start : ℕ
  pub data_start : ℕ
  pub root_sectors : ℕ
  pub total_clusters : ℕ
  pub fat : List ℕ
  pub fat_dirty : Bool

abbrev pub sector_size : ℕ
sector_size = 512

abbrev pub fat_buf_size : ℕ
fat_buf_size = 9 * 512

-- Packed little-endian fields.
abbrev pub le16 : List ℕ → ℕ → ℕ
le16 s i = get_or s i 0 + get_or s (i + 1) 0 * 256

abbrev pub le32 : List ℕ → ℕ → ℕ
le32 s i = le16 s i + le16 s (i + 2) * 65536

pub bpb_of : List ℕ → Bpb
bpb_of s = record {
  bytes_per_sector = le16 s 11;
  sectors_per_cluster = get_or s 13 0;
  reserved_sectors = le16 s 14;
  fat_count = get_or s 16 0;
  root_entry_count = le16 s 17;
  total_sectors_16 = le16 s 19;
  sectors_per_fat = le16 s 22;
  total_sectors_32 = le32 s 32;
  fs_type = take 8 (drop 54 s);
}

abbrev fat12_tag : List ℕ
fat12_tag = b'F' ∷ b'A' ∷ b'T' ∷ b'1' ∷ b'2' ∷ []

abbrev fat_tag : List ℕ
fat_tag = b'F' ∷ b'A' ∷ b'T' ∷ b' ' ∷ b' ' ∷ b' ' ∷ []

-- The checks of fat12_mount on a boot sector that does not name its type.
pub is_refused : Bpb → Bool
unfolding kstrncmp
is_refused b =
    not (eqb_ℤ (kstrncmp 5 b.fs_type fat12_tag) 0)
    && not (eqb_ℤ (kstrncmp 5 b.fs_type fat_tag) 0)
    && (not (b.bytes_per_sector == 512)
        || ltb b.fat_count 1
        || ltb 2 b.fat_count
        || b.root_entry_count == 0)

-- The places of the parts of a volume.
pub place : Volume → Bpb → Volume
place v b =
    let fat_start = b.reserved_sectors in
    let root_start = add32 fat_start (mul32 b.fat_count b.sectors_per_fat) in
    let root_sectors = (b.root_entry_count * 32 + 511) / 512 in
    let data_start = add32 root_start root_sectors in
    let total = if b.total_sectors_16 == 0 then b.total_sectors_32 else b.total_sectors_16 in
    record v {
      bpb = b;
      fat_start = fat_start;
      root_start = root_start;
      root_sectors = root_sectors;
      data_start = data_start;
      total_clusters = sub32 total data_start / b.sectors_per_cluster;
    }

-- kmemcpy(table + at, src, length(src)), as far as the table reaches.
unfoldable pub splice : List ℕ → ℕ → List ℕ → List ℕ
splice table at [] = table
splice table at (c ∷ cs) = splice (set table at c) (at + 1) cs

-- g_data_start + (cluster - 2) * g_bpb.sectors_per_cluster
pub cluster_to_lba : Volume → ℕ → ℕ
cluster_to_lba v cluster = add32 v.data_start (mul32 (cluster - 2) v.bpb.sectors_per_cluster)

module _ {D : Type 0} (dev : Device D) where
  -- The loop of fat12_mount that reads the table from its sector s on.
  pub read_table : ℕ → ℕ → ℕ → List ℕ → D → Bool × List ℕ
  unfolding splice
  read_table zero start s fat d = (true, fat)
  read_table (suc rounds) start s fat d = elim (dev.ata_read (add32 start s) d) [
    | none ↦ (false, fat)
    | some buf ↦ read_table rounds start (s + 1) (splice fat (s * sector_size) buf) d
  ]

  pub fat12_mount : Volume → D → ℤ × Volume
  unfolding bpb_of is_refused place read_table
  fat12_mount v d = elim (dev.ata_read 0 d) [
    | none ↦ (failed, record v { mounted = false })
    | some boot ↦
        let b = bpb_of boot in
        let placed = place (record v { mounted = false }) b in
        let (ok, fat) = read_table b.sectors_per_fat placed.fat_start 0 v.fat d in
        if is_refused b
        then (failed, record v { mounted = false; bpb = b })
        else if ok
        then (pos 0, record placed { fat = fat; mounted = true; fat_dirty = false })
        else (failed, record placed { fat = fat })
  ]

  -- The inner loop of fat_flush: sector s of the copy at `start`.
  pub flush_copy : ℕ → ℕ → ℕ → List ℕ → D → Bool × D
  flush_copy zero start s fat d = (true, d)
  flush_copy (suc rounds) start s fat d =
      let (ok, d') =
        dev.ata_write (add32 start s) (take sector_size (drop (s * sector_size) fat)) d in
      let rest = flush_copy rounds start (s + 1) fat d' in if ok then rest else (false, d')

  pub flush_copies : ℕ → ℕ → Volume → D → Bool × D
  unfolding flush_copy
  flush_copies zero copy v d = (true, d)
  flush_copies (suc rounds) copy v d =
      let sects = v.bpb.sectors_per_fat in
      let (ok, d') = flush_copy sects (add32 v.fat_start (copy * sects)) 0 v.fat d in
      let rest = flush_copies rounds (copy + 1) v d' in if ok then rest else (false, d')

  pub fat_flush : Volume → D → ℤ × Volume × D
  unfolding flush_copies
  fat_flush v d =
      let (ok, d') = flush_copies v.bpb.fat_count 0 v d in
      if v.fat_dirty
      then if ok then (pos 0, record v { fat_dirty = false }, d') else (failed, v, d')
      else (pos 0, v, d)

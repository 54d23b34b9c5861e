-- ===== src/Fat12/Volume/Directory.antt =====
-- src/fat12.c: the root directory: listing, finding and marking entries.
use kum_os.Base.{
  ℕ, zero, suc, ◌+◌, ◌-◌, ◌*◌, ◌/◌, ◌%◌, Bool, true, false, ◌&&◌, ◌||◌, Option, none, some, List,
  [], ◌∷◌, ◌++◌, if◌then◌else◌, ltb, ◌==◌, length, get_or, set, drop, take, replicate, ℤ, pos,
  failed, add32, eqb_ℤ,
}
use kum_os.Kstring.{kstrncmp}
use kum_os.Fat12.{name_to_83, name_from_fields}
use kum_os.Fat12.Volume.{Device, Volume, le16, le32, splice}

abbrev pub dirent_free : ℕ
dirent_free = 0xE5

abbrev pub dirent_end : ℕ
dirent_end = 0

abbrev pub per_sector : ℕ
per_sector = 16

-- dirent_t, with name and ext together.
pub record Dirent : Type 0 where
  pub name : List ℕ
  pub attr : ℕ
  pub start_cluster : ℕ
  pub file_size : ℕ

pub dirent_at : List ℕ → ℕ → Dirent
dirent_at sector i =
    let raw = drop (i * 32) sector in
    record {
      name = take 11 raw;
      attr = get_or raw 11 0;
      start_cluster = le16 raw 26;
      file_size = le32 raw 28;
    }

abbrev pub first_byte : List ℕ → ℕ → ℕ
first_byte sector i = get_or sector (i * 32) 0

-- fat12_entry_t
pub record Fat12Entry : Type 0 where
  pub name : List ℕ
  pub size : ℕ
  pub start_cluster : ℕ
  pub attr : ℕ
  pub is_dir : Bool

-- `dir->attr & (ATTR_VOLUME | ATTR_SYSTEM)`, or ATTR_HIDDEN: bits 3, 2 and 1.
abbrev is_skipped : ℕ → Bool
is_skipped attr = attr / 8 % 2 == 1 || attr / 4 % 2 == 1 || attr / 2 % 2 == 1

pub entry_of : Dirent → Fat12Entry
entry_of de = record {
  name = name_from_fields (take 8 de.name) (drop 8 de.name);
  size = de.file_size;
  start_cluster = de.start_cluster;
  attr = de.attr;
  is_dir = de.attr / 16 % 2 == 1;
}

-- fat12_list within a sector, `room` entries short of max: the entries, and whether the directory's
-- end was met.
pub list_sector : ℕ → ℕ → ℕ → List ℕ → List Fat12Entry × Bool
unfolding entry_of dirent_at
list_sector zero room i sector = ([], false)
list_sector (suc rounds) zero i sector = ([], false)
list_sector (suc rounds) (suc room) i sector =
    let de = dirent_at sector i in
    let skipped = list_sector rounds (suc room) (i + 1) sector in
    let (rest, at_end) = list_sector rounds room (i + 1) sector in
    if first_byte sector i == dirent_end
    then ([], true)
    else if first_byte sector i == dirent_free || is_skipped de.attr
    then skipped
    else (entry_of de ∷ rest, at_end)

-- dirfind_t: the sector's address and bytes, and the entry.
pub record DirFind : Type 0 where
  pub sector : ℕ
  pub index : ℕ
  pub de : Dirent

-- What a search of one sector ends with.
pub data Search : Type 0 where
  hit : ℕ → Search
  ended passed : Search

pub find_sector : ℕ → List ℕ → ℕ → List ℕ → Search
unfolding dirent_at kstrncmp
find_sector zero want i sector = passed
find_sector (suc rounds) want i sector =
    let rest = find_sector rounds want (i + 1) sector in
    if first_byte sector i == dirent_end
    then ended
    else if first_byte sector i == dirent_free
    then rest
    else if eqb_ℤ (kstrncmp 11 (dirent_at sector i).name want) 0
    then hit i
    else rest

-- The first entry of a sector that a file may take.
pub free_entry : ℕ → ℕ → List ℕ → Option ℕ
free_entry zero i sector = none
free_entry (suc rounds) i sector =
    let rest = free_entry rounds (i + 1) sector in
    if first_byte sector i == dirent_free || first_byte sector i == dirent_end then some i else rest

-- The 32 bytes of a new file's entry: ATTR_ARCHIVE, and the date 0x4A21.
pub new_dirent : List ℕ → ℕ → ℕ → List ℕ
new_dirent fn83 first_cluster size =
    fn83
    ++ (0x20 ∷ replicate 12 0)
    ++ (0x21 ∷ 0x4A ∷ first_cluster % 256 ∷ first_cluster / 256 % 256 ∷ [])
    ++ (size % 256 ∷ size / 256 % 256 ∷ size / 65536 % 256 ∷ size / 16777216 % 256 ∷ [])

-- A sector in which entry i is taken; an end before the last entry moves on by one.
pub put_dirent : List ℕ → ℕ → List ℕ → List ℕ
put_dirent sector i de =
    let put = splice sector (i * 32) de in
    if first_byte sector i == dirent_end && ltb (i + 1) per_sector
    then set put ((i + 1) * 32) dirent_end
    else put

module _ {D : Type 0} (dev : Device D) where
  pub list_sectors : ℕ → ℕ → ℕ → Volume → D → List Fat12Entry
  unfolding list_sector
  list_sectors zero room s v d = []
  list_sectors (suc rounds) room s v d = elim (dev.ata_read (add32 v.root_start s) d) [
    | none ↦ []
    | some sector ↦
        let (here, at_end) = list_sector per_sector room 0 sector in
        let rest = list_sectors rounds (room - length here) (s + 1) v d in
        if room == 0 then [] else if at_end then here else here ++ rest
  ]

  -- `none` if nothing is mounted.
  pub fat12_list : Volume → D → ℕ → Option (List Fat12Entry)
  unfolding list_sectors
  fat12_list v d max = if v.mounted then some (list_sectors v.root_sectors max 0 v d) else none

  pub find_sectors : ℕ → List ℕ → ℕ → Volume → D → Option DirFind
  unfolding find_sector dirent_at
  find_sectors zero want s v d = none
  find_sectors (suc rounds) want s v d = elim (dev.ata_read (add32 v.root_start s) d) [
    | none ↦ none
    | some sector ↦ elim (find_sector per_sector want 0 sector) [
      | hit i ↦ some (record { sector = add32 v.root_start s; index = i; de = dirent_at sector i })
      | ended ↦ none
      | passed ↦ find_sectors rounds want (s + 1) v d
    ]
  ]

  pub fat12_find : Volume → D → List ℕ → Option DirFind
  unfolding find_sectors name_to_83
  fat12_find v d name = find_sectors v.root_sectors (name_to_83 name) 0 v d

  -- The last loop of fat12_write: the entry of the file goes into the first free place.
  pub add_dirent : ℕ → List ℕ → ℕ → Volume → D → ℤ × D
  unfolding free_entry put_dirent
  add_dirent zero de s v d = (failed, d)
  add_dirent (suc rounds) de s v d = elim (dev.ata_read (add32 v.root_start s) d) [
    | none ↦ (failed, d)
    | some sector ↦ elim (free_entry per_sector 0 sector) [
      | none ↦ add_dirent rounds de (s + 1) v d
      | some i ↦
          let (ok, d') = dev.ata_write (add32 v.root_start s) (put_dirent sector i de) d in
          (if ok then pos 0 else failed, d')
    ]
  ]

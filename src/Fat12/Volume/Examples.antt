-- ===== src/Fat12/Volume/Examples.antt =====
-- A disk that is a function from addresses to sectors, and an empty volume on it.
use kum_os.Base.{
  ℕ, ◌≡◌, refl, Bool, true, false, some, List, [], ◌∷◌, arith, if◌then◌else◌, ◌==◌, ==-refl, ne→==,
  replicate, length-replicate, get_or-replicate,
}
use kum_os.Fat12.Volume.{Device, Volume}
use kum_os.Fat12.Volume.Files.{write_data}
use kum_os.Fat12.Volume.Files.Sectors.{IsDisk}
use kum_os.Fat12.Volume.Files.Links.{IsSound}
use kum_os.Fat12.Volume.Files.RoundTrip.{Written, write_data_lem}

abbrev Disk : Type 0
Disk = ℕ → List ℕ

abbrev memory : Device Disk
memory = record {
  ata_read = λ lba d. some (d lba);
  ata_write = λ lba buf d. (true, λ m. if m == lba then buf else d m);
}

memory-IsDisk : IsDisk memory
memory-IsDisk = record {
  read_written = λ lba buf d l w. rw (==-refl lba) refl;
  read_other = λ lba m buf d n. rw (ne→== m lba n) refl;
}

abbrev small : Volume
small = record {
  mounted = true;
  bpb = record {
    bytes_per_sector = 512;
    sectors_per_cluster = 1;
    reserved_sectors = 1;
    fat_count = 1;
    root_entry_count = 16;
    total_sectors_16 = 7;
    sectors_per_fat = 1;
    total_sectors_32 = 0;
    fs_type = [];
  };
  fat_start = 1;
  root_start = 2;
  data_start = 3;
  root_sectors = 1;
  total_clusters = 4;
  fat = replicate 512 0;
  fat_dirty = false;
}

small-IsSound : IsSound small
small-IsSound = record {
  bytes = λ i. omega (arith, get_or-replicate {A = ℕ} 512 i 0);
  room = omega (arith, length-replicate {A = ℕ} 512 0);
  links = omega arith;
  sectors = omega arith;
  reach = omega arith;
}

abbrev blank_disk : Disk
blank_disk = λ lba. replicate 512 0

write_data_lem_example :
    (ok : Bool) × (first : ℕ) × (v' : Volume) × (d' : Disk) × (write_data memory small blank_disk
        (7 ∷ 8 ∷ [])
      ≡ some (ok, first, v', d'))
    × (ok ≡ true
        → Written memory memory-IsDisk small blank_disk small-IsSound (7 ∷ 8 ∷ []) first v' d')
write_data_lem_example =
    write_data_lem memory memory-IsDisk small blank_disk small-IsSound (7 ∷ 8 ∷ [])

-- ===== src/Vfs/Disk/Examples.antt =====
-- Open files on the disk, at which the theorems are used.
use kum_os.Base.{
  ℕ, ◌+◌, some, none, ◌-◌, ◌≡◌, refl, true, [], ◌∷◌, ◌++◌, arith, length, take, drop, replicate,
  u32, length-replicate, pos,
}
use kum_os.Vfs.Disk.{DiskOpen, disk_write_at, disk_opened, write_count, no_disk_open}
use kum_os.Vfs.Disk.Buffer.{IsValid, bytes, written, disk_write_lem, append_full}

-- A file of two bytes, at its second.
abbrev two_bytes : DiskOpen
two_bytes = record {
  name = b'A' ∷ [];
  buf = 65 ∷ 66 ∷ replicate 4094 0;
  size = 2;
  pos_ = 1;
  writable = true;
  used = true;
}

two_bytes-IsValid : IsValid two_bytes
two_bytes-IsValid = record {
  full = omega (arith, length-replicate {A = ℕ} 4094 0);
  inside = omega arith;
  room = omega arith;
}

disk_write_lem_example :
    (o' : DiskOpen) × (disk_write_at two_bytes (67 ∷ 68 ∷ [])
      ≡ some (pos (length (written two_bytes (67 ∷ 68 ∷ []))), o'))
    × IsValid o'
    × (o'.pos_ ≡ two_bytes.pos_ + length (written two_bytes (67 ∷ 68 ∷ [])))
    × (bytes o'
        ≡ take two_bytes.pos_ (bytes two_bytes)
          ++ written two_bytes (67 ∷ 68 ∷ [])
          ++ drop
              (length (written two_bytes (67 ∷ 68 ∷ [])))
              (drop two_bytes.pos_ (bytes two_bytes)))
disk_write_lem_example = disk_write_lem two_bytes (67 ∷ 68 ∷ []) two_bytes-IsValid (omega arith)

-- O_WRONLY | O_APPEND
append_full_example :
    (write_count (disk_opened no_disk_open (b'A' ∷ []) 17 (replicate 4096 65)).pos_ 1 ≡ u32 - 1)
    × (disk_write_at (disk_opened no_disk_open (b'A' ∷ []) 17 (replicate 4096 65)) (66 ∷ []) ≡ none)
append_full_example =
    append_full no_disk_open (b'A' ∷ []) 17 (replicate 4096 65) (66 ∷ [])
      (length-replicate {A = ℕ} 4096 65) refl refl (omega arith)

-- ===== src/Vfs/Disk.antt =====
-- src/vfs.c: /disk, the operations of the virtual file system on FAT12. An open file is read into a
-- buffer of 4096 bytes, and a close writes it back. `none` means that fat12_write does not end, or that a
-- write copies bytes over the end of the buffer, into the memory behind it.
pub mod Buffer
pub mod Examples
use kum_os.Base.{
  ℕ, zero, suc, ◌+◌, ◌-◌, ◌*◌, ◌/◌, ◌%◌, Bool, true, false, not, ◌&&◌, ◌||◌, Option, none, some,
  List, [], ◌∷◌, ◌++◌, if◌then◌else◌, ltb, leb, ◌==◌, length, get_or, set, drop, take, replicate,
  find_index, map, ℤ, pos, negsuc, failed, index_in, add32, sub32, to_int, eqb_ℤ,
}
use kum_os.Kstring.{kstrcmp, kstrlen}
use kum_os.Fat12.{upper}
use kum_os.Fat12.Volume.{Device, Volume, splice}
use kum_os.Fat12.Volume.Directory.{Fat12Entry, fat12_list}
use kum_os.Fat12.Volume.Files.{fat12_read, fat12_write, fat12_delete}
use kum_os.Vfs.{Stat, FdType, file, no_type, has_creat}
use kum_os.Vfs.Memory.{has_trunc, has_append, no_stat, read_count}

abbrev pub disk_buf_size : ℕ
disk_buf_size = 4096

abbrev pub disk_max_open : ℕ
disk_max_open = 8

-- An entry of disk_open.
pub record DiskOpen : Type 0 where
  pub name : List ℕ
  pub buf : List ℕ
  pub size : ℕ
  pub pos_ : ℕ
  pub writable : Bool
  pub used : Bool

abbrev pub no_disk_open : DiskOpen
no_disk_open = record {
  name = [];
  buf = replicate disk_buf_size 0;
  size = 0;
  pos_ = 0;
  writable = false;
  used = false;
}

-- disk_open, with the volume and its disk.
pub record DiskVfs (D : Type 0) : Type 0 where
  pub opens : List DiskOpen
  pub volume : Volume
  pub disk : D

abbrev pub is_free_disk : DiskOpen → Bool
is_free_disk o = not o.used

-- The first 63 bytes of a path in upper case.
abbrev pub upper_path : List ℕ → List ℕ
upper_path path = map upper (take 63 path)

-- `flags & (O_WRONLY|O_RDWR|O_CREAT)`
abbrev pub wants_write : ℕ → Bool
wants_write flags = not (flags % 8 == 0)

-- An open file with the bytes that were read.
pub disk_opened : DiskOpen → List ℕ → ℕ → List ℕ → DiskOpen
disk_opened o name flags bytes =
    let n = length bytes in
    record {
      name = name;
      buf = bytes ++ drop n o.buf;
      size = if has_trunc flags then 0 else n;
      pos_ = if has_trunc flags then 0 else if has_append flags then n else 0;
      writable = wants_write flags;
      used = true;
    }

-- `d < 0 || d >= DISK_MAX_OPEN || !disk_open[d].used`
pub live_disk : List DiskOpen → ℤ → Option ℕ
live_disk opens d = elim (index_in disk_max_open d) [
  | none ↦ none
  | some i ↦ if (get_or opens i no_disk_open).used then some i else none
]

-- How many of `len` bytes there is room for at position p.
abbrev pub write_count : ℕ → ℕ → ℕ
write_count p len = if leb disk_buf_size (add32 p len) then sub32 (sub32 disk_buf_size p) 1 else len

-- n bytes are copied to the position, where they do not run over the end of the buffer.
abbrev pub put_bytes : DiskOpen → ℕ → List ℕ → Option (ℤ × DiskOpen)
put_bytes o n src =
    let end = add32 o.pos_ n in
    if leb (o.pos_ + n) disk_buf_size
    then some (
      to_int n,
      record o {
        buf = splice o.buf o.pos_ (take n src);
        pos_ = end;
        size = if ltb o.size end then end else o.size;
      },
    )
    else none

pub disk_write_at : DiskOpen → List ℕ → Option (ℤ × DiskOpen)
disk_write_at o src = put_bytes o (write_count o.pos_ (length src)) src

pub disk_read_at : DiskOpen → ℕ → ℤ × List ℕ × DiskOpen
disk_read_at o len =
    let n = read_count o.size o.pos_ len in
    (to_int n, take n (drop o.pos_ o.buf), record o { pos_ = add32 o.pos_ n })

-- The loop of disk_vfs_stat: the first entry with the name.
pub find_entry : List ℕ → List Fat12Entry → Option Fat12Entry
find_entry name [] = none
find_entry name (e ∷ es) = if eqb_ℤ (kstrcmp e.name name) 0 then some e else find_entry name es

-- The loop of disk_vfs_readdir from position p on: names, each with a line feed.
pub list_names : ℕ → ℕ → List Fat12Entry → List ℕ
list_names sz p [] = []
list_names sz p (e ∷ es) =
    let rest = list_names sz (p + kstrlen e.name + 1) es in
    if ltb (p + 20) sz then e.name ++ b'\n' ∷ rest else []

module _ {D : Type 0} (dev : Device D) where
  pub disk_vfs_open : List ℕ → ℕ → DiskVfs D → Option (ℤ × DiskVfs D)
  disk_vfs_open path flags v =
      let name = upper_path path in
      let opened = elim (find_index is_free_disk v.opens) as (λ _. Option (ℤ × DiskVfs D)) [
        | none ↦ some (failed, v)
        | some s ↦
            let o = get_or v.opens s no_disk_open in
            elim (fat12_read dev v.volume v.disk name disk_buf_size) [
              | some bytes ↦
                  some (pos s, record v { opens = set v.opens s (disk_opened o name flags bytes) })
              | none ↦
                  let made =
                    elim (fat12_write dev v.volume v.disk name [])
                      as (λ _. Option (ℤ × DiskVfs D)) [
                        | none ↦ none
                        | some (_, volume, disk) ↦ some (
                          pos s,
                          record {
                            opens = set v.opens s (disk_opened o name flags []);
                            volume = volume;
                            disk = disk;
                          },
                        )
                      ] in
                  if has_creat flags then made else some (failed, v)
            ]
      ] in
      if v.volume.mounted then opened else some (failed, v)

  pub disk_vfs_close : ℤ → DiskVfs D → Option (ℤ × DiskVfs D)
  disk_vfs_close d v = elim (live_disk v.opens d) [
    | none ↦ some (failed, v)
    | some i ↦
        let o = get_or v.opens i no_disk_open in
        let opens = set v.opens i (record o { used = false }) in
        let written =
          elim (fat12_write dev v.volume v.disk o.name (take o.size o.buf))
            as (λ _. Option (ℤ × DiskVfs D)) [
              | none ↦ none
              | some (_, volume, disk) ↦
                  some (pos 0, record { opens = opens; volume = volume; disk = disk })
            ] in
        if o.writable && ltb 0 o.size then written else some (pos 0, record v { opens = opens })
  ]

  pub disk_vfs_read : ℤ → ℕ → DiskVfs D → ℤ × List ℕ × DiskVfs D
  disk_vfs_read d len v = elim (live_disk v.opens d) [
    | none ↦ (failed, [], v)
    | some i ↦
        let (r, out, o) = disk_read_at (get_or v.opens i no_disk_open) len in
        (r, out, record v { opens = set v.opens i o })
  ]

  pub disk_vfs_write : ℤ → List ℕ → DiskVfs D → Option (ℤ × DiskVfs D)
  disk_vfs_write d src v = elim (live_disk v.opens d) [
    | none ↦ some (failed, v)
    | some i ↦ elim (disk_write_at (get_or v.opens i no_disk_open) src) [
      | none ↦ none
      | some (r, o) ↦ some (r, record v { opens = set v.opens i o })
    ]
  ]

  pub disk_vfs_stat : List ℕ → DiskVfs D → ℤ × Stat × DiskVfs D
  disk_vfs_stat path v = elim (fat12_list dev v.volume v.disk 64) [
    | none ↦ (failed, no_stat, v)
    | some entries ↦ elim (find_entry (upper_path path) entries) [
      | none ↦ (failed, no_stat, v)
      | some e ↦ (pos 0, record { size = e.size; type = file; name = e.name }, v)
    ]
  ]

  pub disk_vfs_readdir : List ℕ → ℕ → DiskVfs D → ℤ × List ℕ × DiskVfs D
  disk_vfs_readdir path sz v = elim (fat12_list dev v.volume v.disk 64) [
    | none ↦ (pos 0, [], v)
    | some entries ↦ let out = list_names sz 0 entries in (pos (length out), out, v)
  ]

  pub disk_vfs_unlink : List ℕ → DiskVfs D → ℤ × DiskVfs D
  disk_vfs_unlink path v =
      let (r, volume, disk) = fat12_delete dev v.volume v.disk (upper_path path) in
      (r, record v { volume = volume; disk = disk })

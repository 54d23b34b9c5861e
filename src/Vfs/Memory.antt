-- ===== src/Vfs/Memory.antt =====
-- src/vfs.c: /mem, the operations of the virtual file system on the memory file system. The pointer to a
-- file is its index in the table of files. Bytes behind a file's 4096 are not seen.
pub mod Writing
pub mod Examples
use kum_os.Base.{
  ℕ, zero, suc, ◌+◌, ◌-◌, ◌*◌, ◌/◌, ◌%◌, Bool, true, false, not, ◌&&◌, ◌||◌, Option, none, some,
  List, [], ◌∷◌, ◌++◌, if◌then◌else◌, ltb, leb, ◌==◌, length, get_or, set, drop, take, replicate,
  find_index, ℤ, pos, negsuc, failed, index_in, add32, sub32, to_int,
}
use kum_os.Kstring.{c_string}
use kum_os.Fs.{Fs, FsFile, no_file, read_name, fs_find, fs_create, fs_write, fs_delete}
use kum_os.Vfs.{Ops, Stat, FdType, file, no_type, has_creat, is_negative}

abbrev pub mem_max_open : ℕ
mem_max_open = 16

-- An entry of mem_open.
pub record MemOpen : Type 0 where
  pub file_idx : ℕ
  pub pos_ : ℕ
  pub used : Bool

-- mem_open, and the files that it stands on.
pub record MemVfs : Type 0 where
  pub fs : Fs
  pub opens : List MemOpen

abbrev pub no_open : MemOpen
no_open = record { file_idx = 0; pos_ = 0; used = false }

abbrev pub is_free_open : MemOpen → Bool
is_free_open o = not o.used

-- `flags & O_TRUNC` and `flags & O_APPEND`
abbrev pub has_trunc : ℕ → Bool
has_trunc flags = flags / 8 % 2 == 1

abbrev pub has_append : ℕ → Bool
has_append flags = flags / 16 % 2 == 1

-- The file that mem_vfs_open opens: the one with the name, or a new one.
pub find_or_create : List ℕ → ℕ → Fs → Option ℕ × Fs
find_or_create path flags fs = elim (fs_find fs path) [
  | some i ↦ (some i, fs)
  | none ↦
      let (r, fs') = fs_create fs path [] false in
      if has_creat flags
      then if is_negative r then (none, fs') else (fs_find fs' path, fs')
      else (none, fs)
]

-- The slot of an open file.
pub open_slot : ℕ → Fs → List MemOpen → ℕ → ℤ × List MemOpen
open_slot i fs opens flags = elim (find_index is_free_open opens) [
  | none ↦ (failed, opens)
  | some d ↦ (
    pos d,
    set opens d (record {
      file_idx = i;
      pos_ = if has_append flags then (get_or fs.files i no_file).size else 0;
      used = true;
    }),
  )
]

pub mem_vfs_open : List ℕ → ℕ → MemVfs → ℤ × MemVfs
mem_vfs_open path flags m =
    let (found, fs) = find_or_create path flags m.fs in
    elim found [
      | none ↦ (failed, record m { fs = fs })
      | some i ↦
          let fs' = if has_trunc flags then (fs_write fs path []).1 else fs in
          let (d, opens) = open_slot i fs' m.opens flags in (d, record { fs = fs'; opens = opens })
    ]

-- mem_vfs_close returns 0.
pub mem_vfs_close : ℤ → MemVfs → MemVfs
mem_vfs_close d m = elim (index_in mem_max_open d) [
  | none ↦ m
  | some i ↦ record m { opens = set m.opens i (record (get_or m.opens i no_open) { used = false }) }
]

-- `d < 0 || d >= MEM_MAX_OPEN || !mem_open[d].used`
pub live_open : List MemOpen → ℤ → Option ℕ
live_open opens d = elim (index_in mem_max_open d) [
  | none ↦ none
  | some i ↦ if (get_or opens i no_open).used then some i else none
]

-- The bytes that a read of `len` takes: `avail` wraps around if the position is behind the end.
abbrev pub read_count : ℕ → ℕ → ℕ → ℕ
read_count size p len = if ltb (sub32 size p) len then sub32 size p else len

pub mem_vfs_read : ℤ → ℕ → MemVfs → ℤ × List ℕ × MemVfs
mem_vfs_read d len m = elim (live_open m.opens d) [
  | none ↦ (failed, [], m)
  | some i ↦
      let o = get_or m.opens i no_open in
      let f = get_or m.fs.files o.file_idx no_file in
      let n = read_count f.size o.pos_ len in
      (
        to_int n,
        take n (drop o.pos_ f.data_),
        record m { opens = set m.opens i (record o { pos_ = add32 o.pos_ n }) },
      )
]

-- `mem_open[d].pos < f->size ? mem_open[d].pos : f->size`
abbrev pub kept : MemOpen → FsFile → ℕ
kept o f = if ltb o.pos_ f.size then o.pos_ else f.size

pub mem_vfs_write : ℤ → List ℕ → MemVfs → ℤ × MemVfs
mem_vfs_write d src m = elim (live_open m.opens d) [
  | none ↦ (failed, m)
  | some i ↦
      let o = get_or m.opens i no_open in
      let f = get_or m.fs.files o.file_idx no_file in
      let len = length src in
      let keep = kept o f in
      let fs = (fs_write m.fs (read_name f) (c_string (take keep f.data_ ++ src))).1 in
      let opens = set m.opens i (record o { pos_ = add32 o.pos_ len }) in
      (to_int len, if ltb (add32 keep len) 4095 then record { fs = fs; opens = opens } else m)
]

abbrev pub no_stat : Stat
no_stat = record { size = 0; type = no_type; name = [] }

pub mem_vfs_stat : List ℕ → MemVfs → ℤ × Stat × MemVfs
mem_vfs_stat path m = elim (fs_find m.fs path) [
  | none ↦ (failed, no_stat, m)
  | some i ↦
      let f = get_or m.fs.files i no_file in
      (pos 0, record { size = f.size; type = file; name = read_name f }, m)
]

pub mem_vfs_readdir : List ℕ → ℕ → MemVfs → ℤ × List ℕ × MemVfs
mem_vfs_readdir path size m = (pos 0, [], m)

pub mem_vfs_unlink : List ℕ → MemVfs → ℤ × MemVfs
mem_vfs_unlink path m = let (r, fs) = fs_delete m.fs path in (r, record m { fs = fs })

-- mem_ops
pub mem_ops : Ops MemVfs
mem_ops = record {
  open_op = some mem_vfs_open;
  close_op = some mem_vfs_close;
  read_op = some mem_vfs_read;
  write_op = some mem_vfs_write;
  stat_op = some mem_vfs_stat;
  readdir_op = some mem_vfs_readdir;
  unlink_op = some mem_vfs_unlink;
}

-- ===== src/Fs.antt =====
-- src/fs.c: the memory file system, a table of files and a count of those used.
-- A name of 64 bytes or more runs over the file's data and is read on into it. One that runs over the
-- data too, of 4160 bytes or more, would overwrite other fields and files; the model cuts it off there.
pub mod Table
pub mod Lookup
pub mod Valid
pub mod Examples
use kum_os.Base.{
  ℕ, ◌+◌, Bool, true, false, not, ◌&&◌, Option, none, some, List, [], ◌∷◌, ◌++◌, min, length,
  if◌then◌else◌, ltb, ◌-◌, get_or, set, drop, take, replicate, find_index, ℤ, pos, failed, inc_ℤ,
  dec_ℤ, eqb_ℤ,
}
use kum_os.Kstring.{kstrcmp, c_string}

abbrev pub fs_max_files : ℕ
fs_max_files = 32

abbrev pub fs_max_name : ℕ
fs_max_name = 64

abbrev pub fs_max_data : ℕ
fs_max_data = 4096

-- fs_file_t. `name` is what stands in the 64 bytes of a name before the first 0, if there is one.
pub record FsFile : Type 0 where
  pub name : List ℕ
  pub data_ : List ℕ
  pub size : ℕ
  pub used : Bool
  pub executable : Bool

-- files and file_count
pub record Fs : Type 0 where
  pub files : List FsFile
  pub file_count : ℤ

unfoldable pub no_file : FsFile
no_file = record {
  name = [];
  data_ = replicate fs_max_data 0;
  size = 0;
  used = false;
  executable = false;
}

-- The string that is read at a file's name: where the 64 bytes hold no 0, it goes on in the data.
pub read_name : FsFile → List ℕ
read_name f = if ltb (length f.name) fs_max_name then f.name else f.name ++ c_string f.data_

-- `kstrcpy(files[i].name, name)`
pub put_name : FsFile → List ℕ → FsFile
put_name f name = record f {
  name = take fs_max_name name;
  data_ =
      if ltb (length name) fs_max_name
      then f.data_
      else take fs_max_data
          (drop fs_max_name name ++ 0 ∷ drop (length name + 1 - fs_max_name) f.data_);
}

pub is_named : List ℕ → FsFile → Bool
is_named name f = f.used && eqb_ℤ (kstrcmp (read_name f) name) 0

pub is_unused : FsFile → Bool
is_unused f = not f.used

-- A file's `data` and `size` after a write: at most 4095 bytes and a 0.
pub store : FsFile → List ℕ → FsFile
store f src =
    let len = min (length src) 4095 in
    record f { data_ = take len src ++ 0 ∷ drop (len + 1) f.data_; size = len }

pub fs_find : Fs → List ℕ → Option ℕ
fs_find s name = find_index (is_named name) s.files

pub fs_create : Fs → List ℕ → List ℕ → Bool → ℤ × Fs
fs_create s name src exec = elim (fs_find s name) [
  | some _ ↦ (failed, s)
  | none ↦ elim (find_index is_unused s.files) [
    | none ↦ (failed, s)
    | some i ↦
        let f = store (put_name (get_or s.files i no_file) name) src in
        (
          pos 0,
          record {
            files = set s.files i (record f { used = true; executable = exec });
            file_count = inc_ℤ s.file_count;
          },
        )
  ]
]

pub fs_write : Fs → List ℕ → List ℕ → ℤ × Fs
fs_write s name src = elim (fs_find s name) [
  | none ↦ fs_create s name src false
  | some i ↦ (pos 0, record s { files = set s.files i (store (get_or s.files i no_file) src) })
]

pub fs_delete : Fs → List ℕ → ℤ × Fs
fs_delete s name = elim (fs_find s name) [
  | none ↦ (failed, s)
  | some i ↦ (
    pos 0,
    record {
      files = set s.files i (record (get_or s.files i no_file) { used = false });
      file_count = dec_ℤ s.file_count;
    },
  )
]

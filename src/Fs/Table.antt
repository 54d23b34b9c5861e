-- ===== src/Fs/Table.antt =====
-- What a call of the file system changes: one slot, seen by one name.
use kum_os.Base.{
  ℕ, zero, suc, ltb, ◌&&◌, eqb_ℤ, ◌+◌, ◌≤◌, ◌<◌, ◌≡◌, ◌≢◌, refl, sym, ap, ◌∙◌, Bool, true, false,
  Option, none, some, List, [], ◌∷◌, ◌++◌, min, inl, inr, arith, length, get_or, set, take, drop,
  find_index, find_index-holds, count, get_or-set_ne, take-all, Option-cases, Bool-cases, ℤ, pos,
  failed, inc_ℤ, dec_ℤ,
}
use native.Mathlib.Decide.{dec_lt}
use kum_os.Kstring.{IsString, kstrcmp}
use kum_os.Kstring.Compare.{kstrcmp-eq, kstrcmp_refl}
use kum_os.Fs.{
  FsFile, Fs, fs_max_files, fs_max_name, no_file, read_name, put_name, is_named, is_unused, store,
  fs_find, fs_create, fs_write, fs_delete,
}

-- A name that fits its 64 bytes, with a 0 behind it.
abbrev pub IsName : List ℕ → Type 0
IsName name = IsString name × (length name < fs_max_name)

abbrev pub is_used : FsFile → Bool
is_used f = f.used

-- The table is counted, its names are strings that fit, and no two files in use share a name.
pub record IsValid (s : Fs) : Type 0 where
  pub size : length s.files ≡ fs_max_files
  pub counted : s.file_count ≡ pos (count is_used s.files)
  pub names : (j : ℕ) → IsName (get_or s.files j no_file).name
  pub distinct :
      (j k : ℕ)
      → (get_or s.files j no_file).used ≡ true
      → (get_or s.files k no_file).used ≡ true
      → (get_or s.files j no_file).name ≡ (get_or s.files k no_file).name
      → j ≡ k

-- What a name stands for: the bytes of its file, if it has one.
unfoldable pub contents : FsFile → List ℕ
contents f = take f.size f.data_

pub lookup : Fs → List ℕ → Option (List ℕ)
lookup s name = elim (fs_find s name) [
  | none ↦ none
  | some i ↦ some (contents (get_or s.files i no_file))
]

take-append : (n : ℕ) (xs ys : List ℕ) → n ≤ length xs → take n (take n xs ++ ys) ≡ take n xs
take-append zero xs ys h = refl
take-append (suc n) [] ys h = absurd (omega arith)
take-append (suc n) (x ∷ xs) ys h = ap (◌∷◌ x) (take-append n xs ys (omega arith))

take-min : (n : ℕ) (xs : List ℕ) → take (min (length xs) n) xs ≡ take n xs
take-min n xs = elim (dec_lt n (length xs)) [
  | yes l ↦ let e : min (length xs) n ≡ n = omega arith in rw e refl
  | no l ↦
      let e : min (length xs) n ≡ length xs = omega arith in
      rw e (take-all (length xs) xs (omega arith) ∙ sym (take-all n xs (omega arith)))
]

pub contents-store : (f : FsFile) (src : List ℕ) → contents (store f src) ≡ take 4095 src
unfolding contents store
contents-store f src =
    let len = min (length src) 4095 in
    take-append len src (0 ∷ drop (len + 1) f.data_) (omega arith) ∙ take-min 4095 src

-- A name that fits is stored and read as it is.
pub read_name-fits : (f : FsFile) → IsName f.name → read_name f ≡ f.name
unfolding read_name
read_name-fits f p =
    let t : ltb (length f.name) fs_max_name ≡ true = let l = p.1 in ground arith in rw t refl

pub put_name-fits :
    (f : FsFile) (name : List ℕ) → IsName name → put_name f name ≡ record f { name = name }
unfolding put_name
put_name-fits f name p =
    let t : ltb (length name) fs_max_name ≡ true = let l = p.1 in ground arith in
    rw (t, take-all fs_max_name name (omega (arith, p.1))) refl

pub is_named-name :
    (name : List ℕ) (f : FsFile)
    → IsString name
    → IsName f.name
    → is_named name f ≡ true
    → f.name ≡ name
unfolding is_named
is_named-name name f p q h =
    let same = read_name-fits f q in let equal = kstrcmp-eq f.name name q.0 p in ground arith

pub named-is_named : (f : FsFile) → IsName f.name → f.used ≡ true → is_named f.name f ≡ true
unfolding is_named
named-is_named f q u =
    let same : eqb_ℤ (kstrcmp f.name f.name) 0 ≡ true = rw (kstrcmp_refl f.name) refl in
    ap (λ b. b && eqb_ℤ (kstrcmp (read_name f) f.name) 0) u
    ∙ ap (λ n. eqb_ℤ (kstrcmp n f.name) 0) (read_name-fits f q)
    ∙ same

pub is_named-used : (name : List ℕ) (f : FsFile) → is_named name f ≡ true → f.used ≡ true
unfolding is_named
is_named-used name f h = ground arith

pub other-name :
    (name m : List ℕ) (f : FsFile)
    → IsName name
    → IsString m
    → f.name ≡ name
    → m ≢ name
    → is_named m f ≡ false
other-name name m f p q e n = elim (Bool-cases (is_named m f)) [
  | inr h ↦ h
  | inl h ↦ absurd (n (sym (is_named-name m f q (rw e p) h) ∙ e))
]

module _ (p : FsFile → Bool) where
  find_index-set_other :
      (fs : List FsFile) (i : ℕ) (v : FsFile)
      → p v ≡ false
      → p (get_or fs i no_file) ≡ false
      → find_index p (set fs i v) ≡ find_index p fs
  unfolding find_index
  find_index-set_other [] i v h g = refl
  find_index-set_other (f ∷ fs) zero v h g = rw (h, g) refl
  find_index-set_other (f ∷ fs) (suc i) v h g = rw (find_index-set_other fs i v h g) refl

  pub find_index-set_new :
      (fs : List FsFile) (i : ℕ) (v : FsFile)
      → find_index p fs ≡ none
      → p v ≡ true
      → i < length fs
      → find_index p (set fs i v) ≡ some i
  unfolding find_index
  find_index-set_new [] i v e h l = absurd (omega arith)
  find_index-set_new (f ∷ fs) zero v e h l = rw h refl
  find_index-set_new (f ∷ fs) (suc i) v e h l = ground (arith, find_index-set_new fs i v)

pub lookup-found :
    (s : Fs) (m : List ℕ) (i : ℕ)
    → find_index (is_named m) s.files ≡ some i
    → lookup s m ≡ some (contents (get_or s.files i no_file))
unfolding lookup fs_find
lookup-found s m i e = ground arith

pub lookup-missing :
    (s : Fs) (m : List ℕ) → find_index (is_named m) s.files ≡ none → lookup s m ≡ none
unfolding lookup fs_find
lookup-missing s m e = ground arith

-- The table with slot i rewritten.
abbrev pub put_file : Fs → ℕ → FsFile → ℤ → Fs
put_file s i v n = record { files = set s.files i v; file_count = n }

pub put-lookup_other :
    (s : Fs) (i : ℕ) (v : FsFile) (n : ℤ) (m : List ℕ)
    → is_named m v ≡ false
    → is_named m (get_or s.files i no_file) ≡ false
    → lookup (put_file s i v n) m ≡ lookup s m
put-lookup_other s i v n m h g =
    let same = find_index-set_other (is_named m) s.files i v h g in
    elim (Option-cases (find_index (is_named m) s.files)) [
      | inl e ↦ lookup-missing (put_file s i v n) m (same ∙ e) ∙ sym (lookup-missing s m e)
      | inr (j, e) ↦
          let here = find_index-holds (is_named m) s.files j no_file e in
          let test : ℕ → Bool = λ k. is_named m (get_or s.files k no_file) in
          let apart : i ≢ j = λ q. let w = ap test q in ground arith in
          lookup-found (put_file s i v n) m j (same ∙ e)
          ∙ ap (λ f. some (contents f)) (get_or-set_ne s.files i j v no_file apart)
          ∙ sym (lookup-found s m j e)
    ]

-- The calls, by the slot that they change.
abbrev pub created : FsFile → List ℕ → List ℕ → Bool → FsFile
created f name src exec = record (store (record f { name = name }) src) {
  used = true;
  executable = exec;
}

pub contents-created :
    (f : FsFile) (name src : List ℕ) (exec : Bool)
    → contents (created f name src exec) ≡ take 4095 src
unfolding contents
contents-created f name src exec = contents-store (record f { name = name }) src

pub create-eq :
    (s : Fs) (name src : List ℕ) (exec : Bool) (i : ℕ)
    → IsName name
    → find_index (is_named name) s.files ≡ none
    → find_index is_unused s.files ≡ some i
    → fs_create s name src exec ≡ (
      pos 0,
      put_file s i (created (get_or s.files i no_file) name src exec) (inc_ℤ s.file_count),
    )
unfolding fs_create fs_find
create-eq s name src exec i p e f =
    rw (← put_name-fits (get_or s.files i no_file) name p) (ground arith)

pub create-named :
    (s : Fs) (name src : List ℕ) (exec : Bool) (i : ℕ)
    → find_index (is_named name) s.files ≡ some i
    → fs_create s name src exec ≡ (failed, s)
unfolding fs_create fs_find
create-named s name src exec i e = ground arith

pub create-full :
    (s : Fs) (name src : List ℕ) (exec : Bool)
    → find_index (is_named name) s.files ≡ none
    → find_index is_unused s.files ≡ none
    → fs_create s name src exec ≡ (failed, s)
unfolding fs_create fs_find
create-full s name src exec e f = ground arith

pub write-found :
    (s : Fs) (name src : List ℕ) (i : ℕ)
    → find_index (is_named name) s.files ≡ some i
    → fs_write s name src
      ≡ (pos 0, put_file s i (store (get_or s.files i no_file) src) s.file_count)
unfolding fs_write fs_find
write-found s name src i e = ground arith

pub write-missing :
    (s : Fs) (name src : List ℕ)
    → find_index (is_named name) s.files ≡ none
    → fs_write s name src ≡ fs_create s name src false
unfolding fs_write fs_find
write-missing s name src e = ground arith

pub delete-found :
    (s : Fs) (name : List ℕ) (i : ℕ)
    → find_index (is_named name) s.files ≡ some i
    → fs_delete s name ≡ (
      pos 0,
      put_file s i (record (get_or s.files i no_file) { used = false }) (dec_ℤ s.file_count),
    )
unfolding fs_delete fs_find
delete-found s name i e = ground arith

pub delete-missing :
    (s : Fs) (name : List ℕ)
    → find_index (is_named name) s.files ≡ none
    → fs_delete s name ≡ (failed, s)
unfolding fs_delete fs_find
delete-missing s name e = ground arith

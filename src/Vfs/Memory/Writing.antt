-- ===== src/Vfs/Memory/Writing.antt =====
-- src/vfs.c: what mem_vfs_write does to a file, and what mem_vfs_read gets of it.
use kum_os.Base.{
  ℕ, ◌%◌, ◌^◌, zero, suc, ◌+◌, ◌-◌, ◌≤◌, ◌<◌, ◌≡◌, inl, inr, refl, sym, ap, ◌∙◌, true, false, some,
  List, [], ◌∷◌, ◌++◌, arith, if◌then◌else◌, ltb, length, get_or, set, drop, take, length-append,
  length-take, min, get_or-set_self, ℤ, pos, negsuc, add32, sub32, to_int, Bool-cases, ltb→lt,
  take-all,
}
use kum_os.Kstring.{c_string, IsString}
use kum_os.Fs.{Fs, FsFile, no_file, read_name, fs_find, fs_write}
use kum_os.Fs.Table.{IsName, IsValid, contents, read_name-fits}
use kum_os.Fs.Lookup.{Became, write_lookup, write_succeeds}
use kum_os.Vfs.Memory.{
  MemOpen, MemVfs, no_open, live_open, kept, mem_vfs_write, mem_vfs_read, read_count,
}

c_string-IsString : (s : List ℕ) → IsString s → c_string s ≡ s
unfolding c_string
c_string-IsString [] p = refl
c_string-IsString (c ∷ cs) (h, p) = let rest = c_string-IsString cs p in rw rest (ground arith)

take-take :
    (len size : ℕ) (xs : List ℕ)
    → take (if ltb size len then size else len) xs ≡ take len (take size xs)
take-take zero size xs = ground arith
take-take (suc len) zero xs = ground arith
take-take (suc len) (suc size) [] = elim (Bool-cases (ltb (suc size) (suc len))) [
  | inl t ↦ rw t refl
  | inr f ↦ rw f refl
]
take-take (suc len) (suc size) (x ∷ xs) =
    let rec = take-take len size xs in
    elim (Bool-cases (ltb size len)) [
      | inl t ↦
          let t' : ltb (suc size) (suc len) ≡ true = ground arith in
          rw t' (ap (◌∷◌ x) (ap (λ b. take (if b then size else len) xs) (sym t) ∙ rec))
      | inr f ↦
          let f' : ltb (suc size) (suc len) ≡ false = ground arith in
          rw f' (ap (◌∷◌ x) (ap (λ b. take (if b then size else len) xs) (sym f) ∙ rec))
    ]

take-nil : (n : ℕ) → take {A = ℕ} n [] ≡ []
take-nil zero = refl
take-nil (suc n) = refl

take-drop-take :
    (len size p : ℕ) (xs : List ℕ)
    → p ≤ size
    → take (if ltb (size - p) len then size - p else len) (drop p xs)
      ≡ take len (drop p (take size xs))
take-drop-take len size zero xs h =
    let same : size - 0 ≡ size = omega arith in rw same (take-take len size xs)
take-drop-take len zero (suc p) xs h = absurd (omega arith)
take-drop-take len (suc size) (suc p) [] h = take-nil _ ∙ sym (take-nil len)
take-drop-take len (suc size) (suc p) (x ∷ xs) h =
    let same : suc size - suc p ≡ size - p = omega arith in
    rw same (take-drop-take len size p xs (omega arith))

-- The open file that a descriptor stands for.
abbrev pub entry_of : MemVfs → ℕ → MemOpen
entry_of m i = get_or m.opens i no_open

abbrev pub file_of : MemVfs → ℕ → FsFile
file_of m i = get_or m.fs.files (entry_of m i).file_idx no_file

module _ (m : MemVfs) (d : ℤ) (i : ℕ) (live : live_open m.opens d ≡ some i) where
  write_step :
      (src : List ℕ)
      → mem_vfs_write d src m ≡ (
          let o = entry_of m i in
          let f = file_of m i in
          let keep = kept o f in
          (
            to_int (length src),
            if ltb (add32 keep (length src)) 4095
                then record {
                  fs = (fs_write m.fs (read_name f) (c_string (take keep f.data_ ++ src))).1;
                  opens = set m.opens i (record o { pos_ = add32 o.pos_ (length src) });
                }
                else m,
          ))
  unfolding mem_vfs_write
  write_step src = rw (mem_vfs_write, live) refl

  read_step :
      (len : ℕ)
      → mem_vfs_read d len m ≡ (
          let o = entry_of m i in
          let n = read_count (file_of m i).size o.pos_ len in
          (
            to_int n,
            take n (drop o.pos_ (file_of m i).data_),
            record m { opens = set m.opens i (record o { pos_ = add32 o.pos_ n }) },
          ))
  unfolding mem_vfs_read
  read_step len = rw (mem_vfs_read, live) refl

live_lt : (opens : List MemOpen) (d : ℤ) (i : ℕ) → live_open opens d ≡ some i → i < 16
unfolding live_open
live_lt opens (pos k) i e = ground arith
live_lt opens (negsuc k) i e = ground arith

write_text :
    (fs : Fs) (name text : List ℕ)
    → IsValid fs
    → IsName name
    → (fs_write fs name text).0 ≡ pos 0
    → length text ≤ 4095
    → Became fs (fs_write fs name text).1 name (some text)
write_text fs name text valid p ok le =
    let (here, others) = write_lookup fs name valid p text ok in
    (here ∙ ap some (take-all 4095 text le), others)

-- What a write of `src` leaves in the file: what it keeps, and the bytes written.
abbrev pub new_text : MemVfs → ℕ → List ℕ → List ℕ
new_text m i src = take (kept (entry_of m i) (file_of m i)) (file_of m i).data_ ++ src

-- mem_vfs_write of less than 2^31 - 4096 bytes to one of the 16 open files, in a valid table, where
-- the file's size is below 4096 and its name leads to it. The bytes kept are those before the
-- position, or the whole file if the position is behind its end; they and the bytes written hold no
-- 0. If the two together are fewer than 4095, the name stands for them afterwards, other names for
-- what they did, and the position has moved by the bytes written, modulo 2^32. Else nothing changes.
-- Either way the count of bytes to write is returned.
pub mem_vfs_write_lem :
    (m : MemVfs) (d : ℤ) (i : ℕ) (src : List ℕ)
    → IsValid m.fs
    → length m.opens ≡ 16
    → live_open m.opens d ≡ some i
    → fs_find m.fs (file_of m i).name ≡ some (entry_of m i).file_idx
    → (file_of m i).size < 4096
    → length src + 4096 < 2 ^ 31
    → IsString (new_text m i src)
    → ((mem_vfs_write d src m).0 ≡ pos (length src))
      × (if ltb (kept (entry_of m i) (file_of m i) + length src) 4095
          then Became m.fs (mem_vfs_write d src m).1.fs (file_of m i).name (some (new_text m i src))
            × ((entry_of (mem_vfs_write d src m).1 i).pos_
                ≡ ((entry_of m i).pos_ + length src) % 2 ^ 32)
          else (mem_vfs_write d src m).1 ≡ m)
mem_vfs_write_lem m d i src valid slots live found small short text =
    let o = entry_of m i in
    let f = file_of m i in
    let keep = kept o f in
    let keep_small : keep < 4096 = ground arith in
    let sum : add32 keep (length src) ≡ keep + length src = omega arith in
    let len : to_int (length src) ≡ pos (length src) = ground arith in
    let whole = c_string-IsString (new_text m i src) text in
    let name = valid.names o.file_idx in
    let written = record m {
      fs = (fs_write m.fs f.name (new_text m i src)).1;
      opens = set m.opens i (record o { pos_ = add32 o.pos_ (length src) });
    } in
    let step : mem_vfs_write d src m
        ≡ (pos (length src), if ltb (keep + length src) 4095 then written else m) =
      write_step m d i live src ∙ rw (sum, len, whole, read_name-fits f name) refl in
    let slot = live_lt m.opens d i live in
    elim (Bool-cases (ltb (keep + length src) 4095)) [
      | inl t ↦
          let ok = write_succeeds m.fs f.name (new_text m i src) o.file_idx found in
          let became = write_text m.fs f.name (new_text m i src) valid name ok (
            omega (
              arith,
              length-append (take keep f.data_) src,
              length-take keep f.data_,
              ltb→lt (keep + length src) 4095 t,
            )) in
          let there =
            get_or-set_self m.opens i (record o { pos_ = add32 o.pos_ (length src) }) no_open
              (omega arith) in
          rw (step, t) (refl, (became, ap (λ o. o.pos_) there))
      | inr f' ↦ rw (step, f') (refl, refl)
    ]

-- mem_vfs_read of an open file, whose position is not behind its end: the bytes of the file from the
-- position on, at most `len`, and the position moves behind them.
pub mem_vfs_read_lem :
    (m : MemVfs) (d : ℤ) (i len : ℕ)
    → length m.opens ≡ 16
    → live_open m.opens d ≡ some i
    → (entry_of m i).pos_ ≤ (file_of m i).size
    → (file_of m i).size < 4096
    → (let out = take len (drop (entry_of m i).pos_ (contents (file_of m i))) in
        ((mem_vfs_read d len m).1 ≡ out)
        × ((mem_vfs_read d len m).0 ≡ pos (min len ((file_of m i).size - (entry_of m i).pos_)))
        × ((entry_of (mem_vfs_read d len m).2 i).pos_
            ≡ (entry_of m i).pos_ + min len ((file_of m i).size - (entry_of m i).pos_)))
unfolding contents
mem_vfs_read_lem m d i len slots live inside small =
    let o = entry_of m i in
    let f = file_of m i in
    let avail : sub32 f.size o.pos_ ≡ f.size - o.pos_ = omega arith in
    let count : read_count f.size o.pos_ len ≡ min len (f.size - o.pos_) =
      ap (λ a. if ltb a len then a else len) avail ∙ if_min (f.size - o.pos_) len in
    let out : take (read_count f.size o.pos_ len) (drop o.pos_ f.data_)
        ≡ take len (drop o.pos_ (take f.size f.data_)) =
      ap (λ a. take (if ltb a len then a else len) (drop o.pos_ f.data_)) avail
      ∙ take-drop-take len f.size o.pos_ f.data_ inside in
    let n = read_count f.size o.pos_ len in
    let small_n : to_int n ≡ pos n = int_small n (omega arith) in
    let sum : add32 o.pos_ n ≡ o.pos_ + min len (f.size - o.pos_) = omega arith in
    let there =
      get_or-set_self m.opens i (record o { pos_ = add32 o.pos_ n }) no_open
        (omega (arith, live_lt m.opens d i live)) in
    rw (read_step m d i live len) (out, small_n ∙ ap pos count, ap (λ o. o.pos_) there ∙ sum)
  where
    if_min : (a len : ℕ) → (if ltb a len then a else len) ≡ min len a
    if_min a len = ground arith

    int_small : (n : ℕ) → n < 4096 → to_int n ≡ pos n
    int_small n h = ground arith

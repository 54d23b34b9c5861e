-- ===== src/Vfs/Disk/Buffer.antt =====
-- src/vfs.c: the buffer of an open file on the disk.
use kum_os.Base.{
  ℕ, zero, suc, ◌+◌, ◌-◌, ◌≤◌, ◌<◌, ◌≡◌, inl, inr, refl, ap, ◌∙◌, leb, some, none, true, false,
  List, [], ◌∷◌, ◌++◌, arith, if◌then◌else◌, ltb, length, set, drop, take, length-take, length-set,
  min, pos, add32, to_int, u32, Bool-cases, ltb→lt, ltb→le,
}
use kum_os.Fat12.Volume.{splice}
use kum_os.Vfs.Memory.{has_append, has_trunc}
use kum_os.Vfs.Disk.{disk_opened, DiskOpen, disk_buf_size, disk_write_at, put_bytes, write_count}

-- An open file whose position lies in the file, which leaves a byte of the buffer free.
pub record IsValid (o : DiskOpen) : Type 0 where
  pub full : length o.buf ≡ disk_buf_size
  pub inside : o.pos_ ≤ o.size
  pub room : o.size < disk_buf_size

-- The bytes of the file.
abbrev pub bytes : DiskOpen → List ℕ
bytes o = take o.size o.buf

splice-suc :
    (x : ℕ) (xs : List ℕ) (at : ℕ) (w : List ℕ) → splice (x ∷ xs) (suc at) w ≡ x ∷ splice xs at w
unfolding splice
splice-suc x xs at [] = refl
splice-suc x xs at (c ∷ w) =
    let next : suc at + 1 ≡ suc (at + 1) = omega arith in
    rw next (splice-suc x (set xs at c) (at + 1) w)

splice-front :
    (x : ℕ) (xs : List ℕ) (c : ℕ) (w : List ℕ) → splice (x ∷ xs) 0 (c ∷ w) ≡ c ∷ splice xs 0 w
unfolding splice
splice-front x xs c w = splice-suc c xs 0 w

splice-nil : (xs : List ℕ) (at : ℕ) → splice xs at [] ≡ xs
unfolding splice
splice-nil xs at = refl

-- Bytes written inside a file.
splice-inside :
    (size : ℕ) (xs : List ℕ) (at : ℕ) (w : List ℕ)
    → at + length w ≤ size
    → size ≤ length xs
    → take size (splice xs at w)
      ≡ take at (take size xs) ++ w ++ drop (length w) (drop at (take size xs))
splice-inside size xs zero [] le fits = ap (take size) (splice-nil xs 0)
splice-inside zero xs zero (c ∷ w) le fits = absurd (omega arith)
splice-inside (suc size) [] zero (c ∷ w) le fits = absurd (omega arith)
splice-inside (suc size) (x ∷ xs) zero (c ∷ w) le fits =
    ap (take (suc size)) (splice-front x xs c w)
    ∙ ap (◌∷◌ c) (splice-inside size xs zero w (omega arith) (omega arith))
splice-inside zero xs (suc at) w le fits = absurd (omega arith)
splice-inside (suc size) [] (suc at) w le fits = absurd (omega arith)
splice-inside (suc size) (x ∷ xs) (suc at) w le fits =
    ap (take (suc size)) (splice-suc x xs at w)
    ∙ ap (◌∷◌ x) (splice-inside size xs at w (omega arith) (omega arith))

drop-nil : (n : ℕ) → drop {A = ℕ} n [] ≡ []
drop-nil zero = refl
drop-nil (suc n) = refl

-- Bytes that a file ends with.
splice-end :
    (end size : ℕ) (xs : List ℕ) (at : ℕ) (w : List ℕ)
    → end ≡ at + length w
    → at ≤ size
    → size ≤ end
    → end ≤ length xs
    → take end (splice xs at w)
      ≡ take at (take size xs) ++ w ++ drop (length w) (drop at (take size xs))
splice-end zero zero xs zero [] e lo hi fits = refl
splice-end zero (suc size) xs zero [] e lo hi fits = absurd (omega arith)
splice-end (suc end) size xs zero [] e lo hi fits = absurd (omega arith)
splice-end zero size xs zero (c ∷ w) e lo hi fits = absurd (omega arith)
splice-end (suc end) size [] zero (c ∷ w) e lo hi fits = absurd (omega arith)
splice-end (suc end) zero (x ∷ xs) zero (c ∷ w) e lo hi fits =
    ap (take (suc end)) (splice-front x xs c w)
    ∙ ap (◌∷◌ c) (
        splice-end end zero xs zero w (omega arith) (omega arith) (omega arith) (omega arith)
        ∙ ap (◌++◌ w) (drop-nil (length w)))
splice-end (suc end) (suc size) (x ∷ xs) zero (c ∷ w) e lo hi fits =
    ap (take (suc end)) (splice-front x xs c w)
    ∙ ap (◌∷◌ c)
        (splice-end end size xs zero w (omega arith) (omega arith) (omega arith) (omega arith))
splice-end zero size xs (suc at) w e lo hi fits = absurd (omega arith)
splice-end (suc end) zero xs (suc at) w e lo hi fits = absurd (omega arith)
splice-end (suc end) (suc size) [] (suc at) w e lo hi fits = absurd (omega arith)
splice-end (suc end) (suc size) (x ∷ xs) (suc at) w e lo hi fits =
    ap (take (suc end)) (splice-suc x xs at w)
    ∙ ap (◌∷◌ x)
        (splice-end end size xs at w (omega arith) (omega arith) (omega arith) (omega arith))

length-splice : (xs : List ℕ) (at : ℕ) (w : List ℕ) → length (splice xs at w) ≡ length xs
unfolding splice
length-splice xs at [] = refl
length-splice xs at (c ∷ w) = length-splice (set xs at c) (at + 1) w ∙ length-set xs at c

-- What disk_vfs_write writes: as much as the buffer has room for.
abbrev pub written : DiskOpen → List ℕ → List ℕ
written o src = take (min (length src) (4095 - o.pos_)) src

-- The file afterwards.
abbrev pub after_write : DiskOpen → List ℕ → DiskOpen
after_write o src =
    let end = o.pos_ + length (written o src) in
    record o {
      buf = splice o.buf o.pos_ (written o src);
      pos_ = end;
      size = if ltb o.size end then end else o.size;
    }

write_eq :
    (o : DiskOpen) (src : List ℕ)
    → IsValid o
    → length src < u32 - 4096
    → disk_write_at o src ≡ some (pos (length (written o src)), after_write o src)
unfolding disk_write_at
write_eq o src v small =
    let p = v.inside in
    let q = v.room in
    let n = count o.pos_ (length src) (omega arith) small in
    let len : min (length src) (4095 - o.pos_) ≡ length (written o src) =
      omega (arith, length-take (min (length src) (4095 - o.pos_)) src) in
    let sum : add32 o.pos_ (length (written o src)) ≡ o.pos_ + length (written o src) =
      omega arith in
    let back : to_int (length (written o src)) ≡ pos (length (written o src)) =
      int_small (length (written o src)) (omega arith) in
    ap (λ n. put_bytes o n src) n
    ∙ put_eq o src (min (length src) (4095 - o.pos_)) (len ∙ refl) (omega arith) sum back
  where
    count : (p len : ℕ) → p < 4096 → len < u32 - 4096 → write_count p len ≡ min len (4095 - p)
    count p len h small = ground arith

    put_eq :
        (o : DiskOpen) (src : List ℕ) (n : ℕ)
        → n ≡ length (take n src)
        → o.pos_ + n ≤ disk_buf_size
        → add32 o.pos_ (length (take n src)) ≡ o.pos_ + length (take n src)
        → to_int (length (take n src)) ≡ pos (length (take n src))
        → put_bytes o n src
          ≡ some (
            pos (length (take n src)),
            record o {
              buf = splice o.buf o.pos_ (take n src);
              pos_ = o.pos_ + length (take n src);
              size =
                  if ltb o.size (o.pos_ + length (take n src))
                  then o.pos_ + length (take n src)
                  else o.size;
            },
          )
    put_eq o src n len fits sum back =
        let in_buf : leb (o.pos_ + n) disk_buf_size ≡ true = ground arith in
        rw in_buf (
          ap
            (λ m. some (
              to_int m,
              record o {
                buf = splice o.buf o.pos_ (take n src);
                pos_ = add32 o.pos_ m;
                size = if ltb o.size (add32 o.pos_ m) then add32 o.pos_ m else o.size;
              },
            ))
            len
          ∙ rw (sum, back) refl)

    int_small : (n : ℕ) → n < 4096 → to_int n ≡ pos n
    int_small n h = ground arith

-- disk_vfs_write of less than 2^32 - 4096 bytes on an open file whose position lies in the file, with
-- a byte of the buffer to spare: it stays inside the buffer, the bytes that there is room for stand at
-- the position, which moves behind them, the rest of the file is as it was, their count is returned,
-- and the file stays such a file.
pub disk_write_lem :
    (o : DiskOpen) (src : List ℕ)
    → IsValid o
    → length src < u32 - 4096
    → (o' : DiskOpen) × (disk_write_at o src ≡ some (pos (length (written o src)), o'))
      × IsValid o'
      × (o'.pos_ ≡ o.pos_ + length (written o src))
      × (bytes o'
          ≡ take o.pos_ (bytes o)
            ++ written o src
            ++ drop (length (written o src)) (drop o.pos_ (bytes o)))
disk_write_lem o src v small =
    let p = v.inside in
    let q = v.room in
    let full = v.full in
    let w = written o src in
    let short = length-take (min (length src) (4095 - o.pos_)) src in
    let end = o.pos_ + length w in
    (
      after_write o src,
      write_eq o src v small,
      record {
        full = length-splice o.buf o.pos_ w ∙ full;
        inside = ground arith;
        room = ground arith;
      },
      refl,
      elim (Bool-cases (ltb o.size end)) [
        | inl t ↦
            ap (λ b. take (if b then end else o.size) (splice o.buf o.pos_ w)) t
            ∙ splice-end end o.size o.buf o.pos_ w refl p (omega (arith, ltb→lt o.size end t))
                (omega arith)
        | inr f ↦
            ap (λ b. take (if b then end else o.size) (splice o.buf o.pos_ w)) f
            ∙ splice-inside o.size o.buf o.pos_ w (omega (arith, ltb→le o.size end f)) (omega arith)
      ],
    )

-- A file of 4096 bytes that is opened with O_APPEND and without O_TRUNC: for a write of less than
-- 2^32 - 4096 bytes, also of none, the count of bytes to copy is 2^32 - 1, and the copy runs over the
-- end of the buffer.
pub append_full :
    (o : DiskOpen) (name : List ℕ) (flags : ℕ) (old src : List ℕ)
    → length old ≡ disk_buf_size
    → has_append flags ≡ true
    → has_trunc flags ≡ false
    → length src < u32 - 4096
    → (let full = disk_opened o name flags old in
        (write_count full.pos_ (length src) ≡ u32 - 1) × (disk_write_at full src ≡ none))
unfolding disk_write_at disk_opened
append_full o name flags old src full append keep small =
    let at : (disk_opened o name flags old).pos_ ≡ 4096 = rw (keep, append) full in
    let n : write_count (disk_opened o name flags old).pos_ (length src) ≡ u32 - 1 =
      ap (λ p. write_count p (length src)) at ∙ overflow (length src) small in
    (n, over (disk_opened o name flags old) src at n)
  where
    overflow : (len : ℕ) → len < u32 - 4096 → write_count 4096 len ≡ u32 - 1
    overflow len small = ground arith

    leb_far : (p n : ℕ) → p ≡ 4096 → n ≡ u32 - 1 → leb (p + n) disk_buf_size ≡ false
    leb_far p n at e = ground arith

    over :
        (o : DiskOpen) (src : List ℕ)
        → o.pos_ ≡ 4096
        → write_count o.pos_ (length src) ≡ u32 - 1
        → put_bytes o (write_count o.pos_ (length src)) src ≡ none
    over o src at n =
        let far : leb (o.pos_ + write_count o.pos_ (length src)) disk_buf_size ≡ false =
          leb_far o.pos_ (write_count o.pos_ (length src)) at n in
        rw far refl

-- ===== src/Fat12/Volume/Files/Sectors.antt =====
-- The sectors of one cluster: what the inner loop of fat12_write leaves on a disk, the inner loop of
-- fat12_read finds there.
use kum_os.Base.{
  ℕ, zero, suc, ◌+◌, ◌-◌, ◌*◌, ◌≤◌, ◌<◌, ◌≡◌, ◌≢◌, ◌⊎◌, inl, inr, refl, sym, ap, ◌∙◌, Bool, true,
  false, some, List, [], ◌∷◌, ◌++◌, arith, if◌then◌else◌, ◌==◌, Bool-cases, length, drop, take,
  replicate, min, length-append, length-replicate, length-take, length-drop, take-append-drop,
  take-min-append, add32, u32,
}
use mathlib.Core.List.{append_assoc}
use mathlib.Core.Path.{subst}
use kum_os.Fat12.Volume.{Device, sector_size}
use kum_os.Fat12.Volume.Files.{padded, read_sectors, write_sectors}

-- What a disk is relied on for: a sector that was written is read back, and the others stay.
pub record IsDisk {D : Type 0} (dev : Device D) : Type 0 where
  pub read_written :
      (lba : ℕ) (buf : List ℕ) (d : D)
      → length buf ≡ sector_size
      → (dev.ata_write lba buf d).0 ≡ true
      → dev.ata_read lba (dev.ata_write lba buf d).1 ≡ some buf
  pub read_other :
      (lba m : ℕ) (buf : List ℕ) (d : D)
      → m ≢ lba
      → dev.ata_read m (dev.ata_write lba buf d).1 ≡ dev.ata_read m d

length-padded : (src : List ℕ) → length (padded src) ≡ sector_size
unfolding padded
length-padded src = omega (
  arith,
  length-append (take sector_size src) (replicate (sector_size - length src) 0),
  length-take sector_size src,
  length-replicate {A = ℕ} (sector_size - length src) 0,
)

take-padded :
    (src : List ℕ) → take (min (length src) sector_size) (padded src) ≡ take sector_size src
unfolding padded
take-padded src = take-min-append sector_size src (replicate (sector_size - length src) 0)

pub contra : false ≢ true
contra e = ground (arith, e)

pub not_empty : (n : ℕ) → (suc n == 0) ≡ false
not_empty n = ground arith

module _ {D : Type 0} (dev : Device D) (disk : IsDisk dev) where
  write-nothing : (rounds lba : ℕ) (d : D) → write_sectors dev (suc rounds) lba [] d ≡ (true, [], d)
  unfolding write_sectors
  write-nothing rounds lba d = refl

  next-lba : (lba : ℕ) → lba + 1 < u32 → add32 lba 1 ≡ lba + 1
  next-lba lba h = omega arith

  write-step :
      (rounds lba : ℕ) (c : ℕ) (cs : List ℕ) (d : D)
      → lba + 1 < u32
      → let (ok, d1) = dev.ata_write lba (padded (c ∷ cs)) d in
        write_sectors dev (suc rounds) lba (c ∷ cs) d ≡ (
          if ok
          then write_sectors dev rounds (lba + 1) (drop sector_size (c ∷ cs)) d1
          else (false, c ∷ cs, d1))
  unfolding write_sectors
  write-step rounds lba c cs d h = rw (next-lba lba h, not_empty (length cs)) refl

  -- The sectors outside of the rounds stay.
  pub write-outside :
      (rounds lba : ℕ) (src : List ℕ) (d : D) (m : ℕ)
      → lba + rounds < u32
      → (m < lba) ⊎ (lba + rounds ≤ m)
      → dev.ata_read m (write_sectors dev rounds lba src d).2 ≡ dev.ata_read m d
  unfolding write_sectors
  write-outside zero lba src d m h o = refl
  write-outside (suc rounds) lba [] d m h o = refl
  write-outside (suc rounds) lba (c ∷ cs) d m h o =
      let buf = padded (c ∷ cs) in
      let here = disk.read_other lba m buf d (ground (arith, o)) in
      elim (Bool-cases (dev.ata_write lba buf d).0) [
        | inr failed ↦ rw (write-step rounds lba c cs d (omega arith), failed) here
        | inl ok ↦
            rw (write-step rounds lba c cs d (omega arith), ok)
              (write-outside rounds (lba + 1) (drop sector_size (c ∷ cs))
                  (dev.ata_write lba buf d).1 m (omega arith) (ground (arith, o))
                ∙ here)
      ]

  read-step :
      (rounds lba remaining : ℕ) (d : D) (buf : List ℕ)
      → remaining ≢ 0
      → lba + 1 < u32
      → dev.ata_read lba d ≡ some buf
      → let count = min remaining sector_size in
        let (ok, rest, left) = read_sectors dev rounds (lba + 1) (remaining - count) d in
        read_sectors dev (suc rounds) lba remaining d ≡ (ok, take count buf ++ rest, left)
  unfolding read_sectors
  read-step rounds lba remaining d buf n h e =
      let busy : (remaining == 0) ≡ false = ground arith in
      rw (read_sectors, busy, e, next-lba lba h) refl

  write-ok :
      (rounds lba c : ℕ) (cs : List ℕ) (d : D)
      → lba + 1 < u32
      → (dev.ata_write lba (padded (c ∷ cs)) d).0 ≡ true
      → write_sectors dev (suc rounds) lba (c ∷ cs) d
        ≡ write_sectors dev rounds
            (lba + 1)
            (drop sector_size (c ∷ cs))
            (dev.ata_write lba (padded (c ∷ cs)) d).1
  write-ok rounds lba c cs d h ok = rw (write-step rounds lba c cs d h, ok) refl

  write-fails :
      (rounds lba c : ℕ) (cs : List ℕ) (d : D)
      → lba + 1 < u32
      → (dev.ata_write lba (padded (c ∷ cs)) d).0 ≡ false
      → (write_sectors dev (suc rounds) lba (c ∷ cs) d).0 ≡ false
  write-fails rounds lba c cs d h no_ = rw (write-step rounds lba c cs d h, no_) refl

  -- The first sectors of d' that a loop wrote.
  abbrev pub Agree : ℕ → ℕ → D → D → Type 0
  Agree rounds lba d' d =
      (s : ℕ) → s < rounds → dev.ata_read (lba + s) d' ≡ dev.ata_read (lba + s) d

  -- What the loop of fat12_read gets on d' from sectors that were written, and what was left make
  -- up the data.
  abbrev pub ReadBack : ℕ → ℕ → List ℕ → D → Bool × List ℕ × D → Type 0
  ReadBack rounds lba src d' (ok, left, d) =
      (front : List ℕ) × (read_sectors dev rounds lba (length src) d' ≡ (true, front, length left))
      × (front ++ left ≡ src)
      × (length left ≡ length src - rounds * sector_size)

  ReadBack-step :
      (rounds lba c : ℕ) (cs : List ℕ) (d' : D) (r : Bool × List ℕ × D)
      → lba + 1 < u32
      → dev.ata_read lba d' ≡ some (padded (c ∷ cs))
      → ReadBack rounds (lba + 1) (drop sector_size (c ∷ cs)) d' r
      → ReadBack (suc rounds) lba (c ∷ cs) d' r
  ReadBack-step rounds lba c cs d' (ok, left, d) low first (front, read, joined, n) =
      let src = c ∷ cs in
      let lens : length src - min (length src) sector_size ≡ length (drop sector_size src) =
        omega (arith, length-drop sector_size src) in
      (
        take sector_size src ++ front,
        read-step rounds lba (length src) d' (padded src) (λ e. omega arith) low first
            ∙ rw (lens, read, take-padded src) refl,
        append_assoc (take sector_size src) front left
            ∙ ap (◌++◌ (take sector_size src)) joined
            ∙ take-append-drop sector_size src,
        omega (arith, n, length-drop sector_size src),
      )

  -- The loop of fat12_read gets back what that of fat12_write wrote, on a disk on which the sectors
  -- are still the same.
  pub read-write_sectors :
      (rounds lba : ℕ) (src : List ℕ) (d d' : D)
      → lba + rounds < u32
      → (write_sectors dev rounds lba src d).0 ≡ true
      → Agree rounds lba d' (write_sectors dev rounds lba src d).2
      → ReadBack rounds lba src d' (write_sectors dev rounds lba src d)
  unfolding write_sectors read_sectors
  read-write_sectors zero lba src d d' h ok same = ([], refl, refl, omega arith)
  read-write_sectors (suc rounds) lba [] d d' h ok same = ([], refl, refl, omega arith)
  read-write_sectors (suc rounds) lba (c ∷ cs) d d' h ok same =
      let src = c ∷ cs in
      let buf = padded src in
      let d1 = (dev.ata_write lba buf d).1 in
      let rest = drop sector_size src in
      let low : lba + 1 < u32 = omega arith in
      elim (Bool-cases (dev.ata_write lba buf d).0) [
        | inr fails ↦ absurd (contra (sym (write-fails rounds lba c cs d low fails) ∙ ok))
        | inl wrote ↦
            let w = write-ok rounds lba c cs d low wrote in
            let later = write_sectors dev rounds (lba + 1) rest d1 in
            let same' : Agree rounds (lba + 1) d' later.2 = λ s l.
              let e : lba + 1 + s ≡ lba + suc s = omega arith in
              rw e (same (suc s) (omega arith) ∙ ap (λ x. dev.ata_read (lba + suc s) x.2) w) in
            let zero_e : lba + 0 ≡ lba = omega arith in
            let first : dev.ata_read lba d' ≡ some buf = rw (← zero_e) (
              same 0 (omega arith)
              ∙ ap (λ x. dev.ata_read (lba + 0) x.2) w
              ∙ rw zero_e (
                  write-outside rounds (lba + 1) rest d1 lba (omega arith) (inl (omega arith))
                  ∙ disk.read_written lba buf d (length-padded src) wrote)) in
            subst (ReadBack (suc rounds) lba src d') (sym w) (
              ReadBack-step rounds lba c cs d' later low first (
                read-write_sectors rounds (lba + 1) rest d1 d' (omega arith)
                  (sym (ap (λ x. x.0) w) ∙ ok) same'))
      ]

-- ===== src/Fat12/Volume/Files/RoundTrip.antt =====
-- A file that fat12_write puts on a disk is read back from its first cluster.
use native.Mathlib.Decide.{ℕ_discrete}
use mathlib.Core.Path.{subst}
use kum_os.Base.{
  ℕ, zero, suc, ◌≤◌, ◌<◌, ◌≡◌, ◌≢◌, inl, inr, refl, sym, ap, ◌∙◌, Bool, true, Option, none, some,
  List, [], ◌∷◌, ◌++◌, arith, if◌then◌else◌, ◌==◌, ltb, ◌&&◌, Bool-cases, Option-cases, length,
  length-drop, drop, add32,
}
use kum_os.Fat12.{fat_get, fat_set, fat_alloc, is_data_cluster}
use kum_os.Fat12.Entries.{fat_set_lem}
use kum_os.Fat12.Volume.{Device, Volume, cluster_to_lba, sector_size}
use kum_os.Fat12.Volume.Files.{
  padded, read_sectors, read_chain, write_sectors, write_chain, write_data,
}
use kum_os.Fat12.Volume.Files.Sectors.{contra, not_empty, IsDisk, Agree}
use kum_os.Fat12.Volume.Files.Links.{IsSound, InRange}
use kum_os.Fat12.Volume.Files.Rounds.{
  Chain, chain-end, taken, after, first_of, wrote, chain-step, read-end, Chain-nothing, Before,
}
use kum_os.Fat12.Volume.Files.Steps.{step_links, after-IsSound, Chain-step}

module _ {D : Type 0} (dev : Device D) (on : IsDisk dev) where
  abbrev ChainOf : ℕ → ℕ → List ℕ → Volume → D → ℕ × ℕ × Volume × D → Type 0
  ChainOf prev first src v d (last, first', v', d') =
      Chain dev on prev first src v d last first' v' d'

  abbrev unpack : ℕ × ℕ × Volume × D → Option (Bool × ℕ × ℕ × Volume × D) → ℕ × ℕ × Volume × D
  unpack r none = r
  unpack r (some (b, last, first, v, d)) = (last, first, v, d)

  write_chain-Chain :
      (fuel prev first : ℕ) (src : List ℕ) (v : Volume) (d : D) (last first' : ℕ) (v' : Volume)
      (d' : D)
      → IsSound v
      → Before dev on v prev
      → write_chain dev fuel prev first src v d ≡ some (true, last, first', v', d')
      → Chain dev on prev first src v d last first' v' d'
  unfolding write_chain
  write_chain-Chain zero prev first src v d last first' v' d' sound before e = absurd (ground arith)
  write_chain-Chain (suc fuel) prev first [] v d last first' v' d' sound before e =
      subst (ChainOf prev first [] v d)
        (ap (unpack (prev, first, v, d)) (sym (chain-end dev on fuel prev first v d) ∙ e))
        (Chain-nothing dev on prev first v d sound.bytes)
  write_chain-Chain (suc fuel) prev first (x ∷ xs) v d last first' v' d' sound before e =
      let (some_c, ok, rest) = chain-step dev on v d prev first x xs fuel last first' v' d' e in
      let (in_c, free, links) = step_links dev on v d prev first x xs sound before some_c ok in
      Chain-step dev on v d prev first x xs sound before some_c ok last first' v' d' (
        write_chain-Chain fuel (taken dev on v d prev first x xs)
          (first_of dev on v d prev first x xs) (wrote dev on v d prev first x xs).1
          (after dev on v d prev first x xs) (wrote dev on v d prev first x xs).2 last first' v' d'
          (after-IsSound dev on v d prev first x xs sound before some_c ok)
          (inr (in_c, λ z. ground (arith, links.at_end))) rest)

  -- read_chain sees a table through fat_get alone.
  read_chain-fat :
      (v : Volume) (fat : List ℕ) (d : D)
      → ((m : ℕ) → fat_get fat m ≡ fat_get v.fat m)
      → (fuel c n : ℕ)
      → read_chain dev fuel c n (record v { fat = fat; fat_dirty = true }) d
        ≡ read_chain dev fuel c n v d
  unfolding read_chain cluster_to_lba
  read_chain-fat v fat d same zero c n = refl
  read_chain-fat v fat d same (suc fuel) c n =
      let (ok, here, left) = read_sectors dev v.bpb.sectors_per_cluster (cluster_to_lba v c) n d in
      let w = record v { fat = fat; fat_dirty = true } in
      let rest : read_chain dev fuel (fat_get fat c) left w d
          ≡ read_chain dev fuel (fat_get v.fat c) left v d =
        ap (λ k. read_chain dev fuel k left w d) (same c)
        ∙ read_chain-fat v fat d same fuel (fat_get v.fat c) left in
      ap
        (λ (r : Option (List ℕ)).
          if is_data_cluster c && ltb 0 n
          then (if ok
              then (elim r as (λ _. Option (List ℕ)) [
                | none ↦ none
                | some out ↦ some (here ++ out)
              ])
              else some here)
          else some [])
        rest

  -- The loop returns, whatever the disk does: each round writes a byte or more.
  write_sectors-shorter :
      (rounds lba : ℕ) (src : List ℕ) (d : D)
      → let (ok, left, d') = write_sectors dev rounds lba src d in
        (length left ≤ length src)
        × (0 < rounds → ok ≡ true → 0 < length src → length left < length src)
  unfolding write_sectors
  write_sectors-shorter zero lba src d = (omega arith, λ h. absurd (omega arith))
  write_sectors-shorter (suc rounds) lba [] d = (omega arith, λ h o l. absurd (omega arith))
  write_sectors-shorter (suc rounds) lba (x ∷ xs) d =
      let src = x ∷ xs in
      let d1 = (dev.ata_write lba (padded src) d).1 in
      let (le, _) = write_sectors-shorter rounds (add32 lba 1) (drop sector_size src) d1 in
      let n = length-drop sector_size src in
      elim (Bool-cases (dev.ata_write lba (padded src) d).0) [
        | inr fails ↦ rw (not_empty (length xs), fails) (omega arith, λ h o l. absurd (contra o))
        | inl ok ↦ rw (not_empty (length xs), ok) (omega arith, λ h o l. omega arith)
      ]

  write_chain-ends :
      (fuel prev first : ℕ) (src : List ℕ) (v : Volume) (d : D)
      → 0 < v.bpb.sectors_per_cluster
      → length src < fuel
      → (r : Bool × ℕ × ℕ × Volume × D) × (write_chain dev fuel prev first src v d ≡ some r)
  unfolding write_chain
  write_chain-ends zero prev first src v d s l = absurd (omega arith)
  write_chain-ends (suc fuel) prev first [] v d s l = (_, refl)
  write_chain-ends (suc fuel) prev first (x ∷ xs) v d s l =
      let (c, fat) = fat_alloc v.fat v.total_clusters in
      let spc = v.bpb.sectors_per_cluster in
      let (ok, left, d') = write_sectors dev spc (cluster_to_lba v c) (x ∷ xs) d in
      let (_, shorter) = write_sectors-shorter spc (cluster_to_lba v c) (x ∷ xs) d in
      elim (Bool-cases (c == 0)) [
        | inl full ↦ rw (not_empty (length xs), full) (_, refl)
        | inr more ↦ elim (Bool-cases ok) [
          | inr fails ↦ rw (not_empty (length xs), more, fails) (_, refl)
          | inl wrote_ ↦
              rw (not_empty (length xs), more, wrote_)
                (write_chain-ends fuel c (if first == 0 then c else first) left
                  (record v {
                    fat = if prev == 0 then fat else fat_set fat prev c;
                    fat_dirty = true;
                  })
                  d' s (let n = shorter s wrote_ (omega arith) in omega arith))
        ]
      ]

  module _ (v : Volume) (d : D) (sound : IsSound v) where
    -- What a written file leaves: its bytes behind its first cluster; and the other files, whose
    -- clusters keep their links and sectors.
    pub record Written (src : List ℕ) (first : ℕ) (v' : Volume) (d' : D) : Type 0 where
      pub read_back : read_chain dev (suc (length src)) first (length src) v' d' ≡ some src
      pub links_kept : (m : ℕ) → m ≢ 0 → fat_get v.fat m ≢ 0 → fat_get v'.fat m ≡ fat_get v.fat m
      pub sectors_kept :
          (m : ℕ)
          → InRange v m
          → fat_get v.fat m ≢ 0
          → Agree dev on v.bpb.sectors_per_cluster (cluster_to_lba v m) d' d

    written-cons :
        (x : ℕ) (xs : List ℕ) (first : ℕ) (v' : Volume) (d' : D)
        → write_data dev v d (x ∷ xs) ≡ some (true, first, v', d')
        → (last : ℕ) × (v1 : Volume) × (write_chain dev (suc (length (x ∷ xs))) 0 0 (x ∷ xs) v d
            ≡ some (true, last, first, v1, d'))
          × (v' ≡ record v1 { fat = fat_set v1.fat last 0xFFF; fat_dirty = true })
    unfolding write_data
    written-cons x xs first v' d' e =
        elim (Option-cases (write_chain dev (suc (length (x ∷ xs))) 0 0 (x ∷ xs) v d)) [
          | inl n ↦ absurd (ground arith)
          | inr ((ok, last, f, v1, d1), w) ↦ elim (Bool-cases ok) [
            | inr no_ ↦ absurd (ground arith)
            | inl yes_ ↦ (last, v1, ground arith, ground arith)
          ]
        ]

    written-nil :
        (first : ℕ) (v' : Volume) (d' : D)
        → write_data dev v d [] ≡ some (true, first, v', d')
        → (first ≡ 0) × (v' ≡ v) × (d' ≡ d)
    unfolding write_data
    written-nil first v' d' e = elim (Option-cases (write_chain dev 1 0 0 [] v d)) [
      | inl n ↦ absurd (ground arith)
      | inr ((ok, last, f, v1, d1), w) ↦ (ground arith, ground arith, ground arith)
    ]

    write_data-Written :
        (src : List ℕ) (first : ℕ) (v' : Volume) (d' : D)
        → write_data dev v d src ≡ some (true, first, v', d')
        → Written src first v' d'
    write_data-Written [] first v' d' e =
        let (z, sv, sd) = written-nil first v' d' e in
        rw (z, sv, sd)
          (record {
            read_back = read-end dev on 1 0 0 v d (omega arith) refl;
            links_kept = λ m n u. refl;
            sectors_kept = λ m r u s l. refl;
          })
    write_data-Written (x ∷ xs) first v' d' e =
        let (last, v1, w, ended) = written-cons x xs first v' d' e in
        let src = x ∷ xs in
        let ch =
          write_chain-Chain (suc (length src)) 0 0 src v d last first v1 d' sound (inl refl) w in
        elim ch.data_ [
          | inl (empty, _, _) ↦ absurd (ground (arith, ap length empty))
          | inr (c, in_c, _, start, (in_last, at_end), read) ↦
              let room = sound.room in
              let set_lem =
                fat_set_lem v1.fat last 0xFFF ch.bytes (omega arith)
                  (omega (arith, ch.len, room)) in
              let same : (m : ℕ) → fat_get (fat_set v1.fat last 0xFFF) m ≡ fat_get v1.fat m = λ m.
                elim (ℕ_discrete m last) [
                  | yes q ↦ rw q (set_lem.0 ∙ sym at_end)
                  | no n ↦ set_lem.1 m n
                ] in
              rw (ended, start refl)
                (record {
                  read_back =
                      read_chain-fat v1 (fat_set v1.fat last 0xFFF) d' same (suc (length src)) c
                        (length src)
                      ∙ read (suc (length src)) (omega arith);
                  links_kept = λ m n u. same m ∙ ch.table m n u;
                  sectors_kept = ch.disk;
                })
        ]

    write_data-ends :
        (src : List ℕ) → (r : Bool × ℕ × Volume × D) × (write_data dev v d src ≡ some r)
    unfolding write_data
    write_data-ends src =
        let ((ok, last, f, v1, d1), w) =
          write_chain-ends (suc (length src)) 0 0 src v d sound.sectors (omega arith) in
        elim (Bool-cases (length src == 0)) [
          | inl empty ↦ rw (write_data, w, empty) (_, refl)
          | inr some_ ↦ elim (Bool-cases ok) [
            | inl yes_ ↦ rw (write_data, w, some_, yes_) (_, refl)
            | inr no_ ↦ rw (write_data, w, some_, no_) (_, refl)
          ]
        ]

    -- On a sound volume the loop of fat12_write returns. If it reports success, the bytes of the file
    -- are read back from its first cluster, and every cluster in use before, but the reserved first
    -- entry, keeps its link and its sectors.
    pub write_data_lem :
        (src : List ℕ)
        → (ok : Bool) × (first : ℕ) × (v' : Volume) × (d' : D) × (write_data dev v d src
            ≡ some (ok, first, v', d'))
          × (ok ≡ true → Written src first v' d')
    write_data_lem src =
        let ((ok, first, v', d'), e) = write_data-ends src in
        (
          ok,
          first,
          v',
          d',
          e,
          λ t. write_data-Written src first v' d' (e ∙ ap (λ b. some (b, first, v', d')) t),
        )

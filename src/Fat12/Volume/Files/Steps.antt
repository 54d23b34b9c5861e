-- ===== src/Fat12/Volume/Files/Steps.antt =====
-- One round of the loop of fat12_write and one of fat12_read: what a chain of clusters holds after a
-- round, if the rest of the loop leaves it.
use native.Mathlib.Decide.{ℕ_discrete}
use kum_os.Base.{
  ℕ, zero, suc, ◌+◌, ◌<◌, ◌≡◌, ◌≢◌, inl, inr, refl, sym, ap, ◌∙◌, true, false, some, List, ◌∷◌,
  arith, ◌==◌, Bool-cases, length,
}
use kum_os.Fat12.{fat_get}
use kum_os.Fat12.Volume.{Device, Bpb, Volume, cluster_to_lba}
use kum_os.Fat12.Volume.Files.{read_sectors, read_chain}
use kum_os.Fat12.Volume.Files.Sectors.{IsDisk, Agree, ReadBack, write-outside, read-write_sectors}
use kum_os.Fat12.Volume.Files.Links.{
  IsSound, InRange, lba-eq, is_data, lba-apart, IsLinkedTo, linked-IsLinkedTo,
}
use kum_os.Fat12.Volume.Files.Rounds.{
  Chain, taken, after, first_of, wrote, read-end, read-step, Before,
}

module _ {D : Type 0} (dev : Device D) (on : IsDisk dev) where
  module _ (v : Volume) (d : D) (prev first x : ℕ) (xs : List ℕ) (sound : IsSound v)
      (before : Before dev on v prev) (some_c : taken dev on v d prev first x xs ≢ 0)
      (ok : (wrote dev on v d prev first x xs).0 ≡ true) where
    pub step_links :
        InRange v (taken dev on v d prev first x xs)
        × (fat_get v.fat (taken dev on v d prev first x xs) ≡ 0)
        × IsLinkedTo v.fat prev
            (taken dev on v d prev first x xs)
            (after dev on v d prev first x xs).fat
    step_links = linked-IsLinkedTo v prev sound before some_c

    pub after-IsSound : IsSound (after dev on v d prev first x xs)
    after-IsSound =
        let (_, _, links) = step_links in
        record {
          bytes = links.bytes;
          room = omega (arith, links.len, sound.room);
          links = sound.links;
          sectors = sound.sectors;
          reach = sound.reach;
        }

    after-lba : (m : ℕ) → cluster_to_lba (after dev on v d prev first x xs) m ≡ cluster_to_lba v m
    unfolding cluster_to_lba
    after-lba m = refl

    used-ne-taken : (m : ℕ) → fat_get v.fat m ≢ 0 → m ≢ taken dev on v d prev first x xs
    used-ne-taken m u q = u (ap (fat_get v.fat) q ∙ step_links.1)

    used-stays :
        (m : ℕ) → 0 < m → fat_get v.fat m ≢ 0 → fat_get (after dev on v d prev first x xs).fat m ≢ 0
    used-stays m pos_m u = elim (ℕ_discrete m prev) [
      | yes q ↦ λ z. some_c (
          sym (step_links.2.at_prev (λ e. omega arith))
          ∙ ap (fat_get (after dev on v d prev first x xs).fat) (sym q)
          ∙ z)
      | no n ↦ λ z. u (sym (step_links.2.elsewhere m n (used-ne-taken m u)) ∙ z)
    ]

    first_of-ne : first_of dev on v d prev first x xs ≢ 0
    first_of-ne = elim (Bool-cases (first == 0)) [
      | inl e ↦ rw e some_c
      | inr e ↦ rw e (ground arith)
    ]

    prev-used : prev ≢ 0 → fat_get v.fat prev ≢ 0
    prev-used n = elim before [ inl z ↦ absurd (n z) | inr (r, u) ↦ u ]

    module _ (last first' : ℕ) (v' : Volume) (d' : D)
        (ch : Chain dev on
          (taken dev on v d prev first x xs)
          (first_of dev on v d prev first x xs)
          (wrote dev on v d prev first x xs).1
          (after dev on v d prev first x xs)
          (wrote dev on v d prev first x xs).2
          last
          first'
          v'
          d') where
      step-table : (m : ℕ) → m ≢ prev → fat_get v.fat m ≢ 0 → fat_get v'.fat m ≡ fat_get v.fat m
      step-table m n u =
          let apart = used-ne-taken m u in
          let e = step_links.2.elsewhere m n apart in ch.table m apart (λ z. u (sym e ∙ z)) ∙ e

      kept :
          (m : ℕ)
          → InRange v m
          → fat_get (after dev on v d prev first x xs).fat m ≢ 0
          → Agree dev on v.bpb.sectors_per_cluster
              (cluster_to_lba v m)
              d'
              (wrote dev on v d prev first x xs).2
      kept m r u s l =
          ap (λ lba. dev.ata_read (lba + s) d') (sym (after-lba m))
          ∙ ch.disk m r u s l
          ∙ ap (λ lba. dev.ata_read (lba + s) (wrote dev on v d prev first x xs).2) (after-lba m)

      step-disk :
          (m : ℕ)
          → InRange v m
          → fat_get v.fat m ≢ 0
          → Agree dev on v.bpb.sectors_per_cluster (cluster_to_lba v m) d' d
      step-disk m r u s l =
          let spc = v.bpb.sectors_per_cluster in
          let lba = cluster_to_lba v (taken dev on v d prev first x xs) in
          let later = kept m r (used-stays m (omega arith) u) s l in
          let apart =
            lba-apart v (taken dev on v d prev first x xs) m sound step_links.0 r
              (used-ne-taken m u) s l in
          let fits = (lba-eq v sound (taken dev on v d prev first x xs) step_links.0).1 in
          later ∙ write-outside dev on spc lba (x ∷ xs) d (cluster_to_lba v m + s) fits apart

      step-start : first ≢ 0 → first' ≡ first
      step-start n =
          let e : (first == 0) ≡ false = ground arith in
          let same : first_of dev on v d prev first x xs ≡ first = rw e refl in
          ch.start first_of-ne ∙ same

      step-first : first ≡ 0 → first' ≡ taken dev on v d prev first x xs
      step-first z =
          let same : first_of dev on v d prev first x xs ≡ taken dev on v d prev first x xs =
            rw z refl in
          ch.start first_of-ne ∙ same

      step-prev : prev ≢ 0 → fat_get v'.fat prev ≡ taken dev on v d prev first x xs
      step-prev n =
          let e = step_links.2.at_prev n in
          ch.table prev (used-ne-taken prev (prev-used n)) (λ z. some_c (sym e ∙ z)) ∙ e

      step-last : InRange v last × (fat_get v'.fat last ≡ 0xFFF)
      step-last = elim ch.data_ [
        | inl (_, l, w) ↦ rw (l, w) (step_links.0, step_links.2.at_end)
        | inr (c, r, p, f, h, read) ↦ h
      ]

      same-lba : (m : ℕ) → cluster_to_lba v' m ≡ cluster_to_lba v m
      unfolding cluster_to_lba
      same-lba m = rw (ch.place.bpb_same, ch.place.start_same) refl

      step-here :
          ReadBack dev on v.bpb.sectors_per_cluster
            (cluster_to_lba v (taken dev on v d prev first x xs))
            (x ∷ xs)
            d'
            (wrote dev on v d prev first x xs)
      step-here =
          let c = taken dev on v d prev first x xs in
          read-write_sectors dev on v.bpb.sectors_per_cluster (cluster_to_lba v c) (x ∷ xs) d d'
            (lba-eq v sound c step_links.0).1 ok
            (kept c step_links.0 (λ z. ground (arith, step_links.2.at_end)))

      -- What is read from the link of the cluster that was taken.
      step-rest :
          (fuel : ℕ)
          → 0 < fuel
          → length (wrote dev on v d prev first x xs).1 < fuel
          → read_chain dev fuel
              (fat_get v'.fat (taken dev on v d prev first x xs))
              (length (wrote dev on v d prev first x xs).1)
              v'
              d'
            ≡ some (wrote dev on v d prev first x xs).1
      step-rest fuel l m = elim ch.data_ [
        | inl (e, _, _) ↦
            read-end dev on fuel (fat_get v'.fat (taken dev on v d prev first x xs)) _ v' d' l
              (ap length e)
            ∙ ap some (sym e)
        | inr (c, r, p, f, h, read) ↦ rw (p some_c) (read fuel m)
      ]

      step-read :
          (fuel : ℕ)
          → length (x ∷ xs) < fuel
          → read_chain dev fuel (taken dev on v d prev first x xs) (length (x ∷ xs)) v' d'
            ≡ some (x ∷ xs)
      step-read zero l = absurd (omega arith)
      step-read (suc fuel) l =
          let c = taken dev on v d prev first x xs in
          let left = (wrote dev on v d prev first x xs).1 in
          let (front, r, joined, n) = step-here in
          let here : read_sectors dev v'.bpb.sectors_per_cluster (cluster_to_lba v' c)
                (length (x ∷ xs)) d'
              ≡ (true, front, length left) =
            ap
              (λ (b : Bpb).
                read_sectors dev b.sectors_per_cluster (cluster_to_lba v' c) (length (x ∷ xs)) d')
              ch.place.bpb_same
            ∙ ap (λ lba. read_sectors dev v.bpb.sectors_per_cluster lba (length (x ∷ xs)) d')
                (same-lba c)
            ∙ r in
          let positive = sound.sectors in
          read-step dev on fuel c (length (x ∷ xs)) (length left) front left v' d'
            (is_data v sound c step_links.0) (omega arith) here
            (step-rest fuel (omega arith) (omega (arith, n, positive)))
          ∙ ap some joined

      pub Chain-step : Chain dev on prev first (x ∷ xs) v d last first' v' d'
      Chain-step = record {
        place = record {
          bpb_same = ch.place.bpb_same;
          start_same = ch.place.start_same;
          total_same = ch.place.total_same;
        };
        bytes = ch.bytes;
        len = ch.len ∙ step_links.2.len;
        table = step-table;
        disk = step-disk;
        start = step-start;
        data_ = inr (
          taken dev on v d prev first x xs,
          step_links.0,
          step-prev,
          step-first,
          step-last,
          step-read,
        );
      }

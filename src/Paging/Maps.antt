-- ===== src/Paging/Maps.antt =====
-- A page that is mapped is found again, and the other pages stay as they were.
use kum_os.Base.{
  sym, ℕ, ◌+◌, ◌*◌, ◌%◌, ◌<◌, ◌≡◌, ◌≢◌, ◌⊎◌, inl, inr, refl, ap, ◌∙◌, true, false, none, some,
  arith, ◌==◌, Bool-cases, u32,
}
use kum_os.Frames.{Frames, page_size, pmm_alloc, pmm_free}
use kum_os.Frames.Alloc.{taken, alloc_cases}
use kum_os.Paging.{
  Paging, dir_idx, page_of, is_present, present_with, store, dir_entry, entry_at, with_table,
  pte_ptr, pte_ptr_alloc, new_table, map_at, unmap_at, pte_of, paging_map, paging_unmap,
  paging_virt_to_phys, paging_is_mapped,
}
use kum_os.Paging.Tables.{
  pte_of-none, pte_of-some, IsValid, has_table, page_no, entry_of, written, written_self,
  written-gone, written-entry, written-other, written-IsValid,
}
use kum_os.Paging.NewTable.{grown, new_entry, grown-has, grown-pte, grown-IsValid}

-- What paging_map of virt to phys leaves, and what paging_unmap then does.
pub record Mapped (p : Paging) (virt phys : ℕ) (q : Paging) : Type 0 where
  pub valid : IsValid q
  pub mapped : paging_is_mapped q virt ≡ true
  pub found : paging_virt_to_phys q virt ≡ page_of phys + virt % page_size
  pub others :
      (v : ℕ)
      → page_no virt ≢ page_no v
      → (paging_is_mapped q v ≡ paging_is_mapped p v)
        × (paging_virt_to_phys q v ≡ paging_virt_to_phys p v)
  pub freed : (paging_unmap q virt).frames ≡ pmm_free q.frames (page_of phys)
  pub unmapped : paging_is_mapped (paging_unmap q virt) virt ≡ false
  pub others_after :
      (v : ℕ)
      → page_no virt ≢ page_no v
      → (paging_is_mapped (paging_unmap q virt) v ≡ paging_is_mapped p v)
        × (paging_virt_to_phys (paging_unmap q virt) v ≡ paging_virt_to_phys p v)

pub same_pte :
    (p q : Paging) (v : ℕ)
    → pte_of q v ≡ pte_of p v
    → (paging_is_mapped q v ≡ paging_is_mapped p v)
      × (paging_virt_to_phys q v ≡ paging_virt_to_phys p v)
unfolding paging_is_mapped paging_virt_to_phys
same_pte p q v e = (rw (paging_is_mapped, e) refl, rw (paging_virt_to_phys, e) refl)

is_mapped-some : (p : Paging) (v e : ℕ) → pte_of p v ≡ some e → paging_is_mapped p v ≡ true
unfolding paging_is_mapped
is_mapped-some p v e h = rw (paging_is_mapped, h) refl

pub is_mapped-none : (p : Paging) (v : ℕ) → pte_of p v ≡ none → paging_is_mapped p v ≡ false
unfolding paging_is_mapped
is_mapped-none p v h = rw (paging_is_mapped, h) refl

pub to_phys-none : (p : Paging) (v : ℕ) → pte_of p v ≡ none → paging_virt_to_phys p v ≡ 0
unfolding paging_virt_to_phys
to_phys-none p v h = rw (paging_virt_to_phys, h) refl

pub to_phys-some :
    (p : Paging) (v e : ℕ)
    → pte_of p v ≡ some e
    → paging_virt_to_phys p v ≡ page_of e + v % page_size
unfolding paging_virt_to_phys
to_phys-some p v e h = rw (paging_virt_to_phys, h) refl

pub pte_of-frames :
    (p : Paging) (f : Frames) (v : ℕ) → pte_of (record p { frames = f }) v ≡ pte_of p v
unfolding pte_of pte_ptr
pte_of-frames p f v = refl

pub ptr-some :
    (p : Paging) (v : ℕ)
    → has_table p (dir_idx v) ≡ true
    → pte_ptr p v ≡ some (entry_at (page_of (dir_entry p v)) v)
unfolding pte_ptr
ptr-some p v has = rw has refl

unmap_at-present :
    (p : Paging) (a e : ℕ)
    → p.mem a ≡ e
    → is_present e ≡ true
    → unmap_at p (some a)
      ≡ record p { frames = pmm_free p.frames (page_of e); mem = store p.mem a 0 }
unfolding unmap_at
unmap_at-present p a e is on = rw (is, on) refl

ptr_alloc-some :
    (p : Paging) (v : ℕ)
    → has_table p (dir_idx v) ≡ true
    → pte_ptr_alloc p v ≡ (some (entry_at (page_of (dir_entry p v)) v), p)
unfolding pte_ptr_alloc
ptr_alloc-some p v has = rw has refl

ptr_alloc-none :
    (p : Paging) (v : ℕ)
    → has_table p (dir_idx v) ≡ false
    → pte_ptr_alloc p v ≡ new_table p v (pmm_alloc p.frames)
unfolding pte_ptr_alloc
ptr_alloc-none p v off = rw off refl

unmap-present :
    (p : Paging) (virt e : ℕ)
    → has_table p (dir_idx virt) ≡ true
    → entry_of p virt ≡ e
    → is_present e ≡ true
    → paging_unmap p virt ≡ record p {
      frames = pmm_free p.frames (page_of e);
      mem = store p.mem (entry_at (page_of (dir_entry p virt)) virt) 0;
    }
unfolding paging_unmap
unmap-present p virt e has is on =
    ap (unmap_at p) (ptr-some p virt has) ∙ unmap_at-present p _ e is on

-- The table and the entry of a page that is mapped.
pub pte-found :
    (p : Paging) (v e : ℕ)
    → pte_of p v ≡ some e
    → (has_table p (dir_idx v) ≡ true) × (entry_of p v ≡ e) × (is_present e ≡ true)
pte-found p v e h = elim (Bool-cases (has_table p (dir_idx v))) [
  | inr off ↦ let gone = sym (pte_of-none p v off) ∙ h in absurd (ground (arith, gone))
  | inl on ↦ elim (Bool-cases (is_present (entry_of p v))) [
    | inr no' ↦
        let gone : none ≡ some e = sym (pte_of-some p v on ∙ rw no' refl) ∙ h in
        absurd (ground (arith, gone))
    | inl yes' ↦
        let same' : some (entry_of p v) ≡ some e = sym (pte_of-some p v on ∙ rw yes' refl) ∙ h in
        let same : entry_of p v ≡ e = ground (arith, same') in
        (on, same, ap (λ x. is_present x) (sym same) ∙ yes')
  ]
]

-- paging_unmap of a page that is mapped.
pub unmap-found :
    (p : Paging) (v e : ℕ)
    → IsValid p
    → pte_of p v ≡ some e
    → ((paging_unmap p v).frames ≡ pmm_free p.frames (page_of e))
      × (pte_of (paging_unmap p v) v ≡ none)
unmap-found p v e valid h =
    let (has, is, on) = pte-found p v e h in
    let after' = unmap-present p v e has is on in
    (
      ap (λ q. q.frames) after',
      ap (λ q. pte_of q v) after'
          ∙ pte_of-frames (written p v 0 valid has) _ v
          ∙ written-gone p v 0 valid has refl,
    )

-- Where the page's table is there, an entry e is written for it.
module _ (p : Paging) (virt phys flags : ℕ) (valid : IsValid p)
    (has : has_table p (dir_idx virt) ≡ true) (few : flags < page_size) where
  abbrev entry : ℕ
  entry = page_of phys + present_with flags

  abbrev after : Paging
  after = written p virt entry valid has

  entry-odd : is_present entry ≡ true
  entry-odd = ground arith

  after-pte : pte_of after virt ≡ some entry
  after-pte = written_self p virt entry valid has entry-odd

  entry-page : page_of entry ≡ page_of phys
  entry-page = omega arith

  after-IsValid : IsValid after
  after-IsValid = written-IsValid p virt entry valid has

  abbrev erased : Paging
  erased = written after virt 0 after-IsValid has

  after-unmap :
      paging_unmap after virt ≡ record erased { frames = pmm_free p.frames (page_of entry) }
  after-unmap = unmap-present after virt entry has (written-entry p virt entry valid has) entry-odd

  unmap-pte : (v : ℕ) → pte_of (paging_unmap after virt) v ≡ pte_of erased v
  unmap-pte v = ap (λ q. pte_of q v) after-unmap ∙ pte_of-frames erased _ v

  pub write-Mapped : Mapped p virt phys after
  write-Mapped = record {
    valid = after-IsValid;
    mapped = is_mapped-some after virt entry after-pte;
    found = to_phys-some after virt entry after-pte ∙ ap (λ a. a + virt % page_size) entry-page;
    others = λ v n. same_pte p after v (written-other p virt entry valid has v n);
    freed = ap (λ q. q.frames) after-unmap ∙ ap (pmm_free p.frames) entry-page;
    unmapped =
        is_mapped-none (paging_unmap after virt) virt
          (unmap-pte virt ∙ written-gone after virt 0 after-IsValid has refl);
    others_after = λ v n. same_pte p (paging_unmap after virt) v (
        unmap-pte v
        ∙ written-other after virt 0 after-IsValid has v n
        ∙ written-other p virt entry valid has v n);
  }

map-present :
    (p : Paging) (virt phys flags : ℕ)
    → IsValid p
    → flags < page_size
    → has_table p (dir_idx virt) ≡ true
    → Mapped p virt phys (paging_map p virt phys flags)
unfolding paging_map map_at
map-present p virt phys flags valid few has =
    rw (ptr_alloc-some p virt has) (write-Mapped p virt phys flags valid has few)

Mapped-from :
    (p g q : Paging) (virt phys : ℕ)
    → ((v : ℕ) → pte_of g v ≡ pte_of p v)
    → Mapped g virt phys q
    → Mapped p virt phys q
Mapped-from p g q virt phys same m = record {
  valid = m.valid;
  mapped = m.mapped;
  found = m.found;
  others =
      λ v n. let (a, b) = same_pte p g v (same v) in let (c, d) = m.others v n in (c ∙ a, d ∙ b);
  freed = m.freed;
  unmapped = m.unmapped;
  others_after = λ v n.
      let (a, b) = same_pte p g v (same v) in let (c, d) = m.others_after v n in (c ∙ a, d ∙ b);
}

new_table-some :
    (p : Paging) (virt i : ℕ) (f : Frames)
    → 0 < i
    → new_table p virt (i * page_size, f)
      ≡ (some (entry_at (i * page_size) virt), with_table p virt (i * page_size) f)
unfolding new_table
new_table-some p virt i f h =
    let nonzero : (i * page_size == 0) ≡ false = ground arith in rw nonzero refl

map-absent :
    (p : Paging) (virt phys flags : ℕ)
    → IsValid p
    → virt < u32
    → flags < page_size
    → has_table p (dir_idx virt) ≡ false
    → ((paging_map p virt phys flags ≡ p) × ((pmm_alloc p.frames).0 ≡ 0))
      ⊎ Mapped p virt phys (paging_map p virt phys flags)
unfolding paging_map map_at new_table
map-absent p virt phys flags valid small few off = elim (alloc_cases p.frames valid.frames) [
  | inl e ↦ inl (
    ap (map_at phys flags) (ptr_alloc-none p virt off ∙ ap (new_table p virt) e),
    ap (λ r. r.0) e,
  )
  | inr (i, lo, hi, z, e) ↦
      let g = grown p virt i valid small off lo hi z in
      let g-IsValid = grown-IsValid p virt i valid small off lo hi z in
      let has = grown-has p virt i valid small off lo hi z in
      let made : pte_ptr_alloc p virt ≡ (some (entry_at (page_of (dir_entry g virt)) virt), g) =
        ptr_alloc-none p virt off
        ∙ ap (new_table p virt) e
        ∙ new_table-some p virt i (taken p.frames i) (omega (arith, valid.base))
        ∙ ap (λ a. (some a, g))
            (let entry' = new_entry p virt i valid small off lo hi z in omega (arith, entry')) in
      inr (
        rw made (
          Mapped-from p g _ virt phys (grown-pte p virt i valid small off lo hi z)
            (write-Mapped g virt phys flags g-IsValid has few)))
]

-- In a valid directory, paging_map with flags below 2^12 finds the table of the page, or takes a
-- frame for a new one; without a free frame it changes nothing. Otherwise the page is mapped to the
-- physical page, the other pages are mapped as they were, and the directory is valid; and
-- paging_unmap then gives the frame to pmm_free, and leaves every page mapped as before, but the page.
pub paging_map_lem :
    (p : Paging) (virt phys flags : ℕ)
    → IsValid p
    → virt < u32
    → flags < page_size
    → ((paging_map p virt phys flags ≡ p) × ((pmm_alloc p.frames).0 ≡ 0))
      ⊎ Mapped p virt phys (paging_map p virt phys flags)
paging_map_lem p virt phys flags valid small few = elim (Bool-cases (has_table p (dir_idx virt))) [
  | inl has ↦ inr (map-present p virt phys flags valid few has)
  | inr off ↦ map-absent p virt phys flags valid small few off
]

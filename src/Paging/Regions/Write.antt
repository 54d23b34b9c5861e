-- ===== src/Paging/Regions/Write.antt =====
-- A write to a page that is shared: the writer gets a copy, or the page itself if it is the last.
use kum_os.Base.{
  ℕ, ◌+◌, ◌*◌, ◌<◌, ◌≡◌, ◌⊎◌, inl, inr, sym, ap, ◌∙◌, true, false, Option, none, some, arith, ltb,
  Bool-cases,
}
use kum_os.Frames.{page_size, pmm_alloc, pmm_free, pmm_refcount}
use kum_os.Frames.Alloc.{alloc_cases}
use kum_os.Paging.{Paging, page_of, pte_ptr, pte_of}
use kum_os.Paging.Tables.{IsValid}
use kum_os.Paging.Maps.{ptr-some}
use kum_os.Paging.Regions.{is_cow, as_writable, cow_frame, cow_at, cow_fault}
use kum_os.Paging.Regions.Cow.{
  Writable, has, is, cow_at-copy, last-Writable, moved, frame-moved, moved-Writable,
}

-- How a write to a shared page ends: the last user gets the page itself, another one a copy in a new
-- frame, if there is one.
pub record LastUser (p : Paging) (virt e : ℕ) (r : Option Paging) : Type 0 where
  pub next : Paging
  pub result : r ≡ some next
  pub frames : next.frames ≡ p.frames
  pub made : Writable p virt e (as_writable e) next

pub record Copied (p : Paging) (virt e : ℕ) (r : Option Paging) : Type 0 where
  pub next : Paging
  pub entry : ℕ
  pub result : r ≡ some next
  pub place : page_of entry ≡ (pmm_alloc p.frames).0
  pub frames : next.frames ≡ pmm_free (pmm_alloc p.frames).1 (page_of e)
  pub made : Writable p virt e entry next

share :
    (p : Paging) (virt e : ℕ)
    → IsValid p
    → pte_of p virt ≡ some e
    → is_cow e ≡ true
    → ltb 1 (pmm_refcount p.frames (page_of e)) ≡ true
    → (((pmm_alloc p.frames).0 ≡ 0) × (cow_at p (pte_ptr p virt) ≡ none))
      ⊎ Copied p virt e (cow_at p (pte_ptr p virt))
unfolding cow_frame
share p virt e valid h cow shared =
    let has' = has p virt e valid h cow in
    let is' = is p virt e valid h cow in
    let start = ap (cow_at p) (ptr-some p virt has') ∙ cow_at-copy p _ e is' cow shared in
    elim (alloc_cases p.frames valid.frames) [
      | inl none' ↦ inl (ap (λ r. r.0) none', start ∙ ap (cow_frame p _) none')
      | inr (i, lo, hi, z, some') ↦
          let pos_i : 0 < i = let base = valid.base in omega arith in
          inr (record {
            next = moved p virt e valid h cow i z pos_i;
            entry = i * page_size + 3;
            result = start ∙ ap (cow_frame p _) some' ∙ frame-moved p virt e valid h cow i z pos_i;
            place =
                let same : page_of (i * page_size + 3) ≡ i * page_size = omega arith in
                same ∙ ap (λ r. r.0) (sym some');
            frames = ap (λ r. pmm_free r.1 (page_of e)) (sym some');
            made = moved-Writable p virt e valid h cow i z pos_i;
          })
    ]

-- A write to a present page that is marked as shared, in a valid directory. If the frame has no more
-- than one reference, the page keeps it and becomes writable. Otherwise the fault is not handled where
-- no frame is free; or the page gets a new frame, the old frame loses a reference, and the other pages
-- stay mapped as they were. In both cases the words of the page stay the same, but for its own entry,
-- if that lies in the page.
pub cow_fault_lem :
    (p : Paging) (addr e : ℕ)
    → IsValid p
    → pte_of p (page_of addr) ≡ some e
    → is_cow e ≡ true
    → ((ltb 1 (pmm_refcount p.frames (page_of e)) ≡ false)
        × LastUser p (page_of addr) e (cow_fault addr p))
      ⊎ ((((pmm_alloc p.frames).0 ≡ 0) × (cow_fault addr p ≡ none))
          ⊎ Copied p (page_of addr) e (cow_fault addr p))
unfolding cow_fault
cow_fault_lem p addr e valid h cow = elim (Bool-cases (ltb 1 (pmm_refcount p.frames (page_of e)))) [
  | inl shared ↦ inr (share p (page_of addr) e valid h cow shared)
  | inr last ↦
      let (q, r, f, m) = last-Writable p (page_of addr) e valid h cow last in
      inl (last, record { next = q; result = r; frames = f; made = m })
]

-- ===== src/Paging/Regions/Cow.antt =====
-- The two ways in which a write to a shared page ends: in a copy, or in the page itself.
use native.Mathlib.Decide.{dec_lt}
use kum_os.Base.{
  ℕ, ◌+◌, ◌-◌, ◌*◌, ◌/◌, ◌%◌, ◌≤◌, ◌<◌, ◌≡◌, ◌≢◌, ◌⊎◌, inl, inr, refl, sym, ap, ◌∙◌, true, false,
  none, some, arith, if◌then◌else◌, ltb, leb, ◌==◌, Bool-cases, ne→==, get_or,
}
use kum_os.Frames.{page_size, pmm_alloc, pmm_free, pmm_refcount}
use kum_os.Frames.Alloc.{taken}
use kum_os.Paging.{
  Paging, dir_idx, page_of, is_present, store, dir_entry, entry_at, pte_ptr, pte_of,
}
use kum_os.Paging.Tables.{
  IsValid, table, has_table, store-other, page_no, entry_of, pte_of-none, pte_of-some, written,
  written_self, written-other,
}
use kum_os.Paging.Maps.{pte-found, ptr-some, pte_of-frames}
use kum_os.Paging.Regions.{is_cow, as_writable, copy_page, cow_frame, cow_at}

copied :
    (mem from : ℕ → ℕ) (dst src off : ℕ)
    → off < page_size
    → copy_page mem dst from src (dst + off) ≡ from (src + off)
unfolding copy_page
copied mem from dst src off h =
    let low : leb dst (dst + off) ≡ true = ground arith in
    let high : ltb (dst + off) (dst + page_size) ≡ true = ground arith in
    let back : dst + off - dst ≡ off = omega arith in rw (low, high, back) refl

copied-outside :
    (mem from : ℕ → ℕ) (dst src b : ℕ)
    → (b < dst) ⊎ (dst + page_size ≤ b)
    → copy_page mem dst from src b ≡ mem b
unfolding copy_page
copied-outside mem from dst src b (inl h) = ground arith
copied-outside mem from dst src b (inr h) = ground arith

-- The page, whose entry was e, has the entry e' and is present and not shared; the others keep theirs.
pub record Writable (p : Paging) (virt e e' : ℕ) (q : Paging) : Type 0 where
  pub entry : pte_of q virt ≡ some e'
  pub own : is_cow e' ≡ false
  pub writable : e' / 2 % 2 ≡ 1
  pub others : (v : ℕ) → page_no virt ≢ page_no v → pte_of q v ≡ pte_of p v
  pub bytes :
      (off : ℕ)
      → off < page_size
      → entry_at (page_of (dir_entry p virt)) virt ≢ page_of e' + off
      → q.mem (page_of e' + off) ≡ p.mem (page_of e + off)

-- The entry of the last user.
record Turned (e e' : ℕ) : Type 0 where
  own : is_cow e' ≡ false
  writable : e' / 2 % 2 ≡ 1
  present : is_present e' ≡ true
  page : page_of e' ≡ page_of e

as_writable-Turned : (e : ℕ) → is_present e ≡ true → is_cow e ≡ true → Turned e (as_writable e)
as_writable-Turned e on cow =
    let odd : e % 2 ≡ 1 = ground arith in
    let bit : e / 512 % 2 ≡ 1 = ground arith in
    elim (Bool-cases ((e - 512) / 2 % 2 == 1)) [
      | inl w ↦
          let w' : (e - 512) / 2 % 2 ≡ 1 = ground arith in
          rw (cow, w)
            (record {
              own = ne→== ((e - 512) / 512 % 2) 1 (λ q. omega arith);
              writable = w';
              present = ground arith;
              page = omega arith;
            })
      | inr w ↦
          let w' : (e - 512) / 2 % 2 ≡ 0 = ground arith in
          rw (cow, w)
            (record {
              own = ne→== ((e - 512 + 2) / 512 % 2) 1 (λ q. omega arith);
              writable = omega arith;
              present = ground arith;
              page = omega arith;
            })
    ]

cow_at-last :
    (p : Paging) (a e : ℕ)
    → p.mem a ≡ e
    → is_cow e ≡ true
    → ltb 1 (pmm_refcount p.frames (page_of e)) ≡ false
    → cow_at p (some a) ≡ some (record p { mem = store p.mem a (as_writable e) })
unfolding cow_at
cow_at-last p a e is cow last = rw (is, cow, last) refl

pub cow_at-copy :
    (p : Paging) (a e : ℕ)
    → p.mem a ≡ e
    → is_cow e ≡ true
    → ltb 1 (pmm_refcount p.frames (page_of e)) ≡ true
    → cow_at p (some a) ≡ cow_frame p a (pmm_alloc p.frames)
unfolding cow_at
cow_at-copy p a e is cow shared = rw (is, cow, shared) refl

module _ (p : Paging) (virt e : ℕ) (valid : IsValid p) (h : pte_of p virt ≡ some e)
    (cow : is_cow e ≡ true) where
  pub has : has_table p (dir_idx virt) ≡ true
  has = (pte-found p virt e h).0

  pub is : entry_of p virt ≡ e
  is = (pte-found p virt e h).1

  abbrev at_entry : ℕ
  at_entry = entry_at (page_of (dir_entry p virt)) virt

  pub last-Writable :
      ltb 1 (pmm_refcount p.frames (page_of e)) ≡ false
      → (q : Paging) × (cow_at p (pte_ptr p virt) ≡ some q)
        × (q.frames ≡ p.frames)
        × Writable p virt e (as_writable e) q
  last-Writable last =
      let t = as_writable-Turned e (pte-found p virt e h).2 cow in
      (
        written p virt (as_writable e) valid has,
        ap (cow_at p) (ptr-some p virt has) ∙ cow_at-last p at_entry e is cow last,
        refl,
        record {
          entry = written_self p virt (as_writable e) valid has t.present;
          own = t.own;
          writable = t.writable;
          others = written-other p virt (as_writable e) valid has;
          bytes = λ off few n.
              store-other p.mem at_entry _ (as_writable e) n ∙ ap (λ b. p.mem (b + off)) t.page;
        },
      )

  -- The copy in frame i.
  module _ (i : ℕ) (z : get_or p.frames.refs i 0 ≡ 0) where
    abbrev pub copy : Paging
    copy = record p { mem = copy_page p.mem (i * page_size) p.mem (page_of e) }

    pub copy-IsValid : IsValid copy
    copy-IsValid = record {
      frames = valid.frames;
      base = valid.base;
      size = valid.size;
      held = valid.held;
      apart = valid.apart;
    }

    copy-entry : (v : ℕ) → has_table p (dir_idx v) ≡ true → entry_of copy v ≡ entry_of p v
    copy-entry v on =
        let far : table p (dir_idx v) ≢ i =
          λ s. valid.held (dir_idx v) on (ap (λ k. get_or p.frames.refs k 0) s ∙ z) in
        copied-outside p.mem p.mem (i * page_size) (page_of e) _
          (elim (dec_lt (entry_at (page_of (dir_entry p v)) v) (i * page_size)) [
            | yes l ↦ inl l
            | no l ↦ inr (omega arith)
          ])

    copy-pte : (v : ℕ) → pte_of copy v ≡ pte_of p v
    copy-pte v = elim (Bool-cases (has_table p (dir_idx v))) [
      | inr off ↦ pte_of-none copy v off ∙ sym (pte_of-none p v off)
      | inl on ↦
          pte_of-some copy v on
          ∙ ap (λ x. if is_present x then some x else none) (copy-entry v on)
          ∙ sym (pte_of-some p v on)
    ]

    module _ (pos_i : 0 < i) where
      abbrev pub moved : Paging
      moved = record (written copy virt (i * page_size + 3) copy-IsValid has) {
        frames = pmm_free (taken p.frames i) (page_of e);
      }

      pub frame-moved : cow_frame p at_entry (i * page_size, taken p.frames i) ≡ some moved
      unfolding cow_frame
      frame-moved =
          let nonzero : (i * page_size == 0) ≡ false = ground arith in rw (nonzero, is) refl

      pub moved-Writable : Writable p virt e (i * page_size + 3) moved
      moved-Writable = record {
        entry =
            pte_of-frames (written copy virt (i * page_size + 3) copy-IsValid has) _ virt
            ∙ written_self copy virt (i * page_size + 3) copy-IsValid has (ground arith);
        own = ne→== ((i * page_size + 3) / 512 % 2) 1 (λ q. omega arith);
        writable = omega arith;
        others = λ v n.
            pte_of-frames (written copy virt (i * page_size + 3) copy-IsValid has) _ v
            ∙ written-other copy virt (i * page_size + 3) copy-IsValid has v n
            ∙ copy-pte v;
        bytes = λ off few n.
            let page : page_of (i * page_size + 3) ≡ i * page_size = omega arith in
            store-other copy.mem at_entry _ (i * page_size + 3) n
            ∙ ap (λ b. copy.mem (b + off)) page
            ∙ copied p.mem p.mem (i * page_size) (page_of e) off few;
      }

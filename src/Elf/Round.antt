-- ===== src/Elf/Round.antt =====
-- src/elf.c: one round of the loop of elf_load_mem over the pages of a segment.
use native.Mathlib.Decide.{ℕ_discrete, dec_lt}
use kum_os.Base.{
  ℕ, ◌*◌, ◌≤◌, ◌<◌, ◌≡◌, ◌≢◌, ◌⊎◌, inl, inr, refl, sym, ap, ◌∙◌, Bool, true, false, none, some,
  arith, if◌then◌else◌, ◌==◌, ne→==, u32, Bool-cases, get_or, length-set, get_or-set_ne,
}
use kum_os.Frames.{page_size, pmm_max_frames, pmm_alloc}
use kum_os.Frames.Alloc.{taken, alloc_cases}
use kum_os.Paging.{
  Paging, dir_idx, page_of, is_present, clear_page, dir_entry, entry_at, pte_of, paging_map,
  paging_is_mapped,
}
use kum_os.Paging.Tables.{IsValid, table, has_table, entry_of, pte_of-none, pte_of-some}
use kum_os.Paging.Maps.{same_pte, paging_map_lem}
use kum_os.Paging.NewTable.{clear_page-outside}
use kum_os.Elf.{map_frame, user_flags}

-- Page number k is mapped.
abbrev pub IsMapped : Paging → ℕ → Type 0
IsMapped p k = paging_is_mapped p (4096 * k) ≡ true

abbrev pub IsOut : Paging → Type 0
IsOut p = (pmm_alloc p.frames).0 ≡ 0

-- Frame i is handed out and cleared.
abbrev pub given : Paging → ℕ → Paging
given p i = record p { frames = taken p.frames i; mem = clear_page p.mem (i * page_size) }

module _ (p : Paging) (i : ℕ) (valid : IsValid p) (lo : p.frames.base ≤ i) (hi : i < pmm_max_frames)
    (z : get_or p.frames.refs i 0 ≡ 0) where
  not_new : (j : ℕ) → has_table p j ≡ true → i ≢ table p j
  not_new j on e =
      let used' = valid.held j on in used' (sym (ap (λ k. get_or p.frames.refs k 0) e) ∙ z)

  given-IsValid : IsValid (given p i)
  given-IsValid = record {
    frames = record {
      size = length-set p.frames.refs i 1 ∙ valid.frames.size;
      window = valid.frames.window;
    };
    base = valid.base;
    size = valid.size;
    held =
        λ j on. rw (get_or-set_ne p.frames.refs i (table p j) 1 0 (not_new j on)) (valid.held j on);
    apart = valid.apart;
  }

  same_entry : (v : ℕ) → has_table p (dir_idx v) ≡ true → entry_of (given p i) v ≡ entry_of p v
  same_entry v on =
      let far = not_new (dir_idx v) on in
      clear_page-outside p.mem (i * page_size) (entry_at (page_of (dir_entry p v)) v)
        (elim (dec_lt (entry_at (page_of (dir_entry p v)) v) (i * page_size)) [
          | yes h ↦ inl h
          | no h ↦ inr (omega arith)
        ])

  given-pte : (v : ℕ) → pte_of (given p i) v ≡ pte_of p v
  given-pte v = elim (Bool-cases (has_table p (dir_idx v))) [
    | inr off ↦ pte_of-none (given p i) v off ∙ sym (pte_of-none p v off)
    | inl on ↦
        pte_of-some (given p i) v on
        ∙ ap (λ x. if is_present x then some x else none) (same_entry v on)
        ∙ sym (pte_of-some p v on)
  ]

-- What a round of the loop does at page n.
pub record Step (p : Paging) (n : ℕ) (q : Paging) : Type 0 where
  pub valid : IsValid q
  pub done : ((IsMapped q n) × ((k : ℕ) → IsMapped p k → IsMapped q k)) ⊎ IsOut q

pub no_confusion : false ≢ true
no_confusion e = ground (arith, e)

new-Step :
    (p : Paging) (n i : ℕ)
    → IsValid p
    → 4096 * n < u32
    → p.frames.base ≤ i
    → i < pmm_max_frames
    → get_or p.frames.refs i 0 ≡ 0
    → paging_is_mapped p (4096 * n) ≡ false
    → Step p n (paging_map (given p i) (4096 * n) (i * page_size) user_flags)
new-Step p n i valid small lo hi z off =
    let g = given-IsValid p i valid lo hi z in
    let q = paging_map (given p i) (4096 * n) (i * page_size) user_flags in
    let same = λ (v : ℕ). (same_pte p (given p i) v (given-pte p i valid lo hi z v)).0 in
    elim (paging_map_lem (given p i) (4096 * n) (i * page_size) user_flags g small (omega arith)) [
      | inl (unchanged, out) ↦ rw unchanged (record { valid = g; done = inr out })
      | inr m ↦ record {
        valid = m.valid;
        done = inl (
          m.mapped,
          λ k on. elim (ℕ_discrete n k) [
            | yes e ↦ ap (λ k. paging_is_mapped q (4096 * k)) (sym e) ∙ m.mapped
            | no d ↦ (m.others (4096 * k) (λ e. d (omega arith))).0 ∙ same (4096 * k) ∙ on
          ],
        );
      }
    ]

map_frame-none : (p : Paging) (va : ℕ) → (map_frame va p (0, p.frames)).0 ≡ false
unfolding map_frame
map_frame-none p va = refl

map_frame-some :
    (p : Paging) (va i : ℕ)
    → i ≢ 0
    → map_frame va p (i * page_size, taken p.frames i)
      ≡ (true, paging_map (given p i) va (i * page_size) user_flags)
unfolding map_frame
map_frame-some p va i nz =
    let n : (i * page_size == 0) ≡ false = ne→== (i * page_size) 0 (λ e. nz (omega arith)) in
    rw n refl

unfoldable pub round : Paging → ℕ → Bool × Paging
round p va = if paging_is_mapped p va then (true, p) else map_frame va p (pmm_alloc p.frames)

pub round-Step :
    (p : Paging) (n : ℕ)
    → IsValid p
    → 4096 * n < u32
    → (round p (4096 * n)).0 ≡ true
    → Step p n (round p (4096 * n)).1
unfolding round
round-Step p n valid small = elim (Bool-cases (paging_is_mapped p (4096 * n))) [
  | inl on ↦ rw on (λ _. record { valid = valid; done = inl (on, λ k h. h) })
  | inr off ↦ elim (alloc_cases p.frames valid.frames) [
    | inl out ↦ rw (off, out) (λ e. absurd (no_confusion (sym (map_frame-none p (4096 * n)) ∙ e)))
    | inr (i, lo, hi, z, taken') ↦
        let base = valid.base in
        rw (off, taken', map_frame-some p (4096 * n) i (λ e. omega arith))
          (λ _. new-Step p n i valid small lo hi z off)
  ]
]

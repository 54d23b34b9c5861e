-- ===== src/Paging/Tables.antt =====
-- The tables of a directory: an entry that is written, and a new table, leave the other pages alone.
use native.Mathlib.Decide.{ℕ_discrete}
use kum_os.Base.{
  ℕ, ◌/◌, ◌<◌, ◌≡◌, ◌≢◌, inl, inr, refl, sym, ap, ◌∙◌, Bool, true, false, none, some, arith,
  if◌then◌else◌, Bool-cases, ne→==, ==-refl, length, get_or,
}
use kum_os.Frames.{Frames, page_size, pmm_max_frames, pmm_alloc}
use kum_os.Frames.Alloc.{taken, alloc_cases}
use kum_os.Paging.{
  Paging, page_entries, dir_idx, page_of, is_present, store, dir_entry, entry_at, pte_ptr, pte_of,
}

-- The frame of the table that an entry of the directory names.
abbrev pub table : Paging → ℕ → ℕ
table p i = get_or p.dir i 0 / page_size

abbrev pub has_table : Paging → ℕ → Bool
has_table p i = is_present (get_or p.dir i 0)

-- The tables are in frames of their own that are referred to.
pub record IsValid (p : Paging) : Type 0 where
  pub frames : kum_os.Frames.Alloc.IsValid p.frames
  pub base : 0 < p.frames.base
  pub size : length p.dir ≡ page_entries
  pub held : (i : ℕ) → has_table p i ≡ true → get_or p.frames.refs (table p i) 0 ≢ 0
  pub apart :
      (i j : ℕ) → i ≢ j → has_table p i ≡ true → has_table p j ≡ true → table p i ≢ table p j

abbrev pub page_no : ℕ → ℕ
page_no virt = virt / page_size

-- The entries of two pages stand at different addresses.
entries_apart :
    (p : Paging) (v w : ℕ)
    → IsValid p
    → page_no v ≢ page_no w
    → has_table p (dir_idx v) ≡ true
    → has_table p (dir_idx w) ≡ true
    → entry_at (page_of (dir_entry p v)) v ≢ entry_at (page_of (dir_entry p w)) w
entries_apart p v w valid n hv hw e = elim (ℕ_discrete (dir_idx v) (dir_idx w)) [
  | yes s ↦
      let same : dir_entry p v ≡ dir_entry p w = ap (λ i. get_or p.dir i 0) s in
      n (omega (arith, s, e, same))
  | no d ↦ let far = valid.apart (dir_idx v) (dir_idx w) d hv hw in far (omega (arith, e))
]

abbrev pub entry_of : Paging → ℕ → ℕ
entry_of p v = p.mem (entry_at (page_of (dir_entry p v)) v)

pub pte_of-none : (p : Paging) (v : ℕ) → has_table p (dir_idx v) ≡ false → pte_of p v ≡ none
unfolding pte_of pte_ptr
pte_of-none p v off = ground arith

pub pte_of-some :
    (p : Paging) (v : ℕ)
    → has_table p (dir_idx v) ≡ true
    → pte_of p v ≡ (if is_present (entry_of p v) then some (entry_of p v) else none)
unfolding pte_of pte_ptr
pte_of-some p v on = ground arith

store_self : (mem : ℕ → ℕ) (a e : ℕ) → store mem a e a ≡ e
unfolding store
store_self mem a e = rw (==-refl a) refl

pub store-other : (mem : ℕ → ℕ) (a b e : ℕ) → a ≢ b → store mem a e b ≡ mem b
unfolding store
store-other mem a b e n = rw (ne→== a b n) refl

-- An entry written to the table of a page.
module _ (p : Paging) (virt e : ℕ) (valid : IsValid p)
    (has : has_table p (dir_idx virt) ≡ true) where
  abbrev pub written : Paging
  written = record p { mem = store p.mem (entry_at (page_of (dir_entry p virt)) virt) e }

  pub written_self : is_present e ≡ true → pte_of written virt ≡ some e
  written_self on =
      pte_of-some written virt has
      ∙ ap (λ x. if is_present x then some x else none)
          (store_self p.mem (entry_at (page_of (dir_entry p virt)) virt) e)
      ∙ rw on refl

  pub written-gone : is_present e ≡ false → pte_of written virt ≡ none
  written-gone off =
      pte_of-some written virt has
      ∙ ap (λ x. if is_present x then some x else none)
          (store_self p.mem (entry_at (page_of (dir_entry p virt)) virt) e)
      ∙ rw off refl

  pub written-entry : entry_of written virt ≡ e
  written-entry = store_self p.mem (entry_at (page_of (dir_entry p virt)) virt) e

  pub written-other : (v : ℕ) → page_no virt ≢ page_no v → pte_of written v ≡ pte_of p v
  written-other v n = elim (Bool-cases (has_table p (dir_idx v))) [
    | inr off ↦ pte_of-none written v off ∙ sym (pte_of-none p v off)
    | inl on ↦
        pte_of-some written v on
        ∙ ap (λ x. if is_present x then some x else none)
            (store-other p.mem _ _ e (entries_apart p virt v valid n has on))
        ∙ sym (pte_of-some p v on)
  ]

  pub written-IsValid : IsValid written
  written-IsValid = record {
    frames = valid.frames;
    base = valid.base;
    size = valid.size;
    held = valid.held;
    apart = valid.apart;
  }

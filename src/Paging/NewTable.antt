-- ===== src/Paging/NewTable.antt =====
-- A new table for a page that has none: the other pages stay as they were.
use native.Mathlib.Decide.{ℕ_discrete, dec_lt}
use kum_os.Base.{
  ℕ, ◌+◌, ◌*◌, ◌/◌, ◌≤◌, ◌<◌, ◌≡◌, ◌≢◌, ◌⊎◌, inl, inr, sym, ap, ◌∙◌, true, false, none, some, arith,
  if◌then◌else◌, Bool-cases, get_or, length-set, get_or-set_self, get_or-set_ne, u32,
}
use kum_os.Frames.{page_size, pmm_max_frames}
use kum_os.Frames.Alloc.{taken}
use kum_os.Paging.{
  Paging, dir_idx, page_of, is_present, clear_page, dir_entry, entry_at, with_table, pte_of,
}
use kum_os.Paging.Tables.{IsValid, table, has_table, entry_of, pte_of-none, pte_of-some}

clear_page-inside : (mem : ℕ → ℕ) (a b : ℕ) → a ≤ b → b < a + page_size → clear_page mem a b ≡ 0
unfolding clear_page
clear_page-inside mem a b lo hi = ground arith

pub clear_page-outside :
    (mem : ℕ → ℕ) (a b : ℕ) → (b < a) ⊎ (a + page_size ≤ b) → clear_page mem a b ≡ mem b
unfolding clear_page
clear_page-outside mem a b (inl h) = ground arith
clear_page-outside mem a b (inr h) = ground arith

-- A new table in frame i, for a page that has none.
module _ (p : Paging) (virt i : ℕ) (valid : IsValid p) (small : virt < u32)
    (off : has_table p (dir_idx virt) ≡ false) (lo : p.frames.base ≤ i) (hi : i < pmm_max_frames)
    (z : get_or p.frames.refs i 0 ≡ 0) where
  abbrev pub grown : Paging
  grown = with_table p virt (i * page_size) (taken p.frames i)

  pub new_entry : dir_entry grown virt ≡ i * page_size + 3
  new_entry = get_or-set_self p.dir (dir_idx virt) (i * page_size + 3) 0 (omega (arith, valid.size))

  old_entry : (j : ℕ) → dir_idx virt ≢ j → get_or grown.dir j 0 ≡ get_or p.dir j 0
  old_entry j n = get_or-set_ne p.dir (dir_idx virt) j (i * page_size + 3) 0 n

  pub grown-has : has_table grown (dir_idx virt) ≡ true
  grown-has = rw new_entry (ground arith)

  not_new : (j : ℕ) → has_table p j ≡ true → table p j ≢ i
  not_new j on e = let used' = valid.held j on in used' (ap (λ k. get_or p.frames.refs k 0) e ∙ z)

  new_at : (j : ℕ) → dir_idx virt ≡ j → get_or grown.dir j 0 ≡ i * page_size + 3
  new_at j s = ap (λ k. get_or grown.dir k 0) (sym s) ∙ new_entry

  new_table : (j : ℕ) → dir_idx virt ≡ j → table grown j ≡ i
  new_table j s = omega (arith, new_at j s)

  old_table : (j : ℕ) → dir_idx virt ≢ j → table grown j ≡ table p j
  old_table j n = ap (λ e. e / page_size) (old_entry j n)

  old_has : (j : ℕ) → dir_idx virt ≢ j → has_table grown j ≡ true → has_table p j ≡ true
  old_has j n on = sym (ap (λ e. is_present e) (old_entry j n)) ∙ on

  in_new : (v : ℕ) → dir_idx virt ≡ dir_idx v → entry_of grown v ≡ 0
  in_new v s =
      let e = new_at (dir_idx v) s in
      clear_page-inside p.mem (i * page_size) _ (omega (arith, e)) (omega (arith, e))

  in_old :
      (v : ℕ)
      → dir_idx virt ≢ dir_idx v
      → has_table p (dir_idx v) ≡ true
      → entry_of grown v ≡ entry_of p v
  in_old v n on =
      let far = not_new (dir_idx v) on in
      ap (λ d. clear_page p.mem (i * page_size) (entry_at (page_of d) v)) (old_entry (dir_idx v) n)
      ∙ clear_page-outside p.mem (i * page_size) _
          (elim (dec_lt (entry_at (page_of (dir_entry p v)) v) (i * page_size)) [
            | yes h ↦ inl h
            | no h ↦ inr (omega arith)
          ])

  pub grown-pte : (v : ℕ) → pte_of grown v ≡ pte_of p v
  grown-pte v = elim (ℕ_discrete (dir_idx virt) (dir_idx v)) [
    | yes s ↦
        pte_of-some grown v (rw (new_at (dir_idx v) s) (ground arith))
        ∙ ap (λ x. if is_present x then some x else none) (in_new v s)
        ∙ sym (pte_of-none p v (rw (← s) off))
    | no n ↦ elim (Bool-cases (has_table p (dir_idx v))) [
      | inr none' ↦
          pte_of-none grown v (ap (λ e. is_present e) (old_entry (dir_idx v) n) ∙ none')
          ∙ sym (pte_of-none p v none')
      | inl on ↦
          pte_of-some grown v (ap (λ e. is_present e) (old_entry (dir_idx v) n) ∙ on)
          ∙ ap (λ x. if is_present x then some x else none) (in_old v n on)
          ∙ sym (pte_of-some p v on)
    ]
  ]

  grown-held : (j : ℕ) → has_table grown j ≡ true → get_or grown.frames.refs (table grown j) 0 ≢ 0
  grown-held j on q = elim (ℕ_discrete (dir_idx virt) j) [
    | yes s ↦
        let one = get_or-set_self p.frames.refs i 1 0 (omega (arith, valid.frames.size)) in
        let zero' = ap (λ k. get_or grown.frames.refs k 0) (sym (new_table j s)) ∙ q in
        absurd (omega arith)
    | no n ↦
        let on' = old_has j n on in
        valid.held j on' (
          sym (get_or-set_ne p.frames.refs i (table p j) 1 0 (λ e. not_new j on' (sym e)))
          ∙ ap (λ k. get_or grown.frames.refs k 0) (sym (old_table j n))
          ∙ q)
  ]

  grown-apart :
      (j k : ℕ)
      → j ≢ k
      → has_table grown j ≡ true
      → has_table grown k ≡ true
      → table grown j ≢ table grown k
  grown-apart j k n hj hk e = elim (ℕ_discrete (dir_idx virt) j) [
    | yes s ↦
        let nk : dir_idx virt ≢ k = omega arith in
        not_new k (old_has k nk hk) (sym (old_table k nk) ∙ sym e ∙ new_table j s)
    | no nj ↦ elim (ℕ_discrete (dir_idx virt) k) [
      | yes s ↦ not_new j (old_has j nj hj) (sym (old_table j nj) ∙ e ∙ new_table k s)
      | no nk ↦
          valid.apart j k n (old_has j nj hj) (old_has k nk hk)
            (sym (old_table j nj) ∙ e ∙ old_table k nk)
    ]
  ]

  pub grown-IsValid : IsValid grown
  grown-IsValid = record {
    frames = record {
      size = length-set p.frames.refs i 1 ∙ valid.frames.size;
      window = valid.frames.window;
    };
    base = valid.base;
    size = length-set p.dir (dir_idx virt) (i * page_size + 3) ∙ valid.size;
    held = grown-held;
    apart = grown-apart;
  }

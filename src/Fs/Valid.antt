-- ===== src/Fs/Valid.antt =====
-- The calls of the memory file system keep its table valid.
use kum_os.Base.{
  ℕ, suc, ◌+◌, ◌<◌, ◌≡◌, ◌≢◌, refl, sym, ap, ◌∙◌, Bool, true, false, none, some, List, inl, inr,
  arith, length, get_or, set, find_index, find_index-lt, find_index-holds, find_index-none,
  get_or-set_self, get_or-set_ne, get_or-beyond, Option-cases, length-set, count, count-set, ℤ, pos,
  inc_ℤ, dec_ℤ,
}
use native.Mathlib.Decide.{ℕ_discrete, dec_lt}
use kum_os.Fs.{FsFile, Fs, no_file, is_named, is_unused, store, fs_create, fs_write, fs_delete}
use kum_os.Fs.Table.{
  IsName, IsValid, is_used, named-is_named, is_named-used, put_file, created, create-eq,
  create-named, create-full, write-found, write-missing, delete-found, delete-missing,
}

none-unnamed :
    (name : List ℕ) (fs : List FsFile) (j : ℕ)
    → find_index (is_named name) fs ≡ none
    → is_named name (get_or fs j no_file) ≡ false
unfolding is_named no_file
none-unnamed name fs j e = elim (dec_lt j (length fs)) [
  | yes l ↦ find_index-none (is_named name) fs j no_file e l
  | no n ↦ rw (get_or-beyond fs j no_file (omega arith)) refl
]

module _ (s : Fs) (valid : IsValid s) where
  module _ (i : ℕ) (v : FsFile) (l : i < length s.files) where
    after :
        (j : ℕ)
        → (P : FsFile → Type 0) → P v
        → ((i ≢ j) → P (get_or s.files j no_file))
        → P (get_or (set s.files i v) j no_file)
    after j P here there = elim (ℕ_discrete i j) [
      | yes q ↦ rw (← q, get_or-set_self s.files i v no_file l) here
      | no n ↦ rw (get_or-set_ne s.files i j v no_file n) (there n)
    ]

    -- A write into slot i whose file is counted, has a string for a name, and shares it with no
    -- other file in use.
    put-IsValid :
        (n : ℤ)
        → n ≡ pos (count is_used (set s.files i v))
        → IsName v.name
        → ((j : ℕ)
            → i ≢ j
            → v.used ≡ true
            → (get_or s.files j no_file).used ≡ true
            → v.name ≢ (get_or s.files j no_file).name)
        → IsValid (put_file s i v n)
    put-IsValid n c q alone = record {
      size = length-set s.files i v ∙ valid.size;
      counted = c;
      names = λ j. after j (λ f. IsName f.name) q (λ _. valid.names j);
      distinct = λ j k. both j k;
    }
      where
        both :
            (j k : ℕ)
            → (get_or (set s.files i v) j no_file).used ≡ true
            → (get_or (set s.files i v) k no_file).used ≡ true
            → (get_or (set s.files i v) j no_file).name ≡ (get_or (set s.files i v) k no_file).name
            → j ≡ k
        both j k = elim (ℕ_discrete i j) [
          | yes a ↦ elim (ℕ_discrete i k) [
            | yes b ↦ λ _ _ _. sym a ∙ b
            | no b ↦
                rw
                  (
                    ← a,
                    get_or-set_self s.files i v no_file l,
                    get_or-set_ne s.files i k v no_file b,
                  )
                  (λ u w e. absurd (alone k b u w e))
          ]
          | no a ↦ elim (ℕ_discrete i k) [
            | yes b ↦
                rw
                  (
                    ← b,
                    get_or-set_self s.files i v no_file l,
                    get_or-set_ne s.files i j v no_file a,
                  )
                  (λ u w e. absurd (alone j a w u (sym e)))
            | no b ↦
                rw (get_or-set_ne s.files i j v no_file a, get_or-set_ne s.files i k v no_file b)
                  (valid.distinct j k)
          ]
        ]

  stored :
      (name src : List ℕ) (i : ℕ)
      → find_index (is_named name) s.files ≡ some i
      → IsValid (put_file s i (store (get_or s.files i no_file) src) s.file_count)
  unfolding store
  stored name src i e =
      let f = get_or s.files i no_file in
      let l = find_index-lt (is_named name) s.files i e in
      let used = is_named-used name f (find_index-holds (is_named name) s.files i no_file e) in
      let counts = count-set is_used s.files i (store f src) no_file l in
      let same : count is_used (set s.files i (store f src)) ≡ count is_used s.files =
        ground (arith, counts) in
      put-IsValid i (store f src) l s.file_count (valid.counted ∙ ap pos (sym same)) (valid.names i)
        (λ j n u w q. n (valid.distinct i j used w q))

  made :
      (name src : List ℕ) (exec : Bool) (i : ℕ)
      → IsName name
      → find_index (is_named name) s.files ≡ none
      → find_index is_unused s.files ≡ some i
      → IsValid
          (put_file s i (created (get_or s.files i no_file) name src exec) (inc_ℤ s.file_count))
  unfolding store is_unused
  made name src exec i p e f =
      let old = get_or s.files i no_file in
      let v = created old name src exec in
      let l = find_index-lt is_unused s.files i f in
      let free : old.used ≡ false =
        let h = find_index-holds is_unused s.files i no_file f in ground arith in
      let counts = count-set is_used s.files i v no_file l in
      let more : count is_used (set s.files i v) ≡ count is_used s.files + 1 =
        ground (arith, counts) in
      put-IsValid i v l (inc_ℤ s.file_count) (ap inc_ℤ valid.counted ∙ ap pos (sym more)) p
        (λ j n u w q.
          let g = get_or s.files j no_file in
          let named : is_named name g ≡ true = rw q (named-is_named g (valid.names j) w) in
          let unnamed = none-unnamed name s.files j e in absurd (ground (arith, named, unnamed)))

  pub create-IsValid :
      (name src : List ℕ) (exec : Bool) → IsName name → IsValid (fs_create s name src exec).1
  create-IsValid name src exec p = elim (Option-cases (find_index (is_named name) s.files)) [
    | inr (i, e) ↦ rw (create-named s name src exec i e) valid
    | inl e ↦ elim (Option-cases (find_index is_unused s.files)) [
      | inl f ↦ rw (create-full s name src exec e f) valid
      | inr (i, f) ↦ rw (create-eq s name src exec i p e f) (made name src exec i p e f)
    ]
  ]

  -- The calls keep a table valid, whatever they return.
  pub write-IsValid : (name src : List ℕ) → IsName name → IsValid (fs_write s name src).1
  write-IsValid name src p = elim (Option-cases (find_index (is_named name) s.files)) [
    | inr (i, e) ↦ rw (write-found s name src i e) (stored name src i e)
    | inl e ↦ rw (write-missing s name src e) (create-IsValid name src false p)
  ]

  pub delete-IsValid : (name : List ℕ) → IsValid (fs_delete s name).1
  delete-IsValid name = elim (Option-cases (find_index (is_named name) s.files)) [
    | inl e ↦ rw (delete-missing s name e) valid
    | inr (i, e) ↦
        let f = get_or s.files i no_file in
        let v = record f { used = false } in
        let l = find_index-lt (is_named name) s.files i e in
        let used = is_named-used name f (find_index-holds (is_named name) s.files i no_file e) in
        let counts = count-set is_used s.files i v no_file l in
        let fewer : count is_used s.files ≡ suc (count is_used (set s.files i v)) =
          ground (arith, counts) in
        rw (delete-found s name i e) (
          put-IsValid i v l (dec_ℤ s.file_count) (ap dec_ℤ (valid.counted ∙ ap pos fewer))
            (valid.names i) (λ j n u. absurd (ground (arith, u))))
  ]

  -- Every call with a name of less than 64 bytes keeps a valid table valid, whatever it returns: the
  -- count is the number of files in use, no two of these share a name, and names are strings of less
  -- than 64 bytes.
  pub calls-IsValid :
      (name src : List ℕ) (exec : Bool)
      → IsName name
      → IsValid (fs_create s name src exec).1
        × IsValid (fs_write s name src).1
        × IsValid (fs_delete s name).1
  calls-IsValid name src exec p =
      (create-IsValid name src exec p, write-IsValid name src p, delete-IsValid name)

-- ===== src/Fs/Lookup.antt =====
-- What a name stands for after fs_write, fs_create and fs_delete.
use kum_os.Base.{
  ℕ, ◌<◌, ◌≡◌, ◌≢◌, refl, sym, ap, ◌∙◌, Bool, true, false, Option, none, some, List, inl, inr,
  arith, length, get_or, set, take, find_index, find_index-lt, find_index-holds, find_index-absent,
  find_index-set_self, get_or-set_self, get_or-set_ne, Option-cases, Bool-cases, ℤ, pos, failed,
  inc_ℤ, dec_ℤ,
}
use native.Mathlib.Decide.{ℕ_discrete}
use kum_os.Kstring.{IsString}
use kum_os.Fs.{
  FsFile, Fs, no_file, is_named, is_unused, store, fs_find, fs_create, fs_write, fs_delete,
}
use kum_os.Fs.Table.{
  IsName, IsValid, contents, lookup, contents-store, contents-created, is_named-name,
  named-is_named, is_named-used, other-name, find_index-set_new, put_file, put-lookup_other,
  lookup-found, lookup-missing, created, create-eq, create-named, create-full, write-found,
  write-missing, delete-found, delete-missing,
}

-- The name stands for `what` in the new file system, and every other for what it did.
abbrev pub Became : Fs → Fs → List ℕ → Option (List ℕ) → Type 0
Became s s' name what =
    (lookup s' name ≡ what) × ((m : List ℕ) → IsString m → m ≢ name → lookup s' m ≡ lookup s m)

impossible : failed ≢ pos 0
impossible e = ground (arith, e)

unused-unnamed : (m : List ℕ) (f : FsFile) → f.used ≡ false → is_named m f ≡ false
unfolding is_named
unused-unnamed m f u = rw u refl

module _ (s : Fs) (name : List ℕ) (valid : IsValid s) (p : IsName name) where
  -- A slot that had that name, or was not in use, and has it now.
  put-Became :
      (i : ℕ) (v : FsFile) (n : ℤ)
      → i < length s.files
      → v.name ≡ name
      → find_index (is_named name) (set s.files i v) ≡ some i
      → ((m : List ℕ) → IsString m → m ≢ name → is_named m (get_or s.files i no_file) ≡ false)
      → Became s (put_file s i v n) name (some (contents v))
  put-Became i v n l e found old = (
    lookup-found (put_file s i v n) name i found
        ∙ ap (λ f. some (contents f)) (get_or-set_self s.files i v no_file l),
    λ m q d. put-lookup_other s i v n m (other-name name m v p q e d) (old m q d),
  )

  write-Became :
      (src : List ℕ) (i : ℕ) (n : ℤ)
      → find_index (is_named name) s.files ≡ some i
      → Became s (put_file s i (store (get_or s.files i no_file) src) n) name (some (take 4095 src))
  unfolding store
  write-Became src i n e =
      let f = get_or s.files i no_file in
      let here = find_index-holds (is_named name) s.files i no_file e in
      let called : f.name ≡ name = is_named-name name f p.0 (valid.names i) here in
      let still : is_named name (store f src) ≡ true =
        rw (← called) (named-is_named (store f src) (valid.names i) (is_named-used name f here)) in
      rw (← contents-store f src) (
        put-Became i (store f src) n (find_index-lt (is_named name) s.files i e) called
          (find_index-set_self (is_named name) s.files i (store f src) e still)
          (λ m q d. other-name name m f p q called d))

  create-Became :
      (src : List ℕ) (exec : Bool) (i : ℕ) (n : ℤ)
      → find_index (is_named name) s.files ≡ none
      → find_index is_unused s.files ≡ some i
      → Became s
          (put_file s i (created (get_or s.files i no_file) name src exec) n)
          name
          (some (take 4095 src))
  unfolding store is_unused
  create-Became src exec i n e f =
      let old = get_or s.files i no_file in
      let v = created old name src exec in
      let l = find_index-lt is_unused s.files i f in
      let free = find_index-holds is_unused s.files i no_file f in
      rw (← contents-created old name src exec) (
        put-Became i v n l refl
          (find_index-set_new (is_named name) s.files i v e (named-is_named v p refl) l)
          (λ m q d. unused-unnamed m old (ground arith)))

  -- In a valid table, a fs_create with a name of less than 64 bytes that succeeds gives a name that stood for nothing the first 4095
  -- bytes of the data, and changes what no other name stands for.
  pub create_lookup :
      (src : List ℕ) (exec : Bool)
      → (fs_create s name src exec).0 ≡ pos 0
      → (lookup s name ≡ none) × Became s (fs_create s name src exec).1 name (some (take 4095 src))
  create_lookup src exec ok = elim (Option-cases (find_index (is_named name) s.files)) [
    | inr (i, e) ↦
        let r = create-named s name src exec i e in absurd (impossible (sym (ap (λ x. x.0) r) ∙ ok))
    | inl e ↦ elim (Option-cases (find_index is_unused s.files)) [
      | inl f ↦
          let r = create-full s name src exec e f in
          absurd (impossible (sym (ap (λ x. x.0) r) ∙ ok))
      | inr (i, f) ↦ (
        lookup-missing s name e,
        rw (create-eq s name src exec i p e f) (create-Became src exec i (inc_ℤ s.file_count) e f),
      )
    ]
  ]

  -- In a valid table, a fs_write with a name of less than 64 bytes that succeeds gives the name the
  -- first 4095 bytes of the data, and changes what no other name stands for.
  pub write_lookup :
      (src : List ℕ)
      → (fs_write s name src).0 ≡ pos 0
      → Became s (fs_write s name src).1 name (some (take 4095 src))
  write_lookup src ok = elim (Option-cases (find_index (is_named name) s.files)) [
    | inr (i, e) ↦ rw (write-found s name src i e) (write-Became src i s.file_count e)
    | inl e ↦
        let r = write-missing s name src e in
        rw r (create_lookup src false (sym (ap (λ x. x.0) r) ∙ ok)).1
  ]

  gone :
      (i : ℕ)
      → find_index (is_named name) s.files ≡ some i
      → (j : ℕ)
      → is_named name
          (get_or (set s.files i (record (get_or s.files i no_file) { used = false })) j no_file)
        ≡ false
  gone i e j =
      let f = get_or s.files i no_file in
      let v = record f { used = false } in
      let fs = set s.files i v in
      elim (ℕ_discrete i j) [
        | yes q ↦
            let at_i =
              get_or-set_self s.files i v no_file (find_index-lt (is_named name) s.files i e) in
            rw (← q, at_i) (unused-unnamed name v refl)
        | no n ↦ elim (Bool-cases (is_named name (get_or s.files j no_file))) [
          | inr h ↦ rw (get_or-set_ne s.files i j v no_file n) h
          | inl h ↦
              let here = find_index-holds (is_named name) s.files i no_file e in
              let g = get_or s.files j no_file in
              absurd (
                n (
                  valid.distinct i j (is_named-used name f here) (is_named-used name g h) (
                    is_named-name name f p.0 (valid.names i) here
                    ∙ sym (is_named-name name g p.0 (valid.names j) h))))
        ]
      ]

  -- In a valid table, a fs_delete with a name of less than 64 bytes that succeeds leaves the name standing for nothing, and changes
  -- what no other name stands for.
  pub delete_lookup : (fs_delete s name).0 ≡ pos 0 → Became s (fs_delete s name).1 name none
  delete_lookup ok = elim (Option-cases (find_index (is_named name) s.files)) [
    | inl e ↦ let r = delete-missing s name e in absurd (impossible (sym (ap (λ x. x.0) r) ∙ ok))
    | inr (i, e) ↦
        let f = get_or s.files i no_file in
        let v = record f { used = false } in
        let s' = put_file s i v (dec_ℤ s.file_count) in
        let here = find_index-holds (is_named name) s.files i no_file e in
        let called = is_named-name name f p.0 (valid.names i) here in
        rw (delete-found s name i e) (
          lookup-missing s' name
              (find_index-absent (is_named name) s'.files no_file (λ j l. gone i e j)),
          λ m q d.
              put-lookup_other s i v (dec_ℤ s.file_count) m (unused-unnamed m v refl)
                (other-name name m f p q called d),
        )
  ]

pub write_succeeds :
    (s : Fs) (name src : List ℕ) (i : ℕ) → fs_find s name ≡ some i → (fs_write s name src).0 ≡ pos 0
unfolding fs_find
write_succeeds s name src i e = ap (λ r. r.0) (write-found s name src i e)

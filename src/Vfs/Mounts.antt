-- ===== src/Vfs/Mounts.antt =====
-- find_mount: the mount with the longest prefix of a path.
use kum_os.Base.{
  ℕ, zero, suc, ◌+◌, ◌≤◌, ◌<◌, ◌≡◌, ◌⊎◌, inl, inr, refl, ap, ◌∙◌, true, false, Option, none, some,
  List, [], ◌∷◌, ◌&&◌, arith, ltb, Bool-cases, length, drop,
}
use kum_os.Vfs.{Mount, is_prefix, best_mount, find_mount, skip_slash}

next : (i j : ℕ) → some (i + 1 + j) ≡ some (i + suc j)
next i j = ap some (omega arith)

module _ {S : Type 0} where
  -- The prefix of mount j, and no bytes if there is no such mount.
  abbrev pub prefix_at : List (Mount S) → ℕ → List ℕ
  prefix_at [] j = []
  prefix_at (m ∷ ms) zero = m.prefix
  prefix_at (m ∷ ms) (suc j) = prefix_at ms j

  module _ (path : List ℕ) where
    -- What the loop over the mounts ms makes of the best one before them.
    abbrev Best : List (Mount S) → ℕ → Option ℕ → ℕ → Option ℕ × ℕ → Type 0
    Best ms i best best_len (b, n) =
        (best_len ≤ n)
        × ((j : ℕ) → is_prefix (prefix_at ms j) path ≡ true → length (prefix_at ms j) ≤ n)
        × (((b ≡ best) × (n ≡ best_len))
            ⊎ ((j : ℕ) × (b ≡ some (i + j))
                × (best_len < n)
                × (n ≡ length (prefix_at ms j))
                × (is_prefix (prefix_at ms j) path ≡ true)))

    all-cons :
        (m : Mount S) (ms : List (Mount S)) (n : ℕ)
        → (is_prefix m.prefix path ≡ true → length m.prefix ≤ n)
        → ((j : ℕ) → is_prefix (prefix_at ms j) path ≡ true → length (prefix_at ms j) ≤ n)
        → (j : ℕ) → is_prefix (prefix_at (m ∷ ms) j) path ≡ true
        → length (prefix_at (m ∷ ms) j) ≤ n
    all-cons m ms n now all zero h = now h
    all-cons m ms n now all (suc j) h = all j h

    module _ (m : Mount S) (ms : List (Mount S)) (i : ℕ) (best : Option ℕ) (best_len : ℕ) where
      Best-better :
          (r : Option ℕ × ℕ)
          → is_prefix m.prefix path ≡ true
          → best_len < length m.prefix
          → Best ms (i + 1) (some i) (length m.prefix) r
          → Best (m ∷ ms) i best best_len r
      Best-better (b, n) p l (low, all, which) = (
        omega arith,
        all-cons m ms n (λ _. low) all,
        inr (elim which [
          | inl (e, f) ↦ (zero, e ∙ ap some (omega arith), omega arith, f, p)
          | inr (j, e, g, f, q) ↦ (suc j, e ∙ next i j, omega arith, f, q)
        ]),
      )

      Best-skip :
          (r : Option ℕ × ℕ)
          → is_prefix m.prefix path && ltb best_len (length m.prefix) ≡ false
          → Best ms (i + 1) best best_len r
          → Best (m ∷ ms) i best best_len r
      Best-skip (b, n) skip (low, all, which) = (
        low,
        all-cons m ms n (λ h. ground arith) all,
        elim which [ inl e ↦ inl e | inr (j, e, g, f, q) ↦ inr (suc j, e ∙ next i j, g, f, q) ],
      )

    best_mount-Best :
        (ms : List (Mount S)) (i : ℕ) (best : Option ℕ) (best_len : ℕ)
        → Best ms i best best_len (best_mount path ms i best best_len)
    unfolding best_mount
    best_mount-Best [] i best best_len = (omega arith, λ j h. omega arith, inl (refl, refl))
    best_mount-Best (m ∷ ms) i best best_len =
        elim (Bool-cases (is_prefix m.prefix path && ltb best_len (length m.prefix))) [
          | inl e ↦
              let r = best_mount path ms (i + 1) (some i) (length m.prefix) in
              rw (best_mount, e)
                (Best-better m ms i best best_len r (ground arith) (ground arith)
                  (best_mount-Best ms (i + 1) (some i) (length m.prefix)))
          | inr e ↦
              rw (best_mount, e)
                (Best-skip m ms i best best_len (best_mount path ms (i + 1) best best_len) e
                  (best_mount-Best ms (i + 1) best best_len))
        ]

    -- Mount j has a prefix of the path, not empty, and none in the table is longer.
    abbrev pub Longest : List (Mount S) → ℕ → Type 0
    Longest ms j =
        (is_prefix (prefix_at ms j) path ≡ true)
        × (0 < length (prefix_at ms j))
        × ((k : ℕ)
            → is_prefix (prefix_at ms k) path ≡ true
            → length (prefix_at ms k) ≤ length (prefix_at ms j))

    -- find_mount gives a mount with the longest of the prefixes that the path starts with, and the
    -- rest of the path less a slash; or none, and `local` as it was, if no prefix in the table but
    -- an empty one starts the path.
    pub find_mount_lem :
        (ms : List (Mount S)) (local : List ℕ)
        → ((j : ℕ) × (find_mount ms path local
              ≡ (some j, skip_slash (drop (length (prefix_at ms j)) path)))
            × Longest ms j)
          ⊎ ((find_mount ms path local ≡ (none, local))
              × ((k : ℕ) → is_prefix (prefix_at ms k) path ≡ true → length (prefix_at ms k) ≡ 0))
    unfolding find_mount
    find_mount_lem ms local =
        let (low, all, which) = best_mount-Best ms 0 none 0 in
        elim which [
          | inl (e, f) ↦ inr (ground arith, λ k h. let a = all k h in omega arith)
          | inr (j, e, g, f, q) ↦
              inl (j, ground arith, (q, omega arith, λ k h. let a = all k h in omega arith))
        ]

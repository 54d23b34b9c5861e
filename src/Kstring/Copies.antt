-- ===== src/Kstring/Copies.antt =====
-- What the copying functions leave in a buffer that is long enough.
use kum_os.Base.{
  ℕ, suc, ◌+◌, ◌<◌, ◌≡◌, refl, ap, false, List, [], ◌∷◌, ◌++◌, inl, inr, arith, length, ◌==◌,
  Bool-cases,
}
use kum_os.Kstring.{IsString, overwrite, c_string, kstrcpy, kstrcat}

-- A string and its 0 over the start of a buffer.
overwrite-string :
    (dst src : List ℕ)
    → IsString src
    → length src < length dst
    → c_string (overwrite dst (src ++ 0 ∷ [])) ≡ src
unfolding overwrite c_string
overwrite-string [] src s h = absurd (omega arith)
overwrite-string (d ∷ ds) [] s h = refl
overwrite-string (d ∷ ds) (c ∷ cs) (pos_c, s) h =
    let nonzero : (c == 0) ≡ false = ground arith in
    rw nonzero (ap (◌∷◌ c) (overwrite-string ds cs s (omega arith)))

length-overwrite : (dst src : List ℕ) → length (overwrite dst src) ≡ length dst
unfolding overwrite
length-overwrite [] src = refl
length-overwrite (d ∷ ds) [] = refl
length-overwrite (d ∷ ds) (c ∷ cs) = ap suc (length-overwrite ds cs)

length-cat : (dst src : List ℕ) → length (kstrcat dst src) ≡ length dst
unfolding kstrcat
length-cat [] src = refl
length-cat (d ∷ ds) src = elim (Bool-cases (d == 0)) [
  | inl z ↦ rw z (length-overwrite (d ∷ ds) (src ++ 0 ∷ []))
  | inr n ↦ rw n (ap suc (length-cat ds src))
]

cat-string :
    (dst src : List ℕ)
    → IsString src
    → length (c_string dst) + length src < length dst
    → c_string (kstrcat dst src) ≡ c_string dst ++ src
unfolding kstrcat c_string
cat-string [] src s h = absurd (omega arith)
cat-string (d ∷ ds) src s h = elim (Bool-cases (d == 0)) [
  | inl z ↦ rw z (overwrite-string (d ∷ ds) src s (omega arith))
  | inr n ↦ rw n (rw n (ap (◌∷◌ d) (cat-string ds src s (ground arith))))
]

-- The copy of a string, and a string behind the one that a buffer holds, where they fit with the
-- terminating 0; the buffer keeps its length.
pub kstrcat_lem :
    (dst src : List ℕ)
    → IsString src
    → length (c_string dst) + length src < length dst
    → (c_string (kstrcat dst src) ≡ c_string dst ++ src)
      × (length (kstrcat dst src) ≡ length dst)
      × (c_string (kstrcpy dst src) ≡ src)
      × (length (kstrcpy dst src) ≡ length dst)
kstrcat_lem dst src s h = (cat-string dst src s h, length-cat dst src, copied, kept)
  where
    copied : c_string (kstrcpy dst src) ≡ src
    copied = unfold kstrcpy in overwrite-string dst src s (omega arith)

    kept : length (kstrcpy dst src) ≡ length dst
    kept = unfold kstrcpy in length-overwrite dst (src ++ 0 ∷ [])

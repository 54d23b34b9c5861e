-- ===== src/Kstring/Compare.antt =====
-- kstrcmp tells strings apart.
use kum_os.Base.{
  ℕ, ◌≡◌, refl, List, [], ◌∷◌, inl, inr, arith, ◌==◌, ==→eq, ==-refl, Bool-cases, pos,
}
use kum_os.Kstring.{IsString, byte_diff, kstrcmp}

byte_diff-zero : (a b : ℕ) → byte_diff a b ≡ pos 0 → a ≡ b
unfolding byte_diff
byte_diff-zero a b h = ground arith

pub kstrcmp-eq : (a b : List ℕ) → IsString a → IsString b → kstrcmp a b ≡ pos 0 → a ≡ b
unfolding kstrcmp
kstrcmp-eq [] [] p q h = refl
kstrcmp-eq [] (b ∷ ys) p (q, qs) h = absurd (let e = byte_diff-zero 0 b h in omega arith)
kstrcmp-eq (a ∷ xs) [] (p, ps) q h = absurd (let e = byte_diff-zero a 0 h in omega arith)
kstrcmp-eq (a ∷ xs) (b ∷ ys) (p, ps) (q, qs) h = elim (Bool-cases (a == b)) [
  | inl e ↦
      let tails = kstrcmp-eq xs ys ps qs (ground arith) in
      let heads = ==→eq a b e in rw (heads, tails) refl
  | inr e ↦
      let heads = byte_diff-zero a b (ground arith) in
      let same = ==-refl a in absurd (ground (arith, heads))
]

pub kstrcmp_refl : (a : List ℕ) → kstrcmp a a ≡ pos 0
unfolding kstrcmp
kstrcmp_refl [] = refl
kstrcmp_refl (a ∷ xs) = rw (==-refl a) (kstrcmp_refl xs)

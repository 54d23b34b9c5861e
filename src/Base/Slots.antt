-- ===== src/Base/Slots.antt =====
-- `for (int i = 0; i < N; i++) if (test(table[i])) return i; return -1;`: the search for a slot, and
-- the count of the slots that pass a test.
use Prim.Native.Nat.{ℕ, zero, suc, ◌+◌, ◌<◌, ◌≤◌}
use mathlib.Core.Path.{◌≡◌, refl}
use mathlib.Core.Bool.{Bool, true, false}
use mathlib.Core.List.{List, [], ◌∷◌}
use mathlib.Core.Option.{Option, none, some}
use native.Mathlib.Omega.{arith}
use kum_os.Base.Tests.{if◌then◌else◌}
use kum_os.Base.Lists.{length, get_or, set}

abbrev bump : Option ℕ → Option ℕ
bump none = none
bump (some i) = some (suc i)

abbrev pub to_ℕ : Bool → ℕ
to_ℕ true = 1
to_ℕ false = 0

module _ {ℓ} {A : Type ℓ} where
  -- The first index whose entry passes the test.
  unfoldable pub find_index : (A → Bool) → List A → Option ℕ
  find_index p [] = none
  find_index p (x ∷ xs) = if p x then some 0 else bump (find_index p xs)

  unfoldable pub count : (A → Bool) → List A → ℕ
  count p [] = 0
  count p (x ∷ xs) = to_ℕ (p x) + count p xs

module _ {ℓ} {A : Type ℓ} (p : A → Bool) where
  pub find_index-lt : (xs : List A) (i : ℕ) → find_index p xs ≡ some i → i < length xs
  unfolding find_index
  find_index-lt [] i h = ground arith
  find_index-lt (x ∷ xs) zero h = omega arith
  find_index-lt (x ∷ xs) (suc i) h = ground (arith, find_index-lt xs i)

  pub find_index-holds :
      (xs : List A) (i : ℕ) (d : A) → find_index p xs ≡ some i → p (get_or xs i d) ≡ true
  unfolding find_index
  find_index-holds [] i d h = ground arith
  find_index-holds (x ∷ xs) zero d h = ground arith
  find_index-holds (x ∷ xs) (suc i) d h = ground (arith, find_index-holds xs i d)

  -- Nothing before the found index passes.
  pub find_index-first :
      (xs : List A) (i j : ℕ) (d : A) → find_index p xs ≡ some i → j < i → p (get_or xs j d) ≡ false
  unfolding find_index
  find_index-first [] i j d h l = ground arith
  find_index-first (x ∷ xs) zero j d h l = absurd (omega arith)
  find_index-first (x ∷ xs) (suc i) zero d h l = ground arith
  find_index-first (x ∷ xs) (suc i) (suc j) d h l = ground (arith, find_index-first xs i j d)

  pub find_index-none :
      (xs : List A) (j : ℕ) (d : A)
      → find_index p xs ≡ none
      → j < length xs
      → p (get_or xs j d) ≡ false
  unfolding find_index
  find_index-none [] j d h l = absurd (omega arith)
  find_index-none (x ∷ xs) zero d h l = ground arith
  find_index-none (x ∷ xs) (suc j) d h l = ground (arith, find_index-none xs j d)

  pub count-set :
      (xs : List A) (i : ℕ) (v d : A)
      → i < length xs
      → count p (set xs i v) + to_ℕ (p (get_or xs i d)) ≡ count p xs + to_ℕ (p v)
  unfolding count
  count-set [] i v d h = absurd (omega arith)
  count-set (x ∷ xs) zero v d h = omega arith
  count-set (x ∷ xs) (suc i) v d h = omega (arith, count-set xs i v d (omega arith))

  pub count-le-length : (xs : List A) → count p xs ≤ length xs
  unfolding count
  count-le-length [] = omega arith
  count-le-length (x ∷ xs) = ground (arith, count-le-length xs)

  pub find_index-set_self :
      (xs : List A) (i : ℕ) (v : A)
      → find_index p xs ≡ some i
      → p v ≡ true
      → find_index p (set xs i v) ≡ some i
  unfolding find_index
  find_index-set_self [] i v e h = ground arith
  find_index-set_self (x ∷ xs) zero v e h = rw h
  find_index-set_self (x ∷ xs) (suc i) v e h = ground (arith, find_index-set_self xs i v)

  pub find_index-absent :
      (xs : List A) (d : A)
      → ((j : ℕ) → j < length xs → p (get_or xs j d) ≡ false)
      → find_index p xs ≡ none
  unfolding find_index
  find_index-absent [] d h = refl
  find_index-absent (x ∷ xs) d h =
      rw (h 0 (omega arith), find_index-absent xs d (λ j l. h (suc j) (omega arith)))

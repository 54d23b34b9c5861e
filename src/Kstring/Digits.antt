-- ===== src/Kstring/Digits.antt =====
-- kitoa writes the number in the base, and its 32 places are enough.
use mathlib.Core.List.{reverse, reverse-cons}
use native.Mathlib.Nat.{div-add-mod', div-lt_iff_lt-mul, mod-lt, pow-succ', mul-le-mul_left}
use kum_os.Base.{
  ℕ, zero, suc, ◌+◌, ◌-◌, ◌*◌, ◌/◌, ◌%◌, ◌^◌, ◌≤◌, ◌<◌, ◌≡◌, refl, sym, ap, ◌∙◌, List, [], ◌∷◌,
  ◌++◌, inl, inr, arith, length, if◌then◌else◌, ltb, ◌==◌, ==→eq, Bool-cases, u32, length-append,
}
use kum_os.Kstring.{digit_char, kitoa_loop, kitoa}

-- The number that a digit stands for, and that digits stand for in a base, the highest first.
pub digit_value : ℕ → ℕ
digit_value c = if ltb c b'A' then c - b'0' else c - b'A' + 10

pub value_from : ℕ → ℕ → List ℕ → ℕ
value_from base acc [] = acc
value_from base acc (c ∷ cs) = value_from base (acc * base + digit_value c) cs

digit_value-char : (d : ℕ) → d < 16 → digit_value (digit_char d) ≡ d
unfolding digit_value digit_char
digit_value-char d h = ground arith

value-append :
    (base acc : ℕ) (xs : List ℕ) (c : ℕ)
    → value_from base acc (xs ++ c ∷ []) ≡ value_from base acc xs * base + digit_value c
unfolding value_from
value-append base acc [] c = refl
value-append base acc (x ∷ xs) c = value-append base (acc * base + digit_value x) xs c

-- A division by the base takes a bit at least.
halves : (val base n : ℕ) → 2 ≤ base → val < 2 * n → val / base < n
halves val base n b h =
    let m : n * 2 ≤ n * base = mul-le-mul_left n b in
    (div-lt_iff_lt-mul {k = base} {x = val} {y = n} (omega arith)).1 (omega arith)

value-nil : (base : ℕ) → value_from base 0 [] ≡ 0
unfolding value_from
value-nil base = refl

value-zero : (base : ℕ) → value_from base 0 (b'0' ∷ []) ≡ 0
unfolding value_from digit_value
value-zero base = omega arith

-- What the loop leaves in tmp for a number below 2 ^ fuel.
record Digits (fuel val base : ℕ) (tmp : List ℕ) : Type 0 where
  value : value_from base 0 (reverse tmp) ≡ val
  fits : length tmp ≤ fuel

kitoa_loop-Digits :
    (fuel val base : ℕ)
    → 2 ≤ base
    → base ≤ 16
    → val < 2 ^ fuel
    → Digits fuel val base (kitoa_loop fuel val base)
unfolding kitoa_loop
kitoa_loop-Digits zero val base lo hi h =
    let z : val ≡ 0 = omega arith in record { value = value-nil base ∙ sym z; fits = omega arith }
kitoa_loop-Digits (suc fuel) val base lo hi h = elim (Bool-cases (val == 0)) [
  | inl z ↦ rw z (record { value = value-nil base ∙ sym (==→eq val 0 z); fits = omega arith })
  | inr n ↦
      let p : 2 ^ suc fuel ≡ 2 * 2 ^ fuel = pow-succ' 2 fuel in
      let r =
        kitoa_loop-Digits fuel (val / base) base lo hi
          (halves val base (2 ^ fuel) lo (omega arith)) in
      let tmp = kitoa_loop fuel (val / base) base in
      let d = digit_value-char (val % base) (omega (arith, mod-lt val {m = base} (omega arith))) in
      rw n (record {
        value =
            ap (value_from base 0) (reverse-cons (digit_char (val % base)) tmp)
            ∙ value-append base 0 (reverse tmp) (digit_char (val % base))
            ∙ rw (r.value, d) (div-add-mod' val base);
        fits = omega (arith, r.fits);
      })
]

length-reverse : (xs : List ℕ) → length (reverse xs) ≡ length xs
length-reverse [] = refl
length-reverse (x ∷ xs) =
    ap length (reverse-cons x xs)
    ∙ omega (arith, length-append (reverse xs) (x ∷ []), length-reverse xs)

-- In a base from 2 to 16, kitoa of a 32-bit number gives at most 32 digits, as many as its buffer
-- holds before the terminating 0, and they stand for the number.
pub kitoa_lem :
    (val base : ℕ)
    → 2 ≤ base
    → base ≤ 16
    → val < u32
    → (value_from base 0 (kitoa val base) ≡ val) × (length (kitoa val base) ≤ 32)
unfolding kitoa
kitoa_lem val base lo hi h = elim (Bool-cases (val == 0)) [
  | inl z ↦ rw z (value-zero base ∙ sym (==→eq val 0 z), omega arith)
  | inr n ↦
      let r = kitoa_loop-Digits 32 val base lo hi h in
      rw n (r.value, omega (arith, r.fits, length-reverse (kitoa_loop 32 val base)))
]

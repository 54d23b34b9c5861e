-- ===== src/Net/Checksum.antt =====
-- src/net.c, ip_checksum: a header that holds its checksum has the checksum 0.
use kum_os.Base.{
  ℕ, zero, suc, ◌+◌, ◌-◌, ◌*◌, ◌/◌, ◌%◌, ◌^◌, ◌<◌, ◌≡◌, ap, ◌∙◌, true, List, [], ◌∷◌, ◌++◌, arith,
  ◌==◌, length, u32, add32, Bool-cases, inl, inr,
}
use kum_os.Net.{sum_words, fold_carry, ip_checksum}

-- The sum of the words, without a limit.
abbrev pub total : List ℕ → ℕ
total [] = 0
total (b ∷ []) = b
total (b ∷ c ∷ bs) = b + 256 * c + total bs

sum_words-total : (bs : List ℕ) (sum : ℕ) → sum + total bs < u32 → sum_words sum bs ≡ sum + total bs
unfolding sum_words
sum_words-total [] sum h = omega arith
sum_words-total (b ∷ []) sum h = omega arith
sum_words-total (b ∷ c ∷ bs) sum h =
    let step : add32 sum (b + 256 * c) ≡ sum + (b + 256 * c) = omega arith in
    rw step (sum_words-total bs (sum + (b + 256 * c)) (omega arith) ∙ omega arith)

-- What the folding leaves: less than 2^16, the same modulo 2^16 - 1, and 0 only for 0.
record Folded (sum f : ℕ) : Type 0 where
  quotient : ℕ
  same : f + 65535 * quotient ≡ sum
  small : f < 2 ^ 16
  positive : 0 < sum → 0 < f

fold-Folded : (sum : ℕ) → sum < u32 → Folded sum (fold_carry 3 sum)
unfolding fold_carry
fold-Folded sum h = elim (Bool-cases (sum / 2 ^ 16 == 0)) [
  | inl t ↦
      rw t (record { quotient = 0; same = omega arith; small = ground arith; positive = λ p. p })
  | inr f ↦
      let one = sum % 2 ^ 16 + sum / 2 ^ 16 in
      elim (Bool-cases (one / 2 ^ 16 == 0)) [
        | inl t ↦
            rw (f, t)
              (record {
                quotient = sum / 2 ^ 16;
                same = omega arith;
                small = ground arith;
                positive = λ p. omega arith;
              })
        | inr g ↦
            let two = one % 2 ^ 16 + one / 2 ^ 16 in
            let done : (two / 2 ^ 16 == 0) ≡ true = ground arith in
            rw (f, g, done)
              (record {
                quotient = sum / 2 ^ 16 + one / 2 ^ 16;
                same = omega arith;
                small = omega arith;
                positive = λ p. omega arith;
              })
      ]
]

total-put :
    (n : ℕ) (xs ys : List ℕ) (c d : ℕ)
    → length xs ≡ n + n
    → total (xs ++ c ∷ d ∷ ys) ≡ total (xs ++ 0 ∷ 0 ∷ ys) + (c + 256 * d)
total-put n [] ys c d h = omega arith
total-put n (x ∷ []) ys c d h = absurd (omega arith)
total-put zero (x ∷ y ∷ xs) ys c d h = absurd (omega arith)
total-put (suc n) (x ∷ y ∷ xs) ys c d h = omega (arith, total-put n xs ys c d (omega arith))

ip_checksum-total :
    (bs : List ℕ) → total bs < u32 → ip_checksum bs ≡ 65535 - fold_carry 3 (total bs)
unfolding ip_checksum
ip_checksum-total bs h =
    let plain : sum_words 0 bs ≡ total bs = sum_words-total bs 0 (omega arith) ∙ omega arith in
    ap (λ s. 65535 - fold_carry 3 s) plain

-- The checksum of bytes whose words add up to less than 2^32, with 0 in the place of an aligned word:
-- with this checksum in that place, the lower byte first, the checksum of the bytes is 0.
pub ip_checksum_lem :
    (n : ℕ) (xs ys : List ℕ)
    → length xs ≡ n + n
    → total (xs ++ 0 ∷ 0 ∷ ys) + 2 ^ 16 < u32
    → (let sum = ip_checksum (xs ++ 0 ∷ 0 ∷ ys) in
        ip_checksum (xs ++ sum % 256 ∷ sum / 256 ∷ ys) ≡ 0)
ip_checksum_lem n xs ys even small =
    let zeroed = xs ++ 0 ∷ 0 ∷ ys in
    let sum = ip_checksum zeroed in
    let whole = xs ++ sum % 256 ∷ sum / 256 ∷ ys in
    let is = ip_checksum-total zeroed (omega arith) in
    let first = fold-Folded (total zeroed) (omega arith) in
    let same = first.same in
    let low = first.small in
    let more : total whole ≡ total zeroed + sum =
      total-put n xs ys (sum % 256) (sum / 256) even ∙ omega arith in
    let second = fold-Folded (total whole) (omega arith) in
    let same' = second.same in
    let low' = second.small in
    let high' = second.positive (omega arith) in ip_checksum-total whole (omega arith) ∙ omega arith

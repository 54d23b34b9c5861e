-- ===== src/Rtc/Decode.antt =====
-- src/rtc.c: the clock's formats, and what they are decoded to.
use kum_os.Base.{
  ℕ, ◌+◌, ◌*◌, ◌/◌, ◌%◌, ◌<◌, ◌≡◌, refl, arith, if◌then◌else◌, leb, ◌==◌, Bool-cases, inl, inr,
}
use kum_os.Rtc.{bcd_to_bin, is_binary, is_24_hour, hour_of}

-- Two decimal digits in a byte.
abbrev pub to_bcd : ℕ → ℕ
to_bcd n = n / 10 * 16 + n % 10

pub bcd_lem : (n : ℕ) → n < 100 → bcd_to_bin (to_bcd n) ≡ n
unfolding bcd_to_bin
bcd_lem n h = omega arith

-- The hour of a 12-hour clock, as it stands in the register.
abbrev pub twelve_hour : ℕ → ℕ → ℕ
twelve_hour regb n =
    let h = if n % 12 == 0 then 12 else n % 12 in
    (if is_binary regb then h else to_bcd h) + (if leb 12 n then 128 else 0)

-- An hour from 0 to 23, as the clock keeps it in the format that register B names: rtc_read gives this
-- hour, but for a 12-hour clock, noon is read as 0 and midnight as 12.
pub hour_lem :
    (regb n : ℕ)
    → n < 24
    → hour_of regb
        (if is_24_hour regb then (if is_binary regb then n else to_bcd n) else twelve_hour regb n)
      ≡ (if is_24_hour regb then n else if n == 12 then 0 else if n == 0 then 12 else n)
unfolding hour_of bcd_to_bin
hour_lem regb n h = elim (Bool-cases (is_24_hour regb)) [
  | inl a ↦ elim (Bool-cases (is_binary regb)) [
    | inl b ↦ rw (a, b) refl
    | inr b ↦ rw (a, b) (ground arith)
  ]
  | inr a ↦ elim (Bool-cases (is_binary regb)) [
    | inl b ↦ rw (a, b) (ground arith)
    | inr b ↦ rw (a, b) (ground arith)
  ]
]

-- ===== src/Base/Words.antt =====
-- C integers: `int` as a signed number (no operation of the kernel that is modelled here leaves its
-- range), `uint32_t` as a number below 2^32 with its wrap-around written out.
use Prim.Native.Nat.{ℕ, zero, suc, ◌+◌, ◌-◌, ◌*◌, ◌%◌, ◌^◌}
use mathlib.Core.Option.{Option, none, some}
use mathlib.Core.Bool.{Bool, false}
use kum_os.Base.Tests.{if◌then◌else◌, ltb, leb, ◌==◌}

-- `negsuc n` is -(n + 1).
pub data ℤ : Type 0 where
  pos : ℕ → ℤ
  negsuc : ℕ → ℤ

-- -1, what the kernel's functions return on failure.
abbrev pub failed : ℤ
failed = negsuc 0

-- `n + 1` and `n - 1` on an `int`.
abbrev pub inc_ℤ : ℤ → ℤ
inc_ℤ (pos n) = pos (n + 1)
inc_ℤ (negsuc zero) = pos 0
inc_ℤ (negsuc (suc n)) = negsuc n

abbrev pub dec_ℤ : ℤ → ℤ
dec_ℤ (pos zero) = negsuc 0
dec_ℤ (pos (suc n)) = pos n
dec_ℤ (negsuc n) = negsuc (n + 1)

-- `i >= n` and `i == n` for an `int` i and a number n.
abbrev pub geb_ℤ : ℤ → ℕ → Bool
geb_ℤ (pos i) n = leb n i
geb_ℤ (negsuc i) n = false

abbrev pub eqb_ℤ : ℤ → ℕ → Bool
eqb_ℤ (pos i) n = i == n
eqb_ℤ (negsuc i) n = false

abbrev pub u32 : ℕ
u32 = 2 ^ 32

abbrev pub add32 : ℕ → ℕ → ℕ
add32 a b = (a + b) % u32

abbrev pub sub32 : ℕ → ℕ → ℕ
sub32 a b = (a + u32 - b) % u32

abbrev pub mul32 : ℕ → ℕ → ℕ
mul32 a b = a * b % u32

-- `if (i < 0 || i >= n) ...`: the index that an `int` names in a table of n entries.
abbrev pub index_in : ℕ → ℤ → Option ℕ
index_in n (pos i) = if ltb i n then some i else none
index_in n (negsuc _) = none

-- A uint32_t as an `int`.
abbrev pub to_int : ℕ → ℤ
to_int n = if ltb n (2 ^ 31) then pos n else negsuc (u32 - 1 - n)

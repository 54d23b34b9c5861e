-- ===== src/Kstring.antt =====
-- src/kstring.c. A string is its bytes before the terminating 0; a buffer that a function writes is a
-- list of bytes, and what it would write beyond the end is dropped.
pub mod Compare
pub mod Copies
pub mod Digits
pub mod Examples
use mathlib.Core.List.{reverse}
use kum_os.Base.{
  ℕ, zero, suc, ◌-◌, ◌<◌, Bool, not, ◌&&◌, List, [], ◌∷◌, ◌++◌, ◌+◌, ◌%◌, ◌/◌, Option, none, some,
  true, false, length, take, replicate, if◌then◌else◌, ltb, leb, ◌==◌, ℤ, pos, negsuc,
}

-- The bytes of a string hold no 0.
abbrev pub IsString : List ℕ → Type 0
IsString [] = 0 < 1
IsString (c ∷ cs) = (0 < c) × IsString cs

-- The difference of two bytes as an `int`.
pub byte_diff : ℕ → ℕ → ℤ
byte_diff a b = if leb b a then pos (a - b) else negsuc (b - a - 1)

unfoldable pub kstrcmp : List ℕ → List ℕ → ℤ
unfolding byte_diff
kstrcmp [] [] = pos 0
kstrcmp [] (b ∷ ys) = byte_diff 0 b
kstrcmp (a ∷ xs) [] = byte_diff a 0
kstrcmp (a ∷ xs) (b ∷ ys) = let rest = kstrcmp xs ys in if a == b then rest else byte_diff a b

-- The byte that a pointer at the rest of a string reads.
abbrev pub head_or_nul : List ℕ → ℕ
head_or_nul [] = 0
head_or_nul (c ∷ cs) = c

abbrev pub tail : List ℕ → List ℕ
tail [] = []
tail (c ∷ cs) = cs

unfoldable pub kstrncmp : ℕ → List ℕ → List ℕ → ℤ
unfolding byte_diff
kstrncmp zero xs ys = pos 0
kstrncmp (suc n) xs ys =
    let a = head_or_nul xs in
    let b = head_or_nul ys in
    let rest = kstrncmp n (tail xs) (tail ys) in
    if not (a == 0) && a == b then rest else byte_diff a b

-- Bytes over the start of a buffer.
pub overwrite : List ℕ → List ℕ → List ℕ
overwrite [] src = []
overwrite (d ∷ ds) [] = d ∷ ds
overwrite (d ∷ ds) (c ∷ cs) = c ∷ overwrite ds cs

-- The string that a buffer holds.
unfoldable pub c_string : List ℕ → List ℕ
c_string [] = []
c_string (c ∷ cs) = let rest = c_string cs in if c == 0 then [] else c ∷ rest

pub kstrlen : List ℕ → ℕ
kstrlen [] = 0
kstrlen (c ∷ cs) = let rest = kstrlen cs in if c == 0 then 0 else rest + 1

pub kstrcpy : List ℕ → List ℕ → List ℕ
unfolding overwrite
kstrcpy dst src = overwrite dst (src ++ 0 ∷ [])

pub kstrncpy : List ℕ → List ℕ → ℕ → List ℕ
unfolding overwrite
kstrncpy dst src n = overwrite dst (take n src ++ replicate (n - length src) 0)

pub kstrcat : List ℕ → List ℕ → List ℕ
unfolding overwrite
kstrcat [] src = []
kstrcat (d ∷ ds) src =
    let rest = kstrcat ds src in if d == 0 then overwrite (d ∷ ds) (src ++ 0 ∷ []) else d ∷ rest

pub kmemset : List ℕ → ℕ → ℕ → List ℕ
unfolding overwrite
kmemset s c n = overwrite s (replicate n (c % 256))

pub kmemcpy : List ℕ → List ℕ → ℕ → List ℕ
unfolding overwrite
kmemcpy dst src n = overwrite dst (take n src)

-- For a size n of 1 or more.
pub kstrncpy_safe : List ℕ → List ℕ → ℕ → List ℕ × ℕ
unfolding overwrite
kstrncpy_safe dst src n =
    let copied = take (n - 1) src in (overwrite dst (copied ++ 0 ∷ []), length copied)

pub kstartswith : List ℕ → List ℕ → Bool
kstartswith s [] = true
kstartswith [] (p ∷ ps) = false
kstartswith (c ∷ cs) (p ∷ ps) = c == p && kstartswith cs ps

-- kstrchr and kstrrchr, as the index of the byte; the terminating 0 stands behind the last byte.
pub kstrchr : List ℕ → ℕ → Option ℕ
kstrchr [] c = if c == 0 then some 0 else none
kstrchr (b ∷ bs) c =
    let rest = elim (kstrchr bs c) as (λ _. Option ℕ) [ none ↦ none | some i ↦ some (suc i) ] in
    if b == c then some 0 else rest

pub kstrrchr : List ℕ → ℕ → Option ℕ
kstrrchr [] c = none
kstrrchr (b ∷ bs) c = elim (kstrrchr bs c) [
  | some i ↦ some (suc i)
  | none ↦ if b == c then some 0 else none
]

-- `digits[d]` of kitoa.
pub digit_char : ℕ → ℕ
digit_char d = if ltb d 10 then b'0' + d else b'A' + (d - 10)

-- The loop of kitoa: the digits in tmp, the lowest first. `fuel` bounds its rounds.
pub kitoa_loop : ℕ → ℕ → ℕ → List ℕ
unfolding digit_char
kitoa_loop zero val base = []
kitoa_loop (suc fuel) val base =
    let rest = kitoa_loop fuel (val / base) base in
    if val == 0 then [] else digit_char (val % base) ∷ rest

-- tmp has 33 places.
pub kitoa : ℕ → ℕ → List ℕ
kitoa val base = if val == 0 then b'0' ∷ [] else reverse (kitoa_loop 32 val base)

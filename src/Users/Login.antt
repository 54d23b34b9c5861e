-- ===== src/Users/Login.antt =====
-- src/users.c: who can log in.
use native.Mathlib.Decide.{ℕ_discrete}
use Prim.Native.Nat.{bit_xor}
use kum_os.Base.{
  ℕ, zero, suc, ◌*◌, ◌/◌, ◌%◌, ◌≤◌, ◌<◌, ◌≡◌, refl, sym, ap, ◌∙◌, Bool, true, false, Option, none,
  some, List, [], ◌∷◌, ◌++◌, arith, if◌then◌else◌, leb, ◌==◌, length, take, ℤ, pos, negsuc, failed,
  eqb_ℤ, u32, Bool-cases, inl, inr, take-all, ==-refl, ne→==,
}
use kum_os.Kstring.{kstrcmp, IsString}
use kum_os.Kstring.Compare.{kstrcmp-eq, kstrcmp_refl}
use kum_os.Users.{
  User, Users, user_max, simple_hash, hex_char, hex_digits, hash_to_str, users_add, is_user,
  check_user, find_user, users_check_pass, hash_from, new_user,
}

-- 16 ^ n
abbrev sixteens : ℕ → ℕ
sixteens zero = 1
sixteens (suc n) = 16 * sixteens n

hex_char_injective : (a b : ℕ) → a < 16 → b < 16 → hex_char a ≡ hex_char b → a ≡ b
hex_char_injective a b p q e = ground arith

head_of : List ℕ → ℕ
head_of [] = 0
head_of (x ∷ xs) = x

tail_of : List ℕ → List ℕ
tail_of [] = []
tail_of (x ∷ xs) = xs

-- Digits determine the number.
digits_injective :
    (n g h : ℕ) (out out' : List ℕ)
    → g < sixteens n
    → h < sixteens n
    → hex_digits n g out ≡ hex_digits n h out'
    → (g ≡ h) × (out ≡ out')
unfolding hex_digits head_of tail_of
digits_injective zero g h out out' p q e = (omega arith, e)
digits_injective (suc n) g h out out' p q e =
    let (same, outs) =
      digits_injective n (g / 16) (h / 16) (hex_char (g % 16) ∷ out) (hex_char (h % 16) ∷ out')
        (omega arith) (omega arith) e in
    let digit =
      hex_char_injective (g % 16) (h % 16) (omega arith) (omega arith) (ap head_of outs) in
    (omega arith, ap tail_of outs)

hash_to_str_injective : (g h : ℕ) → g < u32 → h < u32 → hash_to_str g ≡ hash_to_str h → g ≡ h
unfolding hash_to_str
hash_to_str_injective g h p q e = (digits_injective 8 g h [] [] p q e).0

digits-IsString : (n h : ℕ) (out : List ℕ) → IsString out → IsString (hex_digits n h out)
unfolding hex_digits
digits-IsString zero h out p = p
digits-IsString (suc n) h out p =
    digits-IsString n (h / 16) (hex_char (h % 16) ∷ out) (ground arith, p)

hash_to_str-IsString : (h : ℕ) → IsString (hash_to_str h)
unfolding hash_to_str
hash_to_str-IsString h = digits-IsString 8 h [] (omega arith)

hash_from_small : (h : ℕ) (s : List ℕ) → h < u32 → hash_from h s < u32
unfolding hash_from
hash_from_small h [] p = p
hash_from_small h (c ∷ cs) p = hash_from_small (bit_xor (h * 33 % u32) c % u32) cs (omega arith)

simple_hash_small : (s : List ℕ) → simple_hash s < u32
unfolding simple_hash
simple_hash_small s = hash_from_small 5381 s (omega arith)

eq_zero : (a b : List ℕ) → IsString a → IsString b → eqb_ℤ (kstrcmp a b) 0 ≡ true → a ≡ b
eq_zero a b p q h = kstrcmp-eq a b p q (zero_of (kstrcmp a b) h)
  where
    zero_of : (z : ℤ) → eqb_ℤ z 0 ≡ true → z ≡ pos 0
    zero_of (pos n) h = ap pos (ground arith)
    zero_of (negsuc n) h = absurd (ground arith)

same_hash :
    (g h : ℕ) → g < u32 → h < u32 → eqb_ℤ (kstrcmp (hash_to_str g) (hash_to_str h)) 0 ≡ (g == h)
same_hash g h p q = elim (ℕ_discrete g h) [
  | yes e ↦ rw (e, kstrcmp_refl (hash_to_str h)) (sym (==-refl h))
  | no n ↦ elim (Bool-cases (eqb_ℤ (kstrcmp (hash_to_str g) (hash_to_str h)) 0)) [
    | inl t ↦
        let strings =
          eq_zero (hash_to_str g) (hash_to_str h) (hash_to_str-IsString g) (hash_to_str-IsString h)
            t in
        absurd (n (hash_to_str_injective g h p q strings))
    | inr f ↦ f ∙ sym (ne→== g h n)
  ]
]

find_user-append :
    (name : List ℕ) (us : List User) (u : User)
    → find_user name (us ++ u ∷ []) ≡ elim (find_user name us) as (λ _. Option User) [
      | none ↦ if is_user name u then some u else none
      | some v ↦ some v
    ]
unfolding find_user
find_user-append name [] u = refl
find_user-append name (v ∷ us) u = elim (Bool-cases (is_user name v)) [
  | inl t ↦ rw t refl
  | inr f ↦ rw f (find_user-append name us u)
]

-- After users_add of a name that no user has, of at most 15 bytes, into a table that is not full: a
-- password is accepted for it, with the new uid, just if its hash is that of the given one.
pub add-check :
    (us : Users) (name pass attempt : List ℕ) (is_root : Bool)
    → length us.table < user_max
    → find_user name us.table ≡ none
    → length name ≤ 15
    → users_check_pass name attempt (users_add name pass is_root us).1
      ≡ (if simple_hash attempt == simple_hash pass then pos (length us.table) else failed)
unfolding users_check_pass users_add check_user
add-check us name pass attempt is_root room fresh short =
    let uid = length us.table in
    let u = new_user name pass is_root uid in
    let called : take 15 name ≡ name = take-all 15 name short in
    let same = kstrcmp_refl name in
    let found : is_user name u ≡ true = rw (called, same) refl in
    let there : find_user name (us.table ++ u ∷ []) ≡ some u =
      find_user-append name us.table u ∙ rw (fresh, found) refl in
    rw (le→leb uid room) (
      ap (check_user attempt) there
      ∙ ap (λ t. if t then pos uid else failed)
          (same_hash (simple_hash attempt) (simple_hash pass) (simple_hash_small attempt)
            (simple_hash_small pass)))
  where
    le→leb : (n : ℕ) → n < user_max → leb user_max n ≡ false
    le→leb n h = ground arith

-- users_add of a name that a user has does not change who can log in with it.
pub add_shadowed :
    (us : Users) (name pass attempt : List ℕ) (is_root : Bool) (u : User)
    → find_user name us.table ≡ some u
    → users_check_pass name attempt (users_add name pass is_root us).1
      ≡ users_check_pass name attempt us
unfolding users_check_pass users_add
add_shadowed us name pass attempt is_root u known =
    let v = new_user name pass is_root (length us.table) in
    elim (Bool-cases (leb user_max (length us.table))) [
      | inl t ↦ rw t refl
      | inr f ↦ rw (f, find_user-append name us.table v, known) refl
    ]

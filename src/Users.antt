-- ===== src/Users.antt =====
-- src/users.c: the table of users, passwords by their hash, and the current user. A string is its bytes
-- before the terminating 0; they are below 128, since the hash would extend the sign of others.
pub mod Login
pub mod Examples
use Prim.Native.Nat.{bit_xor}
use kum_os.Base.{
  ℕ, zero, suc, ◌+◌, ◌*◌, ◌/◌, ◌%◌, Bool, true, false, not, ◌&&◌, Option, none, some, List, [], ◌∷◌,
  ◌++◌, if◌then◌else◌, ltb, leb, ◌==◌, length, get_or, take, find_index, ℤ, pos, negsuc, failed,
  eqb_ℤ, u32,
}
use kum_os.Kstring.{kstrcmp}

abbrev pub user_max : ℕ
user_max = 8

-- user_t
pub record User : Type 0 where
  pub name : List ℕ
  pub pass_hash : List ℕ
  pub uid : ℕ
  pub home : List ℕ
  pub is_root : Bool
  pub active : Bool

-- The first num_users entries of users, and current_uid.
pub record Users : Type 0 where
  pub table : List User
  pub current_uid : ℤ

-- The loop of simple_hash with the hash so far: `h = ((h<<5)+h) ^ (uint32_t)*s`.
pub hash_from : ℕ → List ℕ → ℕ
hash_from h [] = h
hash_from h (c ∷ cs) = hash_from (bit_xor (h * 33 % u32) c % u32) cs

pub simple_hash : List ℕ → ℕ
simple_hash s = hash_from 5381 s

-- `hex[h & 0xF]`
abbrev pub hex_char : ℕ → ℕ
hex_char d = if ltb d 10 then 48 + d else 87 + d

-- n digits of h, the last ones before `out`.
pub hex_digits : ℕ → ℕ → List ℕ → List ℕ
hex_digits zero h out = out
hex_digits (suc n) h out = hex_digits n (h / 16) (hex_char (h % 16) ∷ out)

pub hash_to_str : ℕ → List ℕ
hash_to_str h = hex_digits 8 h []

abbrev home_disk : List ℕ
home_disk = b'/' ∷ b'd' ∷ b'i' ∷ b's' ∷ b'k' ∷ []

-- The entry that users_add fills in.
abbrev pub new_user : List ℕ → List ℕ → Bool → ℕ → User
new_user name pass is_root uid = record {
  name = take 15 name;
  pass_hash = hash_to_str (simple_hash pass);
  uid = uid;
  home = home_disk;
  is_root = is_root;
  active = true;
}

pub users_add : List ℕ → List ℕ → Bool → Users → ℤ × Users
users_add name pass is_root us =
    let uid = length us.table in
    if leb user_max uid
    then (failed, us)
    else (pos uid, record us { table = us.table ++ new_user name pass is_root uid ∷ [] })

-- The user that a name stands for: the first one.
abbrev pub is_user : List ℕ → User → Bool
is_user name u = u.active && eqb_ℤ (kstrcmp u.name name) 0

-- What users_check_pass returns for the user it finds.
pub check_user : List ℕ → Option User → ℤ
check_user pass none = failed
check_user pass (some u) =
    if eqb_ℤ (kstrcmp (hash_to_str (simple_hash pass)) u.pass_hash) 0 then pos u.uid else failed

-- The loop of users_check_pass.
pub find_user : List ℕ → List User → Option User
find_user name [] = none
find_user name (u ∷ us) = let rest = find_user name us in if is_user name u then some u else rest

pub users_check_pass : List ℕ → List ℕ → Users → ℤ
users_check_pass name pass us = check_user pass (find_user name us.table)

pub users_login : List ℕ → List ℕ → Users → ℤ × Users
users_login name pass us =
    let uid = users_check_pass name pass us in
    elim uid as (λ _. ℤ × Users) [
      | pos n ↦ (uid, record us { current_uid = uid })
      | negsuc n ↦ (uid, us)
    ]

abbrev pub has_uid : ℤ → User → Bool
has_uid uid u = u.active && eqb_ℤ uid u.uid

-- users_get_current: an index, that of the first user if there is none with the current uid.
pub users_get_current : Users → ℕ
users_get_current us = elim (find_index (has_uid us.current_uid) us.table) [ none ↦ 0 | some i ↦ i ]

pub users_set_current : ℤ → Users → Users
users_set_current uid us = record us { current_uid = uid }

abbrev root_name : List ℕ
root_name = b'r' ∷ b'o' ∷ b'o' ∷ b't' ∷ []

abbrev root_pass : List ℕ
root_pass = b'k' ∷ b'u' ∷ b'm' ∷ b'o' ∷ b's' ∷ []

abbrev user_name : List ℕ
user_name = b'u' ∷ b's' ∷ b'e' ∷ b'r' ∷ []

abbrev guest_name : List ℕ
guest_name = b'g' ∷ b'u' ∷ b'e' ∷ b's' ∷ b't' ∷ []

pub users_init : Users
users_init =
    let none' : Users = record { table = []; current_uid = pos 0 } in
    let root = (users_add root_name root_pass true none').1 in
    let user = (users_add user_name user_name false root).1 in
    (users_add guest_name [] false user).1

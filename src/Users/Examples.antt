-- ===== src/Users/Examples.antt =====
-- The users of a new system, at which the theorems are used.
use kum_os.Base.{
  ℕ, ◌≡◌, refl, false, none, List, [], ◌∷◌, arith, if◌then◌else◌, ◌==◌, length, pos, failed,
}
use kum_os.Kstring.{kstrcmp}
use kum_os.Users.{
  find_user, users_add, users_check_pass, users_init, simple_hash, hash_from, hash_to_str,
  hex_digits, check_user,
}
use kum_os.Users.Login.{add-check}

abbrev bob : List ℕ
bob = b'b' ∷ b'o' ∷ b'b' ∷ []

init-length : length users_init.table ≡ 3
unfolding users_init users_add
init-length = refl

no_bob : find_user bob users_init.table ≡ none
unfolding users_init users_add find_user kstrcmp
no_bob = refl

add-check_example :
    users_check_pass bob (b'x' ∷ []) (users_add bob (b'y' ∷ []) false users_init).1 ≡ (
      if simple_hash (b'x' ∷ []) == simple_hash (b'y' ∷ [])
      then pos (length users_init.table)
      else failed)
add-check_example =
    add-check users_init bob (b'y' ∷ []) (b'x' ∷ []) false (omega (arith, init-length)) no_bob
      (omega arith)

root_enters :
    users_check_pass
      (b'r' ∷ b'o' ∷ b'o' ∷ b't' ∷ [])
      (b'k' ∷ b'u' ∷ b'm' ∷ b'o' ∷ b's' ∷ [])
      users_init
    ≡ pos 0
unfolding users_init users_add users_check_pass check_user find_user kstrcmp hash_to_str simple_hash
    hash_from hex_digits
root_enters = refl

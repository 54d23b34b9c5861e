-- ===== src/Kstring/Examples.antt =====
-- The string functions at concrete inputs.
use kum_os.Base.{ℕ, ◌≤◌, ◌≡◌, refl, List, [], ◌∷◌, arith, length}
use kum_os.Kstring.{kitoa, kitoa_loop}
use kum_os.Kstring.Digits.{value_from, kitoa_lem}

kitoa_lem_example : (value_from 16 0 (kitoa 48879 16) ≡ 48879) × (length (kitoa 48879 16) ≤ 32)
kitoa_lem_example = kitoa_lem 48879 16 (omega arith) (omega arith) (omega arith)

kitoa_hex : kitoa 48879 16 ≡ b'B' ∷ b'E' ∷ b'E' ∷ b'F' ∷ []
unfolding kitoa kitoa_loop
kitoa_hex = refl

abbrev buffer : List ℕ
buffer = b'a' ∷ 0 ∷ 7 ∷ 7 ∷ []

abbrev suffix : List ℕ
suffix = b'b' ∷ b'c' ∷ []

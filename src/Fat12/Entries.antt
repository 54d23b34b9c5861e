-- ===== src/Fat12/Entries.antt =====
-- fat_get and fat_set: a 12-bit entry shares a byte with its neighbour, and a write to one leaves
-- every other as it was.
use native.Mathlib.Decide.{ℕ_discrete}
use kum_os.Base.{
  ℕ, ◌+◌, ◌*◌, ◌/◌, ◌%◌, ◌<◌, ◌≡◌, ◌≢◌, ◌⊎◌, inl, inr, refl, sym, ap, ◌∙◌, List, arith, length, set,
  length-set, get_or-set_self, get_or-set_ne,
}
use kum_os.Fat12.{byte, entry_byte, fat_get, fat_set}

-- Every byte of the table is one.
abbrev pub IsBytes : List ℕ → Type 0
IsBytes fat = (i : ℕ) → byte fat i < 256

-- What fat_set leaves in a byte: two bytes are written, the rest stay.
two_bytes :
    (fat : List ℕ) (i j a b : ℕ)
    → i + 1 < length fat
    → ((j ≡ i) × (byte fat j ≡ byte fat i) × (byte (set (set fat i a) (i + 1) b) j ≡ a))
      ⊎ ((j ≡ i + 1) × (byte fat j ≡ byte fat (i + 1)) × (byte (set (set fat i a) (i + 1) b) j ≡ b))
      ⊎ ((j ≢ i) × (j ≢ i + 1) × (byte (set (set fat i a) (i + 1) b) j ≡ byte fat j))
two_bytes fat i j a b h = elim (ℕ_discrete j i) [
  | yes e ↦ inl (
    e,
    ap (byte fat) e,
    get_or-set_ne (set fat i a) (i + 1) j b 0 (omega arith)
        ∙ rw e (get_or-set_self fat i a 0 (omega arith)),
  )
  | no n ↦ elim (ℕ_discrete j (i + 1)) [
    | yes e ↦ inr (
        inl (
          e,
          ap (byte fat) e,
          rw e (get_or-set_self (set fat i a) (i + 1) b 0 (omega (arith, length-set fat i a))),
        ))
    | no m ↦ inr (
        inr (
          n,
          m,
          get_or-set_ne (set fat i a) (i + 1) j b 0 (λ e. m (sym e))
              ∙ get_or-set_ne fat i j a 0 (λ e. n (sym e)),
        ))
  ]
]

pub length-fat_set : (fat : List ℕ) (n v : ℕ) → length (fat_set fat n v) ≡ length fat
unfolding fat_set
length-fat_set fat n v = ground (
  arith,
  length-set fat (entry_byte n) (byte fat (entry_byte n) % 16 + v % 16 * 16),
  length-set (set fat (entry_byte n) (byte fat (entry_byte n) % 16 + v % 16 * 16))
      (entry_byte n + 1) (v / 16 % 256),
  length-set fat (entry_byte n) (v % 256),
  length-set (set fat (entry_byte n) (v % 256)) (entry_byte n + 1)
      (byte fat (entry_byte n + 1) / 16 % 16 * 16 + v / 256 % 16),
)

-- The bytes of the table after fat_set, for an odd and for an even entry.
odd_set :
    (fat : List ℕ) (n v : ℕ)
    → n % 2 ≡ 1
    → fat_set fat n v
      ≡ set
          (set fat (entry_byte n) (byte fat (entry_byte n) % 16 + v % 16 * 16))
          (entry_byte n + 1)
          (v / 16 % 256)
unfolding fat_set
odd_set fat n v h = rw h refl

even_set :
    (fat : List ℕ) (n v : ℕ)
    → n % 2 ≡ 0
    → fat_set fat n v
      ≡ set
          (set fat (entry_byte n) (v % 256))
          (entry_byte n + 1)
          (byte fat (entry_byte n + 1) / 16 % 16 * 16 + v / 256 % 16)
unfolding fat_set
even_set fat n v h = rw h refl

odd_get :
    (fat : List ℕ) (n : ℕ)
    → n % 2 ≡ 1
    → fat_get fat n ≡ (byte fat (entry_byte n) + byte fat (entry_byte n + 1) * 256) / 16
unfolding fat_get
odd_get fat n h = rw h refl

even_get :
    (fat : List ℕ) (n : ℕ)
    → n % 2 ≡ 0
    → fat_get fat n ≡ (byte fat (entry_byte n) + byte fat (entry_byte n + 1) * 256) % 4096
unfolding fat_get
even_get fat n h = rw h refl

parity : (n : ℕ) → (n % 2 ≡ 1) ⊎ (n % 2 ≡ 0)
parity n = omega arith

module _ (fat : List ℕ) (n v : ℕ) (bytes : IsBytes fat) (small : v < 4096)
    (room : entry_byte n + 1 < length fat) where
  get-set_odd : n % 2 ≡ 1 → fat_get (fat_set fat n v) n ≡ v
  get-set_odd h =
      odd_get (fat_set fat n v) n h
      ∙ ap (λ (g : List ℕ). (byte g (entry_byte n) + byte g (entry_byte n + 1) * 256) / 16)
          (odd_set fat n v h)
      ∙ omega (
        arith,
        two_bytes fat (entry_byte n) (entry_byte n) (byte fat (entry_byte n) % 16 + v % 16 * 16)
            (v / 16 % 256) room,
        two_bytes fat (entry_byte n) (entry_byte n + 1) (byte fat (entry_byte n) % 16 + v % 16 * 16)
            (v / 16 % 256) room,
      )

  get-set_even : n % 2 ≡ 0 → fat_get (fat_set fat n v) n ≡ v
  get-set_even h =
      even_get (fat_set fat n v) n h
      ∙ ap (λ (g : List ℕ). (byte g (entry_byte n) + byte g (entry_byte n + 1) * 256) % 4096)
          (even_set fat n v h)
      ∙ omega (
        arith,
        two_bytes fat (entry_byte n) (entry_byte n) (v % 256)
            (byte fat (entry_byte n + 1) / 16 % 16 * 16 + v / 256 % 16) room,
        two_bytes fat (entry_byte n) (entry_byte n + 1) (v % 256)
            (byte fat (entry_byte n + 1) / 16 % 16 * 16 + v / 256 % 16) room,
      )

  pub get-set_self : fat_get (fat_set fat n v) n ≡ v
  get-set_self = elim (parity n) [ inl h ↦ get-set_odd h | inr h ↦ get-set_even h ]

  -- The two bytes of another entry m after the write.
  odd_bytes :
      (m j : ℕ)
      → n % 2 ≡ 1
      → byte (fat_set fat n v) j
        ≡ byte
            (set
              (set fat (entry_byte n) (byte fat (entry_byte n) % 16 + v % 16 * 16))
              (entry_byte n + 1)
              (v / 16 % 256))
            j
  odd_bytes m j h = ap (λ g. byte g j) (odd_set fat n v h)

  after_odd :
      (j : ℕ)
      → n % 2 ≡ 1
      → ((j ≡ entry_byte n)
          × (byte fat j ≡ byte fat (entry_byte n))
          × (byte (fat_set fat n v) j ≡ byte fat (entry_byte n) % 16 + v % 16 * 16))
        ⊎ ((j ≡ entry_byte n + 1)
            × (byte fat j ≡ byte fat (entry_byte n + 1))
            × (byte (fat_set fat n v) j ≡ v / 16 % 256))
        ⊎ ((j ≢ entry_byte n) × (j ≢ entry_byte n + 1) × (byte (fat_set fat n v) j ≡ byte fat j))
  after_odd j h = rw (odd_set fat n v h) (
      two_bytes fat (entry_byte n) j (byte fat (entry_byte n) % 16 + v % 16 * 16) (v / 16 % 256)
        room)

  after_even :
      (j : ℕ)
      → n % 2 ≡ 0
      → ((j ≡ entry_byte n)
          × (byte fat j ≡ byte fat (entry_byte n))
          × (byte (fat_set fat n v) j ≡ v % 256))
        ⊎ ((j ≡ entry_byte n + 1)
            × (byte fat j ≡ byte fat (entry_byte n + 1))
            × (byte (fat_set fat n v) j
                ≡ byte fat (entry_byte n + 1) / 16 % 16 * 16 + v / 256 % 16))
        ⊎ ((j ≢ entry_byte n) × (j ≢ entry_byte n + 1) × (byte (fat_set fat n v) j ≡ byte fat j))
  after_even j h = rw (even_set fat n v h) (
      two_bytes fat (entry_byte n) j (v % 256)
        (byte fat (entry_byte n + 1) / 16 % 16 * 16 + v / 256 % 16) room)

  pub fat_set-IsBytes : IsBytes (fat_set fat n v)
  fat_set-IsBytes j = elim (parity n) [
    | inl h ↦ omega (arith, after_odd j h, bytes j, bytes (entry_byte n))
    | inr h ↦ omega (arith, after_even j h, bytes j, bytes (entry_byte n + 1))
  ]

  get-set_ne_from :
      (m : ℕ)
      → m ≢ n
      → (n % 2 ≡ 1) ⊎ (n % 2 ≡ 0)
      → (m % 2 ≡ 1) ⊎ (m % 2 ≡ 0)
      → fat_get (fat_set fat n v) m ≡ fat_get fat m
  get-set_ne_from m ne (inl h) (inl k) =
      odd_get (fat_set fat n v) m k
      ∙ omega (arith, after_odd (entry_byte m) h, after_odd (entry_byte m + 1) h)
      ∙ sym (odd_get fat m k)
  get-set_ne_from m ne (inl h) (inr k) =
      even_get (fat_set fat n v) m k
      ∙ omega (
        arith,
        after_odd (entry_byte m) h,
        after_odd (entry_byte m + 1) h,
        bytes (entry_byte m),
        bytes (entry_byte m + 1),
        bytes (entry_byte n),
        bytes (entry_byte n + 1),
      )
      ∙ sym (even_get fat m k)
  get-set_ne_from m ne (inr h) (inl k) =
      odd_get (fat_set fat n v) m k
      ∙ omega (
        arith,
        after_even (entry_byte m) h,
        after_even (entry_byte m + 1) h,
        bytes (entry_byte m),
        bytes (entry_byte m + 1),
        bytes (entry_byte n),
        bytes (entry_byte n + 1),
      )
      ∙ sym (odd_get fat m k)
  get-set_ne_from m ne (inr h) (inr k) =
      even_get (fat_set fat n v) m k
      ∙ omega (arith, after_even (entry_byte m) h, after_even (entry_byte m + 1) h)
      ∙ sym (even_get fat m k)

  pub get-set_ne : (m : ℕ) → m ≢ n → fat_get (fat_set fat n v) m ≡ fat_get fat m
  get-set_ne m ne = get-set_ne_from m ne (parity n) (parity m)

-- In a table of bytes, writing a 12-bit value to an entry that lies in the table is read back from
-- it, changes no other entry, and leaves a table of bytes of the same length.
pub fat_set_lem :
    (fat : List ℕ) (n v : ℕ)
    → IsBytes fat
    → v < 4096
    → entry_byte n + 1 < length fat
    → (fat_get (fat_set fat n v) n ≡ v)
      × ((m : ℕ) → m ≢ n → fat_get (fat_set fat n v) m ≡ fat_get fat m)
      × IsBytes (fat_set fat n v)
      × (length (fat_set fat n v) ≡ length fat)
fat_set_lem fat n v b s r = (
  get-set_self fat n v b s r,
  get-set_ne fat n v b s r,
  fat_set-IsBytes fat n v b s r,
  length-fat_set fat n v,
)

-- ===== src/Fat12.antt =====
-- src/fat12.c: the file allocation table in memory and the 8.3 names of the FAT12 driver.
-- g_fat is a list of bytes; `&`, `|` and shifts by constants on disjoint bits are written as `%`,
-- `+`, `*` and `/`. Fat12/Volume has the mount, the directory and the files.
pub mod Entries
pub mod Alloc
pub mod Chain
pub mod Volume
pub mod Examples
use kum_os.Base.{
  ℕ, zero, suc, ◌+◌, ◌-◌, ◌*◌, ◌/◌, ◌%◌, Bool, true, false, ◌&&◌, List, [], ◌∷◌, ◌++◌,
  if◌then◌else◌, ltb, leb, ◌==◌, get_or, set, replicate,
}

-- `g_fat[i]`
abbrev pub byte : List ℕ → ℕ → ℕ
byte fat i = get_or fat i 0

-- The first of the two bytes in which entry n lies.
abbrev pub entry_byte : ℕ → ℕ
entry_byte n = n + n / 2

pub fat_get : List ℕ → ℕ → ℕ
fat_get fat n =
    let val = byte fat (entry_byte n) + byte fat (entry_byte n + 1) * 256 in
    if n % 2 == 1 then val / 16 else val % 4096

pub fat_set : List ℕ → ℕ → ℕ → List ℕ
fat_set fat n val =
    let idx = entry_byte n in
    if n % 2 == 1
    then set (set fat idx (byte fat idx % 16 + val % 16 * 16)) (idx + 1) (val / 16 % 256)
    else set (set fat idx (val % 256)) (idx + 1)
        (byte fat (idx + 1) / 16 % 16 * 16 + val / 256 % 16)

-- The loop of fat_alloc over `rounds` clusters from i on: the cluster, 0 if there is none.
pub alloc_from : ℕ → List ℕ → ℕ → ℕ × List ℕ
unfolding fat_get fat_set
alloc_from zero fat i = (0, fat)
alloc_from (suc rounds) fat i =
    let rest = alloc_from rounds fat (i + 1) in
    if fat_get fat i == 0 then (i, fat_set fat i 0xFFF) else rest

-- `for (uint16_t i = 2; i < g_total_clusters + 2; i++)`, for fewer than 65534 clusters.
pub fat_alloc : List ℕ → ℕ → ℕ × List ℕ
unfolding alloc_from
fat_alloc fat total_clusters = alloc_from total_clusters fat 2

-- `cluster >= 0x002 && cluster <= 0xFEF`
abbrev pub is_data_cluster : ℕ → Bool
is_data_cluster c = leb 2 c && leb c 0xFEF

-- The loop of fat12_delete that frees a chain; `fuel` bounds its rounds. The cluster at which it
-- stops comes back with the table.
pub free_chain : ℕ → List ℕ → ℕ → ℕ × List ℕ
unfolding fat_get fat_set
free_chain zero fat cluster = (cluster, fat)
free_chain (suc fuel) fat cluster =
    let rest = free_chain fuel (fat_set fat cluster 0) (fat_get fat cluster) in
    if is_data_cluster cluster then rest else (cluster, fat)

-- `if (c >= 'a' && c <= 'z') c -= 32;`
pub upper : ℕ → ℕ
upper c = if leb b'a' c && leb c b'z' then c - 32 else c

-- The two loops of name_to_83: `room` places are left of the field, padded with spaces. The rest of
-- the name comes back with the field.
pub base_field : ℕ → List ℕ → List ℕ × List ℕ
unfolding upper
base_field room [] = (replicate room b' ', [])
base_field zero (c ∷ cs) = ([], c ∷ cs)
base_field (suc room) (c ∷ cs) =
    let (field, rest) = base_field room cs in
    if c == b'.' then (replicate (suc room) b' ', c ∷ cs) else (upper c ∷ field, rest)

pub ext_field : ℕ → List ℕ → List ℕ
unfolding upper
ext_field zero cs = []
ext_field (suc room) [] = replicate (suc room) b' '
ext_field (suc room) (c ∷ cs) = upper c ∷ ext_field room cs

-- `if (name[i] == '.')` after the base.
pub after_dot : List ℕ → List ℕ
unfolding ext_field
after_dot [] = replicate 3 b' '
after_dot (c ∷ cs) = if c == b'.' then ext_field 3 cs else replicate 3 b' '

-- A name is its bytes before the terminating 0; the result has eleven bytes.
pub name_to_83 : List ℕ → List ℕ
unfolding base_field after_dot
name_to_83 name = let (base, rest) = base_field 8 name in base ++ after_dot rest

-- The bytes of a field up to the first space.
pub until_space : List ℕ → List ℕ
until_space [] = []
until_space (c ∷ cs) = let rest = until_space cs in if c == b' ' then [] else c ∷ rest

-- name_from_83 on the two fields: `raw[0..8)` and `raw[8..11)`.
pub name_from_fields : List ℕ → List ℕ → List ℕ
unfolding until_space
name_from_fields base ext =
    until_space base ++ (if get_or ext 0 b' ' == b' ' then [] else b'.' ∷ until_space ext)

-- ===== src/Net/Frames/Arp.antt =====
-- src/net.c: what the ARP cache knows, and the checksum of the headers that are sent.
use kum_os.Base.{
  ℕ, ◌<◌, ◌≡◌, refl, sym, ap, ◌∙◌, Option, none, some, List, [], ◌∷◌, ◌++◌, arith, if◌then◌else◌,
  ◌==◌, length, get_or, set, find_index, Bool-cases, Option-cases, inl, inr, lt→ltb,
}
use kum_os.Net.{ip_checksum}
use kum_os.Net.Checksum.{ip_checksum_lem}
use kum_os.Net.Frames.{ArpEntry, has_ip, arp_learn, arp_lookup, ip_header, ip_front, ip_back}

-- The header of every packet that is built has the checksum 0.
pub ip_header_lem :
    (len id protocol src dst : ℕ)
    → protocol < 256
    → ip_checksum (ip_header len id protocol src dst) ≡ 0
unfolding ip_header
ip_header_lem len id protocol src dst small =
    ip_checksum_lem 5 (ip_front len id protocol) (ip_back src dst) (omega arith) (omega arith)

-- The cache as a list of pairs that is searched from the front.
look : ℕ → List ArpEntry → Option (List ℕ)
look ip [] = none
look ip (e ∷ es) = let rest = look ip es in if e.ip == ip then some e.mac else rest

learned : ℕ → List ℕ → List ArpEntry → List ArpEntry
learned ip mac [] = record { ip = ip; mac = mac } ∷ []
learned ip mac (e ∷ es) =
    let rest = learned ip mac es in
    if e.ip == ip then record { ip = ip; mac = mac } ∷ es else e ∷ rest

-- The search by index, and its two uses.
picked : Option ℕ → List ArpEntry → Option (List ℕ)
picked none cache = none
picked (some i) cache = some (get_or cache i (record { ip = 0; mac = [] })).mac

picked-look :
    (ip : ℕ) (cache : List ArpEntry) → picked (find_index (has_ip ip) cache) cache ≡ look ip cache
unfolding picked look find_index
picked-look ip [] = refl
picked-look ip (e ∷ es) =
    let rec = picked-look ip es in
    elim (Bool-cases (e.ip == ip)) [
      | inl t ↦ rw t refl
      | inr f ↦ elim (Option-cases (find_index (has_ip ip) es)) [
        | inl none' ↦ rw (f, none') (ap (λ o. picked o es) (sym none') ∙ rec)
        | inr (i, at_i) ↦ rw (f, at_i) (ap (λ o. picked o es) (sym at_i) ∙ rec)
      ]
    ]

arp_lookup-look : (ip : ℕ) (cache : List ArpEntry) → arp_lookup ip cache ≡ look ip cache
unfolding arp_lookup picked
arp_lookup-look ip cache = elim (Option-cases (find_index (has_ip ip) cache)) [
  | inl none' ↦ rw (arp_lookup, none') (ap (λ o. picked o cache) (sym none') ∙ picked-look ip cache)
  | inr (i, at_i) ↦
      rw (arp_lookup, at_i) (ap (λ o. picked o cache) (sym at_i) ∙ picked-look ip cache)
]

placed : Option ℕ → ArpEntry → List ArpEntry → List ArpEntry
placed none e cache = cache ++ e ∷ []
placed (some i) e cache = set cache i e

placed-learned :
    (ip : ℕ) (mac : List ℕ) (cache : List ArpEntry)
    → placed (find_index (has_ip ip) cache) (record { ip = ip; mac = mac }) cache
      ≡ learned ip mac cache
unfolding placed learned find_index
placed-learned ip mac [] = refl
placed-learned ip mac (e ∷ es) =
    let rec = placed-learned ip mac es in
    let new : ArpEntry = record { ip = ip; mac = mac } in
    elim (Bool-cases (e.ip == ip)) [
      | inl t ↦ rw t refl
      | inr f ↦ elim (Option-cases (find_index (has_ip ip) es)) [
        | inl none' ↦ rw (f, none') (ap (◌∷◌ e) (ap (λ o. placed o new es) (sym none') ∙ rec))
        | inr (i, at_i) ↦ rw (f, at_i) (ap (◌∷◌ e) (ap (λ o. placed o new es) (sym at_i) ∙ rec))
      ]
    ]

arp_learn-learned :
    (ip : ℕ) (mac : List ℕ) (cache : List ArpEntry)
    → length cache < 8
    → arp_learn ip mac cache ≡ learned ip mac cache
unfolding arp_learn placed
arp_learn-learned ip mac cache room =
    let new : ArpEntry = record { ip = ip; mac = mac } in
    elim (Option-cases (find_index (has_ip ip) cache)) [
      | inl none' ↦
          rw (arp_learn, none', lt→ltb (length cache) 8 room)
            (ap (λ o. placed o new cache) (sym none') ∙ placed-learned ip mac cache)
      | inr (i, at_i) ↦
          rw (arp_learn, at_i)
            (ap (λ o. placed o new cache) (sym at_i) ∙ placed-learned ip mac cache)
    ]

look-learned :
    (ip : ℕ) (mac : List ℕ) (cache : List ArpEntry) (i : ℕ)
    → look i (learned ip mac cache) ≡ (if ip == i then some mac else look i cache)
unfolding look learned
look-learned ip mac [] i = refl
look-learned ip mac (e ∷ es) i =
    let rec = look-learned ip mac es i in
    elim (Bool-cases (e.ip == ip)) [
      | inl t ↦ rw t (ground arith)
      | inr f ↦ rw (f, rec) (ground arith)
    ]

-- In a cache with room, what was learned of an address is found, and what is known of others stays.
pub lookup-learn :
    (ip : ℕ) (mac : List ℕ) (cache : List ArpEntry) (i : ℕ)
    → length cache < 8
    → arp_lookup i (arp_learn ip mac cache) ≡ (if ip == i then some mac else arp_lookup i cache)
lookup-learn ip mac cache i room =
    ap (arp_lookup i) (arp_learn-learned ip mac cache room)
    ∙ arp_lookup-look i (learned ip mac cache)
    ∙ look-learned ip mac cache i
    ∙ ap (λ o. if ip == i then some mac else o) (sym (arp_lookup-look i cache))

-- ===== src/Net/Frames.antt =====
-- src/net.c: the ARP cache, the frames that are built and the ring of those received. Nothing arrives
-- while timer_sleep waits; what net_poll asks of the card is not modelled, only what it does with a frame.
pub mod Arp
use kum_os.Base.{
  ℕ, zero, suc, ◌+◌, ◌-◌, ◌*◌, ◌/◌, ◌%◌, ◌^◌, Bool, true, false, not, ◌&&◌, ◌||◌, Option, none,
  some, List, [], ◌∷◌, ◌++◌, if◌then◌else◌, ltb, leb, ◌==◌, length, get_or, set, drop, take,
  replicate, find_index, ℤ, pos, negsuc, failed, index_in, add32, sub32,
}
use kum_os.Net.{eth_alen, u16, be16, be32, from16, from32, ip_checksum}

abbrev pub my_ip : ℕ
my_ip = 0x0A00020F

abbrev pub gw_ip : ℕ
gw_ip = 0x0A000202

abbrev pub tx_buf_size : ℕ
tx_buf_size = 1536

abbrev pub rx_ring_size : ℕ
rx_ring_size = 4

-- An entry of arp_cache_ip and arp_cache_mac.
pub record ArpEntry : Type 0 where
  pub ip : ℕ
  pub mac : List ℕ

-- An entry of rx_ring.
pub record RxSlot : Type 0 where
  pub buf : List ℕ
  pub len : ℕ

abbrev pub no_rx : RxSlot
no_rx = record { buf = replicate 1600 0; len = 0 }

-- The card's side of the state: rtl_ready_flag, my_mac, the first arp_count entries of the cache, the
-- ring, and the frames that were handed to the card.
pub record Card : Type 0 where
  pub ready : Bool
  pub my_mac : List ℕ
  pub arp : List ArpEntry
  pub rx_ring : List RxSlot
  pub rx_head : ℕ
  pub rx_tail : ℕ
  pub sent : List (List ℕ)

pub net_send_raw : List ℕ → Card → ℤ × Card
net_send_raw frame c =
    if not c.ready || ltb tx_buf_size (length frame)
    then (failed, c)
    else (pos 0, record c { sent = c.sent ++ frame ∷ [] })

abbrev pub has_ip : ℕ → ArpEntry → Bool
has_ip ip e = e.ip == ip

pub arp_learn : ℕ → List ℕ → List ArpEntry → List ArpEntry
arp_learn ip mac cache = elim (find_index (has_ip ip) cache) [
  | some i ↦ set cache i (record { ip = ip; mac = mac })
  | none ↦ if ltb (length cache) 8 then cache ++ record { ip = ip; mac = mac } ∷ [] else cache
]

pub arp_lookup : ℕ → List ArpEntry → Option (List ℕ)
arp_lookup ip cache = elim (find_index (has_ip ip) cache) [
  | none ↦ none
  | some i ↦ some (get_or cache i (record { ip = 0; mac = [] })).mac
]

abbrev pub broadcast : List ℕ
broadcast = replicate eth_alen 0xFF

-- The address that a frame goes to, all ones if it is not known.
abbrev pub mac_or_all : Option (List ℕ) → List ℕ
mac_or_all none = broadcast
mac_or_all (some mac) = mac

pub arp_request : List ℕ → ℕ → List ℕ
arp_request mac target =
    broadcast
    ++ mac
    ++ be16 0x0806
    ++ (0 ∷ 1 ∷ 8 ∷ 0 ∷ 6 ∷ 4 ∷ [])
    ++ be16 1
    ++ mac
    ++ be32 my_ip
    ++ replicate eth_alen 0
    ++ be32 target

pub send_arp_request : ℕ → Card → Card
send_arp_request target c = (net_send_raw (arp_request c.my_mac target) c).1

-- The header of a packet before and behind its checksum.
abbrev pub ip_front : ℕ → ℕ → ℕ → List ℕ
ip_front len id protocol = 0x45 ∷ 0 ∷ be16 len ++ be16 id ++ (0 ∷ 0 ∷ 64 ∷ protocol ∷ [])

abbrev pub ip_back : ℕ → ℕ → List ℕ
ip_back src dst = be32 src ++ be32 dst

-- `ip->checksum=ip_checksum(ip,20);` writes a number, the lower byte first.
pub ip_header : ℕ → ℕ → ℕ → ℕ → ℕ → List ℕ
ip_header len id protocol src dst =
    let sum = ip_checksum (ip_front len id protocol ++ 0 ∷ 0 ∷ ip_back src dst) in
    ip_front len id protocol ++ sum % 256 ∷ sum / 256 ∷ ip_back src dst

pub udp_frame : List ℕ → List ℕ → ℕ → ℕ → ℕ → List ℕ → List ℕ
udp_frame dst_mac mac dst_ip src_port dst_port payload =
    let udp_len = (8 + length payload) % u16 in
    dst_mac
    ++ mac
    ++ be16 0x0800
    ++ ip_header ((28 + length payload) % u16) 1 17 my_ip dst_ip
    ++ be16 src_port
    ++ be16 dst_port
    ++ be16 udp_len
    ++ (0 ∷ 0 ∷ [])
    ++ payload

-- `(dst_ip & NET_HTONL(net_mask)) == (my_ip & NET_HTONL(net_mask)) ? dst_ip : gw_ip`
abbrev pub nexthop : ℕ → ℕ
nexthop dst_ip = if dst_ip % 2 ^ 24 == my_ip % 2 ^ 24 then dst_ip else gw_ip

-- net_send_udp of at most 1458 bytes of data.
pub net_send_udp : ℕ → ℕ → ℕ → List ℕ → Card → ℤ × Card
net_send_udp dst_ip src_port dst_port payload c =
    let hop = nexthop dst_ip in
    let known = arp_lookup hop c.arp in
    let asked = elim known as (λ _. Card) [ none ↦ send_arp_request hop c | some _ ↦ c ] in
    if c.ready
    then net_send_raw (udp_frame (mac_or_all known) c.my_mac dst_ip src_port dst_port payload) asked
    else (failed, c)

-- net_poll with a frame for UDP: it goes into the ring, if there is room.
pub push_frame : List ℕ → Card → Card
push_frame frame c =
    let slot = get_or c.rx_ring c.rx_head no_rx in
    let next = (c.rx_head + 1) % rx_ring_size in
    if next == c.rx_tail then c else record c {
      rx_ring =
          set c.rx_ring c.rx_head
            (record { buf = frame ++ drop (length frame) slot.buf; len = length frame });
      rx_head = next;
    }

-- What net_recv_udp finds in the ring: the data, the sender's address and port.
pub take_frame : ℕ → ℕ → Card → Option (List ℕ × ℕ × ℕ) × Card
take_frame port bufsz c =
    let slot = get_or c.rx_ring c.rx_tail no_rx in
    let f = slot.buf in
    let data_len = (from16 f 38 + u16 - 8) % u16 in
    let n = if ltb bufsz data_len then bufsz else data_len in
    let c' = record c { rx_tail = (c.rx_tail + 1) % rx_ring_size } in
    if c.rx_head == c.rx_tail
    then (none, c)
    else if ltb slot.len 42
    then (none, c')
    else if from16 f 36 == port
    then (some (take n (drop 42 f), from32 f 26, from16 f 34), c')
    else (none, c')

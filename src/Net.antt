-- ===== src/Net.antt =====
-- src/net.c: the checksum, the ARP cache, the ring of received frames, and TCP sockets. The card is seen as
-- the log of the frames it is given; addresses are numbers, frames are lists of bytes. Segments hold
-- at most 1446 bytes: the source builds them in a buffer of 1500 bytes whatever their length.
pub mod Checksum
pub mod Frames
pub mod Tcp
pub mod Examples
use kum_os.Base.{
  ℕ, zero, suc, ◌+◌, ◌-◌, ◌*◌, ◌/◌, ◌%◌, Bool, true, false, not, ◌&&◌, ◌||◌, Option, none, some,
  List, [], ◌∷◌, ◌++◌, if◌then◌else◌, ltb, leb, ◌==◌, length, get_or, set, drop, take, replicate,
  find_index, ℤ, pos, negsuc, failed, index_in, add32, sub32, ◌^◌,
}

abbrev pub eth_alen : ℕ
eth_alen = 6

abbrev pub u16 : ℕ
u16 = 2 ^ 16

-- A number's bytes in the order of the network.
abbrev pub be16 : ℕ → List ℕ
be16 n = n / 256 % 256 ∷ n % 256 ∷ []

abbrev pub be32 : ℕ → List ℕ
be32 n = n / 2 ^ 24 % 256 ∷ n / 2 ^ 16 % 256 ∷ n / 256 % 256 ∷ n % 256 ∷ []

-- NET_HTONS and NET_HTONL of the number at byte i.
abbrev pub from16 : List ℕ → ℕ → ℕ
from16 bs i = get_or bs i 0 * 256 + get_or bs (i + 1) 0

abbrev pub from32 : List ℕ → ℕ → ℕ
from32 bs i = from16 bs i * 2 ^ 16 + from16 bs (i + 2)

-- The loop over 16-bit words, the lower byte first, and the odd byte behind them.
pub sum_words : ℕ → List ℕ → ℕ
sum_words sum [] = sum
sum_words sum (b ∷ []) = add32 sum b
sum_words sum (b ∷ c ∷ bs) = sum_words (add32 sum (b + 256 * c)) bs

-- `while (sum>>16) sum = (sum&0xFFFF)+(sum>>16);`
pub fold_carry : ℕ → ℕ → ℕ
fold_carry zero sum = sum
fold_carry (suc fuel) sum =
    let rest = fold_carry fuel (sum % 2 ^ 16 + sum / 2 ^ 16) in
    if sum / 2 ^ 16 == 0 then sum else rest

-- Two rounds leave no carry.
pub ip_checksum : List ℕ → ℕ
ip_checksum bs = 2 ^ 16 - 1 - fold_carry 3 (sum_words 0 bs)

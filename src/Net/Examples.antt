-- ===== src/Net/Examples.antt =====
-- Frames and a socket, at which the theorems are used.
use kum_os.Base.{
  ℕ, ◌+◌, ◌≡◌, refl, List, [], ◌∷◌, ◌++◌, arith, length, take, drop, length-replicate,
}
use kum_os.Pipe.{pipe_avail, pipe_free}
use kum_os.Pipe.Ring.{IsValid}
use kum_os.Net.{ip_checksum, sum_words, fold_carry}
use kum_os.Net.Frames.{ArpEntry, ip_header, ip_front, ip_back}
use kum_os.Net.Frames.Arp.{ip_header_lem}
use kum_os.Net.Tcp.{no_socket, recv_at, store_bytes}
use kum_os.Net.Tcp.Stream.{ring, unread, recv-store}

-- The header of an empty UDP packet from 10.0.2.15 to 10.0.2.2.
ip_header_lem_example : ip_checksum (ip_header 28 1 17 0x0A00020F 0x0A000202) ≡ 0
ip_header_lem_example = ip_header_lem 28 1 17 0x0A00020F 0x0A000202 (omega arith)

header_sum : ip_checksum (ip_front 28 1 17 ++ 0 ∷ 0 ∷ ip_back 0x0A00020F 0x0A000202) ≡ 0xC062
unfolding ip_checksum sum_words fold_carry
header_sum = refl

abbrev one_entry : List ArpEntry
one_entry = record { ip = 1; mac = 1 ∷ [] } ∷ []

empty-IsValid : IsValid (ring no_socket)
empty-IsValid = record {
  storage = length-replicate {A = ℕ} 4096 0;
  head_in = omega arith;
  tail_in = omega arith;
}

empty-room : length {A = ℕ} (7 ∷ 8 ∷ []) + 4093 ≡ pipe_free (ring no_socket)
unfolding pipe_free pipe_avail
empty-room = refl

recv-store_example :
    ((recv_at 1 (store_bytes no_socket (7 ∷ 8 ∷ []))).0 ≡ take 1 (unread no_socket ++ 7 ∷ 8 ∷ []))
    × (unread (recv_at 1 (store_bytes no_socket (7 ∷ 8 ∷ []))).1
        ≡ drop 1 (unread no_socket ++ 7 ∷ 8 ∷ []))
recv-store_example = recv-store no_socket (7 ∷ 8 ∷ []) 1 empty-IsValid (omega (arith, empty-room))

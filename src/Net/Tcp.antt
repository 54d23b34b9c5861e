-- ===== src/Net/Tcp.antt =====
-- src/net.c: TCP sockets. The waiting loop of tcp_connect, which polls the card, is not modelled.
pub mod Stream
use kum_os.Base.{
  ℕ, zero, suc, ◌+◌, ◌-◌, ◌*◌, ◌/◌, ◌%◌, ◌^◌, Bool, true, false, not, ◌&&◌, ◌||◌, Option, none,
  some, List, [], ◌∷◌, ◌++◌, if◌then◌else◌, ltb, leb, ◌==◌, length, get_or, set, drop, take,
  replicate, find_index, ℤ, pos, negsuc, failed, index_in, add32, sub32,
}
use kum_os.Net.{eth_alen, u16, be16, be32, from16, from32}
use kum_os.Net.Frames.{
  Card, my_ip, net_send_raw, arp_learn, arp_lookup, mac_or_all, send_arp_request, ip_header,
  push_frame,
}

abbrev pub tcp_max_sockets : ℕ
tcp_max_sockets = 8

abbrev pub tcp_buf_size : ℕ
tcp_buf_size = 4096

-- tcp_state_t
pub data TcpState : Type 0 where
  tcp_closed tcp_syn_sent tcp_syn_recv tcp_established tcp_fin_wait1 tcp_fin_wait2 tcp_close_wait
        tcp_last_ack tcp_time_wait :
      TcpState

-- tcp_socket_t
pub record Socket : Type 0 where
  pub state : TcpState
  pub local_ip : ℕ
  pub remote_ip : ℕ
  pub local_port : ℕ
  pub remote_port : ℕ
  pub seq : ℕ
  pub ack : ℕ
  pub rbuf : List ℕ
  pub rbuf_head : ℕ
  pub rbuf_tail : ℕ
  pub used : Bool

abbrev pub no_socket : Socket
no_socket = record {
  state = tcp_closed;
  local_ip = 0;
  remote_ip = 0;
  local_port = 0;
  remote_port = 0;
  seq = 0;
  ack = 0;
  rbuf = replicate tcp_buf_size 0;
  rbuf_head = 0;
  rbuf_tail = 0;
  used = false;
}

-- tcp_sockets and tcp_next_port, with the card.
pub record Net : Type 0 where
  pub card : Card
  pub sockets : List Socket
  pub next_port : ℕ

-- TCP_FIN, TCP_SYN and TCP_ACK in a byte of flags.
abbrev pub has_fin : ℕ → Bool
has_fin flags = flags % 2 == 1

abbrev pub has_syn : ℕ → Bool
has_syn flags = flags / 2 % 2 == 1

abbrev pub has_ack : ℕ → Bool
has_ack flags = flags / 16 % 2 == 1

abbrev pub tcp_ack : ℕ
tcp_ack = 0x10

abbrev pub tcp_fin_ack : ℕ
tcp_fin_ack = 0x11

abbrev pub is_established : TcpState → Bool
is_established s = elim s as (λ _. Bool) [
  | tcp_closed ↦ false
  | tcp_syn_sent ↦ false
  | tcp_syn_recv ↦ false
  | tcp_established ↦ true
  | tcp_fin_wait1 ↦ false
  | tcp_fin_wait2 ↦ false
  | tcp_close_wait ↦ false
  | tcp_last_ack ↦ false
  | tcp_time_wait ↦ false
]

abbrev pub is_syn_sent : TcpState → Bool
is_syn_sent s = elim s as (λ _. Bool) [
  | tcp_closed ↦ false
  | tcp_syn_sent ↦ true
  | tcp_syn_recv ↦ false
  | tcp_established ↦ false
  | tcp_fin_wait1 ↦ false
  | tcp_fin_wait2 ↦ false
  | tcp_close_wait ↦ false
  | tcp_last_ack ↦ false
  | tcp_time_wait ↦ false
]

-- The frame of a segment.
pub tcp_frame : List ℕ → List ℕ → Socket → ℕ → List ℕ → List ℕ
tcp_frame dst_mac mac s flags payload =
    dst_mac
    ++ mac
    ++ be16 0x0800
    ++ ip_header ((40 + length payload) % u16) 0 6 s.local_ip s.remote_ip
    ++ be16 s.local_port
    ++ be16 s.remote_port
    ++ be32 s.seq
    ++ be32 (if has_ack flags then s.ack else 0)
    ++ (0x50 ∷ flags ∷ [])
    ++ be16 4096
    ++ (0 ∷ 0 ∷ 0 ∷ 0 ∷ [])
    ++ payload

pub tcp_send_raw : Socket → ℕ → List ℕ → Card → Socket × Card
tcp_send_raw s flags payload c =
    let mac = mac_or_all (arp_lookup s.remote_ip c.arp) in
    let seq = if has_syn flags || has_fin flags then add32 s.seq 1 else s.seq in
    (
      record s { seq = add32 seq (length payload) },
      (net_send_raw (tcp_frame mac c.my_mac s flags payload) c).1,
    )

abbrev pub is_free_socket : Socket → Bool
is_free_socket s = not s.used

-- tcp_connect up to its SYN: the socket, if there is one.
pub tcp_open : ℕ → ℕ → Net → Option ℕ × Net
tcp_open dst_ip dst_port n = elim (find_index is_free_socket n.sockets) [
  | none ↦ (none, n)
  | some i ↦
      let s = record no_socket {
        used = true;
        local_ip = my_ip;
        remote_ip = dst_ip;
        local_port = n.next_port;
        remote_port = dst_port;
        seq = 0x1000;
        state = tcp_syn_sent;
      } in
      let (s', card) = tcp_send_raw s 2 [] (send_arp_request dst_ip n.card) in
      (
        some i,
        record { card = card; sockets = set n.sockets i s'; next_port = (n.next_port + 1) % u16 },
      )
]

-- `s<0||s>=TCP_MAX_SOCKETS||!tcp_sockets[s].used`
pub live_socket : List Socket → ℤ → Option ℕ
live_socket sockets d = elim (index_in tcp_max_sockets d) [
  | none ↦ none
  | some i ↦ if (get_or sockets i no_socket).used then some i else none
]

pub tcp_send : ℤ → List ℕ → Net → ℤ × Net
tcp_send d payload n = elim (live_socket n.sockets d) [
  | none ↦ (failed, n)
  | some i ↦
      let s = get_or n.sockets i no_socket in
      let (s', card) = tcp_send_raw s tcp_ack payload n.card in
      if is_established s.state
      then (pos (length payload), record n { card = card; sockets = set n.sockets i s' })
      else (failed, n)
]

-- `(rbuf_head-rbuf_tail+TCP_BUF_SIZE)%TCP_BUF_SIZE`
abbrev pub tcp_avail : Socket → ℕ
tcp_avail s = add32 (sub32 s.rbuf_head s.rbuf_tail) tcp_buf_size % tcp_buf_size

-- The loop of tcp_recv.
pub take_bytes : ℕ → Socket → List ℕ × Socket
take_bytes zero s = ([], s)
take_bytes (suc n) s =
    let s' = record s { rbuf_tail = add32 s.rbuf_tail 1 % tcp_buf_size } in
    let (out, end) = take_bytes n s' in (get_or s.rbuf s.rbuf_tail 0 ∷ out, end)

pub recv_at : ℕ → Socket → List ℕ × Socket
recv_at len s = take_bytes (if ltb (tcp_avail s) len then tcp_avail s else len) s

pub tcp_recv : ℤ → ℕ → Net → Option (List ℕ) × Net
tcp_recv d len n = elim (live_socket n.sockets d) [
  | none ↦ (none, n)
  | some i ↦
      let (out, s) = recv_at len (get_or n.sockets i no_socket) in
      (some out, record n { sockets = set n.sockets i s })
]

pub tcp_close : ℤ → Net → Net
tcp_close d n = elim (live_socket n.sockets d) [
  | none ↦ n
  | some i ↦
      let (s, card) = tcp_send_raw (get_or n.sockets i no_socket) tcp_fin_ack [] n.card in
      record n {
        card = card;
        sockets = set n.sockets i (record s { state = tcp_fin_wait1; used = false });
      }
]

-- The loop of tcp_process over the bytes of a segment.
pub store_bytes : Socket → List ℕ → Socket
store_bytes s [] = s
store_bytes s (x ∷ xs) =
    store_bytes
      (record s { rbuf = set s.rbuf s.rbuf_head x; rbuf_head = add32 s.rbuf_head 1 % tcp_buf_size })
      xs

-- The data of a segment: what the frame holds behind the headers.
pub segment_data : List ℕ → List ℕ
segment_data frame =
    let doff = get_or frame 46 0 / 16 * 4 in
    take ((length frame + u16 - 34 - doff) % u16) (drop (34 + doff) frame)

-- The data of a segment for a socket, and its answer.
pub accept_data : ℕ → List ℕ → Socket → Card → Socket × Card
accept_data seq payload s c =
    if length payload == 0
    then (s, c)
    else tcp_send_raw (store_bytes (record s { ack = add32 seq (length payload) }) payload) tcp_ack
        [] c

pub accept_fin : Socket → Card → Socket × Card
accept_fin s c =
    let (s1, c1) = tcp_send_raw (record s { ack = add32 s.ack 1 }) tcp_ack [] c in
    let (s2, c2) = tcp_send_raw (record s1 { state = tcp_close_wait }) tcp_fin_ack [] c1 in
    (record s2 { state = tcp_last_ack }, c2)

-- A segment for a socket.
pub accept : List ℕ → Socket → Card → Socket × Card
accept frame s c =
    let seq = from32 frame 38 in
    let flags = get_or frame 47 0 in
    let (s', c') = accept_data seq (segment_data frame) s c in
    if is_syn_sent s.state && (has_syn flags && has_ack flags)
    then tcp_send_raw
        (record s { ack = add32 seq 1; seq = from32 frame 42; state = tcp_established }) tcp_ack []
        c
    else if is_established s.state
    then if has_fin flags then accept_fin s' c' else (s', c')
    else (s, c)

-- The socket that a segment is for.
abbrev pub is_for : List ℕ → Socket → Bool
is_for frame s =
    s.used
    && (s.remote_ip == from32 frame 26
        && (s.remote_port == from16 frame 34 && s.local_port == from16 frame 36))

pub tcp_process : List ℕ → Net → Net
tcp_process frame n = elim (find_index (is_for frame) n.sockets) [
  | none ↦ n
  | some i ↦
      let (s, card) = accept frame (get_or n.sockets i no_socket) n.card in
      if ltb (length frame) 54 then n else record n { card = card; sockets = set n.sockets i s }
]

-- What net_poll does with a frame of at most 1514 bytes.
pub net_receive : List ℕ → Net → Net
net_receive frame n =
    let len = length frame in
    let etype = from16 frame 12 in
    let protocol = get_or frame 23 0 in
    let learned = arp_learn (from32 frame 28) (take eth_alen (drop 22 frame)) n.card.arp in
    if etype == 0x0806 && leb 42 len
    then record n { card = record n.card { arp = learned } }
    else if etype == 0x0800 && leb 34 len
    then if protocol == 17 && leb 42 len
      then record n { card = push_frame frame n.card }
      else if protocol == 6 && leb 54 len
      then tcp_process frame n
      else n
    else n

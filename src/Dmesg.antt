-- ===== src/Dmesg.antt =====
-- src/dmesg.c: the kernel log, a ring of bytes. A message is its bytes before the terminating 0.
-- Parameters: `sec` is timer_seconds(), `ticks` timer_ticks(), and `before` the byte of memory before
-- the message, which dmesg_log reads when the message is empty.
pub mod Recent
pub mod Examples
use kum_os.Base.{
  ℕ, zero, suc, ◌+◌, ◌-◌, ◌*◌, ◌/◌, ◌%◌, List, [], ◌∷◌, ◌++◌, if◌then◌else◌, ltb, leb, ◌==◌, get_or,
  set, replicate, length, add32, sub32,
}
use kum_os.Kstring.{kstrlen}

abbrev pub dmesg_size : ℕ
dmesg_size = 16384

-- dmesg_buf, dmesg_head and dmesg_count
pub record Dmesg : Type 0 where
  pub buf : List ℕ
  pub head : ℕ
  pub count : ℕ

pub dmesg_init : Dmesg
dmesg_init = record { buf = replicate dmesg_size 0; head = 0; count = 0 }

pub buf_append : Dmesg → List ℕ → Dmesg
buf_append d [] = d
buf_append d (c ∷ cs) =
    buf_append
      (record {
        buf = set d.buf (d.head % dmesg_size) c;
        head = add32 d.head 1;
        count = add32 d.count 1;
      })
      cs

-- The digits of v in front of those that tmp holds; a uint32_t has at most ten. tmp has places for
-- seven: that more digits overwrite what lies before it is not modelled.
pub digits : ℕ → ℕ → List ℕ → List ℕ
digits zero v tmp = tmp
digits (suc fuel) v tmp =
    let rest = digits fuel (v / 10) ((b'0' + v % 10) ∷ tmp) in if v == 0 then tmp else rest

pub decimal : ℕ → List ℕ
decimal v = if v == 0 then b'0' ∷ [] else digits 10 v []

-- `msg[kstrlen(msg)-1]`
pub last_byte : ℕ → List ℕ → ℕ
last_byte before [] = before
last_byte before (c ∷ cs) = last_byte c cs

pub dmesg_log : ℕ → ℕ → ℕ → Dmesg → List ℕ → Dmesg
dmesg_log sec ticks before d msg =
    let ms = ticks % 100 * 10 in
    let d1 = buf_append d (b'[' ∷ []) in
    let d2 = buf_append d1 (decimal sec) in
    let d3 = buf_append d2 (b'.' ∷ []) in
    let d4 = if ltb ms 100 then buf_append d3 (b'0' ∷ []) else d3 in
    let d5 = if ltb ms 10 then buf_append d4 (b'0' ∷ []) else d4 in
    let d6 = buf_append d5 (decimal ms) in
    let d7 = buf_append d6 (b']' ∷ 32 ∷ []) in
    let d8 = buf_append d7 msg in if last_byte before msg == 10 then d8 else buf_append d8 (10 ∷ [])

abbrev pub start_of : Dmesg → ℕ
start_of d = if ltb dmesg_size d.count then d.head % dmesg_size else 0

abbrev pub total_of : Dmesg → ℕ
total_of d = if ltb dmesg_size d.count then dmesg_size else d.head

-- The n bytes of the ring from `start + i` on.
pub read_from : ℕ → List ℕ → ℕ → ℕ → List ℕ
read_from zero buf start i = []
read_from (suc n) buf start i =
    get_or buf ((start + i) % dmesg_size) 0 ∷ read_from n buf start (i + 1)

-- The characters that dmesg_print_all prints.
pub non_zero : List ℕ → List ℕ
non_zero [] = []
non_zero (c ∷ cs) = let rest = non_zero cs in if c == 0 then rest else c ∷ rest

pub dmesg_print_all : Dmesg → List ℕ
dmesg_print_all d = non_zero (read_from (total_of d) d.buf (start_of d) 0)

-- What is written to the caller's buffer, from its start on, and the result.
pub dmesg_read : Dmesg → ℕ → List ℕ × ℕ
dmesg_read d sz =
    let total = if leb sz (total_of d) then sub32 sz 1 else total_of d in
    (read_from total d.buf (start_of d) 0 ++ 0 ∷ [], total)

-- ===== src/Net/Tcp/Stream.antt =====
-- src/net.c: the bytes of a TCP socket. The ring of a socket is one like that of a pipe.
use mathlib.Core.List.{append-nil, append_assoc}
use kum_os.Base.{
  ℕ, zero, suc, ◌+◌, ◌%◌, ◌≤◌, ◌<◌, ◌≡◌, ◌≢◌, refl, sym, ap, ◌∙◌, true, List, [], ◌∷◌, ◌++◌, arith,
  ltb, length, get_or, set, take, drop, add32, Bool-cases, inl, inr, ltb→lt, ltb→le, take-all,
}
use kum_os.Pipe.{Pipe, put, advance, pipe_avail, pipe_free}
use kum_os.Pipe.Ring.{
  IsValid, contents, put-IsValid, contents-put, free-put, advance-IsValid, contents-advance,
  avail-advance, avail-zero, length-contents,
}
use kum_os.Net.Tcp.{Socket, tcp_buf_size, tcp_avail, take_bytes, recv_at, store_bytes}

-- The ring of a socket.
abbrev pub ring : Socket → Pipe
ring s = record {
  buf = s.rbuf;
  head = s.rbuf_head;
  tail = s.rbuf_tail;
  writers = 0;
  readers = 0;
  used = true;
}

-- The bytes that were received and not read.
abbrev pub unread : Socket → List ℕ
unread s = contents (ring s)

abbrev stored : Socket → ℕ → Socket
stored s x = record s {
  rbuf = set s.rbuf s.rbuf_head x;
  rbuf_head = add32 s.rbuf_head 1 % tcp_buf_size;
}

ring-stored : (s : Socket) (x : ℕ) → ring (stored s x) ≡ put (ring s) x
unfolding put
ring-stored s x = refl

abbrev taken : Socket → Socket
taken s = record s { rbuf_tail = add32 s.rbuf_tail 1 % tcp_buf_size }

ring-taken : (s : Socket) → ring (taken s) ≡ advance (ring s)
unfolding advance
ring-taken s = refl

avail-ring : (s : Socket) → tcp_avail s ≡ pipe_avail (ring s)
unfolding pipe_avail
avail-ring s = refl

-- The bytes of a segment go to the end, where there is room for them.
pub store_bytes-unread :
    (xs : List ℕ) (s : Socket)
    → IsValid (ring s)
    → length xs ≤ pipe_free (ring s)
    → IsValid (ring (store_bytes s xs)) × (unread (store_bytes s xs) ≡ unread s ++ xs)
unfolding store_bytes
store_bytes-unread [] s v room = (v, sym (append-nil (unread s)))
store_bytes-unread (x ∷ xs) s v room =
    let one : ring (stored s x) ≡ put (ring s) x = ring-stored s x in
    let v' : IsValid (ring (stored s x)) = rw one (put-IsValid x v) in
    let room' : length xs ≤ pipe_free (ring (stored s x)) =
      rw one (omega (arith, free-put x v (λ z. omega arith))) in
    let (valid, all) = store_bytes-unread xs (stored s x) v' room' in
    (
      valid,
      all
          ∙ ap (λ c. c ++ xs) (ap contents one ∙ contents-put x v (λ z. omega arith))
          ∙ append_assoc (unread s) (x ∷ []) xs,
    )

take_bytes-unread :
    (n : ℕ) (s : Socket)
    → IsValid (ring s)
    → n ≤ pipe_avail (ring s)
    → IsValid (ring (take_bytes n s).1)
      × ((take_bytes n s).0 ≡ take n (unread s))
      × (unread (take_bytes n s).1 ≡ drop n (unread s))
unfolding take_bytes
take_bytes-unread zero s v le = (v, refl, refl)
take_bytes-unread (suc n) s v le =
    let one : ring (taken s) ≡ advance (ring s) = ring-taken s in
    let apart : s.rbuf_head ≢ s.rbuf_tail = λ e. let z = avail-zero v e in absurd (omega arith) in
    let v' : IsValid (ring (taken s)) = rw one (advance-IsValid v) in
    let le' : n ≤ pipe_avail (ring (taken s)) = rw one (omega (arith, avail-advance v apart)) in
    let (valid, out, rest) = take_bytes-unread n (taken s) v' le' in
    let front : unread s ≡ get_or s.rbuf s.rbuf_tail 0 ∷ unread (taken s) =
      contents-advance v apart ∙ ap (λ p. get_or s.rbuf s.rbuf_tail 0 ∷ contents p) (sym one) in
    (
      valid,
      ap (◌∷◌ (get_or s.rbuf s.rbuf_tail 0)) out ∙ sym (ap (take (suc n)) front),
      rest ∙ sym (ap (drop (suc n)) front),
    )

-- A socket whose ring has room for the bytes of a segment: tcp_recv hands over what was unread and
-- then these bytes, in order, as many as it is asked for, and the others stay unread.
pub recv-store :
    (s : Socket) (xs : List ℕ) (len : ℕ)
    → IsValid (ring s)
    → length xs ≤ pipe_free (ring s)
    → ((recv_at len (store_bytes s xs)).0 ≡ take len (unread s ++ xs))
      × (unread (recv_at len (store_bytes s xs)).1 ≡ drop len (unread s ++ xs))
unfolding recv_at
recv-store s xs len v room =
    let s' = store_bytes s xs in
    let (v', all) = store_bytes-unread xs s v room in
    let avail : length (unread s ++ xs) ≡ tcp_avail s' =
      ap length (sym all) ∙ length-contents (ring s') ∙ sym (avail-ring s') in
    elim (Bool-cases (ltb (tcp_avail s') len)) [
      | inl t ↦
          let (_, out, rest) =
            take_bytes-unread (tcp_avail s') s' v' (omega (arith, avail-ring s')) in
          let short = ltb→lt (tcp_avail s') len t in
          rw t (
            out
                ∙ ap (take (tcp_avail s')) all
                ∙ take-all (tcp_avail s') (unread s ++ xs) (omega arith)
                ∙ sym (take-all len (unread s ++ xs) (omega arith)),
            rest
                ∙ ap (drop (tcp_avail s')) all
                ∙ drop-all (tcp_avail s') (unread s ++ xs) (omega arith)
                ∙ sym (drop-all len (unread s ++ xs) (omega arith)),
          )
      | inr f ↦
          let (_, out, rest) =
            take_bytes-unread len s' v'
              (omega (arith, avail-ring s', ltb→le (tcp_avail s') len f)) in
          rw f (out ∙ ap (take len) all, rest ∙ ap (drop len) all)
    ]
  where
    drop-all : (n : ℕ) (ys : List ℕ) → length ys ≤ n → drop n ys ≡ []
    drop-all zero [] h = refl
    drop-all zero (y ∷ ys) h = absurd (omega arith)
    drop-all (suc n) [] h = refl
    drop-all (suc n) (y ∷ ys) h = drop-all n ys (omega arith)

-- Nothing keeps the bytes of a segment from going over what was not read: the socket has as many
-- unread bytes afterwards as before and these together, modulo 4096.
pub avail-store :
    (xs : List ℕ) (s : Socket)
    → s.rbuf_head < tcp_buf_size
    → s.rbuf_tail < tcp_buf_size
    → tcp_avail (store_bytes s xs) ≡ (tcp_avail s + length xs) % tcp_buf_size
unfolding store_bytes
avail-store [] s h t = omega arith
avail-store (x ∷ xs) s h t = let rec = avail-store xs (stored s x) (omega arith) t in omega arith

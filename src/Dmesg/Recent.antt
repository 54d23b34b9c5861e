-- ===== src/Dmesg/Recent.antt =====
-- The kernel log keeps the last bytes of what was logged.
use mathlib.Core.List.{append_assoc, append-nil}
use native.Mathlib.Decide.{ℕ_discrete}
use kum_os.Base.{
  ℕ, zero, suc, ◌+◌, ◌-◌, ◌*◌, ◌%◌, ◌≤◌, ◌<◌, ◌≡◌, refl, sym, ap, ◌∙◌, inl, inr, List, [], ◌∷◌,
  ◌++◌, arith, ltb→lt, ltb→le, true, if◌then◌else◌, ltb, leb, ◌==◌, Bool-cases, length, take, drop,
  get_or, set, u32, add32, sub32, min, length-set, length-append, length-replicate, length-drop,
  get_or-set_self, get_or-set_ne,
}
use kum_os.Dmesg.{
  Dmesg, dmesg_size, dmesg_init, buf_append, decimal, last_byte, dmesg_log, read_from, start_of,
  total_of, dmesg_read,
}

-- A call of dmesg_log: the clock, the byte before the message and the message.
pub record Entry : Type 0 where
  pub sec : ℕ
  pub ticks : ℕ
  pub before : ℕ
  pub msg : List ℕ

-- The zeros before the milliseconds, and the newline that a message lacks.
unfoldable pub zeros : ℕ → List ℕ
zeros ms = if ltb ms 10 then b'0' ∷ b'0' ∷ [] else if ltb ms 100 then b'0' ∷ [] else []

unfoldable pub newline : Entry → List ℕ
newline e = if last_byte e.before e.msg == 10 then [] else 10 ∷ []

abbrev pub framed : List ℕ → List ℕ → List ℕ → List ℕ → List ℕ → List ℕ
framed sec zs ms msg end' = b'[' ∷ (sec ++ (b'.' ∷ (zs ++ (ms ++ (b']' ∷ 32 ∷ (msg ++ end'))))))

-- The line of an entry.
unfoldable pub line : Entry → List ℕ
line e =
    let ms = e.ticks % 100 * 10 in framed (decimal e.sec) (zeros ms) (decimal ms) e.msg (newline e)

unfoldable pub text : List Entry → List ℕ
text [] = []
text (e ∷ es) = line e ++ text es

pub log_all : Dmesg → List Entry → Dmesg
log_all d [] = d
log_all d (e ∷ es) = log_all (dmesg_log e.sec e.ticks e.before d e.msg) es

-- The last bytes of a text, as many as the log has room for.
pub recent : List ℕ → List ℕ
recent log = drop (length log - dmesg_size) log

buf_append-append :
    (d : Dmesg) (xs ys : List ℕ) → buf_append d (xs ++ ys) ≡ buf_append (buf_append d xs) ys
unfolding buf_append
buf_append-append d [] ys = refl
buf_append-append d (x ∷ xs) ys =
    buf_append-append
      (record {
        buf = set d.buf (d.head % dmesg_size) x;
        head = add32 d.head 1;
        count = add32 d.count 1;
      })
      xs ys

-- The pieces of a line, one after the other.
pieces :
    (d : Dmesg) (sec zs ms msg end' : List ℕ)
    → buf_append
        (buf_append
          (buf_append
            (buf_append
              (buf_append (buf_append (buf_append (buf_append d (b'[' ∷ [])) sec) (b'.' ∷ [])) zs)
              ms)
            (b']' ∷ 32 ∷ []))
          msg)
        end'
      ≡ buf_append d (framed sec zs ms msg end')
pieces d sec zs ms msg end' = sym (
    buf_append-append d (b'[' ∷ []) _
    ∙ buf_append-append _ sec _
    ∙ buf_append-append _ (b'.' ∷ []) _
    ∙ buf_append-append _ zs _
    ∙ buf_append-append _ ms _
    ∙ buf_append-append _ (b']' ∷ 32 ∷ []) _
    ∙ buf_append-append _ msg end')

padded :
    (d : Dmesg) (ms : ℕ)
    → (let d4 = if ltb ms 100 then buf_append d (b'0' ∷ []) else d in
        if ltb ms 10 then buf_append d4 (b'0' ∷ []) else d4)
      ≡ buf_append d (zeros ms)
unfolding zeros buf_append
padded d ms = elim (Bool-cases (ltb ms 10)) [
  | inl lo ↦ let lo' : ltb ms 100 ≡ true = ground arith in rw (lo, lo') refl
  | inr hi ↦ elim (Bool-cases (ltb ms 100)) [
    | inl lo ↦ rw (hi, lo) refl
    | inr hi' ↦ rw (hi, hi') refl
  ]
]

ended :
    (d : Dmesg) (e : Entry)
    → (if last_byte e.before e.msg == 10 then d else buf_append d (10 ∷ []))
      ≡ buf_append d (newline e)
unfolding newline buf_append
ended d e = elim (Bool-cases (last_byte e.before e.msg == 10)) [
  | inl y ↦ rw y refl
  | inr n ↦ rw n refl
]

log-line :
    (e : Entry) (d : Dmesg) → dmesg_log e.sec e.ticks e.before d e.msg ≡ buf_append d (line e)
unfolding dmesg_log line
log-line e d =
    let ms = e.ticks % 100 * 10 in
    ended _ e
    ∙ ap
        (λ x.
          buf_append (buf_append (buf_append (buf_append x (decimal ms)) (b']' ∷ 32 ∷ [])) e.msg)
            (newline e))
        (padded _ ms)
    ∙ pieces d (decimal e.sec) (zeros ms) (decimal ms) e.msg (newline e)

-- The ring after `log` has been logged.
record Holds (log : List ℕ) (d : Dmesg) : Type 0 where
  size : length d.buf ≡ dmesg_size
  head : d.head ≡ length log
  count : d.count ≡ length log
  bytes :
      (i : ℕ)
      → i < length log
      → length log ≤ i + dmesg_size
      → get_or d.buf (i % dmesg_size) 0 ≡ get_or log i 0

get_or-append_left :
    (xs ys : List ℕ) (i : ℕ) → i < length xs → get_or (xs ++ ys) i 0 ≡ get_or xs i 0
get_or-append_left [] ys i h = absurd (omega arith)
get_or-append_left (x ∷ xs) ys zero h = refl
get_or-append_left (x ∷ xs) ys (suc i) h = get_or-append_left xs ys i (omega arith)

get_or-append_last : (xs : List ℕ) (x : ℕ) → get_or (xs ++ x ∷ []) (length xs) 0 ≡ x
get_or-append_last [] x = refl
get_or-append_last (y ∷ xs) x = get_or-append_last xs x

put-Holds :
    (log : List ℕ) (x : ℕ) (d : Dmesg)
    → length log + 1 < u32
    → Holds log d
    → Holds (log ++ x ∷ []) (record {
      buf = set d.buf (d.head % dmesg_size) x;
      head = add32 d.head 1;
      count = add32 d.count 1;
    })
put-Holds log x d fit h = record {
  size = length-set d.buf (d.head % dmesg_size) x ∙ h.size;
  head = omega (arith, h.head, longer);
  count = omega (arith, h.count, longer);
  bytes = bytes;
}
  where
    longer : length (log ++ x ∷ []) ≡ length log + 1
    longer = length-append log (x ∷ [])

    bytes :
        (i : ℕ)
        → i < length (log ++ x ∷ [])
        → length (log ++ x ∷ []) ≤ i + dmesg_size
        → get_or (set d.buf (d.head % dmesg_size) x) (i % dmesg_size) 0 ≡ get_or (log ++ x ∷ []) i 0
    bytes i lo hi = elim (ℕ_discrete i (length log)) [
      | yes e ↦
          rw (e, h.head)
            (get_or-set_self d.buf (length log % dmesg_size) x 0 (omega (arith, h.size))
              ∙ sym (get_or-append_last log x))
      | no n ↦
          get_or-set_ne d.buf (d.head % dmesg_size) (i % dmesg_size) x 0
            (λ e. absurd (omega (arith, h.head, longer)))
          ∙ h.bytes i (omega (arith, longer)) (omega (arith, longer))
          ∙ sym (get_or-append_left log (x ∷ []) i (omega (arith, longer)))
    ]

buf_append-Holds :
    (log xs : List ℕ) (d : Dmesg)
    → length (log ++ xs) < u32
    → Holds log d
    → Holds (log ++ xs) (buf_append d xs)
unfolding buf_append
buf_append-Holds log [] d fit h = rw (append-nil log) h
buf_append-Holds log (x ∷ xs) d fit h = rw (← append_assoc log (x ∷ []) xs) (
    buf_append-Holds (log ++ x ∷ []) xs _
      (omega (
        arith,
        length-append log (x ∷ xs),
        length-append (log ++ x ∷ []) xs,
        length-append log (x ∷ []),
      ))
      (put-Holds log x d (omega (arith, length-append log (x ∷ xs))) h))

drop-get_or : (i : ℕ) (xs : List ℕ) → i < length xs → drop i xs ≡ get_or xs i 0 ∷ drop (suc i) xs
drop-get_or i [] h = absurd (omega arith)
drop-get_or zero (x ∷ xs) h = refl
drop-get_or (suc i) (x ∷ xs) h = drop-get_or i xs (omega arith)

read_from-take :
    (n : ℕ) (buf log : List ℕ) (start base i : ℕ)
    → base + i + n ≤ length log
    → ((k : ℕ)
        → i ≤ k
        → k < i + n
        → get_or buf ((start + k) % dmesg_size) 0 ≡ get_or log (base + k) 0)
    → read_from n buf start i ≡ take n (drop (base + i) log)
unfolding read_from
read_from-take zero buf log start base i fit same = refl
read_from-take (suc n) buf log start base i fit same =
    let next : base + (i + 1) ≡ suc (base + i) = omega arith in
    rw (drop-get_or (base + i) log (omega arith), ← next)
      (ap (λ b. b ∷ read_from n buf start (i + 1)) (same i (omega arith) (omega arith))
        ∙ ap (◌∷◌ (get_or log (base + i) 0)) (
            read_from-take n buf log start base (i + 1) (omega arith)
              (λ k lo hi. same k (omega arith) (omega arith))))

init-Holds : Holds [] dmesg_init
unfolding dmesg_init
init-Holds = record {
  size = length-replicate {A = ℕ} dmesg_size 0;
  head = refl;
  count = refl;
  bytes = λ i h l. absurd (omega arith);
}

log_all-Holds :
    (es : List Entry) (log : List ℕ) (d : Dmesg)
    → length (log ++ text es) < u32
    → Holds log d
    → Holds (log ++ text es) (log_all d es)
unfolding log_all text
log_all-Holds [] log d fit h = rw (append-nil log) h
log_all-Holds (e ∷ es) log d fit h =
    rw (log-line e d, ← append_assoc log (line e) (text es))
      (log_all-Holds es (log ++ line e) (buf_append d (line e))
        (rw (append_assoc log (line e) (text es)) fit)
        (buf_append-Holds log (line e) d
          (omega (
            arith,
            fit,
            length-append log (line e),
            length-append log (line e ++ text es),
            length-append (line e) (text es),
          ))
          h))

total-recent : (log : List ℕ) (d : Dmesg) → Holds log d → total_of d ≡ length (recent log)
unfolding recent
total-recent log d h = elim (Bool-cases (ltb dmesg_size (length log))) [
  | inl full ↦
      let some' = ltb→lt dmesg_size (length log) full in
      rw (h.count, full) (omega (arith, length-drop (length log - dmesg_size) log))
  | inr part ↦
      let few = ltb→le dmesg_size (length log) part in
      rw (h.count, part) (omega (arith, h.head, length-drop (length log - dmesg_size) log))
]

read-recent :
    (log : List ℕ) (d : Dmesg) (n : ℕ)
    → n ≤ length (recent log)
    → Holds log d
    → read_from n d.buf (start_of d) 0 ≡ take n (recent log)
unfolding recent
read-recent log d n fit h = elim (Bool-cases (ltb dmesg_size (length log))) [
  | inl full ↦
      let lt' = ltb→lt dmesg_size (length log) full in
      let e : length log - dmesg_size + 0 ≡ length log - dmesg_size = omega arith in
      rw (h.count, full, h.head, ← e)
        (read_from-take n d.buf log (length log % dmesg_size) (length log - dmesg_size) 0
          (omega (arith, length-drop (length log - dmesg_size) log))
          (λ k lo hi.
            ap (λ i. get_or d.buf i 0) (omega arith)
            ∙ h.bytes (length log - dmesg_size + k)
                (omega (arith, length-drop (length log - dmesg_size) log)) (omega arith)))
  | inr part ↦
      let le' = ltb→le dmesg_size (length log) part in
      let e : length log - dmesg_size ≡ 0 + 0 = omega arith in
      rw (h.count, part, e)
        (read_from-take n d.buf log 0 0 0 (omega (arith, length-drop (length log - dmesg_size) log))
          (λ k lo hi.
            let z : 0 + k ≡ k = omega arith in
            rw z
              (h.bytes k (omega (arith, length-drop (length log - dmesg_size) log)) (omega arith))))
]

take-min : (n : ℕ) (xs : List ℕ) → take (min n (length xs)) xs ≡ take n xs
take-min zero xs = let e : min 0 (length xs) ≡ 0 = omega arith in rw e refl
take-min (suc n) [] = let e : min (suc n) 0 ≡ 0 = omega arith in rw e refl
take-min (suc n) (x ∷ xs) =
    let e : min (suc n) (suc (length xs)) ≡ suc (min n (length xs)) = omega arith in
    rw e (ap (◌∷◌ x) (take-min n xs))

read-Holds :
    (log : List ℕ) (d : Dmesg) (sz : ℕ)
    → 0 < sz
    → sz < u32
    → Holds log d
    → dmesg_read d sz ≡ (take (sz - 1) (recent log) ++ 0 ∷ [], min (sz - 1) (length (recent log)))
unfolding dmesg_read
read-Holds log d sz some' small h =
    ap (λ n. (read_from n d.buf (start_of d) 0 ++ 0 ∷ [], n)) total
    ∙ ap (λ bytes. (bytes ++ 0 ∷ [], min (sz - 1) (length (recent log))))
        (read-recent log d (min (sz - 1) (length (recent log))) (omega arith) h
          ∙ take-min (sz - 1) (recent log))
  where
    total :
        (if leb sz (total_of d) then sub32 sz 1 else total_of d)
        ≡ min (sz - 1) (length (recent log))
    total = rw (total-recent log d h) (ground arith)

-- After dmesg_init and any calls of dmesg_log, of fewer than 2^32 bytes in all, dmesg_read with a
-- buffer of sz bytes, sz at least 1 and below 2^32, gives the first sz - 1 of the last 16384 bytes
-- that were logged, a 0 behind them, and how many they are.
pub dmesg_read_lem :
    (es : List Entry) (sz : ℕ)
    → length (text es) < u32
    → 0 < sz
    → sz < u32
    → dmesg_read (log_all dmesg_init es) sz
      ≡ (take (sz - 1) (recent (text es)) ++ 0 ∷ [], min (sz - 1) (length (recent (text es))))
dmesg_read_lem es sz fit some' small =
    read-Holds (text es) (log_all dmesg_init es) sz some' small
      (log_all-Holds es [] dmesg_init fit init-Holds)

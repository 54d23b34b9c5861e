-- ===== src/Pipe/Transfer.antt =====
-- What pipe_write and pipe_read do to the bytes of a pipe, on every branch of their loops.
use mathlib.Core.List.{append-nil, append_assoc}
use kum_os.Base.{
  ℕ, zero, suc, min, ◌+◌, ◌≡◌, ◌≢◌, inl, inr, refl, sym, ap, ◌∙◌, List, [], ◌∷◌, ◌++◌, arith,
  if◌then◌else◌, ==→eq, ◌==◌, Bool-cases, length, get_or, take, pos,
}
use kum_os.Pipe.{
  Pipe, Outcome, returned, yielded, pipe_avail, pipe_free, put, advance, write_loop, read_loop,
}
use kum_os.Pipe.Ring.{
  IsValid, contents, put-IsValid, contents-put, free-put, advance-IsValid, contents-advance,
  avail-advance, avail-zero,
}

-- The ends that are open, which no transfer changes.
abbrev pub SameEnds : Pipe → Pipe → Type 0
SameEnds p q = (q.readers ≡ p.readers) × (q.writers ≡ p.writers) × (q.used ≡ p.used)

-- How a write that started with `room` free bytes ends.
abbrev pub write_outcome : ℕ → ℕ → List ℕ → ℕ → Outcome (List ℕ)
write_outcome readers room [] n = returned (pos n)
write_outcome readers zero (x ∷ xs) n =
    if readers == 0 then returned (pos n) else yielded n (x ∷ xs)
write_outcome readers (suc room) (x ∷ xs) n = write_outcome readers room xs (n + 1)

pub record Wrote (p : Pipe) (xs : List ℕ) (n : ℕ) (r : Pipe × Outcome (List ℕ)) : Type 0 where
  pub valid : IsValid r.0
  pub bytes : contents r.0 ≡ contents p ++ take (pipe_free p) xs
  pub ends : SameEnds p r.0
  pub outcome : r.1 ≡ write_outcome p.readers (pipe_free p) xs n

write_loop-full :
    (p : Pipe) (x : ℕ) (xs : List ℕ) (n : ℕ)
    → pipe_free p ≡ 0
    → write_loop p (x ∷ xs) n ≡ (p, write_outcome p.readers 0 (x ∷ xs) n)
unfolding write_loop
write_loop-full p x xs n e = ground arith

write_loop-room :
    (p : Pipe) (x : ℕ) (xs : List ℕ) (n : ℕ)
    → pipe_free p ≢ 0
    → write_loop p (x ∷ xs) n ≡ write_loop (put p x) xs (n + 1)
unfolding write_loop
write_loop-room p x xs n h = ground arith

put-SameEnds : (p : Pipe) (x : ℕ) → SameEnds p (put p x)
unfolding put
put-SameEnds p x = (refl, refl, refl)

take-nil : (n : ℕ) → take {A = ℕ} n [] ≡ []
take-nil zero = refl
take-nil (suc n) = refl

-- One byte more in front of a write.
Wrote-cons :
    (p : Pipe) (x : ℕ) (xs : List ℕ) (n : ℕ) (r : Pipe × Outcome (List ℕ))
    → IsValid p
    → pipe_free p ≢ 0
    → Wrote (put p x) xs (n + 1) r
    → Wrote p (x ∷ xs) n r
unfolding put
Wrote-cons p x xs n r v h w = record {
  valid = w.valid;
  bytes = rw (← free-put x v h) (
      w.bytes
      ∙ ap (λ c. c ++ take (pipe_free (put p x)) xs) (contents-put x v h)
      ∙ append_assoc (contents p) (x ∷ []) (take (pipe_free (put p x)) xs));
  ends = w.ends;
  outcome = rw (← free-put x v h) w.outcome;
}

-- The loop of pipe_write keeps the ring valid, leaves the ends alone, appends the bytes that there
-- is room for, and returns or waits with the bytes that there is no room for.
pub write_loop-Wrote :
    (xs : List ℕ) (p : Pipe) (n : ℕ) → IsValid p → Wrote p xs n (write_loop p xs n)
unfolding write_loop
write_loop-Wrote [] p n v = record {
  valid = v;
  bytes = sym (ap (λ t. contents p ++ t) (take-nil (pipe_free p)) ∙ append-nil (contents p));
  ends = (refl, refl, refl);
  outcome = refl;
}
write_loop-Wrote (x ∷ xs) p n v = elim (Bool-cases (pipe_free p == 0)) [
  | inl e ↦
      let full : pipe_free p ≡ 0 = ==→eq _ _ e in
      rw (write_loop-full p x xs n full) (record {
        valid = v;
        bytes = rw full (sym (append-nil (contents p)));
        ends = (refl, refl, refl);
        outcome = rw full;
      })
  | inr e ↦
      let h : pipe_free p ≢ 0 = ground arith in
      rw (write_loop-room p x xs n h)
        (Wrote-cons p x xs n _ v h (write_loop-Wrote xs (put p x) (n + 1) (put-IsValid x v)))
]

-- How a read that started with `held` bytes in the ring ends.
abbrev pub read_outcome : ℕ → ℕ → ℕ → ℕ → Outcome ℕ
read_outcome writers held zero n = returned (pos n)
read_outcome writers zero (suc k) n = if writers == 0 then returned (pos n) else yielded n (suc k)
read_outcome writers (suc held) (suc k) n = read_outcome writers held k (n + 1)

pub record DidRead (p : Pipe) (k n : ℕ) (out : List ℕ) (r : Pipe × List ℕ × Outcome ℕ)
    : Type 0 where
  pub valid : IsValid r.0
  pub got : List ℕ
  pub received : r.1 ≡ out ++ got
  pub split : got ++ contents r.0 ≡ contents p
  pub count : length got ≡ min k (pipe_avail p)
  pub ends : SameEnds p r.0
  pub outcome : r.2 ≡ read_outcome p.writers (pipe_avail p) k n

read_loop-empty :
    (p : Pipe) (k n : ℕ) (out : List ℕ)
    → p.head ≡ p.tail
    → read_loop p (suc k) n out ≡ (p, out, read_outcome p.writers 0 (suc k) n)
unfolding read_loop
read_loop-empty p k n out e = ground arith

read_loop-data :
    (p : Pipe) (k n : ℕ) (out : List ℕ)
    → p.head ≢ p.tail
    → read_loop p (suc k) n out
      ≡ read_loop (advance p) k (n + 1) (out ++ get_or p.buf p.tail 0 ∷ [])
unfolding read_loop
read_loop-data p k n out h = ground arith

-- One byte more in front of a read.
DidRead-cons :
    (p : Pipe) (k n : ℕ) (out : List ℕ) (r : Pipe × List ℕ × Outcome ℕ)
    → IsValid p
    → p.head ≢ p.tail
    → DidRead (advance p) k (n + 1) (out ++ get_or p.buf p.tail 0 ∷ []) r
    → DidRead p (suc k) n out r
unfolding advance
DidRead-cons p k n out r v h w = record {
  valid = w.valid;
  got = get_or p.buf p.tail 0 ∷ w.got;
  received = w.received ∙ append_assoc out (get_or p.buf p.tail 0 ∷ []) w.got;
  split = ap (◌∷◌ (get_or p.buf p.tail 0)) w.split ∙ sym (contents-advance v h);
  count = omega (arith, w.count, avail-advance v h);
  ends = w.ends;
  outcome = rw (← avail-advance v h) w.outcome;
}

-- The loop of pipe_read keeps the ring valid, leaves the ends alone, hands over the oldest bytes in
-- order, as many as are wanted and held, and returns or waits for what is still wanted.
pub read_loop-DidRead :
    (k : ℕ) (p : Pipe) (n : ℕ) (out : List ℕ) → IsValid p → DidRead p k n out (read_loop p k n out)
unfolding read_loop
read_loop-DidRead zero p n out v = record {
  valid = v;
  got = [];
  received = sym (append-nil out);
  split = refl;
  count = omega arith;
  ends = (refl, refl, refl);
  outcome = refl;
}
read_loop-DidRead (suc k) p n out v = elim (Bool-cases (p.head == p.tail)) [
  | inl e ↦
      let empty : p.head ≡ p.tail = ==→eq _ _ e in
      rw (read_loop-empty p k n out empty) (record {
        valid = v;
        got = [];
        received = sym (append-nil out);
        split = refl;
        count = omega (arith, avail-zero v empty);
        ends = (refl, refl, refl);
        outcome = rw (avail-zero v empty);
      })
  | inr e ↦
      let h : p.head ≢ p.tail = ground arith in
      rw (read_loop-data p k n out h) (
        DidRead-cons p k n out _ v h (
          read_loop-DidRead k (advance p) (n + 1) (out ++ get_or p.buf p.tail 0 ∷ [])
            (advance-IsValid v)))
]

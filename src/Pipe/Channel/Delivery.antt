-- ===== src/Pipe/Channel/Delivery.antt =====
-- Progress on a pipe: when writer and reader run in turn, each round moves up to 4095 bytes, so a
-- message of any length arrives.
use mathlib.Core.List.{append-nil}
use kum_os.Base.{
  ℕ, zero, suc, min, ◌+◌, ◌-◌, ◌*◌, ◌≤◌, ◌≡◌, ◌≢◌, refl, sym, ap, ◌∙◌, List, [], ◌∷◌, ◌++◌, arith,
  length, take, drop, length-take, length-append,
}
use kum_os.Pipe.{Pipe, Outcome, returned, yielded, pipe_avail, pipe_free}
use kum_os.Pipe.Ring.{contents, length-contents, avail-add-free, window}
use kum_os.Pipe.Transfer.{Wrote, DidRead, read_outcome, write_loop-Wrote, read_loop-DidRead}
use kum_os.Pipe.Channel.{
  Channel, Turn, writer_runs, reader_runs, turn, run, resume_writer, resume_reader, unsent, wanted,
  unsent_outcome, Carries, turn-Carries,
}

wanted_outcome :
    (writers held k n : ℕ) → writers ≢ 0 → wanted (read_outcome writers held k n) ≡ k - held
wanted_outcome writers zero zero n h = refl
wanted_outcome writers (suc held) zero n h = omega arith
wanted_outcome writers zero (suc k) n h = ground arith
wanted_outcome writers (suc held) (suc k) n h =
    omega (arith, wanted_outcome writers held k (n + 1) h)

drop-nil : (n : ℕ) → drop {A = ℕ} n [] ≡ []
drop-nil zero = refl
drop-nil (suc n) = refl

-- What the writer's turn does to the ring and to the rest of the message.
record WriterTurn (c d : Channel) : Type 0 where
  held : pipe_avail d.pipe ≡ pipe_avail c.pipe + min (pipe_free c.pipe) (length (unsent c.writer))
  left : unsent d.writer ≡ drop (pipe_free c.pipe) (unsent c.writer)
  same_reader : d.reader ≡ c.reader
  writers : d.pipe.writers ≡ c.pipe.writers

Wrote-WriterTurn :
    (c : Channel) (n : ℕ) (rest : List ℕ) (r : Pipe × Outcome (List ℕ))
    → c.pipe.readers ≢ 0
    → unsent c.writer ≡ rest
    → Wrote c.pipe rest n r
    → WriterTurn c (record c { pipe = r.0; writer = r.1 })
Wrote-WriterTurn c n rest r h e w = record {
  held = rw e (
      omega (
        arith,
        length-contents r.0,
        length-contents c.pipe,
        ap length w.bytes,
        length-append (contents c.pipe) (take (pipe_free c.pipe) rest),
        length-take (pipe_free c.pipe) rest,
      ));
  left = rw (w.outcome, e) (unsent_outcome c.pipe.readers (pipe_free c.pipe) rest n h);
  same_reader = refl;
  writers = w.ends.1;
}

turn-WriterTurn : (src : List ℕ) (c : Channel) → Carries src c → WriterTurn c (turn c writer_runs)
unfolding turn resume_writer
turn-WriterTurn src c v = resumed c.writer refl
  where
    resumed : (o : Outcome (List ℕ)) → c.writer ≡ o → WriterTurn c (resume_writer c o)
    resumed (returned r) e = record {
      held = rw (ap unsent e) (omega arith);
      left = rw (ap unsent e) (sym (drop-nil (pipe_free c.pipe)));
      same_reader = refl;
      writers = refl;
    }
    resumed (yielded n rest) e =
        Wrote-WriterTurn c n rest _ v.open_end (ap unsent e)
          (write_loop-Wrote rest c.pipe n v.valid)

record ReaderTurn (c d : Channel) : Type 0 where
  held : pipe_avail d.pipe ≡ pipe_avail c.pipe - wanted c.reader
  left : wanted d.reader ≡ wanted c.reader - pipe_avail c.pipe
  same_writer : d.writer ≡ c.writer
  writers : d.pipe.writers ≡ c.pipe.writers

DidRead-ReaderTurn :
    (c : Channel) (n k : ℕ) (r : Pipe × List ℕ × Outcome ℕ)
    → c.pipe.writers ≢ 0
    → wanted c.reader ≡ k
    → DidRead c.pipe k n c.received r
    → ReaderTurn c (record c { pipe = r.0; reader = r.2; received = r.1 })
DidRead-ReaderTurn c n k r h e w = record {
  held = omega (
    arith,
    w.count,
    length-contents r.0,
    length-contents c.pipe,
    ap length w.split,
    length-append w.got (contents r.0),
  );
  left = rw (w.outcome, e) (wanted_outcome c.pipe.writers (pipe_avail c.pipe) k n h);
  same_writer = refl;
  writers = w.ends.1;
}

turn-ReaderTurn :
    (src : List ℕ) (c : Channel)
    → Carries src c
    → c.pipe.writers ≢ 0
    → ReaderTurn c (turn c reader_runs)
unfolding turn resume_reader
turn-ReaderTurn src c v h = resumed c.reader refl
  where
    resumed : (o : Outcome ℕ) → c.reader ≡ o → ReaderTurn c (resume_reader c o)
    resumed (returned r) e = record {
      held = rw (ap wanted e) (omega arith);
      left = rw (ap wanted e) (omega arith);
      same_writer = refl;
      writers = refl;
    }
    resumed (yielded n k) e =
        DidRead-ReaderTurn c n k _ h (ap wanted e) (read_loop-DidRead k c.pipe n c.received v.valid)

-- Between two rounds: the ring is empty, and the reader wants what the writer still has.
pub record Between (src : List ℕ) (c : Channel) : Type 0 where
  pub carries : Carries src c
  pub writer_open : c.pipe.writers ≢ 0
  pub empty : pipe_avail c.pipe ≡ 0
  pub balance : wanted c.reader ≡ length (unsent c.writer)

abbrev pub round : Channel → Channel
round c = turn (turn c writer_runs) reader_runs

length-drop : (n : ℕ) (xs : List ℕ) → length (drop n xs) ≡ length xs - n
length-drop zero xs = omega arith
length-drop (suc n) [] = omega arith
length-drop (suc n) (x ∷ xs) = omega (arith, length-drop n xs)

round-Between :
    (src : List ℕ) (c : Channel)
    → Between src c
    → Between src (round c) × (length (unsent (round c).writer) ≡ length (unsent c.writer) - 4095)
round-Between src c b = (
  record {
    carries = second;
    writer_open = λ z. b.writer_open (sym w.writers ∙ sym r.writers ∙ z);
    empty = omega (arith, r.held, w.held, same, b.empty, room);
    balance = balanced;
  },
  shrunk,
)
  where
    mid : Channel
    mid = turn c writer_runs

    first : Carries src mid
    first = turn-Carries src c writer_runs b.carries

    second : Carries src (turn mid reader_runs)
    second = turn-Carries src mid reader_runs first

    w : WriterTurn c mid
    w = turn-WriterTurn src c b.carries

    r : ReaderTurn mid (turn mid reader_runs)
    r = turn-ReaderTurn src mid first (λ z. b.writer_open (sym w.writers ∙ z))

    same : wanted mid.reader ≡ length (unsent c.writer)
    same = ap wanted w.same_reader ∙ b.balance

    room : pipe_free c.pipe ≡ 4095
    room = omega (arith, avail-add-free b.carries.valid, b.empty)

    shrunk : length (unsent (turn mid reader_runs).writer) ≡ length (unsent c.writer) - 4095
    shrunk =
        ap (λ o. length (unsent o)) r.same_writer
        ∙ ap length w.left
        ∙ omega (arith, length-drop (pipe_free c.pipe) (unsent c.writer), room)

    balanced : wanted (turn mid reader_runs).reader ≡ length (unsent (turn mid reader_runs).writer)
    balanced = omega (arith, r.left, w.held, same, b.empty, room, shrunk)

-- k rounds, the writer first in each.
abbrev pub rounds : ℕ → List Turn
rounds zero = []
rounds (suc k) = writer_runs ∷ reader_runs ∷ rounds k

nil_of_length : (xs : List ℕ) → length xs ≡ 0 → xs ≡ []
nil_of_length [] h = refl
nil_of_length (x ∷ xs) h = absurd (omega arith)

received_all :
    (src : List ℕ) (c : Channel) → Between src c → length (unsent c.writer) ≡ 0 → c.received ≡ src
received_all src c b h =
    sym (append-nil c.received)
    ∙ ap (λ t. c.received ++ t) (sym (ap (◌++◌ (contents c.pipe)) none_left ∙ nothing_held))
    ∙ b.carries.bytes
  where
    none_left : unsent c.writer ≡ []
    none_left = nil_of_length (unsent c.writer) h

    nothing_held : contents c.pipe ++ [] ≡ []
    nothing_held = append-nil (contents c.pipe) ∙ ap (window c.pipe.buf c.pipe.tail) b.empty

-- From an empty ring with both ends open, k rounds deliver the whole of a message of at most
-- 4095 * k bytes to a reader that wants as many, and nothing is left to send or to wait for.
pub run-delivers :
    (k : ℕ) (src : List ℕ) (c : Channel)
    → Between src c
    → length (unsent c.writer) ≤ 4095 * k
    → let d = run c (rounds k) in
      (d.received ≡ src) × (unsent d.writer ≡ []) × (wanted d.reader ≡ 0)
unfolding run
run-delivers zero src c b h =
    let done : length (unsent c.writer) ≡ 0 = omega arith in
    (received_all src c b done, nil_of_length (unsent c.writer) done, b.balance ∙ done)
run-delivers (suc k) src c b h =
    run-delivers k src (round c) (round-Between src c b).0
      (omega (arith, (round-Between src c b).1))

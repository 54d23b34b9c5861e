-- ===== src/Pipe/Channel.antt =====
-- A writing and a reading task on one pipe. Tasks change at the sched_yield() in the loops of
-- pipe_write and pipe_read, so a schedule says whose loop runs next until it returns or yields.
pub mod Delivery
use mathlib.Core.List.{append_assoc, append-nil}
use kum_os.Base.{
  ℕ, zero, suc, min, ◌+◌, ◌-◌, ◌*◌, ◌≤◌, ◌<◌, ◌≡◌, ◌≢◌, refl, sym, ap, ◌∙◌, List, [], ◌∷◌, ◌++◌,
  arith, if◌then◌else◌, ==→eq, ◌==◌, length, get_or, take, drop, ℤ, pos, length-take, length-append,
}
use kum_os.Pipe.{Pipe, Outcome, returned, yielded, pipe_avail, pipe_free, write_loop, read_loop}
use kum_os.Pipe.Ring.{IsValid, contents, length-contents, avail-add-free}
use kum_os.Pipe.Transfer.{
  Wrote, DidRead, write_outcome, read_outcome, write_loop-Wrote, read_loop-DidRead,
}

pub data Turn : Type 0 where
  writer_runs reader_runs : Turn

pub record Channel : Type 0 where
  pub pipe : Pipe
  pub writer : Outcome (List ℕ)
  pub reader : Outcome ℕ
  pub received : List ℕ

pub resume_writer : Channel → Outcome (List ℕ) → Channel
resume_writer c (returned r) = c
resume_writer c (yielded n rest) =
    let (p, o) = write_loop c.pipe rest n in record c { pipe = p; writer = o }

pub resume_reader : Channel → Outcome ℕ → Channel
resume_reader c (returned r) = c
resume_reader c (yielded n k) =
    let (p, out, o) = read_loop c.pipe k n c.received in
    record c { pipe = p; reader = o; received = out }

pub turn : Channel → Turn → Channel
turn c writer_runs = resume_writer c c.writer
turn c reader_runs = resume_reader c c.reader

pub run : Channel → List Turn → Channel
run c [] = c
run c (t ∷ ts) = run (turn c t) ts

-- What a suspended pipe_write still has to write; what a suspended pipe_read still wants.
abbrev pub unsent : Outcome (List ℕ) → List ℕ
unsent (returned r) = []
unsent (yielded n rest) = rest

abbrev pub wanted : Outcome ℕ → ℕ
wanted (returned r) = 0
wanted (yielded n k) = k

pub record Carries (src : List ℕ) (c : Channel) : Type 0 where
  pub valid : IsValid c.pipe
  pub open_end : c.pipe.readers ≢ 0
  pub bytes : c.received ++ (contents c.pipe ++ unsent c.writer) ≡ src

pub unsent_outcome :
    (readers room : ℕ) (xs : List ℕ) (n : ℕ)
    → readers ≢ 0
    → unsent (write_outcome readers room xs n) ≡ drop room xs
unsent_outcome readers zero [] n h = refl
unsent_outcome readers (suc room) [] n h = refl
unsent_outcome readers zero (x ∷ xs) n h = ground arith
unsent_outcome readers (suc room) (x ∷ xs) n h = unsent_outcome readers room xs (n + 1) h

take-append-drop : (n : ℕ) (xs : List ℕ) → take n xs ++ drop n xs ≡ xs
take-append-drop zero xs = refl
take-append-drop (suc n) [] = refl
take-append-drop (suc n) (x ∷ xs) = ap (◌∷◌ x) (take-append-drop n xs)

Wrote-Carries :
    (src : List ℕ) (c : Channel) (n : ℕ) (rest : List ℕ) (r : Pipe × Outcome (List ℕ))
    → IsValid c.pipe
    → c.pipe.readers ≢ 0
    → c.received ++ (contents c.pipe ++ rest) ≡ src
    → Wrote c.pipe rest n r
    → Carries src (record c { pipe = r.0; writer = r.1 })
Wrote-Carries src c n rest r v h e w = record {
  valid = w.valid;
  open_end = rw (w.ends.0) h;
  bytes =
      rw
        (
          w.outcome,
          unsent_outcome c.pipe.readers (pipe_free c.pipe) rest n h,
          w.bytes,
          append_assoc (contents c.pipe),
          take-append-drop (pipe_free c.pipe) rest,
        )
        e;
}

DidRead-Carries :
    (src : List ℕ) (c : Channel) (n k : ℕ) (r : Pipe × List ℕ × Outcome ℕ)
    → Carries src c
    → DidRead c.pipe k n c.received r
    → Carries src (record c { pipe = r.0; reader = r.2; received = r.1 })
DidRead-Carries src c n k r v w = record {
  valid = w.valid;
  open_end = rw (w.ends.0) v.open_end;
  bytes = rw (w.received, append_assoc c.received w.got, ← append_assoc w.got, w.split) v.bytes;
}

pub turn-Carries : (src : List ℕ) (c : Channel) (t : Turn) → Carries src c → Carries src (turn c t)
unfolding turn resume_writer resume_reader
turn-Carries src c writer_runs v = resumed c.writer refl
  where
    resumed : (o : Outcome (List ℕ)) → c.writer ≡ o → Carries src (resume_writer c o)
    resumed (returned r) e = v
    resumed (yielded n rest) e =
        Wrote-Carries src c n rest _ v.valid v.open_end (rw (← ap unsent e) v.bytes)
          (write_loop-Wrote rest c.pipe n v.valid)
turn-Carries src c reader_runs v = resumed c.reader
  where
    resumed : (o : Outcome ℕ) → Carries src (resume_reader c o)
    resumed (returned r) = v
    resumed (yielded n k) =
        DidRead-Carries src c n k _ v (read_loop-DidRead k c.pipe n c.received v.valid)

-- However the two tasks are scheduled, what was received, what the ring holds and what is unsent
-- make up the message, in order.
pub run-Carries :
    (src : List ℕ) (ts : List Turn) (c : Channel) → Carries src c → Carries src (run c ts)
unfolding run
run-Carries src [] c v = v
run-Carries src (t ∷ ts) c v = run-Carries src ts (turn c t) (turn-Carries src c t v)

-- ===== src/Pipe.antt =====
-- src/pipe.c and src/pipe.h: sixteen kernel pipes, each a ring of 4096 bytes.
-- `int` results are ℤ. A call of sched_yield() inside a transfer leaves the function until the task
-- runs again, so a transfer ends in an `Outcome`: it returned, or it waits with what is left to do.
pub mod Ring
pub mod Transfer
pub mod Channel
pub mod Lifecycle
pub mod Examples
use kum_os.Base.{
  ℕ, zero, suc, ◌+◌, ◌-◌, ◌%◌, Bool, true, false, not, ◌&&◌, ◌||◌, Option, none, some, List, [],
  ◌∷◌, ◌++◌, if◌then◌else◌, ltb, ◌==◌, get_or, set, replicate, find_index, ℤ, pos, failed, add32,
  sub32, index_in,
}

abbrev pub pipe_buf_size : ℕ
pipe_buf_size = 4096

abbrev pub pipe_max : ℕ
pipe_max = 16

-- pipe_t
pub record Pipe : Type 0 where
  pub buf : List ℕ
  pub head : ℕ
  pub tail : ℕ
  pub writers : ℕ
  pub readers : ℕ
  pub used : Bool

-- pipe_t after kmemset to 0.
unfoldable pub zeroed : Pipe
zeroed = record {
  buf = replicate pipe_buf_size 0;
  head = 0;
  tail = 0;
  writers = 0;
  readers = 0;
  used = false;
}

-- `static pipe_t pipes[PIPE_MAX]`
abbrev pub Pipes : Type 0
Pipes = List Pipe

unfoldable pub pipe_init : Pipes
pipe_init = replicate pipe_max zeroed

pub opened : Pipe
unfolding zeroed
opened = record zeroed { used = true; writers = 1; readers = 1; head = 0; tail = 0 }

abbrev pub is_free_slot : Pipe → Bool
is_free_slot p = not p.used

unfoldable pub pipe_create : Pipes → ℤ × Pipes
pipe_create ps = elim (find_index is_free_slot ps) [
  | none ↦ (failed, ps)
  | some i ↦ (pos i, set ps i opened)
]

-- The pointer that pipe_get returns is the index of the slot.
unfoldable pub pipe_get : Pipes → ℤ → Option ℕ
pipe_get ps id = elim (index_in pipe_max id) [
  | none ↦ none
  | some i ↦ if (get_or ps i zeroed).used then some i else none
]

abbrev pub dec : ℕ → ℕ
dec n = if ltb 0 n then n - 1 else n

-- `if (readers == 0 && writers == 0) used = 0;`
abbrev pub release : Pipe → Pipe
release p = if p.readers == 0 && p.writers == 0 then record p { used = false } else p

unfoldable pub pipe_close_read : Pipes → ℤ → Pipes
pipe_close_read ps id = elim (index_in pipe_max id) [
  | none ↦ ps
  | some i ↦ let p = get_or ps i zeroed in set ps i (release (record p { readers = dec p.readers }))
]

unfoldable pub pipe_close_write : Pipes → ℤ → Pipes
pipe_close_write ps id = elim (index_in pipe_max id) [
  | none ↦ ps
  | some i ↦ let p = get_or ps i zeroed in set ps i (release (record p { writers = dec p.writers }))
]

pub pipe_has_data : Pipes → ℤ → Bool
unfolding pipe_get
pipe_has_data ps id = elim (pipe_get ps id) [
  | none ↦ false
  | some i ↦ let p = get_or ps i zeroed in not (p.head == p.tail)
]

-- uint32_t arithmetic, as written.
unfoldable pub pipe_avail : Pipe → ℕ
pipe_avail p = add32 (sub32 p.head p.tail) pipe_buf_size % pipe_buf_size

unfoldable pub pipe_free : Pipe → ℕ
pipe_free p = sub32 (pipe_buf_size - 1) (pipe_avail p)

-- `p->buf[p->head] = x; p->head = (p->head + 1) % PIPE_BUF_SIZE;`
unfoldable pub put : Pipe → ℕ → Pipe
put p x = record p { buf = set p.buf p.head x; head = add32 p.head 1 % pipe_buf_size }

-- `... = p->buf[p->tail]; p->tail = (p->tail + 1) % PIPE_BUF_SIZE;`
unfoldable pub advance : Pipe → Pipe
advance p = record p { tail = add32 p.tail 1 % pipe_buf_size }

-- What a transfer does: it returns a count, or yields inside its loop. A writer that waits still
-- has the bytes `rest`; a reader that waits wants `rest` more.
pub data Outcome (A : Type 0) : Type 0 where
  returned : ℤ → Outcome A
  yielded : ℕ → A → Outcome A

-- The loop of pipe_write at `written = n`, with the bytes that are left.
pub write_loop : Pipe → List ℕ → ℕ → Pipe × Outcome (List ℕ)
write_loop p [] n = (p, returned (pos n))
write_loop p (x ∷ xs) n =
    let rest = write_loop (put p x) xs (n + 1) in
    if pipe_free p == 0
    then if p.readers == 0 then (p, returned (pos n)) else (p, yielded n (x ∷ xs))
    else rest

-- The loop of pipe_read at `nread = n`, with the count that is still wanted; `out` is dst[0..n).
pub read_loop : Pipe → ℕ → ℕ → List ℕ → Pipe × List ℕ × Outcome ℕ
read_loop p zero n out = (p, out, returned (pos n))
read_loop p (suc k) n out =
    let rest = read_loop (advance p) k (n + 1) (out ++ get_or p.buf p.tail 0 ∷ []) in
    if p.head == p.tail
    then if p.writers == 0 then (p, out, returned (pos n)) else (p, out, yielded n (suc k))
    else rest

pub pipe_write : Pipes → ℤ → List ℕ → Pipes × Outcome (List ℕ)
pipe_write ps id src = elim (pipe_get ps id) [
  | none ↦ (ps, returned failed)
  | some i ↦
      let p = get_or ps i zeroed in
      if p.readers == 0
      then (ps, returned failed)
      else let (p', o) = write_loop p src 0 in (set ps i p', o)
]

pub pipe_read : Pipes → ℤ → ℕ → Pipes × List ℕ × Outcome ℕ
pipe_read ps id len = elim (pipe_get ps id) [
  | none ↦ (ps, [], returned failed)
  | some i ↦
      let p = get_or ps i zeroed in let (p', out, o) = read_loop p len 0 [] in (set ps i p', out, o)
]

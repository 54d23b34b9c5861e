-- ===== src/Kmalloc/Runs/Calls.antt =====
-- What the owners hold after any calls.
use native.Mathlib.Decide.{dec_lt}
use kum_os.Base.{ℕ, ◌+◌, ◌≤◌, ◌<◌, ◌≢◌, ◌⊎◌, inl, inr, refl, List, [], ◌∷◌, arith, u32}
use kum_os.Kmalloc.{header_size, Memory, kmalloc_init}
use kum_os.Kmalloc.Apart.{apart, kmalloc_init-Shape}
use kum_os.Kmalloc.Runs.{Call, malloc, free, Owners, step, run, at, IsValid, IsFit, AllFit}
use kum_os.Kmalloc.Runs.Malloc.{malloc-IsValid}
use kum_os.Kmalloc.Runs.Free.{free-IsValid}

step-IsValid :
    (start cap : ℕ) (c : Call) (s : Owners)
    → IsFit cap c
    → IsValid start cap s
    → IsValid start cap (step c s)
step-IsValid start cap (malloc n) s small v = malloc-IsValid start cap s v n small
step-IsValid start cap (free i) s fit v = free-IsValid start cap s v i

run-IsValid :
    (start cap : ℕ) (cs : List Call) (s : Owners)
    → AllFit cap cs
    → IsValid start cap s
    → IsValid start cap (run cs s)
unfolding run
run-IsValid start cap [] s fit v = v
run-IsValid start cap (c ∷ cs) s (fit, fits) v =
    run-IsValid start cap cs (step c s) fits (step-IsValid start cap c s fit v)

-- Two pointers that are held.
pair_apart :
    (start cap : ℕ) (s : Owners) (i j : ℕ)
    → IsValid start cap s
    → 0 < (at s.held i).address
    → (at s.held i).address < (at s.held j).address
    → (start + header_size ≤ (at s.held i).address)
      × ((at s.held i).address + (at s.held i).size + header_size ≤ (at s.held j).address)
      × ((at s.held j).address + (at s.held j).size ≤ cap)
pair_apart start cap s i j v p l =
    let b = v.owned_blocks i p in
    let c = v.owned_blocks j (omega arith) in
    let ba = b.address in
    let ca = c.address in
    let be = b.enough in
    let ce = c.enough in
    let (lo, gap, hi) =
      apart s.heap v.blocks v.frees b.block c.block b.bytes c.bytes v.shape b.owns c.owns
        (omega arith) in
    let begins = v.begins in
    let ends = v.ends in let below = v.shape.below in (omega arith, omega arith, omega arith)

-- kmalloc_init on a heap of `size` bytes.
abbrev pub from_init : Memory → ℕ → ℕ → Owners
from_init mem start size = record { heap = kmalloc_init mem start size; held = [] }

init-IsValid :
    (mem : Memory) (start size : ℕ)
    → 0 < start
    → start + size < u32
    → IsValid start (start + size) (from_init mem start size)
unfolding kmalloc_init
init-IsValid mem start size pos small = record {
  blocks = [];
  frees = [];
  shape = kmalloc_init-Shape mem start size pos small;
  begins = refl;
  ends = omega arith;
  owned_blocks = λ i p. absurd (omega arith);
  distinct = λ i j d p. absurd (omega arith);
}

-- After any calls of kmalloc and of kfree with pointers that are held, from kmalloc_init on, where no
-- request wraps around behind the end of the heap: the bytes that two pointers were asked for lie
-- inside the heap, and do not overlap each other or the header in front of the other.
pub run_apart :
    (mem : Memory) (start size : ℕ) (cs : List Call) (i j : ℕ)
    → 0 < start
    → start + size < u32
    → AllFit (start + size) cs
    → i ≢ j
    → 0 < (at (run cs (from_init mem start size)).held i).address
    → 0 < (at (run cs (from_init mem start size)).held j).address
    → (let a = at (run cs (from_init mem start size)).held i in
        let b = at (run cs (from_init mem start size)).held j in
        (start + header_size ≤ a.address)
        × (a.address + a.size ≤ start + size)
        × ((a.address + a.size + header_size ≤ b.address)
            ⊎ (b.address + b.size + header_size ≤ a.address)))
run_apart mem start size cs i j pos small fits d p q =
    let s = run cs (from_init mem start size) in
    let v =
      run-IsValid start (start + size) cs (from_init mem start size) fits
        (init-IsValid mem start size pos small) in
    let differ = v.distinct i j d p in
    elim (dec_lt (at s.held i).address (at s.held j).address) [
      | yes l ↦
          let (lo, gap, hi) = pair_apart start (start + size) s i j v p l in
          (lo, omega arith, inl gap)
      | no n ↦
          let (lo, gap, hi) = pair_apart start (start + size) s j i v q (omega arith) in
          (omega arith, hi, inr gap)
    ]

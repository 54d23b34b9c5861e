-- ===== src/Kmalloc/Runs.antt =====
-- Owners that call the allocator, one call after another, and the pointers that they hold.
pub mod Malloc
pub mod Free
pub mod Calls
use native.Mathlib.Decide.{ℕ_discrete}
use kum_os.Base.{
  ℕ, zero, suc, ◌+◌, ◌-◌, ◌≤◌, ◌<◌, ◌≡◌, ◌≢◌, ◌⊎◌, inl, inr, refl, sym, ap, ◌∙◌, Bool, true, false,
  List, [], ◌∷◌, ◌++◌, arith, if◌then◌else◌, ◌==◌, get_or, set, get_or-set_ne, u32, some, none,
}
use kum_os.Kmalloc.{
  header_size, Memory, Kmalloc, kmalloc_init, kmalloc, kfree, alloc_at, extend_heap, push_free,
  unlink, take_block, split_block, relink, coalesce,
}
use kum_os.Kmalloc.Lists.{holds}
use kum_os.Kmalloc.Shape.{Shape}
use kum_os.Kmalloc.Owned.{owned}
use kum_os.Kmalloc.Alloc.{Allocated}
use kum_os.Kmalloc.Calls.{kmalloc_lem}
use kum_os.Kmalloc.Frees.{Freed, kfree_lem}

-- A pointer that kmalloc returned, with the size that was asked for.
pub record Held : Type 0 where
  pub address : ℕ
  pub size : ℕ

abbrev pub null : Held
null = record { address = 0; size = 0 }

-- A call of kmalloc, or one of kfree with pointer number i of those held, the latest first.
pub data Call : Type 0 where
  malloc : ℕ → Call
  free : ℕ → Call

-- The heap, and the pointers that are held. One that was freed is null.
pub record Owners : Type 0 where
  pub heap : Kmalloc
  pub held : List Held

abbrev pub step : Call → Owners → Owners
step (malloc n) s =
    let (p, k) = kmalloc n s.heap in
    record { heap = k; held = record { address = p; size = n } ∷ s.held }
step (free i) s = record {
  heap = kfree s.heap (get_or s.held i null).address;
  held = set s.held i null;
}

unfoldable pub run : List Call → Owners → Owners
run [] s = s
run (c ∷ cs) s = run cs (step c s)

abbrev pub at : List Held → ℕ → Held
at held i = get_or held i null

pub at-set : (held : List Held) (i : ℕ) → at (set held i null) i ≡ null
at-set [] i = refl
at-set (h ∷ held) zero = refl
at-set (h ∷ held) (suc i) = at-set held i

-- The block in use behind a pointer.
pub record Block (k : Kmalloc) (bs : List ℕ) (h : Held) : Type 0 where
  pub block : ℕ
  pub bytes : ℕ
  pub address : h.address ≡ block + header_size
  pub enough : h.size ≤ bytes
  pub owns : owned k bs block ≡ some bytes

-- The pointers that are not null have blocks in use, and no two of them are the same.
pub record IsValid (start cap : ℕ) (s : Owners) : Type 0 where
  pub blocks : List ℕ
  pub frees : List ℕ
  pub shape : Shape s.heap blocks frees
  pub begins : s.heap.heap_start ≡ start
  pub ends : s.heap.heap_cap ≡ cap
  pub owned_blocks : (i : ℕ) → 0 < (at s.held i).address → Block s.heap blocks (at s.held i)
  pub distinct :
      (i j : ℕ) → i ≢ j → 0 < (at s.held i).address → (at s.held i).address ≢ (at s.held j).address

-- A request of no more than the heap allows.
abbrev pub IsFit : ℕ → Call → Type 0
IsFit cap (malloc n) = cap + n + 40 ≤ u32
IsFit cap (free i) = 0 < 1

abbrev pub AllFit : ℕ → List Call → Type 0
AllFit cap [] = 0 < 1
AllFit cap (c ∷ cs) = IsFit cap c × AllFit cap cs

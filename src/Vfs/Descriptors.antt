-- ===== src/Vfs/Descriptors.antt =====
-- The descriptor table: the descriptor that alloc_fd gives out, and a descriptor in use.
use native.Mathlib.Decide.{dec_lt}
use kum_os.Base.{
  ℕ, zero, suc, ◌+◌, ◌≤◌, ◌<◌, ◌≡◌, inl, inr, refl, ap, ◌∙◌, true, false, none, some, List, [], ◌∷◌,
  arith, ltb, ltb→lt, Bool-cases, Option-cases, length, get_or, get_or-beyond, drop, find_index,
  find_index-lt, find_index-holds, ℤ, pos, negsuc,
}
use kum_os.Vfs.{Fd, max_fd, zero_fd, alloc_fd, is_free_fd, live_fd}

get_or-drop :
    (n : ℕ) (fds : List Fd) (i : ℕ) → get_or (drop n fds) i zero_fd ≡ get_or fds (n + i) zero_fd
get_or-drop zero fds i = ap (λ k. get_or fds k zero_fd) (omega arith)
get_or-drop (suc n) [] i = refl
get_or-drop (suc n) (f ∷ fds) i =
    get_or-drop n fds i
    ∙ ap (λ k. get_or (f ∷ fds) k zero_fd) (let e : suc (n + i) ≡ suc n + i = omega arith in e)

length-drop : (n : ℕ) (fds : List Fd) (i : ℕ) → i < length (drop n fds) → n + i < length fds
length-drop zero fds i h = omega arith
length-drop (suc n) [] i h = absurd (omega arith)
length-drop (suc n) (f ∷ fds) i h = omega (arith, length-drop n fds i h)

-- A descriptor that alloc_fd gives out is not a standard one, lies in the table, and was free.
pub alloc_fd_lem :
    (fds : List Fd) (fd : ℕ)
    → alloc_fd fds ≡ some fd
    → (3 ≤ fd) × (fd < length fds) × ((get_or fds fd zero_fd).used ≡ false)
unfolding alloc_fd is_free_fd
alloc_fd_lem fds fd e = elim (Option-cases (find_index is_free_fd (drop 3 fds))) [
  | inl n ↦ ground arith
  | inr (i, f) ↦
      let same : fd ≡ 3 + i = ground arith in
      let free = find_index-holds is_free_fd (drop 3 fds) i zero_fd f in
      (
        omega arith,
        rw same (length-drop 3 fds i (find_index-lt is_free_fd (drop 3 fds) i f)),
        rw (same, ← get_or-drop 3 fds i) (ground arith),
      )
]

used-lt : (fds : List Fd) (i : ℕ) → (get_or fds i zero_fd).used ≡ true → i < length fds
unfolding zero_fd
used-lt fds i u = elim (dec_lt i (length fds)) [
  | yes l ↦ l
  | no n ↦ let f = get_or-beyond fds i zero_fd (omega arith) in ground (arith, ap (λ x. x.used) f)
]

-- A descriptor in use is the index of an entry that is marked so.
pub live_fd_lem :
    (fds : List Fd) (fd : ℤ) (i : ℕ)
    → live_fd fds fd ≡ some i
    → (fd ≡ pos i) × (i < max_fd) × (i < length fds) × ((get_or fds i zero_fd).used ≡ true)
unfolding live_fd
live_fd_lem fds (negsuc n) i h = ground arith
live_fd_lem fds (pos n) i h = elim (Bool-cases (ltb n max_fd)) [
  | inr o ↦ ground arith
  | inl o ↦ elim (Bool-cases (get_or fds n zero_fd).used) [
    | inr o ↦ ground arith
    | inl u ↦
        let same : n ≡ i = ground arith in
        let used_i : (get_or fds i zero_fd).used ≡ true = rw (← same) u in
        (ap pos same, rw (← same) (ltb→lt n max_fd o), used-lt fds i used_i, used_i)
  ]
]

pub live_fd-dead :
    (fds : List Fd) (i : ℕ) → (get_or fds i zero_fd).used ≡ false → live_fd fds (pos i) ≡ none
unfolding live_fd
live_fd-dead fds i h = ground arith

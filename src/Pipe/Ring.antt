-- ===== src/Pipe/Ring.antt =====
-- The bytes of a pipe's ring, oldest first, and what one byte written or read does to them.
use kum_os.Base.{
  ℕ, zero, suc, ◌+◌, ◌%◌, ◌≤◌, ◌<◌, ◌≡◌, ◌≢◌, refl, ap, ◌∙◌, List, [], ◌∷◌, ◌++◌, arith, length,
  get_or, set, length-set, get_or-set_self, get_or-set_ne,
}
use kum_os.Pipe.{Pipe, pipe_buf_size, pipe_avail, pipe_free, put, advance}

pub record IsValid (p : Pipe) : Type 0 where
  pub storage : length p.buf ≡ pipe_buf_size
  pub head_in : p.head < pipe_buf_size
  pub tail_in : p.tail < pipe_buf_size

-- The n bytes from index t on, round the ring.
abbrev pub window : List ℕ → ℕ → ℕ → List ℕ
window buf t zero = []
window buf t (suc n) = get_or buf t 0 ∷ window buf ((t + 1) % pipe_buf_size) n

-- What a pipe holds.
abbrev pub contents : Pipe → List ℕ
contents p = window p.buf p.tail (pipe_avail p)

pub length-window : (buf : List ℕ) (t n : ℕ) → length (window buf t n) ≡ n
length-window buf t zero = refl
length-window buf t (suc n) = ap suc (length-window buf ((t + 1) % pipe_buf_size) n)

pub length-contents : (p : Pipe) → length (contents p) ≡ pipe_avail p
length-contents p = length-window p.buf p.tail (pipe_avail p)

-- The ring never holds more than 4095 bytes, and what is held and what is free make that up.
pub avail-add-free : {p : Pipe} → IsValid p → pipe_avail p + pipe_free p ≡ 4095
unfolding pipe_avail pipe_free
avail-add-free v = omega arith

pub head-avail : {p : Pipe} → IsValid p → p.head ≡ (p.tail + pipe_avail p) % pipe_buf_size
unfolding pipe_avail
head-avail v = omega arith

pub avail-zero : {p : Pipe} → IsValid p → p.head ≡ p.tail → pipe_avail p ≡ 0
unfolding pipe_avail
avail-zero v e = omega arith

pub avail-pos : {p : Pipe} → IsValid p → p.head ≢ p.tail → 0 < pipe_avail p
unfolding pipe_avail
avail-pos v e = omega arith

window-set :
    (buf : List ℕ) (x n t i : ℕ)
    → length buf ≡ pipe_buf_size
    → t < pipe_buf_size
    → n < pipe_buf_size
    → i ≡ (t + n) % pipe_buf_size
    → window (set buf i x) t (suc n) ≡ window buf t n ++ x ∷ []
window-set buf x zero t i l h k e =
    ap (λ b. b ∷ [])
      (let e' : i ≡ t = omega arith in rw e' (get_or-set_self buf t x 0 (omega arith)))
window-set buf x (suc n) t i l h k e =
    ap (λ b. b ∷ window (set buf i x) ((t + 1) % pipe_buf_size) (suc n))
      (get_or-set_ne buf i t x 0 (omega arith))
    ∙ ap (◌∷◌ (get_or buf t 0))
        (window-set buf x n ((t + 1) % pipe_buf_size) i l (omega arith) (omega arith) (omega arith))

pub put-IsValid : {p : Pipe} (x : ℕ) → IsValid p → IsValid (put p x)
unfolding put
put-IsValid {p} x v = omega (arith, length-set p.buf p.head x)

pub avail-put :
    {p : Pipe} (x : ℕ) → IsValid p → pipe_free p ≢ 0 → pipe_avail (put p x) ≡ suc (pipe_avail p)
unfolding pipe_avail pipe_free put
avail-put x v h = omega arith

-- A byte written goes to the end.
pub contents-put :
    {p : Pipe} (x : ℕ) → IsValid p → pipe_free p ≢ 0 → contents (put p x) ≡ contents p ++ x ∷ []
contents-put {p} x v h = rw (avail-put x v h) (
    unfold put in
    window-set p.buf x (pipe_avail p) p.tail p.head v.storage v.tail_in
      (omega (arith, avail-add-free v)) (head-avail v))

pub advance-IsValid : {p : Pipe} → IsValid p → IsValid (advance p)
unfolding advance
advance-IsValid v = omega arith

pub avail-advance :
    {p : Pipe} → IsValid p → p.head ≢ p.tail → suc (pipe_avail (advance p)) ≡ pipe_avail p
unfolding pipe_avail advance
avail-advance v h = omega arith

-- The byte read is the oldest.
pub contents-advance :
    {p : Pipe}
    → IsValid p
    → p.head ≢ p.tail
    → contents p ≡ get_or p.buf p.tail 0 ∷ contents (advance p)
unfolding advance
contents-advance {p} v h =
    rw (← avail-advance v h)
      (ap (λ t. get_or p.buf p.tail 0 ∷ window p.buf t (pipe_avail (advance p))) next_tail)
  where
    next_tail : (p.tail + 1) % pipe_buf_size ≡ (advance p).tail
    next_tail = omega arith

pub free-put :
    {p : Pipe} (x : ℕ) → IsValid p → pipe_free p ≢ 0 → suc (pipe_free (put p x)) ≡ pipe_free p
free-put x v h = omega (arith, avail-put x v h, avail-add-free v, avail-add-free (put-IsValid x v))

pub avail-le : {p : Pipe} → IsValid p → pipe_avail p ≤ 4095
avail-le v = omega (arith, avail-add-free v)

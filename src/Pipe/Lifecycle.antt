-- ===== src/Pipe/Lifecycle.antt =====
-- The life of a pipe in the table of pipe.c: created, one end closed, the other end closed.
use kum_os.Base.{
  ℕ, ◌<◌, ◌≡◌, ◌↔◌, inl, inr, refl, ap, ◌∙◌, true, none, some, arith, length, get_or, set, pos,
  failed, find_index, find_index-lt, find_index-holds, find_index-none, lt→ltb, length-set,
  get_or-set_self, if◌then◌else◌, Option-cases,
}
use kum_os.Pipe.{
  Pipe, Pipes, pipe_max, zeroed, opened, is_free_slot, pipe_create, pipe_get, pipe_close_read,
  pipe_close_write, release, dec,
}

slot : Pipes → ℕ → Pipe
slot ps i = get_or ps i zeroed

get-slot :
    (ps : Pipes) (i : ℕ)
    → i < pipe_max
    → pipe_get ps (pos i) ≡ (if (slot ps i).used then some i else none)
unfolding pipe_get slot
get-slot ps i h = rw (pipe_get, lt→ltb i pipe_max h)

close_read-slot :
    (ps : Pipes) (i : ℕ)
    → i < pipe_max
    → pipe_close_read ps (pos i)
      ≡ set ps i (release (record (slot ps i) { readers = dec (slot ps i).readers }))
unfolding pipe_close_read slot
close_read-slot ps i h = rw (pipe_close_read, lt→ltb i pipe_max h)

close_write-slot :
    (ps : Pipes) (i : ℕ)
    → i < pipe_max
    → pipe_close_write ps (pos i)
      ≡ set ps i (release (record (slot ps i) { writers = dec (slot ps i).writers }))
unfolding pipe_close_write slot
close_write-slot ps i h = rw (pipe_close_write, lt→ltb i pipe_max h)

slot-set : (ps : Pipes) (i : ℕ) (p : Pipe) → i < length ps → slot (set ps i p) i ≡ p
unfolding slot
slot-set ps i p h = get_or-set_self ps i p zeroed h

create-slot :
    (ps : Pipes) (i : ℕ) (qs : Pipes)
    → pipe_create ps ≡ (pos i, qs)
    → (find_index is_free_slot ps ≡ some i) × (qs ≡ set ps i opened)
unfolding pipe_create
create-slot ps i qs e = elim (Option-cases (find_index is_free_slot ps)) [
  | inl n ↦ ground arith
  | inr (j, f) ↦ ground arith
]

get-set :
    (ps : Pipes) (i : ℕ) (p : Pipe)
    → i < pipe_max
    → i < length ps
    → pipe_get (set ps i p) (pos i) ≡ (if p.used then some i else none)
get-set ps i p h l = rw (get-slot (set ps i p) i h, slot-set ps i p l)

-- What closing an end of slot i leaves in it, where the slot holds p.
close_read-eq :
    (ps : Pipes) (i : ℕ) (p : Pipe)
    → i < pipe_max
    → slot ps i ≡ p
    → pipe_close_read ps (pos i) ≡ set ps i (release (record p { readers = dec p.readers }))
close_read-eq ps i p h e =
    close_read-slot ps i h
    ∙ ap (λ (q : Pipe). set ps i (release (record q { readers = dec q.readers }))) e

close_write-eq :
    (ps : Pipes) (i : ℕ) (p : Pipe)
    → i < pipe_max
    → slot ps i ≡ p
    → pipe_close_write ps (pos i) ≡ set ps i (release (record p { writers = dec p.writers }))
close_write-eq ps i p h e =
    close_write-slot ps i h
    ∙ ap (λ (q : Pipe). set ps i (release (record q { writers = dec q.writers }))) e

module _ (qs : Pipes) (i : ℕ) (h : i < pipe_max) (l : i < length qs)
    (now : slot qs i ≡ opened) where
  close_both :
      (pipe_get (pipe_close_read qs (pos i)) (pos i) ≡ some i)
      × (pipe_get (pipe_close_write (pipe_close_read qs (pos i)) (pos i)) (pos i) ≡ none)
  unfolding opened
  close_both = rw (close_read-eq qs i opened h now) (
    get-set qs i half h l,
    rw (close_write-eq (set qs i half) i half h (slot-set qs i half l))
        (get-set (set qs i half) i _ h (rw (length-set qs i half) l)),
  )
    where
      half : Pipe
      half = record opened { readers = 0 }

  close_both' :
      (pipe_get (pipe_close_write qs (pos i)) (pos i) ≡ some i)
      × (pipe_get (pipe_close_read (pipe_close_write qs (pos i)) (pos i)) (pos i) ≡ none)
  unfolding opened
  close_both' = rw (close_write-eq qs i opened h now) (
    get-set qs i half h l,
    rw (close_read-eq (set qs i half) i half h (slot-set qs i half l))
        (get-set (set qs i half) i _ h (rw (length-set qs i half) l)),
  )
    where
      half : Pipe
      half = record opened { writers = 0 }

-- A pipe is created in a slot that no pipe_get could reach, and pipe_get reaches it from then on,
-- with either end closed, until both ends are closed, in either order.
pub create_lifecycle :
    (ps : Pipes) (i : ℕ) (qs : Pipes)
    → length ps ≡ pipe_max
    → pipe_create ps ≡ (pos i, qs)
    → (pipe_get ps (pos i) ≡ none)
      × (pipe_get qs (pos i) ≡ some i)
      × (pipe_get (pipe_close_read qs (pos i)) (pos i) ≡ some i)
      × (pipe_get (pipe_close_write qs (pos i)) (pos i) ≡ some i)
      × (pipe_get (pipe_close_write (pipe_close_read qs (pos i)) (pos i)) (pos i) ≡ none)
      × (pipe_get (pipe_close_read (pipe_close_write qs (pos i)) (pos i)) (pos i) ≡ none)
unfolding opened
create_lifecycle ps i qs l e =
    let found = create-slot ps i qs e in
    let i_in : i < length ps = find_index-lt is_free_slot ps i found.0 in
    let h : i < pipe_max = omega arith in
    let free : is_free_slot (slot ps i) ≡ true =
      unfold slot in find_index-holds is_free_slot ps i zeroed found.0 in
    let q_in : i < length qs = rw (found.1, length-set ps i opened) i_in in
    let now : slot qs i ≡ opened = rw (found.1) (slot-set ps i opened i_in) in
    (
      get-slot ps i h ∙ ground arith,
      get-slot qs i h ∙ rw now refl,
      (close_both qs i h q_in now).0,
      (close_both' qs i h q_in now).0,
      (close_both qs i h q_in now).1,
      (close_both' qs i h q_in now).1,
    )

-- pipe_create fails exactly when every one of the sixteen slots is in use.
pub create-failed :
    (ps : Pipes)
    → ((pipe_create ps).0 ≡ failed) ↔ ((j : ℕ) → j < length ps → (get_or ps j zeroed).used ≡ true)
unfolding pipe_create
create-failed ps = elim (Option-cases (find_index is_free_slot ps)) [
  | inl n ↦
      (λ e j h. ground (arith, find_index-none is_free_slot ps j zeroed n h), λ all. ground arith)
  | inr (i, f) ↦ (
    λ e. ground arith,
    λ all.
        let h = find_index-lt is_free_slot ps i f in
        ground (arith, all i h, find_index-holds is_free_slot ps i zeroed f),
  )
]

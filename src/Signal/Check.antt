-- ===== src/Signal/Check.antt =====
-- The order in which signal_check delivers.
use native.Mathlib.Decide.{ℕ_discrete, dec_lt}
use kum_os.Base.{
  pos, ℕ, zero, suc, ◌+◌, ◌≤◌, ◌<◌, ◌≡◌, ◌≢◌, ◌⊎◌, inl, inr, refl, sym, ap, ◌∙◌, Bool, true, false,
  not, ◌&&◌, Option, none, some, List, [], ◌∷◌, arith, if◌then◌else◌, leb, ◌==◌, Bool-cases, get_or,
  set, length, length-set, get_or-set_self, get_or-set_ne, get_or-beyond,
}
use kum_os.Sched.{Sched, current, sched_exit_code, max_tasks}
use kum_os.Signal.Slots.{slot_of_fits}
use kum_os.Signal.{
  nsig, no_signals, sigset, slot_of, unblocked, checked, signal_check, SigSet, bit, sig_dfl,
  sig_ign, is_harmless, check_loop,
}

-- A pending signal that ends the task: its handler is SIG_DFL, and it is not SIGCHLD or SIGCONT.
abbrev pub is_fatal : List Bool → List ℕ → ℕ → Bool
is_fatal pending hs sig = bit pending sig && (get_or hs sig 0 == sig_dfl) && not (is_harmless sig)

-- A pending signal with a handler of its own.
abbrev pub is_caught : List Bool → List ℕ → ℕ → Bool
is_caught pending hs sig =
    bit pending sig && not (get_or hs sig 0 == sig_dfl) && not (get_or hs sig 0 == sig_ign)

-- The signals from `sig` on, `rounds` of them: the first that is fatal, and the handlers of those
-- before it that are caught.
pub first_fatal : ℕ → ℕ → List Bool → List ℕ → Option ℕ
first_fatal zero sig pending hs = none
first_fatal (suc rounds) sig pending hs =
    let rest = first_fatal rounds (sig + 1) pending hs in
    if is_fatal pending hs sig then some sig else rest

pub caught_calls : ℕ → ℕ → List Bool → List ℕ → List (ℕ × ℕ)
caught_calls zero sig pending hs = []
caught_calls (suc rounds) sig pending hs =
    let rest = caught_calls rounds (sig + 1) pending hs in
    if is_fatal pending hs sig
    then []
    else if is_caught pending hs sig
    then (get_or hs sig 0, sig) ∷ rest
    else rest

-- Whether the loop comes to signal t, where it ends with the given signal, or with none.
abbrev pub is_reached : Option ℕ → ℕ → Bool
is_reached end t = elim end [ none ↦ true | some f ↦ leb t f ]

-- The signals up to the one that ends the task are no longer pending, the others stay as they were.
pub record Delivered (rounds sig : ℕ) (pending : List Bool) (g : SigSet)
    (r : SigSet × List (ℕ × ℕ) × Option ℕ) : Type 0 where
  pub ending : r.2 ≡ first_fatal rounds sig pending g.handlers
  pub calls : r.1 ≡ caught_calls rounds sig pending g.handlers
  pub handlers : r.0.handlers ≡ g.handlers
  pub blocked : r.0.blocked ≡ g.blocked
  pub starts : (t : ℕ) → t ≤ sig → is_reached r.2 t ≡ true
  pub gone :
      (t : ℕ)
      → sig ≤ t
      → t < sig + rounds
      → bit pending t ≡ true
      → is_reached r.2 t ≡ true
      → bit r.0.pending t ≡ false
  pub kept :
      (t : ℕ)
      → (t < sig) ⊎ ((bit pending t ≡ false) ⊎ (is_reached r.2 t ≡ false))
      → bit r.0.pending t ≡ bit g.pending t

bit-clear : (bits : List Bool) (t : ℕ) → bit (set bits t false) t ≡ false
bit-clear bits t = elim (dec_lt t (length bits)) [
  | yes h ↦ get_or-set_self bits t false false h
  | no h ↦ get_or-beyond (set bits t false) t false (omega (arith, length-set bits t false))
]

step_skip :
    (n sig : ℕ) (pending : List Bool) (g : SigSet) (r : SigSet × List (ℕ × ℕ) × Option ℕ)
    → bit pending sig ≡ false
    → Delivered n (sig + 1) pending g r
    → Delivered (suc n) sig pending g r
step_skip n sig pending g r off d = record {
  ending = unfold first_fatal in rw off d.ending;
  calls = unfold caught_calls in rw off d.calls;
  handlers = d.handlers;
  blocked = d.blocked;
  starts = λ t h. d.starts t (omega arith);
  gone = gone;
  kept = kept;
}
  where
    gone :
        (t : ℕ)
        → sig ≤ t
        → t < sig + suc n
        → bit pending t ≡ true
        → is_reached r.2 t ≡ true
        → bit r.0.pending t ≡ false
    gone t lo hi b e = elim (ℕ_discrete sig t) [
      | yes s ↦ cc
      | no s ↦ d.gone t (omega arith) (omega arith) b e
    ]

    kept :
        (t : ℕ)
        → (t < sig) ⊎ ((bit pending t ≡ false) ⊎ (is_reached r.2 t ≡ false))
        → bit r.0.pending t ≡ bit g.pending t
    kept t (inl h) = d.kept t (inl (omega arith))
    kept t (inr h) = d.kept t (inr h)

-- The round of a pending signal that does not end the task.
step_clear :
    (n sig : ℕ) (pending : List Bool) (g : SigSet) (r : SigSet × List (ℕ × ℕ) × Option ℕ)
    (calls : List (ℕ × ℕ))
    → bit pending sig ≡ true
    → is_fatal pending g.handlers sig ≡ false
    → calls ≡ caught_calls (suc n) sig pending g.handlers
    → Delivered n (sig + 1) pending (record g { pending = set g.pending sig false }) r
    → Delivered (suc n) sig pending g (r.0, calls, r.2)
step_clear n sig pending g r calls on live c d = record {
  ending = unfold first_fatal in rw live d.ending;
  calls = c;
  handlers = d.handlers;
  blocked = d.blocked;
  starts = λ t h. d.starts t (omega arith);
  gone = gone;
  kept = kept;
}
  where
    gone :
        (t : ℕ)
        → sig ≤ t
        → t < sig + suc n
        → bit pending t ≡ true
        → is_reached r.2 t ≡ true
        → bit r.0.pending t ≡ false
    gone t lo hi b e = elim (ℕ_discrete sig t) [
      | yes s ↦
          d.kept t (inl (omega arith))
          ∙ ap (λ i. bit (set g.pending sig false) i) (sym s)
          ∙ bit-clear g.pending sig
      | no s ↦ d.gone t (omega arith) (omega arith) b e
    ]

    other : (t : ℕ) → (t < sig) ⊎ ((bit pending t ≡ false) ⊎ (is_reached r.2 t ≡ false)) → sig ≢ t
    other t (inl h) e = omega arith
    other t (inr (inl h)) e = cc
    other t (inr (inr h)) e = let at_start = d.starts t (omega arith) in cc

    kept :
        (t : ℕ)
        → (t < sig) ⊎ ((bit pending t ≡ false) ⊎ (is_reached r.2 t ≡ false))
        → bit r.0.pending t ≡ bit g.pending t
    kept t h = d.kept t (later h) ∙ get_or-set_ne g.pending sig t false false (other t h)
      where
        later :
            (t < sig) ⊎ ((bit pending t ≡ false) ⊎ (is_reached r.2 t ≡ false))
            → (t < sig + 1) ⊎ ((bit pending t ≡ false) ⊎ (is_reached r.2 t ≡ false))
        later (inl h) = inl (omega arith)
        later (inr h) = inr h

-- The round of the signal that ends the task.
step_end :
    (n sig : ℕ) (pending : List Bool) (g : SigSet)
    → bit pending sig ≡ true
    → is_fatal pending g.handlers sig ≡ true
    → Delivered (suc n) sig pending g (record g { pending = set g.pending sig false }, [], some sig)
step_end n sig pending g on fatal = record {
  ending = unfold first_fatal in rw fatal refl;
  calls = unfold caught_calls in rw fatal refl;
  handlers = refl;
  blocked = refl;
  starts = λ t h. ground arith;
  gone = gone;
  kept = kept;
}
  where
    gone :
        (t : ℕ)
        → sig ≤ t
        → t < sig + suc n
        → bit pending t ≡ true
        → leb t sig ≡ true
        → bit (set g.pending sig false) t ≡ false
    gone t lo hi b e =
        let same : sig ≡ t = ground arith in
        ap (λ i. bit (set g.pending sig false) i) (sym same) ∙ bit-clear g.pending sig

    other : (t : ℕ) → (t < sig) ⊎ ((bit pending t ≡ false) ⊎ (leb t sig ≡ false)) → sig ≢ t
    other t (inl h) e = omega arith
    other t (inr (inl h)) e = cc
    other t (inr (inr h)) e = ground arith

    kept :
        (t : ℕ)
        → (t < sig) ⊎ ((bit pending t ≡ false) ⊎ (leb t sig ≡ false))
        → bit (set g.pending sig false) t ≡ bit g.pending t
    kept t h = get_or-set_ne g.pending sig t false false (other t h)

pending_round :
    (n sig : ℕ) (pending : List Bool) (g : SigSet)
    → bit pending sig ≡ true
    → Delivered n
        (sig + 1)
        pending
        (record g { pending = set g.pending sig false })
        (check_loop n (sig + 1) pending (record g { pending = set g.pending sig false }))
    → Delivered (suc n) sig pending g (check_loop (suc n) sig pending g)
unfolding check_loop
pending_round n sig pending g on d = elim (Bool-cases (get_or g.handlers sig 0 == sig_ign)) [
  | inl ign ↦
      let other : (get_or g.handlers sig 0 == sig_dfl) ≡ false = ground arith in
      rw (on, ign)
        (step_clear n sig pending g _ _ on (rw (on, other) refl)
          (unfold caught_calls in rw (on, other, ign) d.calls) d)
  | inr act ↦ elim (Bool-cases (get_or g.handlers sig 0 == sig_dfl)) [
    | inr own ↦
        rw (on, act, own)
          (step_clear n sig pending g _ _ on (rw (on, own) refl)
            (unfold caught_calls in
              rw (on, own, act) (ap (◌∷◌ (get_or g.handlers sig 0, sig)) d.calls))
            d)
    | inl dfl ↦ elim (Bool-cases (is_harmless sig)) [
      | inl mild ↦
          rw (on, act, dfl, mild)
            (step_clear n sig pending g _ _ on (rw (on, dfl, mild) refl)
              (unfold caught_calls in rw (on, dfl, mild) d.calls) d)
      | inr harm ↦ rw (on, act, dfl, harm) (step_end n sig pending g on (rw (on, dfl, harm) refl))
    ]
  ]
]

idle_round :
    (n sig : ℕ) (pending : List Bool) (g : SigSet)
    → bit pending sig ≡ false
    → Delivered n (sig + 1) pending g (check_loop n (sig + 1) pending g)
    → Delivered (suc n) sig pending g (check_loop (suc n) sig pending g)
unfolding check_loop
idle_round n sig pending g off d = rw off (step_skip n sig pending g _ off d)

-- What the loop of signal_check does.
check_loop-Delivered :
    (rounds sig : ℕ) (pending : List Bool) (g : SigSet)
    → Delivered rounds sig pending g (check_loop rounds sig pending g)
check_loop-Delivered zero sig pending g = record {
  ending = unfold check_loop first_fatal in refl;
  calls = unfold check_loop caught_calls in refl;
  handlers = unfold check_loop in refl;
  blocked = unfold check_loop in refl;
  starts = λ t h. unfold check_loop in refl;
  gone = λ t lo hi on e. absurd (omega arith);
  kept = λ t h. unfold check_loop in refl;
}
check_loop-Delivered (suc n) sig pending g = elim (Bool-cases (bit pending sig)) [
  | inr off ↦ idle_round n sig pending g off (check_loop-Delivered n (sig + 1) pending g)
  | inl on ↦
      pending_round n sig pending g on
        (check_loop-Delivered n (sig + 1) pending (record g { pending = set g.pending sig false }))
]

-- What is due to the current task: the signals of its slot that are pending and not blocked.
abbrev pub own : Sched → List SigSet → SigSet
own s sets = sigset sets (slot_of s (current s).pid)

abbrev pub due : SigSet → List Bool
due g = unblocked g.pending g.blocked

abbrev pub due_end : SigSet → Option ℕ
due_end g = first_fatal 31 1 (due g) g.handlers

-- The effect of signal_check on the tasks, the signals and the handlers.
pub record Checked (now : ℕ) (s : Sched) (sets : List SigSet)
    (r : Sched × List SigSet × List (ℕ × ℕ) × List ℕ) : Type 0 where
  pub calls : r.2 ≡ caught_calls 31 1 (due (own s sets)) (own s sets).handlers
  pub tasks : (r.0, r.3) ≡ elim (due_end (own s sets)) as (λ _. Sched × List ℕ) [
    | none ↦ (s, [])
    | some f ↦ sched_exit_code now s (pos (128 + f))
  ]
  pub others : (j : ℕ) → j ≢ slot_of s (current s).pid → sigset r.1 j ≡ sigset sets j
  pub settings :
      ((own s r.1).handlers ≡ (own s sets).handlers) × ((own s r.1).blocked ≡ (own s sets).blocked)
  pub gone :
      (t : ℕ)
      → 1 ≤ t
      → t < nsig
      → bit (due (own s sets)) t ≡ true
      → is_reached (due_end (own s sets)) t ≡ true
      → bit (own s r.1).pending t ≡ false
  pub kept :
      (t : ℕ)
      → (bit (due (own s sets)) t ≡ false) ⊎ (is_reached (due_end (own s sets)) t ≡ false)
      → bit (own s r.1).pending t ≡ bit (own s sets).pending t

settle :
    (now : ℕ) (s : Sched) (sets : List SigSet) (r : SigSet × List (ℕ × ℕ) × Option ℕ) (s' : Sched)
    (freed : List ℕ)
    → length sets ≡ max_tasks
    → Delivered 31 1 (due (own s sets)) (own s sets) r
    → (s', freed) ≡ elim r.2 as (λ _. Sched × List ℕ) [
      | none ↦ (s, [])
      | some f ↦ sched_exit_code now s (pos (128 + f))
    ]
    → Checked now s sets (s', set sets (slot_of s (current s).pid) r.0, r.1, freed)
settle now s sets r s' freed h d e = record {
  calls = d.calls;
  tasks =
      e
      ∙ ap
          (λ end'. elim end' as (λ _. Sched × List ℕ) [
            | none ↦ (s, [])
            | some f ↦ sched_exit_code now s (pos (128 + f))
          ])
          d.ending;
  others = λ j n. get_or-set_ne sets (slot_of s (current s).pid) j r.0 no_signals (λ q. n (sym q));
  settings = (rw stored d.handlers, rw stored d.blocked);
  gone = λ t lo hi on reached.
      rw stored (d.gone t lo hi on (ap (λ q. is_reached q t) d.ending ∙ reached));
  kept = λ t c. rw stored (d.kept t (inr (left t c)));
}
  where
    stored : sigset (set sets (slot_of s (current s).pid) r.0) (slot_of s (current s).pid) ≡ r.0
    stored =
        get_or-set_self sets _ r.0 no_signals (omega (arith, h, slot_of_fits s (current s).pid))

    left :
        (t : ℕ)
        → (bit (due (own s sets)) t ≡ false) ⊎ (is_reached (due_end (own s sets)) t ≡ false)
        → (bit (due (own s sets)) t ≡ false) ⊎ (is_reached r.2 t ≡ false)
    left t (inl off) = inl off
    left t (inr past) = inr (ap (λ q. is_reached q t) d.ending ∙ past)

finish :
    (now : ℕ) (s : Sched) (sets : List SigSet) (r : SigSet × List (ℕ × ℕ) × Option ℕ)
    → length sets ≡ max_tasks
    → Delivered 31 1 (due (own s sets)) (own s sets) r
    → Checked now s sets (checked now s sets r)
unfolding checked
finish now s sets (g', calls, none) h d = settle now s sets (g', calls, none) s [] h d refl
finish now s sets (g', calls, some f) h d =
    let (s', freed) = sched_exit_code now s (pos (128 + f)) in
    settle now s sets (g', calls, some f) s' freed h d refl

-- With a slot for every task, signal_check calls the handlers of the signals that are due to the
-- current task, lowest first, up to the first that ends it, and then ends it with code 128 more than
-- the signal. The signals it came to are no longer pending; the later and the blocked ones stay as
-- they were, and so do the handlers, the blocked set and the other slots.
pub signal_check_lem :
    (now : ℕ) (s : Sched) (sets : List SigSet)
    → length sets ≡ max_tasks
    → Checked now s sets (signal_check now s sets)
unfolding signal_check
signal_check_lem now s sets h =
    finish now s sets _ h (check_loop-Delivered 31 1 (due (own s sets)) (own s sets))

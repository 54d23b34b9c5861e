-- ===== src/Vfs/Opening.antt =====
-- vfs_open and vfs_pipe: the descriptors that they give out.
use kum_os.Base.{
  ℕ, ◌≤◌, ◌<◌, ◌≡◌, ◌≢◌, ◌⊎◌, inl, inr, refl, sym, ap, ◌∙◌, true, false, none, some, List, arith,
  Bool-cases, Option-cases, length, get_or, set, length-set, get_or-set_self, get_or-set_ne, pos,
  failed,
}
use kum_os.Pipe.{pipe_create}
use kum_os.Vfs.{
  Fd, Vfs, zero_fd, alloc_fd, open_target, opened_fd, vfs_open, vfs_pipe, pipe_fd, is_negative,
  op_of,
}
use kum_os.Vfs.Descriptors.{alloc_fd_lem}

-- Where vfs_pipe succeeds.
abbrev pub collided : {S : Type 0} → Vfs S → ℕ → Vfs S
collided v r =
    let id = (pipe_create v.pipes).0 in
    let fds = set v.fds r (pipe_fd (get_or v.fds r zero_fd) id 0) in
    record v {
      fds = set fds r (pipe_fd (get_or fds r zero_fd) id 1);
      pipes = (pipe_create v.pipes).1;
    }

module _ {S : Type 0} (v : Vfs S) where
  pipe-some :
      (r : ℕ)
      → is_negative (pipe_create v.pipes).0 ≡ false
      → alloc_fd v.fds ≡ some r
      → vfs_pipe v ≡ (pos 0, some (r, r), collided v r)
  unfolding vfs_pipe
  pipe-some r h e = ground arith

  pipe-none :
      is_negative (pipe_create v.pipes).0 ≡ false → alloc_fd v.fds ≡ none → (vfs_pipe v).0 ≡ failed
  unfolding vfs_pipe
  pipe-none h e = ground arith

  pipe-negative : is_negative (pipe_create v.pipes).0 ≡ true → (vfs_pipe v).0 ≡ failed
  unfolding vfs_pipe
  pipe-negative h = ground arith

  pipe-parts :
      (r w : ℕ) (v' : Vfs S)
      → vfs_pipe v ≡ (pos 0, some (r, w), v')
      → (r ≡ w) × (alloc_fd v.fds ≡ some r) × (v'.fds ≡ (collided v r).fds)
  pipe-parts r w v' e = elim (Bool-cases (is_negative (pipe_create v.pipes).0)) [
    | inl n ↦ let f = pipe-negative n in ground arith
    | inr n ↦ elim (Option-cases (alloc_fd v.fds)) [
      | inl a ↦ let f = pipe-none n a in ground arith
      | inr (i, a) ↦
          let same = sym (pipe-some i n a) ∙ e in
          let out : some (i, i) ≡ some (r, w) = ap (λ x. x.1) same in
          let i_is : i ≡ r = ground (arith, out) in
          (
            ground (arith, out),
            a ∙ ap some i_is,
            sym (ap (λ x. x.2.fds) same) ∙ ap (λ k. (collided v k).fds) i_is,
          )
    ]
  ]

  -- Where vfs_pipe succeeds, the read and the write descriptor are one and the same: a descriptor
  -- that was free and not a standard one, and that is afterwards the write end of the new pipe. No
  -- other descriptor changes, so none is the read end.
  pub pipe_ends_collide :
      (r w : ℕ) (v' : Vfs S)
      → vfs_pipe v ≡ (pos 0, some (r, w), v')
      → (r ≡ w)
        × (3 ≤ r)
        × ((get_or v.fds r zero_fd).used ≡ false)
        × ((get_or v'.fds r zero_fd).pipe_end ≡ 1)
        × ((get_or v'.fds r zero_fd).pipe_id ≡ (pipe_create v.pipes).0)
        × ((j : ℕ) → j ≢ r → get_or v'.fds j zero_fd ≡ get_or v.fds j zero_fd)
  pipe_ends_collide r w v' e =
      let (same, a, fds_are) = pipe-parts r w v' e in
      let (low, l, free) = alloc_fd_lem v.fds r a in
      let id = (pipe_create v.pipes).0 in
      let fds1 = set v.fds r (pipe_fd (get_or v.fds r zero_fd) id 0) in
      let end1 = pipe_fd (get_or fds1 r zero_fd) id 1 in
      let at_r : get_or v'.fds r zero_fd ≡ end1 =
        rw fds_are (get_or-set_self fds1 r end1 zero_fd (rw (length-set v.fds r _) l)) in
      (
        same,
        low,
        free,
        rw at_r refl,
        rw at_r refl,
        λ j n.
            let rest = get_or-set_ne fds1 r j end1 zero_fd (λ q. n (sym q)) in
            rw fds_are (
              rest
              ∙ get_or-set_ne v.fds r j (pipe_fd (get_or v.fds r zero_fd) id 0) zero_fd
                  (λ q. n (sym q))),
      )

  -- What the calls of a file system's stat, open and close leave of a descriptor table.
  abbrev pub Opened : ℕ → ℕ → Vfs S → Type 0
  Opened fd flags v' =
      (3 ≤ fd)
      × (fd < length v.fds)
      × ((get_or v.fds fd zero_fd).used ≡ false)
      × (length v'.fds ≡ length v.fds)
      × ((get_or v'.fds fd zero_fd).used ≡ true)
      × ((get_or v'.fds fd zero_fd).flags ≡ flags)
      × ((get_or v'.fds fd zero_fd).pos_ ≡ 0)
      × ((j : ℕ) → j ≢ fd → get_or v'.fds j zero_fd ≡ get_or v.fds j zero_fd)

  set-Opened :
      (fd flags : ℕ) (v' : Vfs S) (f : Fd)
      → alloc_fd v.fds ≡ some fd
      → v'.fds ≡ set v.fds fd f
      → f.used ≡ true
      → f.flags ≡ flags
      → f.pos_ ≡ 0
      → Opened fd flags v'
  set-Opened fd flags v' f a fds_are u g p =
      let (low, l, free) = alloc_fd_lem v.fds fd a in
      let at_fd : get_or v'.fds fd zero_fd ≡ f =
        rw fds_are (get_or-set_self v.fds fd f zero_fd l) in
      (
        low,
        l,
        free,
        rw fds_are (length-set v.fds fd f),
        rw at_fd u,
        rw at_fd g,
        rw at_fd p,
        λ j n. rw fds_are (get_or-set_ne v.fds fd j f zero_fd (λ q. n (sym q))),
      )

  -- vfs_open either fails and leaves the descriptor table as it was, or opens a descriptor.
  pub vfs_open_lem :
      (path : List ℕ) (flags : ℕ)
      → (((vfs_open v path flags).0 ≡ failed) × ((vfs_open v path flags).1.fds ≡ v.fds))
        ⊎ ((fd : ℕ) × ((vfs_open v path flags).0 ≡ pos fd)
            × Opened fd flags (vfs_open v path flags).1)
  unfolding vfs_open
  vfs_open_lem path flags =
      let (midx, local, s) = open_target v path flags in
      elim (Option-cases (op_of v.mounts midx (λ o. o.open_op))) [
        | inl n ↦ inl (ground arith, ground arith)
        | inr (f, h) ↦ elim (Bool-cases (is_negative (f local flags s).0)) [
          | inl n ↦ inl (ground arith, ground arith)
          | inr n ↦ elim (Option-cases (alloc_fd v.fds)) [
            | inl a ↦ inl (ground arith, ground arith)
            | inr (fd, a) ↦
                let opened = opened_fd (get_or v.fds fd zero_fd) flags midx (f local flags s).0 in
                let fds_are : (vfs_open v path flags).1.fds ≡ set v.fds fd opened = ground arith in
                inr (
                  fd,
                  ground arith,
                  set-Opened fd flags (vfs_open v path flags).1 opened a fds_are refl refl refl,
                )
          ]
        ]
      ]

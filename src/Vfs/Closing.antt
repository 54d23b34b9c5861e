-- ===== src/Vfs/Closing.antt =====
-- vfs_close and vfs_dup2: the end of a descriptor's use.
use kum_os.Base.{
  ℕ, ◌≡◌, ◌≢◌, refl, sym, ap, false, none, some, List, [], arith, lt→ltb, get_or, set-get_or, set,
  get_or-set_self, get_or-set_ne, ℤ, pos, failed, index_in,
}
use kum_os.Pipe.{returned}
use kum_os.Vfs.{Vfs, max_fd, zero_fd, live_fd, vfs_read, vfs_write, vfs_close, vfs_dup2}
use kum_os.Vfs.Descriptors.{live_fd_lem, live_fd-dead}

module _ {S : Type 0} (v : Vfs S) where
  vfs_close-eq :
      (fd : ℤ) (i : ℕ)
      → live_fd v.fds fd ≡ some i
      → ((vfs_close v fd).0 ≡ pos 0)
        × ((vfs_close v fd).1.fds ≡ set v.fds i (record (get_or v.fds i zero_fd) { used = false }))
  unfolding vfs_close
  vfs_close-eq fd i h = (ground arith, ground arith)

  -- A descriptor that is not in use.
  dead-fails :
      (fd : ℤ)
      → live_fd v.fds fd ≡ none
      → (vfs_close v fd ≡ (failed, v))
        × ((len : ℕ) → vfs_read v fd len ≡ (v, [], returned failed))
        × ((src : List ℕ) → vfs_write v fd src ≡ (v, returned failed))
        × ((to : ℤ) → vfs_dup2 v fd to ≡ (failed, v))
  unfolding vfs_close vfs_read vfs_write vfs_dup2
  dead-fails fd h = (ground arith, λ len. ground arith, λ src. ground arith, λ to. ground arith)

  closed-dead :
      (fd : ℤ) (i : ℕ) → live_fd v.fds fd ≡ some i → live_fd (vfs_close v fd).1.fds fd ≡ none
  closed-dead fd i h =
      let (e, b, l, u) = live_fd_lem v.fds fd i h in
      let fds_are = (vfs_close-eq fd i h).1 in
      let f = record (get_or v.fds i zero_fd) { used = false } in
      let at_i = get_or-set_self v.fds i f zero_fd l in
      rw (fds_are, e) (live_fd-dead (set v.fds i f) i (ap (λ x. x.used) at_i))

  dup2_self-fds :
      (fd : ℤ) (i : ℕ)
      → live_fd v.fds fd ≡ some i
      → ((vfs_dup2 v fd fd).0 ≡ fd)
        × ((vfs_dup2 v fd fd).1.fds
            ≡ set (vfs_close v fd).1.fds i (get_or (vfs_close v fd).1.fds i zero_fd))
  unfolding vfs_dup2
  dup2_self-fds fd i h =
      let (e, b, l, u) = live_fd_lem v.fds fd i h in
      let there : index_in max_fd fd ≡ some i = rw (e, lt→ltb i max_fd b) refl in
      (ground arith, ground arith)

module _ {S : Type 0} (v : Vfs S) (fd : ℤ) (i : ℕ) where
  -- Closing a descriptor in use succeeds, changes no other descriptor, and a second close, read,
  -- write or dup2 of it fails and changes nothing.
  pub close-live :
      live_fd v.fds fd ≡ some i
      → let v' = (vfs_close v fd).1 in
        ((vfs_close v fd).0 ≡ pos 0)
        × ((j : ℕ) → j ≢ i → get_or v'.fds j zero_fd ≡ get_or v.fds j zero_fd)
        × (vfs_close v' fd ≡ (failed, v'))
        × ((len : ℕ) → vfs_read v' fd len ≡ (v', [], returned failed))
        × ((src : List ℕ) → vfs_write v' fd src ≡ (v', returned failed))
        × ((to : ℤ) → vfs_dup2 v' fd to ≡ (failed, v'))
  close-live h =
      let (r, fds_are) = vfs_close-eq v fd i h in
      let f = record (get_or v.fds i zero_fd) { used = false } in
      let (c, rd, wr, dup) = dead-fails (vfs_close v fd).1 fd (closed-dead v fd i h) in
      (r, λ j n. rw fds_are (get_or-set_ne v.fds i j f zero_fd (λ q. n (sym q))), c, rd, wr, dup)

  -- vfs_dup2 of a descriptor in use to itself reports success, but closes the descriptor.
  pub dup2_self :
      live_fd v.fds fd ≡ some i
      → ((vfs_dup2 v fd fd).0 ≡ fd) × (live_fd (vfs_dup2 v fd fd).1.fds fd ≡ none)
  dup2_self h =
      let (r, fds_are) = dup2_self-fds v fd i h in
      (r, rw (fds_are, set-get_or (vfs_close v fd).1.fds i zero_fd) (closed-dead v fd i h))

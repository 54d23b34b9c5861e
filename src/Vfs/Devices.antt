-- ===== src/Vfs/Devices.antt =====
-- src/vfs.c: /dev, over a terminal that is a parameter (keyboard_getline and vga_putchar), and vfs_init.
use kum_os.Base.{
  ℕ, Bool, ◌||◌, none, some, List, [], ◌∷◌, if◌then◌else◌, length, replicate, ℤ, pos, failed,
  to_int, eqb_ℤ,
}
use kum_os.Kstring.{kstrcmp}
use kum_os.Pipe.{pipe_init}
use kum_os.Vfs.{Vfs, Ops, Stat, dev, zero_fd, vfs_mount, max_fd}

-- keyboard_getline and vga_putchar over the state of the terminal.
pub record Terminal (T : Type 0) : Type 0 where
  pub keyboard_getline : ℤ → T → ℤ × List ℕ × T
  pub vga_putchar : ℕ → T → T

abbrev same_string : List ℕ → List ℕ → Bool
same_string a b = eqb_ℤ (kstrcmp a b) 0

abbrev stdin_name : List ℕ
stdin_name = b's' ∷ b't' ∷ b'd' ∷ b'i' ∷ b'n' ∷ []

abbrev tty_name : List ℕ
tty_name = b't' ∷ b't' ∷ b'y' ∷ []

abbrev stdout_name : List ℕ
stdout_name = b's' ∷ b't' ∷ b'd' ∷ b'o' ∷ b'u' ∷ b't' ∷ []

abbrev stderr_name : List ℕ
stderr_name = b's' ∷ b't' ∷ b'd' ∷ b'e' ∷ b'r' ∷ b'r' ∷ []

abbrev null_name : List ℕ
null_name = b'n' ∷ b'u' ∷ b'l' ∷ b'l' ∷ []

module _ {T : Type 0} (term : Terminal T) where
  pub dev_vfs_open : List ℕ → ℕ → T → ℤ × T
  dev_vfs_open path flags t =
      if same_string path stdin_name || same_string path tty_name
      then (pos 0, t)
      else if same_string path stdout_name
      then (pos 1, t)
      else if same_string path stderr_name
      then (pos 2, t)
      else if same_string path null_name
      then (pos 3, t)
      else (failed, t)

  -- dev_vfs_close returns 0.
  pub dev_vfs_close : ℤ → T → T
  dev_vfs_close d t = t

  pub dev_vfs_read : ℤ → ℕ → T → ℤ × List ℕ × T
  dev_vfs_read d len t =
      if eqb_ℤ d 0
      then term.keyboard_getline (to_int len) t
      else if eqb_ℤ d 3
      then (pos 0, [], t)
      else (failed, [], t)

  put_all : List ℕ → T → T
  put_all [] t = t
  put_all (c ∷ cs) t = put_all cs (term.vga_putchar c t)

  pub dev_vfs_write : ℤ → List ℕ → T → ℤ × T
  dev_vfs_write d src t =
      if eqb_ℤ d 1 || eqb_ℤ d 2
      then (to_int (length src), put_all src t)
      else if eqb_ℤ d 3
      then (to_int (length src), t)
      else (failed, t)

  pub dev_vfs_stat : List ℕ → T → ℤ × Stat × T
  dev_vfs_stat path t = (pos 0, record { size = 0; type = dev; name = path }, t)

  -- dev_ops
  pub dev_ops : Ops T
  dev_ops = record {
    open_op = some dev_vfs_open;
    close_op = some dev_vfs_close;
    read_op = some dev_vfs_read;
    write_op = some dev_vfs_write;
    stat_op = some dev_vfs_stat;
    readdir_op = none;
    unlink_op = none;
  }

abbrev mem_mount : List ℕ
mem_mount = b'/' ∷ b'm' ∷ b'e' ∷ b'm' ∷ []

abbrev disk_mount : List ℕ
disk_mount = b'/' ∷ b'd' ∷ b'i' ∷ b's' ∷ b'k' ∷ []

abbrev dev_mount : List ℕ
dev_mount = b'/' ∷ b'd' ∷ b'e' ∷ b'v' ∷ []

-- vfs_init, with the three records of operations over the files' state, and that state with mem_open
-- and disk_open cleared.
pub vfs_init : {S : Type 0} → Ops S → Ops S → Ops S → S → Vfs S → Vfs S
vfs_init mem_ops disk_ops dev_ops cleared v =
    let v0 = record v {
      fds = replicate max_fd zero_fd;
      mounts = [];
      pipes = pipe_init;
      files = cleared;
    } in
    let v1 = (vfs_mount v0 mem_mount mem_ops).1 in
    let v2 = (vfs_mount v1 disk_mount disk_ops).1 in (vfs_mount v2 dev_mount dev_ops).1

-- ===== src/Vfs.antt =====
-- src/vfs.c and src/vfs.h: descriptors, mounts and paths.
-- A file system is a record of operations over a state S that all of them share; an operation that
-- vfs_ops_t leaves 0 is `none`. Paths are byte lists without the terminating 0: the buffers of 128
-- bytes that the source copies them into are not modelled. mount_idx -1 is `none`.
-- mkdir, which no function calls, is left out of vfs_ops_t; so is the case of an open whose mount has
-- no close, where vfs_open calls a null pointer if the table is full.
pub mod Descriptors
pub mod Opening
pub mod Closing
pub mod Mounts
pub mod Memory
pub mod Disk
pub mod Devices
pub mod Examples
use kum_os.Base.{
  ℕ, zero, suc, ◌+◌, ◌-◌, ◌*◌, ◌/◌, ◌%◌, Bool, true, false, not, ◌&&◌, ◌||◌, Option, none, some,
  List, [], ◌∷◌, ◌++◌, if◌then◌else◌, ltb, leb, ◌==◌, length, get_or, set, drop, take, replicate,
  find_index, ℤ, pos, negsuc, failed, index_in, add32,
}
use kum_os.Pipe.{
  Pipes, Outcome, returned, yielded, pipe_create, pipe_close_read, pipe_close_write, pipe_read,
  pipe_write, pipe_init,
}

abbrev pub max_fd : ℕ
max_fd = 32

abbrev pub max_mounts : ℕ
max_mounts = 8

-- VFS_FILE, VFS_DIR, VFS_DEV and VFS_PIPE; 0 is the type of a descriptor never used.
pub data FdType : Type 0 where
  no_type file dir dev pipe : FdType

-- vfs_stat_t
pub record Stat : Type 0 where
  pub size : ℕ
  pub type : FdType
  pub name : List ℕ

-- `flags & O_CREAT`, with O_CREAT = 4.
abbrev pub has_creat : ℕ → Bool
has_creat flags = flags / 4 % 2 == 1

-- vfs_ops_t over the state S of the file systems: a negative result is a failure.
pub record Ops (S : Type 0) : Type 0 where
  pub open_op : Option (List ℕ → ℕ → S → ℤ × S)
  pub close_op : Option (ℤ → S → S)
  pub read_op : Option (ℤ → ℕ → S → ℤ × List ℕ × S)
  pub write_op : Option (ℤ → List ℕ → S → ℤ × S)
  pub stat_op : Option (List ℕ → S → ℤ × Stat × S)
  pub readdir_op : Option (List ℕ → ℕ → S → ℤ × List ℕ × S)
  pub unlink_op : Option (List ℕ → S → ℤ × S)

-- vfs_mount_t; the mounts in use are the entries of the list, each active.
pub record Mount (S : Type 0) : Type 0 where
  pub prefix : List ℕ
  pub ops : Ops S

-- vfs_fd_t
pub record Fd : Type 0 where
  pub used : Bool
  pub flags : ℕ
  pub pos_ : ℕ
  pub type : FdType
  pub mount_idx : Option ℕ
  pub fd_data : ℤ
  pub pipe_id : ℤ
  pub pipe_end : ℕ

pub zero_fd : Fd
zero_fd = record {
  used = false;
  flags = 0;
  pos_ = 0;
  type = no_type;
  mount_idx = some 0;
  fd_data = pos 0;
  pipe_id = pos 0;
  pipe_end = 0;
}

pub record Vfs (S : Type 0) : Type 0 where
  pub fds : List Fd
  pub mounts : List (Mount S)
  pub pipes : Pipes
  pub files : S
  pub cwd : List ℕ

-- `kstrncmp(path, prefix, kstrlen(prefix)) == 0`
pub is_prefix : List ℕ → List ℕ → Bool
is_prefix [] path = true
is_prefix (c ∷ cs) [] = false
is_prefix (c ∷ cs) (d ∷ ds) = c == d && is_prefix cs ds

-- `if (*local == '/') local++;`
pub skip_slash : List ℕ → List ℕ
skip_slash [] = []
skip_slash (c ∷ cs) = if c == b'/' then cs else c ∷ cs

-- The loop of find_mount at mount i, with the best mount so far and its prefix's length.
pub best_mount : {S : Type 0} → List ℕ → List (Mount S) → ℕ → Option ℕ → ℕ → Option ℕ × ℕ
unfolding is_prefix
best_mount path [] i best best_len = (best, best_len)
best_mount path (m ∷ ms) i best best_len =
    let better = is_prefix m.prefix path && ltb best_len (length m.prefix) in
    best_mount path ms (i + 1) (if better then some i else best)
      (if better then length m.prefix else best_len)

-- find_mount: the mount, and the path local to it, `local` as it was if there is none.
pub find_mount : {S : Type 0} → List (Mount S) → List ℕ → List ℕ → Option ℕ × List ℕ
unfolding best_mount skip_slash
find_mount mounts path local =
    let (best, best_len) = best_mount path mounts 0 none 0 in
    elim best [ none ↦ (none, local) | some i ↦ (some i, skip_slash (drop best_len path)) ]

abbrev pub disk_prefix : List ℕ
disk_prefix = b'/' ∷ b'd' ∷ b'i' ∷ b's' ∷ b'k' ∷ b'/' ∷ []

abbrev pub mem_prefix : List ℕ
mem_prefix = b'/' ∷ b'm' ∷ b'e' ∷ b'm' ∷ b'/' ∷ []

abbrev dev_path : List ℕ
dev_path = b'/' ∷ b'd' ∷ b'e' ∷ b'v' ∷ []

abbrev pub is_absolute : List ℕ → Bool
is_absolute path = get_or path 0 0 == b'/'

pub resolve : List ℕ → List ℕ
resolve path = if is_absolute path then path else disk_prefix ++ path

-- An operation of a mount that is there.
abbrev pub op_of {ℓ} :
    {S : Type 0} {A : Type ℓ} → List (Mount S) → Option ℕ → (Ops S → Option A) → Option A
op_of [] m f = none
op_of (x ∷ xs) none f = none
op_of (x ∷ xs) (some zero) f = f x.ops
op_of (x ∷ xs) (some (suc i)) f = op_of xs (some i) f

abbrev pub is_negative : ℤ → Bool
is_negative (pos n) = false
is_negative (negsuc n) = true

-- stat on a mount's local path: `none` if the mount has no stat.
abbrev pub probe : {S : Type 0} → List (Mount S) → Option ℕ → List ℕ → S → Option ℤ × S
probe mounts m local s = elim (op_of mounts m (λ o. o.stat_op)) [
  | none ↦ (none, s)
  | some f ↦ let (r, st, s') = f local s in (some r, s')
]

-- `ops->stat && ops->stat(...) < 0`, and `ops->stat && ops->stat(...) == 0`.
abbrev pub stat_fails : Option ℤ → Bool
stat_fails none = false
stat_fails (some r) = is_negative r

abbrev pub stat_is_zero : Option ℤ → Bool
stat_is_zero none = false
stat_is_zero (some (pos n)) = n == 0
stat_is_zero (some (negsuc n)) = false

pub is_free_fd : Fd → Bool
is_free_fd f = not f.used

-- alloc_fd: from descriptor 3 on.
pub alloc_fd : List Fd → Option ℕ
unfolding is_free_fd
alloc_fd fds = elim (find_index is_free_fd (drop 3 fds)) [ none ↦ none | some i ↦ some (3 + i) ]

-- `fd < 0 || fd >= VFS_MAX_FD || !fd_table[fd].used`
pub live_fd : List Fd → ℤ → Option ℕ
unfolding zero_fd
live_fd fds fd = elim (index_in max_fd fd) [
  | none ↦ none
  | some i ↦ if (get_or fds i zero_fd).used then some i else none
]

abbrev pub opened_fd : Fd → ℕ → Option ℕ → ℤ → Fd
opened_fd f flags midx d = record f {
  used = true;
  flags = flags;
  pos_ = 0;
  type = file;
  mount_idx = midx;
  fd_data = d;
  pipe_id = failed;
}

abbrev pub is_pipe : Fd → Bool
is_pipe f = elim f.type [ no_type ↦ false | file ↦ false | dir ↦ false | dev ↦ false | pipe ↦ true ]

abbrev pub is_dev : Fd → Bool
is_dev f = elim f.type [ no_type ↦ false | file ↦ false | dir ↦ false | dev ↦ true | pipe ↦ false ]

-- `if (n > 0) fd_table[fd].pos += n;`
abbrev pub moved : Fd → ℤ → Fd
moved f (pos n) = record f { pos_ = add32 f.pos_ n }
moved f (negsuc n) = f

abbrev pub pipe_fd : Fd → ℤ → ℕ → Fd
pipe_fd f id end = record f {
  used = true;
  type = pipe;
  pipe_id = id;
  pipe_end = end;
  mount_idx = none;
  flags = end;
}

abbrev pub is_below_three : ℤ → Bool
is_below_three (pos n) = ltb n 3
is_below_three (negsuc n) = true

module _ {S : Type 0} where
  pub vfs_mount : Vfs S → List ℕ → Ops S → ℤ × Vfs S
  vfs_mount v prefix ops =
      if leb max_mounts (length v.mounts)
      then (failed, v)
      else (pos 0, record v { mounts = v.mounts ++ record { prefix = prefix; ops = ops } ∷ [] })

  stdio_fd : Vfs S → List Fd → ℕ → Fd
  stdio_fd v fds i = record (get_or fds i zero_fd) {
    used = true;
    type = dev;
    mount_idx = (find_mount v.mounts dev_path []).0;
    fd_data = pos i;
    flags = if i == 0 then 0 else 1;
  }

  pub vfs_init_stdio : Vfs S → Vfs S
  vfs_init_stdio v = record v {
    fds =
        set (set (set v.fds 0 (stdio_fd v v.fds 0)) 1 (stdio_fd v v.fds 1)) 2 (stdio_fd v v.fds 2);
  }

  -- The mount and local path that vfs_open uses, and the files after its calls of stat.
  pub open_target : Vfs S → List ℕ → ℕ → Option ℕ × List ℕ × S
  open_target v path flags =
      let (midx, local) = find_mount v.mounts (resolve path) [] in
      let (r, s) = probe v.mounts midx local v.files in
      let mem_path = mem_prefix ++ (if is_absolute path then drop 1 path else path) in
      let (midx2, local2) = find_mount v.mounts mem_path local in
      let (r2, s2) = probe v.mounts midx2 local2 s in
      let missing = elim midx as (λ _. Bool) [
        | none ↦ true
        | some _ ↦ stat_fails r && not (has_creat flags)
      ] in
      if missing
      then if stat_is_zero r2 then (midx2, local2, s2) else (midx, local2, s2)
      else (midx, local, s)

  pub vfs_open : Vfs S → List ℕ → ℕ → ℤ × Vfs S
  vfs_open v path flags =
      let (midx, local, s) = open_target v path flags in
      elim (op_of v.mounts midx (λ o. o.open_op)) [
        | none ↦ (failed, record v { files = s })
        | some f ↦
            let (d, s') = f local flags s in
            if is_negative d then (failed, record v { files = s' }) else elim (alloc_fd v.fds) [
              | none ↦ (
                failed,
                record v {
                  files = elim (op_of v.mounts midx (λ o. o.close_op)) [
                    | none ↦ s'
                    | some g ↦ g d s'
                  ];
                },
              )
              | some fd ↦ (
                pos fd,
                record v {
                  files = s';
                  fds = set v.fds fd (opened_fd (get_or v.fds fd zero_fd) flags midx d);
                },
              )
            ]
      ]

  -- What vfs_close calls for a descriptor in use.
  pub close_behind : Vfs S → Fd → Vfs S
  close_behind v f =
      if is_pipe f
      then record v {
        pipes =
            if f.pipe_end == 0
            then pipe_close_read v.pipes f.pipe_id
            else pipe_close_write v.pipes f.pipe_id;
      }
      else record v {
        files = elim (op_of v.mounts f.mount_idx (λ o. o.close_op)) [
          | none ↦ v.files
          | some g ↦ g f.fd_data v.files
        ];
      }

  pub vfs_close : Vfs S → ℤ → ℤ × Vfs S
  vfs_close v fd = elim (live_fd v.fds fd) [
    | none ↦ (failed, v)
    | some i ↦
        let f = get_or v.fds i zero_fd in
        (pos 0, record (close_behind v f) { fds = set v.fds i (record f { used = false }) })
  ]

  pub vfs_read : Vfs S → ℤ → ℕ → Vfs S × List ℕ × Outcome ℕ
  vfs_read v fd len = elim (live_fd v.fds fd) [
    | none ↦ (v, [], returned failed)
    | some i ↦
        let f = get_or v.fds i zero_fd in
        if is_pipe f
        then (let (ps, out, o) = pipe_read v.pipes f.pipe_id len in
            (record v { pipes = ps }, out, o))
        else elim (op_of v.mounts f.mount_idx (λ o. o.read_op)) [
          | none ↦ (v, [], returned failed)
          | some g ↦
              let (n, out, s) = g f.fd_data len v.files in
              (record v { files = s; fds = set v.fds i (moved f n) }, out, returned n)
        ]
  ]

  pub vfs_write : Vfs S → ℤ → List ℕ → Vfs S × Outcome (List ℕ)
  vfs_write v fd src = elim (live_fd v.fds fd) [
    | none ↦ (v, returned failed)
    | some i ↦
        let f = get_or v.fds i zero_fd in
        if is_pipe f
        then (let (ps, o) = pipe_write v.pipes f.pipe_id src in (record v { pipes = ps }, o))
        else elim (op_of v.mounts f.mount_idx (λ o. o.write_op)) [
          | none ↦ (v, returned failed)
          | some g ↦
              let (n, s) = g f.fd_data src v.files in
              (record v { files = s; fds = set v.fds i (moved f n) }, returned n)
        ]
  ]

  -- The statistics are returned where the mount's stat was called.
  pub vfs_stat : Vfs S → List ℕ → ℤ × Option Stat × Vfs S
  vfs_stat v path =
      let (midx, local) = find_mount v.mounts (resolve path) [] in
      elim (op_of v.mounts midx (λ o. o.stat_op)) [
        | none ↦ (failed, none, v)
        | some f ↦ let (r, st, s) = f local v.files in (r, some st, record v { files = s })
      ]

  pub vfs_readdir : Vfs S → List ℕ → ℕ → ℤ × List ℕ × Vfs S
  vfs_readdir v path sz =
      let (midx, local) =
        find_mount v.mounts (if is_absolute path then path else v.cwd ++ b'/' ∷ path) [] in
      elim (op_of v.mounts midx (λ o. o.readdir_op)) [
        | none ↦ (pos 0, [], v)
        | some f ↦ let (r, out, s) = f local sz v.files in (r, out, record v { files = s })
      ]

  pub vfs_unlink : Vfs S → List ℕ → ℤ × Vfs S
  vfs_unlink v path =
      let (midx, local) = find_mount v.mounts (resolve path) [] in
      elim (op_of v.mounts midx (λ o. o.unlink_op)) [
        | none ↦ (failed, v)
        | some f ↦ let (r, s) = f local v.files in (r, record v { files = s })
      ]

  -- The buffer's size sz is positive.
  pub vfs_getcwd : Vfs S → ℕ → ℤ × List ℕ
  vfs_getcwd v sz = let buf = take (sz - 1) v.cwd in (pos (length buf), buf)

  pub vfs_chdir : Vfs S → List ℕ → Vfs S
  vfs_chdir v path = record v {
    cwd = if is_absolute path then take 127 path else v.cwd ++ b'/' ∷ path;
  }

  -- vfs_pipe: the result, and fds[0] and fds[1] where it is 0.
  pub vfs_pipe : Vfs S → ℤ × Option (ℕ × ℕ) × Vfs S
  vfs_pipe v =
      let (id, ps) = pipe_create v.pipes in
      let undo = pipe_close_write (pipe_close_read ps id) id in
      if is_negative id then (failed, none, v) else elim (alloc_fd v.fds) [
        | none ↦ (failed, none, record v { pipes = undo })
        | some r ↦ elim (alloc_fd v.fds) [
          | none ↦ (
            failed,
            none,
            record v {
              fds = set v.fds r (record (get_or v.fds r zero_fd) { used = false });
              pipes = undo;
            },
          )
          | some w ↦
              let fds = set v.fds r (pipe_fd (get_or v.fds r zero_fd) id 0) in
              (
                pos 0,
                some (r, w),
                record v { fds = set fds w (pipe_fd (get_or fds w zero_fd) id 1); pipes = ps },
              )
        ]
      ]

  pub vfs_dup2 : Vfs S → ℤ → ℤ → ℤ × Vfs S
  vfs_dup2 v oldfd newfd = elim (live_fd v.fds oldfd) [
    | none ↦ (failed, v)
    | some i ↦ elim (index_in max_fd newfd) [
      | none ↦ (failed, v)
      | some j ↦
          let v' = if (get_or v.fds j zero_fd).used then (vfs_close v newfd).1 else v in
          (newfd, record v' { fds = set v'.fds j (get_or v'.fds i zero_fd) })
    ]
  ]

  pub vfs_isatty : Vfs S → ℤ → Bool
  vfs_isatty v fd = elim (live_fd v.fds fd) [
    | none ↦ false
    | some i ↦ let f = get_or v.fds i zero_fd in is_dev f && is_below_three f.fd_data
  ]

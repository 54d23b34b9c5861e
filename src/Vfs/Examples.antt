-- ===== src/Vfs/Examples.antt =====
-- A table of descriptors and a file system on which the theorems are used.
use kum_os.Base.{
  ℕ, ◌+◌, ◌≤◌, ◌⊎◌, ◌≡◌, ◌≢◌, refl, true, false, none, some, List, [], ◌∷◌, pos, failed, drop,
  replicate, length, get_or, set, find_index,
}
use kum_os.Pipe.{pipe_init, pipe_create, zeroed}
use kum_os.Vfs.{
  Vfs, Mount, Ops, Fd, zero_fd, alloc_fd, is_free_fd, live_fd, vfs_pipe, max_fd, find_mount,
  is_prefix, skip_slash, vfs_open,
}
use kum_os.Vfs.Opening.{Opened, collided, pipe_ends_collide, vfs_open_lem}
use kum_os.Vfs.Mounts.{Longest, prefix_at, find_mount_lem}

-- A file system whose state counts the calls of open and close.
abbrev counting_ops : Ops ℕ
counting_ops = record {
  open_op = some (λ path flags s. (pos 7, s + 1));
  close_op = some (λ d s. s + 1);
  read_op = none;
  write_op = none;
  stat_op = none;
  readdir_op = none;
  unlink_op = none;
}

abbrev root_and_disk : List (Mount ℕ)
root_and_disk =
    record { prefix = b'/' ∷ []; ops = counting_ops }
    ∷ record { prefix = b'/' ∷ b'd' ∷ b'/' ∷ []; ops = counting_ops }
    ∷ []

abbrev disk_path : List ℕ
disk_path = b'/' ∷ b'd' ∷ b'/' ∷ b'x' ∷ []

abbrev busy_fd : Fd
busy_fd = record zero_fd { used = true }

abbrev start : Vfs ℕ
start = record {
  fds = set (replicate max_fd zero_fd) 4 busy_fd;
  mounts = root_and_disk;
  pipes = pipe_init;
  files = 0;
  cwd = b'/' ∷ [];
}

find_mount_lem_example :
    ((j : ℕ) × (find_mount root_and_disk disk_path []
        ≡ (some j, skip_slash (drop (length (prefix_at root_and_disk j)) disk_path)))
      × Longest disk_path root_and_disk j)
    ⊎ ((find_mount root_and_disk disk_path [] ≡ (none, []))
        × ((k : ℕ)
            → is_prefix (prefix_at root_and_disk k) disk_path ≡ true
            → length (prefix_at root_and_disk k) ≡ 0))
find_mount_lem_example = find_mount_lem disk_path root_and_disk []

vfs_open_lem_example :
    (((vfs_open start disk_path 4).0 ≡ failed) × ((vfs_open start disk_path 4).1.fds ≡ start.fds))
    ⊎ ((fd : ℕ) × ((vfs_open start disk_path 4).0 ≡ pos fd)
        × Opened start fd 4 (vfs_open start disk_path 4).1)
vfs_open_lem_example = vfs_open_lem start disk_path 4

four_is_live : live_fd start.fds (pos 4) ≡ some 4
unfolding live_fd zero_fd
four_is_live = refl

pipes_at_three : vfs_pipe start ≡ (pos 0, some (3, 3), collided start 3)
unfolding vfs_pipe alloc_fd is_free_fd find_index zero_fd pipe_create pipe_init zeroed
pipes_at_three = refl

abbrev three : ℕ
three = 3

pipe_ends_collide_example :
    (three ≡ three)
    × (3 ≤ three)
    × ((get_or start.fds 3 zero_fd).used ≡ false)
    × ((get_or (collided start 3).fds 3 zero_fd).pipe_end ≡ 1)
    × ((get_or (collided start 3).fds 3 zero_fd).pipe_id ≡ (pipe_create start.pipes).0)
    × ((j : ℕ) → j ≢ 3 → get_or (collided start 3).fds j zero_fd ≡ get_or start.fds j zero_fd)
pipe_ends_collide_example = pipe_ends_collide start 3 3 (collided start 3) pipes_at_three

-- ===== src/Lib.antt =====
-- KumOS, a small operating system kernel for i386 in C, modelled part by part. Paths are those of the
-- repository: src/ is the kernel, user/ the programs.
--
-- How the parts interact. Programs enter the kernel by system calls (src/syscall.c), which use the
-- virtual file system (src/vfs.c), the scheduler (src/sched.c) and signals (src/signal.c). The
-- virtual file system stands on pipes (src/pipe.c), the memory file system (src/fs.c) and FAT12
-- (src/fat12.c). The timer interrupt drives the scheduler. src/process.c keeps a table of its own
-- behind the shell's ps and kill. The kernel's own tables and stacks come from src/kmalloc.c, pages from
-- src/paging.c, into which src/elf.c loads programs. src/net.c keeps its sockets apart from the
-- descriptors, and src/users.c and src/rtc.c stand by themselves.
--
-- Files and what they model:
-- - Base: shared names; C arrays as lists with native indices (a write out of range does nothing), the
--   search for the first slot of a table that passes a test, int as a signed number, uint32_t with its
--   wrap-around written out.
-- - Pipe (src/pipe.c): pipe_t as a record, pipe_create, pipe_get, the close functions and the loops of
--   pipe_write and pipe_read. A call of sched_yield() inside a loop ends the model's call with what is
--   left to do. Pipe/Ring has the bytes of a ring, Pipe/Transfer the loops, Pipe/Channel two tasks on
--   one pipe, Pipe/Lifecycle the table. A change of tasks inside a loop's body, by the timer, is not
--   modelled.
-- - Process (src/process.c): the process table. Its pids and counters do not overflow in the model.
-- - Sched (src/sched.c): task_t without registers, the round robin, ticks, sleeping, spawning, exit and
--   waiting. Parameters are the tick count and the address that kmalloc returns. pick_next has fuel
--   task_count, which is one lap, and its theorem shows that no lap needs more. A round of a waiting
--   loop is one function; the loop itself is the caller's repetition of it.
-- - Fat12 (src/fat12.c): 12-bit entries in g_fat, allocation, the loop that frees a chain, and 8.3
--   names. The freeing loop has fuel 3074, two more than the entries of the table, and is shown to end
--   within it. Fat12/Volume has the mount, Fat12/Volume/Directory the root directory and
--   Fat12/Volume/Files the files. The disk is a parameter, a state with a read and a write of one
--   sector, for ata_read and ata_write; the theorems rely on it for reading back what was written. A
--   file's loops have one round more than its bytes, which is enough where a cluster has a sector.
-- - Frames (src/paging.c, the pmm_ functions): reference counts of physical frames. pmm_alloc's search
--   has as many rounds as the window has frames.
-- - Kstring (src/kstring.c): the string functions. A string is its bytes before the terminating 0, a
--   buffer a list of bytes; what lies behind a buffer's end is not written. kitoa's loop has fuel 32, the
--   digits of a 32-bit number in base 2. Kstring/Copies and Kstring/Digits have their theorems.
-- - Fs (src/fs.c): the memory file system's table. Fs/Table has the map from names to contents, Fs/Lookup
--   what the calls do to it, Fs/Valid the table's invariant. A name of 64 bytes or more runs on into the
--   file's data, as in the code; the theorems are about shorter ones.
-- - Vfs (src/vfs.c): mounts, descriptors and paths; a file system is a record of the operations of
--   vfs_ops_t over a state that all share. Vfs/Mounts has the choice of a mount, Vfs/Opening vfs_open and
--   vfs_pipe, Vfs/Closing vfs_close and vfs_dup2. Path buffers are not bounded in the model.
--   Vfs/Memory, Vfs/Disk and Vfs/Devices are the file systems behind /mem, /disk and /dev; Vfs/Memory/Writing
--   and Vfs/Disk/Buffer have what a write does to a file. vfs_init takes the three records of operations:
--   those of /disk may not end, so that no record is made of them.
-- - Signal (src/signal.c): pending and blocked sets as lists of bits, handlers as addresses; the loop of
--   signal_check has fuel 31, its rounds. Signal/Check has the order of delivery, Signal/Slots the slot of
--   a pid, Signal/Send SIGKILL.
-- - Dmesg (src/dmesg.c): the ring of log bytes; the clock's readings are parameters. The loops for the
--   digits have fuel 10, the digits of a 32-bit number. Dmesg/Recent has the text that was logged as the
--   abstract view, and what a reader gets of it.
-- - Paging (src/paging.c): the page directory, tables in a memory of words, paging_init, paging_map,
--   paging_unmap. Memory at a physical address is that at the same virtual one. Paging/Tables has the
--   invariant and the writing of an entry, Paging/NewTable a new table, Paging/Maps what paging_map and
--   paging_unmap do. Paging/Heap has heap_alloc and heap_free; the loop of heap_grow has fuel 4096, more
--   than the pages of the heap. Paging/Heap/Layout has the blocks' order, Paging/Heap/Alloc and
--   Paging/Heap/Calls what calls do, Paging/Heap/Break a request that wraps around.
--   Paging/Regions has vmalloc, vmfree and copy on write, Paging/Regions/Cow and Paging/Regions/Write the
--   two ways in which a write to a shared page ends.
-- - Swap (src/swap.c): the slots, swap_out and swap_in. Swap/Out has what swap_out does to the frames.
-- - Faults (src/paging.c, page_fault_handler): the order of demand, copy on write and swap.
-- - Kmalloc (src/kmalloc.c): the allocator with its list of free blocks. Kmalloc/Tiles says that the blocks
--   fill the heap, Kmalloc/Links what a doubly linked list is, Kmalloc/Shape has the invariant. Relink, Split,
--   Front, Push and Merge are the steps of a call, Owned the map of the blocks in use, which is the abstract
--   view; Calls and Frees have kmalloc and kfree, and Runs the owners that call them. The loops have a
--   round for each block that the heap has room for, which is shown to be enough.
-- - Net (src/net.c): ip_checksum, whose folding has fuel 3, one more than it needs, with Net/Checksum.
--   Net/Frames has the ARP cache, the frames that are built, and the ring of those received, with
--   Net/Frames/Arp; Net/Tcp the sockets, with Net/Tcp/Stream, which takes the ring of a socket for one of a
--   pipe. The card is the log of the frames it was given.
-- - Users (src/users.c): the table of users and their login. Users/Login has who can log in.
-- - Rtc (src/rtc.c): the clock's registers, which are parameters, and the time that they stand for.
-- - Elf (src/elf.c): elf_validate and elf_load_mem, over the page directory of Paging; kmemcpy and kmemset at
--   virtual addresses are a parameter. The loop over a segment's pages has a round for each, which
--   Elf/Loading shows to be enough; Elf/Round and Elf/Pages have what it maps.
--
-- Not modelled: hardware access, printing, the shell, the graphical desktop, and for now the page
-- directories of programs, the name service and the user programs.
pub mod Base
pub mod Dmesg
pub mod Elf
pub mod Fat12
pub mod Faults
pub mod Frames
pub mod Fs
pub mod Kmalloc
pub mod Kstring
pub mod Net
pub mod Paging
pub mod Pipe
pub mod Process
pub mod Rtc
pub mod Sched
pub mod Signal
pub mod Swap
pub mod Users
pub mod Vfs

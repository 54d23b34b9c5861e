-- ===== src/Kmalloc.antt =====
-- src/kmalloc.c: the kernel's allocator, a doubly linked list of free blocks over a heap that grows.
-- Memory is a function from the addresses of block headers to headers; what the owners of blocks write
-- between the headers is not seen. 0 is the null pointer. Addresses inside the heap do not wrap around; the
-- wrap-around is written out where the size of a request can cause it.
pub mod Lists
pub mod Tiles
pub mod Links
pub mod Relink
pub mod Shape
pub mod Push
pub mod Split
pub mod Front
pub mod Merge
pub mod Owned
pub mod Alloc
pub mod Calls
pub mod Frees
pub mod Count
pub mod Apart
pub mod Runs
pub mod Examples
use kum_os.Base.{
  ℕ, zero, suc, ◌+◌, ◌-◌, ◌*◌, ◌/◌, ◌%◌, Bool, true, false, not, ◌&&◌, Option, none, some,
  if◌then◌else◌, ltb, leb, ◌==◌, add32, sub32,
}

abbrev pub magic_free : ℕ
magic_free = 0xDEADBEEF

abbrev pub magic_used : ℕ
magic_used = 0xCAFEBABE

abbrev pub min_split : ℕ
min_split = 16

-- sizeof(block_t)
abbrev pub header_size : ℕ
header_size = 16

-- block_t
pub record Header : Type 0 where
  pub magic : ℕ
  pub size : ℕ
  pub prev : ℕ
  pub next : ℕ

abbrev pub Memory : Type 0
Memory = ℕ → Header

-- free_list, heap_start, heap_end and heap_cap, with the memory.
pub record Kmalloc : Type 0 where
  pub mem : Memory
  pub free_list : ℕ
  pub heap_start : ℕ
  pub heap_end : ℕ
  pub heap_cap : ℕ

abbrev pub put_header : Memory → ℕ → Header → Memory
put_header m a v b = if a == b then v else m b

-- `if (a) a->next = v` and `if (a) a->prev = v`
abbrev pub set_next : Memory → ℕ → ℕ → Memory
set_next m a v b = if not (a == 0) && a == b then record (m b) { next = v } else m b

abbrev pub set_prev : Memory → ℕ → ℕ → Memory
set_prev m a v b = if not (a == 0) && a == b then record (m b) { prev = v } else m b

pub kmalloc_init : Memory → ℕ → ℕ → Kmalloc
kmalloc_init mem start size = record {
  mem = mem;
  free_list = 0;
  heap_start = start;
  heap_end = start;
  heap_cap = add32 start size;
}

-- A free block at the front of the list.
pub push_free : Kmalloc → ℕ → ℕ → Kmalloc
push_free k b size = record k {
  mem =
      set_prev
        (put_header k.mem b
          (record { magic = magic_free; size = size; prev = 0; next = k.free_list }))
        k.free_list b;
  free_list = b;
}

-- `if (b->prev) b->prev->next = to; else free_list = to;` and `if (b->next) b->next->prev = back;`
pub relink : Kmalloc → ℕ → ℕ → ℕ → Kmalloc
relink k b to back =
    let h = k.mem b in
    let next = (set_next k.mem h.prev to b).next in
    record k {
      mem = set_prev (set_next k.mem h.prev to) next back;
      free_list = if h.prev == 0 then to else k.free_list;
    }

-- Block b leaves the list of free blocks.
pub unlink : Kmalloc → ℕ → Kmalloc
unlink k b = relink k b (k.mem b).next (k.mem b).prev

-- `b->magic = MAGIC_USED; b->prev = b->next = 0;`
pub take_block : Kmalloc → ℕ → Kmalloc
take_block k b = record k {
  mem = put_header k.mem b (record (k.mem b) { magic = magic_used; prev = 0; next = 0 });
}

-- The rest of block b behind `size` bytes becomes a free block in its place.
pub split_block : Kmalloc → ℕ → ℕ → Kmalloc
split_block k b size =
    let h = k.mem b in
    let split = b + header_size + size in
    let rest : Header = record {
      magic = magic_free;
      size = h.size - size - header_size;
      prev = h.prev;
      next = h.next;
    } in
    let k' = relink (record k { mem = put_header k.mem split rest }) b split split in
    record k' { mem = put_header k'.mem b (record (k'.mem b) { size = size }) }

-- extend_heap: the new block, or 0.
pub extend_heap : Kmalloc → ℕ → ℕ × Kmalloc
extend_heap k need =
    let total = add32 header_size need in
    if ltb k.heap_cap (add32 k.heap_end total)
    then (0, k)
    else (k.heap_end, record (push_free k k.heap_end need) { heap_end = add32 k.heap_end total })

-- The loop of kmalloc from block b on: the first block that is large enough.
pub find_fit : ℕ → Kmalloc → ℕ → ℕ → ℕ
find_fit zero k size b = 0
find_fit (suc fuel) k size b =
    let rest = find_fit fuel k size (k.mem b).next in
    if b == 0 then 0 else if ltb (k.mem b).size size then rest else b

-- Every block takes up 16 bytes at least.
abbrev pub heap_rounds : Kmalloc → ℕ
heap_rounds k = (k.heap_end - k.heap_start) / header_size + 1

-- `(size + 7) & ~7u`
abbrev pub rounded_size : ℕ → ℕ
rounded_size size = add32 size 7 / 8 * 8

-- kmalloc with the block that the loop found, or 0.
pub alloc_at : ℕ → Kmalloc → ℕ → ℕ × Kmalloc
alloc_at size k b =
    let (new, grown) = extend_heap k size in
    if b == 0
    then (if new == 0 then (0, grown) else (new + header_size, take_block (unlink grown new) new))
    else if leb (add32 (add32 size header_size) min_split) (k.mem b).size
    then (b + header_size, take_block (split_block k b size) b)
    else (b + header_size, take_block (unlink k b) b)

pub kmalloc : ℕ → Kmalloc → ℕ × Kmalloc
kmalloc size k =
    if size == 0
    then (0, k)
    else alloc_at (rounded_size size) k (find_fit (heap_rounds k) k (rounded_size size) k.free_list)

-- The block behind b, if it is free, becomes part of b.
pub coalesce : Kmalloc → ℕ → Kmalloc
coalesce k b =
    let next = b + header_size + (k.mem b).size in
    let grown = record k {
      mem =
          put_header k.mem b
            (record (k.mem b) { size = (k.mem b).size + (header_size + (k.mem next).size) });
    } in
    if ltb next k.heap_end && (k.mem next).magic == magic_free then unlink grown next else k

pub kfree : Kmalloc → ℕ → Kmalloc
kfree k ptr =
    let b = ptr - header_size in
    if ptr == 0
    then k
    else if (k.mem b).magic == magic_used
    then coalesce (push_free k b (k.mem b).size) b
    else k

-- kmalloc_used: the sizes of the blocks in use from pos on.
pub used_from : ℕ → Kmalloc → ℕ → ℕ
used_from zero k pos = 0
used_from (suc fuel) k pos =
    let h = k.mem pos in
    let rest = used_from fuel k (pos + (header_size + h.size)) in
    if ltb pos k.heap_end then (if h.magic == magic_used then add32 h.size rest else rest) else 0

pub kmalloc_used : Kmalloc → ℕ
kmalloc_used k = used_from (heap_rounds k) k k.heap_start

pub free_from : ℕ → Kmalloc → ℕ → ℕ
free_from zero k b = 0
free_from (suc fuel) k b =
    let rest = free_from fuel k (k.mem b).next in if b == 0 then 0 else add32 (k.mem b).size rest

pub kmalloc_free : Kmalloc → ℕ
kmalloc_free k = free_from (heap_rounds k) k k.free_list

-- ===== src/Lib.antt =====
-- Verification library of the Glenda kernel (kernel/src).
--
-- The program. Glenda is a RISC-V kernel in Rust. Its disk is read and written through a cache of 32
-- buffers (kernel/src/fs/buffer); memory pages come from a physical page allocator
-- (kernel/src/mem/pmem.rs), and processes live in a table of 64 entries (kernel/src/proc/table.rs)
-- from which a bitmap and a scheduler loop choose the next one. The file system uses the cache, page
-- tables and processes use the allocator, the system calls brk, mmap and munmap change the address space
-- of a process, and traps and system calls use the scheduler. The console decodes UTF-8.
--
-- The files (paths without a root are under kernel/src).
--   Prelude        names of the libraries; `Outcome` (a value, a panic, or code that never returns),
--                  the checked arithmetic of a debug build, Boolean tests, lists of numbers.
--   Fs/Buffer/Lru  fs/buffer/lru.rs: `LruCache` is `LRUCache`, the node array and the buffer array are
--                  functions of the index; one function per method, and one per half of a method that
--                  updates links (`unlink_prev`, `unlink_next`, `link_head`). Its children treat
--                  chains in the array and what the two lists stand for.
--   Fs/Buffer      fs/buffer/mod.rs: `get`, `read`, `write`, `release`, `init` (`init_cache`) and the
--                  data pointer (`get_data`, `set_data`). A disk is a function from block numbers to
--                  blocks, and a block one from positions to bytes. `View` is the abstract
--                  specification: two lists of buffers in order of use.
--   Fs/Bitmap      fs/bitmap.rs: `alloc` and `free` over the cache. The superblock (fs/fs.rs) is an
--                  argument. `bit` in Bits is the bit of a block, apart from the code's own arithmetic.
--                  The source does not bound the bit that is freed; an access behind the buffer is
--                  `stuck` here, so that no theorem promises a result.
--   Fs/Inode       fs/inode.rs: `InodeDisk` with its bytes, `inode_rw` and `locate_or_add_block`;
--                  Fs/Inode/Data reads and writes the bytes of a file (`file_bytes` in Rounds is the
--                  specification), and Fs/Inode/Cache is the cache of inodes, their bitmap, creation and
--                  deletion. An inode that the source points to is a slot of the cache.
--   Fs/Dentry      fs/dentry.rs; `Names` in Names is the specification of an entry. Fs/Path is
--                  fs/path.rs, and Fs/File fs/file.rs.
--   Mem/Addr       mem/addr.rs and the constants of mem/mod.rs.
--   Mem/Pte        mem/pte.rs.
--   Mem/Pmem       mem/pmem.rs: `Pmem` is the memory by words, `PAGE_REF` and the two regions; a free
--                  list is a chain of words in memory. `IsPool` in Pool is the invariant.
--   Mem/Pagetable  mem/pagetable.rs: `walk`, `lookup`, `map`, `unmap` and (in Copy) `copy`; a
--                  table is the address of its page. `OnPath` in Walked says that the tables on the way
--                  to an address are pages of the kernel in use.
--   Mem/Mmap       mem/mmap.rs: the warehouse of region nodes, which are named by their indices.
--   Mem/Uvm        mem/uvm.rs: `heap_grow`, `heap_ungrow`, `ustack_grow` and the private `map_pages`. Its
--                  children are `mmap` (Mem/Uvm/Mmap), `munmap` (Mem/Uvm/Munmap), and `copyin`,
--                  `copyout` and `copyin_str` (Mem/Uvm/Copy). A chain of regions is a list, walked with
--                  a zipper; `covers` in Mem/Uvm/Mmap/Layout is the set of its addresses, and
--                  `IsLayout` its invariant.
--   Mem/Bytes      the memory by bytes.
--   Syscall/Brk    syscall/brk.rs, and Syscall/Mmap syscall/mmap.rs: the handlers, and what sequences of
--                  calls reach.
--   Drivers/Utf8   drivers/uart/utf8.rs: the decoder of the console; `encode` in Encode is the encoding of
--                  a char. Drivers/Echo is the line of widths of the same file.
--   Proc/RunnableQueue  proc/runnable_queue.rs: the bitmap is a function from bits to Booleans.
--   Proc/Scheduler proc/scheduler.rs, with `alloc`, `fork` and `exit` of proc/process.rs: `Kernel` is the
--                  table with its lock, the bitmap, the process of the hart and the next pid. A
--                  function ends at a context switch; `Step` in Reach puts the stretches together.
--
-- Loops. The walk over a linked list takes fuel for one round more than there are buffers, and the
-- loops of `AllocRegion::init`, `map` and `unmap` for one round more than pages fit below the end;
-- that the fuel is enough is part of the theorems on them, since running out would give `stuck`.
-- The copies from and to user memory take a round for each byte that is left, and each round copies
-- at least one; the reads and writes of a file do the same, the scans of a directory take a round
-- for each entry and one more, and a path a round for each byte and one more. Other loops run over
-- the table, the buffers or a chain of regions and are recursion on the number of rounds left or on
-- the list.
--
-- Numbers. `usize` and `u32` are natural numbers; where a debug build checks a sum or a difference,
-- so does the model (`add_usize`, `sub_u32`), and counters that wrap have their `%`.
--
-- Not modelled. Several harts: each function runs alone, except that a second lock of the process
-- table by its holder is seen. The device driver, assembly, printing, `destroy` of a page table
-- (whose recursion has no bound), the kernel's own mappings (mem/vm.rs), the start of the file system
-- (fs/fs.rs), the other system calls, traps, and the rest of proc/process.rs.
mod Prelude
pub mod Drivers
pub mod Fs
pub mod Mem
pub mod Proc
pub mod Syscall

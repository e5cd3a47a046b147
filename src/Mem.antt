-- ===== src/Mem.antt =====
-- kernel/src/mem: addresses, page table entries and the physical page allocator.
pub mod Addr
pub mod Pte
pub mod Pmem
pub mod Pagetable
pub mod Mmap
pub mod Bytes
pub mod Uvm

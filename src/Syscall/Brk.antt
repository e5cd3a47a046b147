-- ===== src/Syscall/Brk.antt =====
-- kernel/src/syscall/brk.rs. What it prints is left out.
pub mod Bounds
mod Tests
use glenda.Prelude.{ℕ, Bool, Outcome, ok, ◌>>=◌, ltb, ◌==◌, if◌then◌else◌}
use glenda.Mem.Addr.{mmap_begin, align_up}
use glenda.Mem.Pmem.{Pmem}
use glenda.Mem.Uvm.{Result, value, error, heap_grow, heap_ungrow}
use glenda.Syscall.{usize_max}

-- The fields of the current process that `sys_brk` reads and writes, and the page allocator.
pub record Heap : Type 0 where
  pub root_pt_pa : ℕ
  pub heap_base : ℕ
  pub heap_top : ℕ
  pub pool : Pmem

-- The heap grows or shrinks to `new_heap_top`.
resize : ℕ → Heap → Outcome (Result (Unit {0}) × Pmem)
resize new_heap_top p =
    if ltb p.heap_top new_heap_top
    then heap_grow p.root_pt_pa p.heap_top new_heap_top p.pool
    else if ltb new_heap_top p.heap_top
    then heap_ungrow p.root_pt_pa p.heap_top new_heap_top p.pool
    else ok (value tt, p.pool)

-- The end of `sys_brk` by the result.
set_top : ℕ → Heap → Result (Unit {0}) × Pmem → Outcome (ℕ × Heap)
set_top new_heap_top p (value _, pool) =
    ok (new_heap_top, record p { heap_top = new_heap_top; pool = pool })
set_top new_heap_top p (error _, pool) = ok (usize_max, record p { pool = pool })

unfoldable pub sys_brk : ℕ → Heap → Outcome (ℕ × Heap)
unfolding resize set_top
sys_brk new_top p =
    if new_top == 0
    then ok (p.heap_top, p)
    else if ltb mmap_begin new_top
    then ok (usize_max, p)
    else if ltb new_top p.heap_base
    then ok (usize_max, p)
    else (align_up new_top >>= λ new_heap_top.
        resize new_heap_top p >>= λ res. set_top new_heap_top p res)

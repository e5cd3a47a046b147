-- ===== src/Mem/Uvm/Ends.antt =====
-- The loops of kernel/src/mem/uvm.rs return or panic.
use glenda.Prelude.{
  ends_rules, ℕ, zero, suc, ◌+◌, ◌==◌, Ends, returns, panics, >>=-Ends, if-Ends, bool-Ends, ltb,
  ◌^◌, add_usize, false,
}
use glenda.Mem.Addr.{pgsize, align_up}
use glenda.Mem.Pmem.{Pmem}
use glenda.Mem.Pagetable.Ends.{alloc-Ends, map-Ends, unmap-Ends}
use glenda.Mem.Uvm.{user_flags, add_pages, map_pages, heap_grow, heap_ungrow}

pub add_usize-Ends : (a b : ℕ) → Ends (add_usize a b)
add_usize-Ends a b = if-Ends (ltb (a + b) (2 ^ 64)) returns panics

pub align_up-Ends : (a : ℕ) → Ends (align_up a)
unfolding align_up
align_up-Ends a = search (ends_rules, add_usize-Ends)

pub add_pages-Ends : (rounds root a : ℕ) (p : Pmem) → Ends (add_pages rounds root a p)
unfolding add_pages
add_pages-Ends zero root a p = returns
add_pages-Ends (suc rounds) root a p = >>=-Ends (alloc-Ends false p) λ new.
    if-Ends (new.0 == 0) returns (
      >>=-Ends (map-Ends root a new.0 pgsize user_flags new.1)
        λ m. bool-Ends m.0 returns (add_pages-Ends rounds root (a + pgsize) m.1))

pub map_pages-Ends : (root va npages : ℕ) (p : Pmem) → Ends (map_pages root va npages p)
unfolding map_pages
map_pages-Ends root va npages p = search (ends_rules, add_usize-Ends, add_pages-Ends)

pub heap_grow-Ends : (root old_top new_top : ℕ) (p : Pmem) → Ends (heap_grow root old_top new_top p)
unfolding heap_grow
heap_grow-Ends root old_top new_top p = search (ends_rules, align_up-Ends, add_pages-Ends)

pub heap_ungrow-Ends :
    (root old_top new_top : ℕ) (p : Pmem) → Ends (heap_ungrow root old_top new_top p)
unfolding heap_ungrow
heap_ungrow-Ends root old_top new_top p = search (ends_rules, align_up-Ends, unmap-Ends) depth 12

-- ===== src/Mem/Uvm.antt =====
-- kernel/src/mem/uvm.rs: the memory of a user process. The page table is the address of its root, in
-- the memory of the page allocator.
pub mod Ends
pub mod Copy
pub mod Mmap
pub mod Munmap
use glenda.Prelude.{
  ℕ, zero, suc, ◌+◌, ◌-◌, ◌*◌, ◌/◌, Bool, true, false, ◌&&◌, Option, none, some, List, Outcome, ok,
  ◌>>=◌, ltb, leb, ◌==◌, if◌then◌else◌, add_usize,
}
use glenda.Mem.Addr.{pgsize, mmap_begin, align_up, align_down}
use glenda.Mem.Pmem.{Pmem, alloc}
use glenda.Mem.Pte.{is_valid}
use glenda.Mem.Pagetable.{map, unmap, lookup}
use glenda.Mem.Mmap.{MmapRegion, Warehouse}

pub data UvmError : Type 0 where
  out_of_range no_mem map_failed : UvmError

-- `Result<A, UvmError>`.
pub data Result (A : Type 0) : Type 0 where
  value : A → Result A
  error : UvmError → Result A

-- `PTE_U | PTE_R | PTE_W | PTE_A | PTE_D`.
abbrev pub user_flags : ℕ
user_flags = 16 + 2 + 4 + 64 + 128

-- The loop that allocates and maps pages from `a` on, `rounds` of them.
unfoldable pub add_pages : ℕ → ℕ → ℕ → Pmem → Outcome (Result (Unit {0}) × Pmem)
add_pages zero root a p = ok (value tt, p)
add_pages (suc rounds) root a p = alloc false p >>= λ new.
    if new.0 == 0
    then ok (error no_mem, new.1)
    else (map root a new.0 pgsize user_flags new.1 >>= λ m. elim m.0 [
      | false ↦ ok (error map_failed, m.1)
      | true ↦ add_pages rounds root (a + pgsize) m.1
    ])

-- `while a < last { …; a += PGSIZE }`.
abbrev pub rounds_to : ℕ → ℕ → ℕ
rounds_to a last = (last - a + (pgsize - 1)) / pgsize

unfoldable pub heap_grow : ℕ → ℕ → ℕ → Pmem → Outcome (Result (Unit {0}) × Pmem)
heap_grow root old_top new_top p =
    if ltb mmap_begin new_top
    then ok (error out_of_range, p)
    else (do a ← align_up old_top; last ← align_up new_top; add_pages (rounds_to a last) root a p)

unfoldable pub heap_ungrow : ℕ → ℕ → ℕ → Pmem → Outcome (Result (Unit {0}) × Pmem)
heap_ungrow root old_top new_top p = if ltb old_top new_top then ok (value tt, p) else (do
  start ← align_up new_top
  end ← align_up old_top
  let size = end - start
  if size == 0
      then ok (value tt, p)
      else (unmap root start size true p >>= λ u.
          ok (if u.0 then value tt else error map_failed, u.1)))

-- The private `map_pages` of uvm.rs.
unfoldable pub map_pages : ℕ → ℕ → ℕ → Pmem → Outcome (Result (Unit {0}) × Pmem)
map_pages root va npages p =
    add_usize (align_down va) (npages * pgsize) >>= λ last. add_pages npages root (align_down va) p

abbrev pub stack_base : ℕ
stack_base = 0x20000

abbrev pub stack_top : ℕ
stack_top = stack_base + 24576

-- The loop of `ustack_grow` below the address `a`: it maps the pages that have no valid entry.
stack_pages : ℕ → ℕ → ℕ → Pmem → Outcome (Result (Unit {0}) × Pmem)
stack_pages zero root a p = ok (value tt, p)
stack_pages (suc rounds) root a p =
    let page = a - pgsize in
    let mapped : Bool = elim (lookup root page p.mem) [
      | none ↦ false
      | some slot ↦ is_valid (p.mem slot)
    ] in
    elim mapped [
      | true ↦ stack_pages rounds root page p
      | false ↦ alloc false p >>= λ new. elim (new.0 == 0) [
        | true ↦ ok (error no_mem, new.1)
        | false ↦ map root page new.0 pgsize user_flags new.1 >>= λ m. elim m.0 [
          | false ↦ ok (error map_failed, m.1)
          | true ↦ stack_pages rounds root page m.1
        ]
      ]
    ]

unfoldable pub ustack_grow : ℕ → ℕ → Pmem → Outcome (Result (Unit {0}) × Pmem)
unfolding stack_pages
ustack_grow root fault_va p =
    if leb stack_base fault_va && ltb fault_va stack_top
    then stack_pages ((stack_top - align_down fault_va) / pgsize) root stack_top p
    else ok (error out_of_range, p)

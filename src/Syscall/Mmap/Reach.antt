-- ===== src/Syscall/Mmap/Reach.antt =====
-- The regions that a process can have: what the calls of kernel/src/syscall/mmap.rs make of none.
use glenda.Prelude.{
  ℕ, ◌*◌, ◌/◌, ◌≡◌, Bool, ◌==◌, [], arith, Bool-cases, inl, inr, Outcome, ok, panic, stuck, ◌>>=◌,
  subst, sym,
}
use glenda.Mem.Addr.{pgsize, mmap_begin, mmap_end}
use glenda.Mem.Uvm.{Result, value, error}
use glenda.Mem.Uvm.Mmap.{Space, mmap}
use glenda.Mem.Uvm.Mmap.Layout.{IsLayout, covers}
use glenda.Mem.Uvm.Mmap.Correct.{Maps, mmap-Maps, size_of}
use glenda.Mem.Uvm.Munmap.{munmap}
use glenda.Mem.Uvm.Munmap.Correct.{Removes}
use glenda.Mem.Uvm.Munmap.Whole.{munmap-Removes, page_end}
use glenda.Syscall.Mmap.{or_max, sys_mmap, sys_munmap}

-- A call of the process with the page table `root`. The page allocator and the warehouse serve other
-- processes between two calls.
pub data Step (root : ℕ) (s t : Space) : Type 0 where
  maps : (begin len r : ℕ) → sys_mmap root begin len s ≡ ok (r, t) → Step root s t
  unmaps : (begin len r : ℕ) → sys_munmap root begin len s ≡ ok (r, t) → Step root s t
  others : t.regions ≡ s.regions → Step root s t

pub data Reachable (root : ℕ) : Space → Type 0 where
  none_yet : {s : Space} → s.regions ≡ [] → Reachable root s
  step : {s t : Space} → Reachable root s → Step root s t → Reachable root t

abbrev IsLaidOut : {A : Type 0} → Outcome (A × Space) → Type 0
IsLaidOut (ok (r, t)) = IsLayout mmap_begin mmap_end t.regions
IsLaidOut panic = Unit
IsLaidOut stuck = Unit

Maps-IsLaidOut :
    (begin size : ℕ) (s : Space) (o : Outcome (Result ℕ × Space))
    → IsLayout mmap_begin mmap_end s.regions
    → Maps mmap_begin mmap_end begin size s.regions o
    → IsLaidOut (o >>= λ r. or_max (λ va. va) r)
unfolding or_max
Maps-IsLaidOut begin size s (ok (value va, t)) l m = m.3.0.layout
Maps-IsLaidOut begin size s (ok (error e, t)) l m = subst (IsLayout mmap_begin mmap_end) (sym m) l
Maps-IsLaidOut begin size s panic l m = tt
Maps-IsLaidOut begin size s stuck l m = tt

Removes-IsLaidOut :
    (start end : ℕ) (old : ℕ → Bool) (o : Outcome (Result (Unit {0}) × Space))
    → Removes mmap_begin mmap_end start end old o
    → IsLaidOut (o >>= λ r. or_max (λ u. 0) r)
unfolding or_max
Removes-IsLaidOut start end old (ok (value u, t)) r = r.0
Removes-IsLaidOut start end old (ok (error e, t)) r = r.0
Removes-IsLaidOut start end old panic r = tt
Removes-IsLaidOut start end old stuck r = tt

sys_mmap-IsLaidOut :
    (root begin len : ℕ) (s : Space)
    → IsLayout mmap_begin mmap_end s.regions
    → IsLaidOut (sys_mmap root begin len s)
unfolding sys_mmap mmap or_max
sys_mmap-IsLaidOut root begin len s l = elim (Bool-cases (len == 0)) [
  | inl y ↦ rw (IsLaidOut, y) l
  | inr n ↦
      Maps-IsLaidOut begin (size_of len) s (mmap root begin len mmap_begin mmap_end s) l
        (mmap-Maps root begin len mmap_begin mmap_end s (omega arith) l (ground (arith, n))).1
]

sys_munmap-IsLaidOut :
    (root begin len : ℕ) (s : Space)
    → IsLayout mmap_begin mmap_end s.regions
    → IsLaidOut (sys_munmap root begin len s)
unfolding sys_munmap munmap or_max
sys_munmap-IsLaidOut root begin len s l = elim (Bool-cases (len == 0)) [
  | inl y ↦ rw (IsLaidOut, y) l
  | inr n ↦
      Removes-IsLaidOut (begin / pgsize * pgsize) (page_end begin len) (covers s.regions)
        (munmap root begin len s)
        (munmap-Removes mmap_begin mmap_end root begin len s (omega arith) l (ground (arith, n))).1
]

-- Whatever sequence of calls of `sys_mmap` and `sys_munmap` a process without regions makes, with any
-- arguments and with any use of the allocators by others in between, its regions are in order, of
-- whole pages, at least one, with a gap between any two, and between `MMAP_BEGIN` and `MMAP_END`.
pub Reachable-IsLayout :
    (root : ℕ) (s : Space) → Reachable root s → IsLayout mmap_begin mmap_end s.regions
Reachable-IsLayout root s (none_yet e) = subst (IsLayout mmap_begin mmap_end) (sym e) (omega arith)
Reachable-IsLayout root t (step {s} r (maps begin len x e)) =
    subst IsLaidOut e (sys_mmap-IsLaidOut root begin len s (Reachable-IsLayout root s r))
Reachable-IsLayout root t (step {s} r (unmaps begin len x e)) =
    subst IsLaidOut e (sys_munmap-IsLaidOut root begin len s (Reachable-IsLayout root s r))
Reachable-IsLayout root t (step {s} r (others e)) =
    subst (IsLayout mmap_begin mmap_end) (sym e) (Reachable-IsLayout root s r)

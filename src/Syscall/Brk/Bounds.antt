-- ===== src/Syscall/Brk/Bounds.antt =====
-- `sys_brk` of kernel/src/syscall/brk.rs and the bounds of the heap.
use glenda.Prelude.{
  ends_rules, ℕ, ◌+◌, ◌*◌, ◌/◌, ◌%◌, ◌^◌, ◌≤◌, ◌<◌, ◌≡◌, refl, true, ltb, ◌==◌, arith, Bool-cases,
  inl, inr, ◌⊎◌, Outcome, ok, panic, stuck, Ends, returns, Outcome-cases,
}
use glenda.Mem.Addr.{pgsize, mmap_begin, align_up}
use glenda.Mem.Pmem.{Pmem}
use glenda.Mem.Uvm.{Result, value, error}
use glenda.Mem.Uvm.Ends.{align_up-Ends, heap_grow-Ends, heap_ungrow-Ends}
use glenda.Syscall.{usize_max}
use glenda.Syscall.Brk.{Heap, resize, set_top, sys_brk}

-- The top of the heap lies between its base and the mapped regions.
pub record IsHeap (p : Heap) : Type 0 where
  pub above : p.heap_base ≤ p.heap_top
  pub below : p.heap_top ≤ mmap_begin

-- What `sys_brk` may do.
pub record Brk (new_top : ℕ) (p : Heap) (r : ℕ) (q : Heap) : Type 0 where
  pub heap : IsHeap q
  pub base : q.heap_base ≡ p.heap_base
  pub table : q.root_pt_pa ≡ p.root_pt_pa
  -- The new top is returned, or the old one stays.
  pub top :
      ((r ≡ q.heap_top)
        × ((new_top ≡ 0) × (q ≡ p) ⊎ (new_top ≤ r) × (r < new_top + pgsize) × (r % pgsize ≡ 0)))
      ⊎ ((r ≡ usize_max) × (q.heap_top ≡ p.heap_top))

abbrev pub Brks : ℕ → Heap → Outcome (ℕ × Heap) → Type 0
Brks new_top p (ok (r, q)) = Brk new_top p r q
Brks new_top p panic = Unit
Brks new_top p stuck = Unit

set_top-Brk :
    (new_top top : ℕ) (p : Heap) (res : Result (Unit {0}) × Pmem)
    → IsHeap p
    → top ≡ (new_top + 4095) / pgsize * pgsize
    → p.heap_base ≤ new_top
    → new_top ≤ mmap_begin
    → Brks new_top p (set_top top p res)
unfolding set_top
set_top-Brk new_top top p (value u, pool) h e lo hi = record {
  heap = record { above = omega arith; below = omega arith };
  base = refl;
  table = refl;
  top = inl (refl, inr (omega arith, omega arith, omega arith));
}
set_top-Brk new_top top p (error x, pool) h e lo hi = record {
  heap = record { above = h.above; below = h.below };
  base = refl;
  table = refl;
  top = inr (refl, refl);
}

refused-Brk : (new_top : ℕ) (p : Heap) → IsHeap p → Brk new_top p usize_max p
refused-Brk new_top p h = record { heap = h; base = refl; table = refl; top = inr (refl, refl) }

result_top-Ends : (top : ℕ) (p : Heap) (res : Result (Unit {0}) × Pmem) → Ends (set_top top p res)
unfolding set_top
result_top-Ends top p (value u, pool) = returns
result_top-Ends top p (error e, pool) = returns

sys_brk-Ends : (new_top : ℕ) (p : Heap) → Ends (sys_brk new_top p)
unfolding sys_brk resize set_top
sys_brk-Ends new_top p =
    search (ends_rules, align_up-Ends, heap_grow-Ends, heap_ungrow-Ends, result_top-Ends) depth 12

-- From a heap with its top between its base and the mapped regions, `sys_brk` returns or panics. Where
-- it returns, the top is between these again, and the base and the page table are the same. Either it
-- returns the top: the old one with nothing changed where the argument is 0, and else the argument
-- rounded up to a page. Or it returns `usize::MAX`, and the top is the old one.
pub sys_brk-Brks :
    (new_top : ℕ) (p : Heap)
    → IsHeap p
    → Ends (sys_brk new_top p) × Brks new_top p (sys_brk new_top p)
unfolding sys_brk align_up
sys_brk-Brks new_top p h = (
  sys_brk-Ends new_top p,
  elim (Bool-cases (new_top == 0)) [
    | inl y ↦
        rw (Brks, y)
          (record {
            heap = h;
            base = refl;
            table = refl;
            top = inl (refl, inl (ground arith, refl));
          })
    | inr n ↦ elim (Bool-cases (ltb mmap_begin new_top)) [
      | inl y ↦ rw (Brks, n, y) (refused-Brk new_top p h)
      | inr low ↦ elim (Bool-cases (ltb new_top p.heap_base)) [
        | inl y ↦ rw (Brks, n, low, y) (refused-Brk new_top p h)
        | inr high ↦
            let top = (new_top + 4095) / pgsize * pgsize in
            let fits : ltb (new_top + 4095) (2 ^ 64) ≡ true = ground (arith, low) in
            elim (Outcome-cases (resize top p)) [
              | inr (inl e) ↦ rw (Brks, n, low, high, fits, e) tt
              | inr (inr e) ↦ rw (Brks, n, low, high, fits, e) tt
              | inl (res, e) ↦
                  rw (Brks, n, low, high, fits, e)
                    (set_top-Brk new_top top p res h refl (ground (arith, high))
                      (ground (arith, low)))
            ]
      ]
    ]
  ],
)

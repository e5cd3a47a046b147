-- ===== src/Proc/Scheduler/Fork.antt =====
-- `fork` of kernel/src/proc/process.rs on the fields that scheduling uses. Where a copy of the memory
-- fails, the source panics; the child's memory, registers and files belong to other parts.
use glenda.Prelude.{
  ℕ, ◌≡◌, Bool-cases, inl, inr, ◌==◌, arith, Option, none, some, Outcome, ok, panic, stuck, ◌>>=◌,
}
use glenda.Proc.Scheduler.{Kernel, runnable, set_proc, address, alloc}
use glenda.Proc.Scheduler.Alloc.{Allocated, alloc-Allocated, AllocKeeps, alloc-Keeps}
use glenda.Proc.Scheduler.Invariant.{Inv}

-- The child of the process at `parent`, in the entry `child`; `fork` writes its state at its end.
abbrev pub adopt : ℕ → ℕ → Kernel → Kernel
adopt parent child k =
    set_proc k child (record (k.procs child) { parent = parent; state = runnable })

-- `fork` by the process `i`; the child is named by its entry.
unfoldable pub fork : ℕ → ℕ → ℕ → Kernel → Outcome (ℕ × Kernel)
fork base size i k = alloc k >>= λ r. elim r.0 [
  | none ↦ panic
  | some child ↦ ok (child, adopt (address base size i) child r.1)
]

-- A child that was made has the parent, and the state keeps the invariant.
abbrev pub ForkKeeps : ℕ → Outcome (ℕ × Kernel) → Type 0
ForkKeeps parent (ok (child, r)) = Inv r × ((r.procs child).parent ≡ parent)
ForkKeeps parent panic = Unit
ForkKeeps parent stuck = ⊥

adopt-Inv :
    (parent child : ℕ) (k r : Kernel)
    → Allocated k (ok (some child, r))
    → Inv r
    → Inv (adopt parent child r)
adopt-Inv parent child k r a inv = record {
  entries = λ j l.
      let e = inv.entries j l in
      elim (Bool-cases (j == child)) [
        | inl q ↦ let same : j ≡ child = ground arith in ground (arith, e, a.3, same)
        | inr q ↦ ground (arith, e, q)
      ];
  in_range = inv.in_range;
  free = inv.free;
}

fork_of :
    (parent : ℕ) (k : Kernel) (o : Outcome (Option ℕ × Kernel))
    → Allocated k o
    → AllocKeeps o
    → ForkKeeps parent
        (o >>= λ r. elim r.0 [ none ↦ panic | some child ↦ ok (child, adopt parent child r.1) ])
fork_of parent k (ok (none, r)) a inv = tt
fork_of parent k (ok (some child, r)) a inv = (adopt-Inv parent child k r a inv, ground arith)
fork_of parent k panic a inv = tt
fork_of parent k stuck a inv = inv

pub fork-Keeps :
    (base size i : ℕ) (k : Kernel) → Inv k → ForkKeeps (address base size i) (fork base size i k)
unfolding fork
fork-Keeps base size i k inv =
    fork_of (address base size i) k (alloc k) (alloc-Allocated k inv.free) (alloc-Keeps k inv)

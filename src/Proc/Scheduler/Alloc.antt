-- ===== src/Proc/Scheduler/Alloc.antt =====
-- `alloc` of kernel/src/proc/process.rs.
use glenda.Prelude.{
  ap, sym, ◌∙◌, ◌≤◌, ◌<◌, ◌≡◌, refl, ℕ, zero, suc, ◌+◌, ◌%◌, ◌^◌, true, false, Option, none, some,
  ◌==◌, Outcome, ok, panic, stuck, arith, Bool-cases, inl, inr, leb,
}
use glenda.Proc.RunnableQueue.{nproc, mark_runnable}
use glenda.Proc.Scheduler.{Kernel, runnable, is_unused, lock, unlock, take_entry, alloc_from, alloc}
use glenda.Proc.Scheduler.Invariant.{Inv}

-- The first unused entry from `i` up to `i + n`, and what taking it leaves.
abbrev AllocatedFrom : ℕ → ℕ → Kernel → Option ℕ × Kernel → Type 0
AllocatedFrom n i k (none, r) =
    (r ≡ k) × ((j : ℕ) → i ≤ j → j < i + n → is_unused (k.procs j).state ≡ false)
AllocatedFrom n i k (some s, r) =
    (r ≡ take_entry s k)
    × (i ≤ s)
    × (s < i + n)
    × (is_unused (k.procs s).state ≡ true)
    × ((j : ℕ) → i ≤ j → j < s → is_unused (k.procs j).state ≡ false)

AllocatedFrom-step :
    (n i : ℕ) (k : Kernel) (a : Option ℕ × Kernel)
    → is_unused (k.procs i).state ≡ false
    → AllocatedFrom n (i + 1) k a
    → AllocatedFrom (suc n) i k a
AllocatedFrom-step n i k (none, r) used h = (
  h.0,
  λ j l m. elim (Bool-cases (j == i)) [
    | inl q ↦ let e : j ≡ i = ground arith in rw e used
    | inr q ↦ h.1 j (ground arith) (omega arith)
  ],
)
AllocatedFrom-step n i k (some s, r) used h = (
  h.0,
  omega (arith, h.1),
  omega (arith, h.2),
  h.3,
  λ j l m. elim (Bool-cases (j == i)) [
    | inl q ↦ let e : j ≡ i = ground arith in rw e used
    | inr q ↦ h.4 j (ground arith) m
  ],
)

alloc_from-AllocatedFrom : (n i : ℕ) (k : Kernel) → AllocatedFrom n i k (alloc_from n i k)
unfolding alloc_from
alloc_from-AllocatedFrom zero i k = (refl, λ j l m. absurd (omega arith))
alloc_from-AllocatedFrom (suc n) i k = elim (Bool-cases (is_unused (k.procs i).state)) [
  | inl e ↦ rw e (refl, omega arith, omega arith, e, λ j l m. absurd (omega arith))
  | inr e ↦
      rw e
        (AllocatedFrom-step n i k (alloc_from n (i + 1) k) e (alloc_from-AllocatedFrom n (i + 1) k))
]

-- What `alloc` may do.
abbrev pub Allocated : Kernel → Outcome (Option ℕ × Kernel) → Type 0
Allocated k (ok (none, r)) = (r ≡ k) × ((j : ℕ) → j < nproc → is_unused (k.procs j).state ≡ false)
Allocated k (ok (some s, r)) =
    (s < nproc)
    × (is_unused (k.procs s).state ≡ true)
    × ((j : ℕ) → j < s → is_unused (k.procs j).state ≡ false)
    × ((r.procs s).state ≡ runnable)
    × ((r.procs s).pid ≡ k.global_pid)
    × ((r.procs s).parent ≡ 0)
    × (r.bits s ≡ true)
    × ((j : ℕ) → (j == s) ≡ false → (r.procs j ≡ k.procs j) × (r.bits j ≡ k.bits j))
    × (r.global_pid ≡ (k.global_pid + 1) % 2 ^ 64)
    × (r.current ≡ k.current)
    × (r.held ≡ false)
Allocated k panic = ⊥
Allocated k stuck = ⊥

AllocatedFrom-Allocated :
    (k : Kernel) (a : Option ℕ × Kernel)
    → k.held ≡ false
    → AllocatedFrom nproc 0 (record k { held = true }) a
    → Allocated k (ok (a.0, unlock a.1))
unfolding take_entry mark_runnable
AllocatedFrom-Allocated k (none, r) free h = (
  ap unlock h.0 ∙ ap (λ b. record k { held = b }) (sym free),
  λ j m. h.1 j (omega arith) (omega arith),
)
AllocatedFrom-Allocated k (some s, r) free h =
    let small : leb 64 s ≡ false = ground (arith, h.2) in
    rw h.0 (
      omega (arith, h.2),
      h.3,
      λ j m. h.4 j (omega arith) m,
      ground arith,
      ground arith,
      ground arith,
      ground (arith, small),
      λ j q. ground (arith, small, q),
      refl,
      refl,
      refl,
    )

-- Where the table is not held, `alloc` ends. It takes the lowest unused entry, which becomes
-- runnable in the table and in the queue, gets the next pid and has no parent, and changes no other
-- entry; or it gives none and changes nothing, and then no entry is unused.
pub alloc-Allocated : (k : Kernel) → k.held ≡ false → Allocated k (alloc k)
unfolding alloc
alloc-Allocated k free =
    let l = record k { held = true } in
    let taken : lock k ≡ ok l = ground (arith, free) in
    rw taken
      (AllocatedFrom-Allocated k (alloc_from nproc 0 l) free (alloc_from-AllocatedFrom nproc 0 l))

-- The state after `alloc` has the invariant.
abbrev pub AllocKeeps : Outcome (Option ℕ × Kernel) → Type 0
AllocKeeps (ok (_, r)) = Inv r
AllocKeeps panic = ⊥
AllocKeeps stuck = ⊥

keeps_of_Allocated :
    (k : Kernel) (o : Outcome (Option ℕ × Kernel)) → Inv k → Allocated k o → AllocKeeps o
keeps_of_Allocated k (ok (none, r)) inv a = rw a.0 inv
keeps_of_Allocated k (ok (some s, r)) inv a = record {
  entries = λ j l.
      let e = inv.entries j l in
      elim (Bool-cases (j == s)) [
        | inl q ↦ let same : j ≡ s = ground arith in ground (arith, e, a.1, a.3, a.6, a.9, same)
        | inr q ↦ let o = a.7 j q in ground (arith, e, o, a.9)
      ];
  in_range = rw a.9 inv.in_range;
  free = a.10;
}
keeps_of_Allocated k panic inv a = a
keeps_of_Allocated k stuck inv a = a

pub alloc-Keeps : (k : Kernel) → Inv k → AllocKeeps (alloc k)
alloc-Keeps k inv = keeps_of_Allocated k (alloc k) inv (alloc-Allocated k inv.free)

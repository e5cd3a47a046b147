-- ===== src/Proc/Scheduler/Wait/Laws.antt =====
-- A round of `wait` against the children in the table.
use glenda.Prelude.{
  ap, sym, ◌≤◌, ◌<◌, ◌≡◌, refl, ℕ, zero, suc, ◌+◌, Bool, true, false, Option, none, some, ◌==◌,
  update, Outcome, ok, panic, stuck, arith, Bool-cases, inl, inr,
}
use glenda.Proc.RunnableQueue.{nproc, find_proc_index}
use glenda.Proc.Scheduler.{Kernel, Process, is_zombie, new_process, lock, address}
use glenda.Proc.Scheduler.Wait.{
  Waited, reaped, childless, stopped, scan, no_zombie, after_scan, wait_round,
}

abbrev pub is_child : ℕ → Process → Bool
is_child parent p = p.parent == parent

-- The entries from `i` up to `i + n` have no child, or a first zombie child, or only children that
-- are no zombies.
abbrev Scanned : ℕ → ℕ → ℕ → (ℕ → Process) → Bool × Option ℕ → Type 0
Scanned n i parent procs (have_kids, some z) =
    (i ≤ z)
    × (z < i + n)
    × (is_child parent (procs z) ≡ true)
    × (is_zombie (procs z).state ≡ true)
    × ((j : ℕ)
        → i ≤ j
        → j < z
        → is_child parent (procs j) ≡ true
        → is_zombie (procs j).state ≡ false)
Scanned n i parent procs (true, none) =
    ((z : ℕ) × (i ≤ z) × (z < i + n) × (is_child parent (procs z) ≡ true))
    × ((j : ℕ)
        → i ≤ j
        → j < i + n
        → is_child parent (procs j) ≡ true
        → is_zombie (procs j).state ≡ false)
Scanned n i parent procs (false, none) =
    (j : ℕ) → i ≤ j → j < i + n → is_child parent (procs j) ≡ false

module _ (n i parent : ℕ) (procs : ℕ → Process) where
  -- The entry `i` is no child.
  Scanned-other :
      (r : Bool × Option ℕ)
      → is_child parent (procs i) ≡ false
      → Scanned n (i + 1) parent procs r
      → Scanned (suc n) i parent procs r
  Scanned-other (have_kids, some z) other_i s = (
    omega (arith, s.0),
    omega (arith, s.1),
    s.2,
    s.3,
    λ j l m kid. elim (Bool-cases (j == i)) [
      | inl q ↦ let e : j ≡ i = ground arith in ground (arith, e, other_i, kid)
      | inr q ↦ s.4 j (ground arith) m kid
    ],
  )
  Scanned-other (true, none) other_i s = (
    (s.0.0, omega (arith, s.0.1), omega (arith, s.0.2), s.0.3),
    λ j l m kid. elim (Bool-cases (j == i)) [
      | inl q ↦ let e : j ≡ i = ground arith in ground (arith, e, other_i, kid)
      | inr q ↦ s.1 j (ground arith) (omega arith) kid
    ],
  )
  Scanned-other (false, none) other_i s = λ j l m. elim (Bool-cases (j == i)) [
    | inl q ↦ let e : j ≡ i = ground arith in rw e other_i
    | inr q ↦ s j (ground arith) (omega arith)
  ]

  -- The entry `i` is a child and no zombie.
  Scanned-child :
      (r : Bool × Option ℕ)
      → is_child parent (procs i) ≡ true
      → is_zombie (procs i).state ≡ false
      → Scanned n (i + 1) parent procs r
      → Scanned (suc n) i parent procs (true, r.1)
  Scanned-child (have_kids, some z) child_i live s = (
    omega (arith, s.0),
    omega (arith, s.1),
    s.2,
    s.3,
    λ j l m kid. elim (Bool-cases (j == i)) [
      | inl q ↦ let e : j ≡ i = ground arith in rw e live
      | inr q ↦ s.4 j (ground arith) m kid
    ],
  )
  Scanned-child (true, none) child_i live s = (
    (i, omega arith, omega arith, child_i),
    λ j l m kid. elim (Bool-cases (j == i)) [
      | inl q ↦ let e : j ≡ i = ground arith in rw e live
      | inr q ↦ s.1 j (ground arith) (omega arith) kid
    ],
  )
  Scanned-child (false, none) child_i live s = (
    (i, omega arith, omega arith, child_i),
    λ j l m kid. elim (Bool-cases (j == i)) [
      | inl q ↦ let e : j ≡ i = ground arith in rw e live
      | inr q ↦ let n_j = s j (ground arith) (omega arith) in ground (arith, n_j, kid)
    ],
  )

scan-Scanned :
    (n i parent : ℕ) (procs : ℕ → Process) → Scanned n i parent procs (scan n i parent procs)
unfolding scan
scan-Scanned zero i parent procs = λ j l m. absurd (omega arith)
scan-Scanned (suc n) i parent procs =
    let rest = scan n (i + 1) parent procs in
    let ih = scan-Scanned n (i + 1) parent procs in
    elim (Bool-cases (is_child parent (procs i))) [
      | inr other_i ↦ rw other_i (Scanned-other n i parent procs rest other_i ih)
      | inl child_i ↦ elim (Bool-cases (is_zombie (procs i).state)) [
        | inl z ↦
            rw child_i
              (rw z (omega arith, omega arith, child_i, z, λ j l m kid. absurd (omega arith)))
        | inr live ↦ rw child_i (rw live (Scanned-child n i parent procs rest child_i live ih))
      ]
    ]

module _ (base size : ℕ) where
  -- What a round may do.
  abbrev pub Waits : ℕ → Kernel → Outcome Waited → Type 0
  Waits i k (ok (reaped pid exit_code r)) =
      (z : ℕ) × (z < nproc)
      × (is_child (address base size i) (k.procs z) ≡ true)
      × (is_zombie (k.procs z).state ≡ true)
      × ((j : ℕ)
          → j < z
          → is_child (address base size i) (k.procs j) ≡ true
          → is_zombie (k.procs j).state ≡ false)
      × (pid ≡ (k.procs z).pid)
      × (exit_code ≡ (k.procs z).exit_code)
      × (r ≡ record k { procs = update k.procs z new_process })
  Waits i k (ok (childless r)) =
      ((j : ℕ) → j < nproc → is_child (address base size i) (k.procs j) ≡ false) × (r ≡ k)
  Waits i k (ok (stopped r)) = ⊥
  Waits i k panic = ⊥
  Waits i k stuck =
      ((z : ℕ) × (z < nproc) × (is_child (address base size i) (k.procs z) ≡ true))
      × ((j : ℕ)
          → j < nproc
          → is_child (address base size i) (k.procs j) ≡ true
          → is_zombie (k.procs j).state ≡ false)

  after_scan-Waits :
      (i : ℕ) (k : Kernel) (r : Bool × Option ℕ)
      → k.held ≡ false
      → Scanned nproc 0 (address base size i) k.procs r
      → Waits i k (after_scan base size i (record k { held = true }) r)
  unfolding after_scan no_zombie find_proc_index
  after_scan-Waits i k (have_kids, some z) free s = (
    z,
    omega (arith, s.1),
    s.2,
    s.3,
    λ j m kid. s.4 j (omega arith) m kid,
    refl,
    refl,
    ap (λ h. record k { procs = update k.procs z new_process; held = h }) (sym free),
  )
  after_scan-Waits i k (true, none) free s =
      ((s.0.0, omega (arith, s.0.2), s.0.3), λ j m kid. s.1 j (omega arith) (omega arith) kid)
  after_scan-Waits i k (false, none) free s =
      (λ j m. s j (omega arith) (omega arith), ap (λ h. record k { held = h }) (sym free))

  -- Where the table is not held, a round of `wait` of the process `i` reaps the first zombie child
  -- where there is one: it gives its pid and exit code and empties its entry, and changes no other.
  -- It gives none exactly where there is no child. With children and no zombie among them it never
  -- gets to `stop`: it holds the table where `find_proc_index` takes it again.
  pub wait_round-Waits :
      (i : ℕ) (k : Kernel) → k.held ≡ false → Waits i k (wait_round base size i k)
  unfolding wait_round
  wait_round-Waits i k free =
      let s = scan-Scanned nproc 0 (address base size i) k.procs in
      let taken : lock k ≡ ok (record k { held = true }) = ground (arith, free) in
      rw taken (after_scan-Waits i k (scan nproc 0 (address base size i) k.procs) free s)

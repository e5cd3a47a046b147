-- ===== src/Proc/Scheduler/Reach.antt =====
-- The states that the scheduler and the processes reach from boot, and what `scheduler` picks.
use glenda.Prelude.{
  sym, subst, ◌∙◌, ◌>>=◌, ◌<◌, ◌≡◌, refl, ℕ, true, false, Option, none, some, ◌==◌, Outcome, ok,
  panic, stuck, arith, Bool-cases, inl, inr, leb,
}
use glenda.Proc.RunnableQueue.{nproc, find_runnable, clear_runnable_bit}
use glenda.Proc.RunnableQueue.Laws.{IsLowest, find_runnable-IsLowest}
use glenda.Proc.Scheduler.{
  Kernel, new_process, running, is_runnable, lock, unlock, claim, pick, switched_back, alloc,
  wakeup, yield_proc, exit, sleep, set_proc, address,
}
use glenda.Proc.Scheduler.Fork.{fork, ForkKeeps, fork-Keeps}
use glenda.Proc.Scheduler.Invariant.{Inv, Keeps, pick-Keeps, wakeup-Keeps}
use glenda.Proc.Scheduler.Steps.{yield_proc-Keeps, exit-Keeps, sleep-stuck}
use glenda.Proc.Scheduler.Alloc.{alloc-Keeps, AllocKeeps}
use glenda.Proc.Scheduler.Wait.{wait_round, reaped, childless}
use glenda.Proc.Scheduler.Wait.Laws.{wait_round-Waits, Waits}

-- The statics as the kernel starts.
abbrev pub boot : Kernel
boot = record {
  procs = λ _. new_process;
  held = false;
  bits = λ _. false;
  current = none;
  global_pid = 1;
}

boot-Inv : Inv boot
boot-Inv = record { entries = λ j l. (refl, refl, refl); in_range = tt; free = refl }

-- `p.exit_code = code` of `sys_exit`, before `exit`.
abbrev pub with_code : ℕ → ℕ → Kernel → Kernel
with_code code i k = set_proc k i (record (k.procs i) { exit_code = code })

with_code-Inv : (code i : ℕ) (k : Kernel) → Inv k → Inv (with_code code i k)
with_code-Inv code i k inv = record {
  entries = λ j l.
      let e = inv.entries j l in
      elim (Bool-cases (j == i)) [
        | inl q ↦ let same : j ≡ i = ground arith in ground (arith, e, same)
        | inr q ↦ ground (arith, e, q)
      ];
  in_range = inv.in_range;
  free = inv.free;
}

module _ (base size : ℕ) where
  -- The calls of one hart between two context switches.
  pub data Step (k : Kernel) : Kernel → Type 0 where
    allocates : {o : Option ℕ} {r : Kernel} → alloc k ≡ ok (o, r) → Step k r
    forks :
        {i child : ℕ} {r : Kernel}
        → k.current ≡ some i
        → fork base size i k ≡ ok (child, r)
        → Step k r
    picks : {r : Kernel} → k.current ≡ none → pick k ≡ ok r → Step k r
    yields :
        {i : ℕ} {r : Kernel}
        → k.current ≡ some i
        → (yield_proc base size i k >>= switched_back i) ≡ ok r
        → Step k r
    sleeps :
        (channel : ℕ) {i : ℕ} {r : Kernel}
        → k.current ≡ some i
        → (sleep base size channel i k >>= switched_back i) ≡ ok r
        → Step k r
    exits :
        (code : ℕ) {i : ℕ} {r : Kernel}
        → k.current ≡ some i
        → (exit base size i (with_code code i k) >>= switched_back i) ≡ ok r
        → Step k r
    wakes : (channel : ℕ) {r : Kernel} → wakeup channel k ≡ ok r → Step k r
    reaps :
        {i pid exit_code : ℕ} {r : Kernel}
        → k.current ≡ some i
        → wait_round base size i k ≡ ok (reaped pid exit_code r)
        → Step k r
    finds_none :
        {i : ℕ} {r : Kernel}
        → k.current ≡ some i
        → wait_round base size i k ≡ ok (childless r)
        → Step k r

  pub data Reachable : Kernel → Type 0 where
    start : Reachable boot
    step : {k r : Kernel} → Reachable k → Step k r → Reachable r

  Keeps-at : {o : Outcome Kernel} {r : Kernel} → o ≡ ok r → Keeps o → Inv r
  Keeps-at e k = subst Keeps e k

  reaped-Inv :
      (i pid exit_code : ℕ) (k r : Kernel)
      → Inv k
      → Waits base size i k (ok (reaped pid exit_code r))
      → Inv r
  reaped-Inv i pid exit_code k r inv w = rw w.7 (record {
    entries = λ j l.
        let e = inv.entries j l in
        let z = inv.entries w.0 w.1 in
        elim (Bool-cases (j == w.0)) [
          | inl q ↦ let same : j ≡ w.0 = ground arith in ground (arith, e, z, w.3, same)
          | inr q ↦ ground (arith, e, q)
        ];
    in_range = inv.in_range;
    free = inv.free;
  })

  Step-Inv : (positive : 0 < size) {k r : Kernel} → Inv k → Step k r → Inv r
  Step-Inv positive {k} {r} inv (allocates {o} e) = subst AllocKeeps e (alloc-Keeps k inv)
  Step-Inv positive {k} {r} inv (picks idle e) = Keeps-at e (pick-Keeps k inv idle)
  Step-Inv positive {k} {r} inv (yields {i} cur e) =
      Keeps-at e (yield_proc-Keeps base size positive i k inv cur)
  Step-Inv positive {k} {r} inv (sleeps channel {i} cur e) =
      ground (arith, sleep-stuck base size channel i k, e)
  Step-Inv positive {k} {r} inv (forks {i} cur e) =
      (subst (ForkKeeps (address base size i)) e (fork-Keeps base size i k inv)).0
  Step-Inv positive {k} {r} inv (exits code {i} cur e) =
      Keeps-at e
        (exit-Keeps base size positive i (with_code code i k) (with_code-Inv code i k inv) cur)
  Step-Inv positive {k} {r} inv (finds_none {i} cur e) =
      let w = subst (Waits base size i k) e (wait_round-Waits base size i k inv.free) in rw w.1 inv
  Step-Inv positive {k} {r} inv (wakes channel e) = Keeps-at e (wakeup-Keeps channel k inv)
  Step-Inv positive {k} {r} inv (reaps {i} {pid} {exit_code} cur e) =
      let w = subst (Waits base size i k) e (wait_round-Waits base size i k inv.free) in
      reaped-Inv i pid exit_code k r inv w

  -- Every state that one hart reaches from boot by calls of `alloc`, `fork`, `yield_proc`, `sleep`,
  -- `exit`, `wakeup` and `wait` and by rounds of `scheduler` has the invariant: the queue marks exactly
  -- the runnable processes, exactly the process that the hart runs is running, none is left dying, and
  -- the table is not held. The size of a process is positive.
  pub Reachable-Inv : 0 < size → (k : Kernel) → Reachable k → Inv k
  Reachable-Inv positive k start = boot-Inv
  Reachable-Inv positive k (step {k = before} path s) =
      Step-Inv positive (Reachable-Inv positive before path) s

-- What a round may do.
abbrev pub PicksAt : Kernel → Kernel → Option ℕ → Type 0
PicksAt k r none = (r ≡ k) × ((j : ℕ) → j < nproc → is_runnable (k.procs j).state ≡ false)
PicksAt k r (some i) =
    (i < nproc)
    × (is_runnable (k.procs i).state ≡ true)
    × ((j : ℕ) → j < i → is_runnable (k.procs j).state ≡ false)
    × ((r.procs i).state ≡ running)
    × (r.bits i ≡ false)
    × ((j : ℕ) → (j == i) ≡ false → (r.procs j ≡ k.procs j) × (r.bits j ≡ k.bits j))

abbrev pub Picks : Kernel → Outcome Kernel → Type 0
Picks k (ok r) = PicksAt k r r.current
Picks k panic = ⊥
Picks k stuck = ⊥

claim-PicksAt :
    (i : ℕ) (k : Kernel)
    → Inv k
    → IsLowest 64 0 k.bits (some i)
    → PicksAt k
        (unlock (claim i (record k { held = true })))
        (unlock (claim i (record k { held = true }))).current
unfolding claim clear_runnable_bit
claim-PicksAt i k inv low =
    let h : i < nproc = omega (arith, low) in
    let at_i = inv.entries i h in
    let run : is_runnable (k.procs i).state ≡ true = ground (arith, at_i, low.2) in
    let small : leb 64 i ≡ false = ground arith in
    rw run (
      h,
      run,
      λ j m. let e = inv.entries j (omega arith) in sym e.0 ∙ low.3 j (omega arith) m,
      ground arith,
      ground (arith, small),
      λ j q. ground (arith, small, q),
    )

pick_at-Picks :
    (k : Kernel) (o : Option ℕ)
    → Inv k
    → k.current ≡ none
    → IsLowest 64 0 k.bits o
    → Picks k (elim o [ none ↦ ok k | some i ↦ lock k >>= λ l. ok (unlock (claim i l)) ])
pick_at-Picks k none inv idle low =
    rw idle (refl, λ j l. sym (inv.entries j l).0 ∙ low j (omega arith) (omega arith))
pick_at-Picks k (some i) inv idle low =
    let taken : lock k ≡ ok (record k { held = true }) = ground (arith, inv.free) in
    rw taken (claim-PicksAt i k inv low)

-- Where the invariant holds and the hart runs no process, the first half of a round of `scheduler`
-- ends. With nothing runnable in the table it changes nothing. Otherwise the hart runs the lowest
-- runnable process of the table, which is marked as running and is off the queue, and the other
-- entries are as they were.
pub pick-Picks : (k : Kernel) → Inv k → k.current ≡ none → Picks k (pick k)
unfolding pick
pick-Picks k inv idle =
    pick_at-Picks k (find_runnable k.bits) inv idle (find_runnable-IsLowest k.bits)

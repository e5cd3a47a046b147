-- ===== src/Proc/Scheduler/Steps.antt =====
-- The process that the hart runs gives it up, or exits, and the second half of `scheduler`.
use glenda.Prelude.{
  ◌>>=◌, ◌∙◌, ◌*◌, ℕ, zero, suc, ◌+◌, ◌<◌, ◌≡◌, refl, true, false, arith, leb, ◌==◌, Bool-cases,
  inl, inr, Outcome, ok, panic, stuck, Option, none, some, is_at,
}
use glenda.Proc.RunnableQueue.{nproc, mark_runnable, mark_not_runnable, find_proc_index}
use glenda.Proc.RunnableQueue.Laws.{find_proc_index-entry}
use glenda.Proc.Scheduler.{
  Kernel, dying, runnable, is_running, is_runnable, set_proc, wakeup, unlock, settle, switched_back,
  yield_proc, sleep, exit, reparent_below, wake_parent,
}
use glenda.Proc.Scheduler.Wake.{wakeup-Woken, Woken}
use glenda.Proc.Scheduler.Invariant.{EntryOk, InRange, Inv, Keeps, wakeup-Keeps}

-- The process `i` is about to switch to the scheduler: it does not run any more, and the queue
-- says whether it is runnable.
pub record Left (i : ℕ) (k : Kernel) : Type 0 where
  pub others : (j : ℕ) → j < nproc → (j == i) ≡ false → EntryOk (k.procs j).state (k.bits j) false
  pub stopped : is_running (k.procs i).state ≡ false
  pub bit : k.bits i ≡ is_runnable (k.procs i).state
  pub free : k.held ≡ false

settle-Inv :
    (i : ℕ) (k : Kernel)
    → i < nproc
    → Left i k
    → Inv (unlock (settle i (record k { current = none; held = true })))
unfolding settle mark_runnable
settle-Inv i k h left =
    let small : leb 64 i ≡ false = ground arith in
    let idle : (settle i (record k { current = none; held = true })).current ≡ none =
      ground arith in
    record {
      entries = λ j l. elim (Bool-cases (j == i)) [
        | inl q ↦ let s : j ≡ i = ground arith in ground (arith, small, left.stopped, left.bit)
        | inr q ↦ let e = left.others j l q in ground (arith, small, e)
      ];
      in_range = rw idle tt;
      free = refl;
    }

pub switched_back-Keeps : (i : ℕ) (k : Kernel) → i < nproc → Left i k → Keeps (switched_back i k)
unfolding switched_back
switched_back-Keeps i k h left = rw left.free (settle-Inv i k h left)

InRange-at : (i : ℕ) (o : Option ℕ) → o ≡ some i → InRange o → i < nproc
InRange-at i none e h = cc
InRange-at i (some j) e h = ground (arith, e, h)

module _ (base size : ℕ) where
  -- `sleep` never gets to its context switch, in any state: it holds the process table, or waits for
  -- it, where `find_proc_index` takes it again.
  pub sleep-stuck : (channel i : ℕ) (k : Kernel) → sleep base size channel i k ≡ stuck
  unfolding sleep find_proc_index
  sleep-stuck channel i k = elim (Bool-cases k.held) [ inl e ↦ rw e refl | inr e ↦ rw e refl ]

module _ (base size : ℕ) (positive : 0 < size) where
  yield_proc-Left :
      (i : ℕ) (k : Kernel)
      → Inv k
      → k.current ≡ some i
      → i < nproc
      → (r : Kernel) × (yield_proc base size i k ≡ ok r) × Left i r
  unfolding yield_proc mark_runnable
  yield_proc-Left i k inv cur h =
      let at_i = inv.entries i h in
      let run : is_running (k.procs i).state ≡ true = ground (arith, at_i, cur) in
      let small : leb 64 i ≡ false = ground arith in
      let found : find_proc_index base size k.held (base + i * size) ≡ ok (some i) =
        rw inv.free (find_proc_index-entry base size i positive h) in
      (
        record (set_proc k i (record (k.procs i) { state = runnable })) {
          bits = mark_runnable i k.bits;
        },
        rw run (rw found refl),
        record {
          others = λ j l q. let e = inv.entries j l in ground (arith, small, e, cur);
          stopped = ground arith;
          bit = ground (arith, small);
          free = inv.free;
        },
      )

  -- A process that gives up the hart leaves the invariant to the next one.
  pub yield_proc-Keeps :
      (i : ℕ) (k : Kernel)
      → Inv k
      → k.current ≡ some i
      → Keeps (yield_proc base size i k >>= switched_back i)
  yield_proc-Keeps i k inv cur =
      let h : i < nproc = InRange-at i k.current cur inv.in_range in
      let (r, e, left) = yield_proc-Left i k inv cur h in rw e (switched_back-Keeps i r h left)

  abbrev SameStates : Kernel → Kernel → Type 0
  SameStates k r =
      ((j : ℕ) → (r.procs j).state ≡ (k.procs j).state)
      × (r.bits ≡ k.bits)
      × (r.current ≡ k.current)
      × (r.held ≡ k.held)

  reparent_below-SameStates : (i n : ℕ) (k : Kernel) → SameStates k (reparent_below base size i n k)
  unfolding reparent_below
  reparent_below-SameStates i zero k = (λ j. refl, refl, refl, refl)
  reparent_below-SameStates i (suc n) k =
      let ih = reparent_below-SameStates i n k in
      (
        λ j. let a = ih.0 j in let b = ih.0 n in ground (arith, a, b),
        ground (arith, ih.1),
        ground (arith, ih.2),
        ground (arith, ih.3),
      )

  ok_of_Woken :
      (channel : ℕ) (k : Kernel) (o : Outcome Kernel)
      → Keeps o
      → Woken channel k o
      → (r : Kernel) × (o ≡ ok r) × Inv r × (r.current ≡ k.current)
  ok_of_Woken channel k (ok r) inv w = (r, refl, inv, w.0.2)
  ok_of_Woken channel k panic inv w = absurd w
  ok_of_Woken channel k stuck inv w = absurd inv

  wake_parent-Inv :
      (parent : ℕ) (k : Kernel)
      → Inv k
      → (r : Kernel) × (wake_parent base size parent k ≡ ok r) × Inv r × (r.current ≡ k.current)
  unfolding wake_parent
  wake_parent-Inv parent k inv = elim (Bool-cases (parent == 0)) [
    | inl e ↦ rw e (k, refl, inv, refl)
    | inr e ↦
        rw e (
          ok_of_Woken parent k (wakeup parent k) (wakeup-Keeps parent k inv)
            (wakeup-Woken parent k))
  ]

  -- The last lines of `exit`.
  abbrev dropped : ℕ → Kernel → Kernel
  dropped i k =
      set_proc (record k { bits = mark_not_runnable i k.bits; held = false }) i
        (record (k.procs i) { state = dying })

  dropped-Left :
      (i : ℕ) (k : Kernel)
      → i < nproc
      → ((j : ℕ) → j < nproc → (j == i) ≡ false → EntryOk (k.procs j).state (k.bits j) false)
      → Left i (dropped i k)
  unfolding mark_not_runnable
  dropped-Left i k h others =
      let small : leb 64 i ≡ false = ground arith in
      record {
        others = λ j m q. let o = others j m q in ground (arith, small, o);
        stopped = ground arith;
        bit = ground (arith, small);
        free = refl;
      }

  others_of_SameStates :
      (i : ℕ) (k r : Kernel)
      → Inv k
      → k.current ≡ some i
      → SameStates (record k { held = true }) r
      → (j : ℕ) → j < nproc
      → (j == i) ≡ false
      → EntryOk (r.procs j).state (r.bits j) false
  others_of_SameStates i k r inv cur same j m q =
      let e = inv.entries j m in
      let other : is_at j k.current ≡ false = rw cur (ground arith) in
      let s = same.0 j in (rw same.1 (rw s e.0), rw s (e.1 ∙ other), rw s e.2)

  exit-Left :
      (i : ℕ) (k : Kernel)
      → Inv k
      → k.current ≡ some i
      → i < nproc
      → (r : Kernel) × (exit base size i k ≡ ok r) × Left i r
  unfolding exit
  exit-Left i k inv cur h =
      let (w, e, inv', cur') = wake_parent-Inv (k.procs i).parent k inv in
      let l = record w { held = true } in
      let moved = reparent_below base size i nproc l in
      let same = reparent_below-SameStates i nproc l in
      (
        dropped i moved,
        rw e (rw inv'.free refl),
        dropped-Left i moved h (others_of_SameStates i w moved inv' (cur' ∙ cur) same),
      )

  -- A process that exits leaves the invariant, and is a zombie after the switch.
  pub exit-Keeps :
      (i : ℕ) (k : Kernel)
      → Inv k
      → k.current ≡ some i
      → Keeps (exit base size i k >>= switched_back i)
  exit-Keeps i k inv cur =
      let h : i < nproc = InRange-at i k.current cur inv.in_range in
      let (r, e, left) = exit-Left i k inv cur h in rw e (switched_back-Keeps i r h left)

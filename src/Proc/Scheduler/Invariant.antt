-- ===== src/Proc/Scheduler/Invariant.antt =====
-- The invariant of the scheduler between two context switches.
use glenda.Prelude.{
  ◌>>=◌, ℕ, ◌<◌, ◌≡◌, refl, Bool, true, false, arith, leb, ◌==◌, Bool-cases, inl, inr, Outcome, ok,
  panic, stuck, Option, none, some, is_at,
}
use glenda.Proc.RunnableQueue.{nproc, clear_runnable_bit, find_runnable}
use glenda.Proc.RunnableQueue.Laws.{find_runnable-IsLowest, IsLowest}
use glenda.Proc.Scheduler.{
  Kernel, ProcState, is_running, is_runnable, is_dying, wakeup, lock, unlock, claim, pick,
}
use glenda.Proc.Scheduler.Wake.{wakeup-Woken, Woken}

-- The entry `j` in the state `s` with the bit `b`, where `c` says whether the hart runs it: the bit
-- says whether it is runnable, it is running exactly where the hart runs it, and it is not dying.
abbrev pub EntryOk : ProcState → Bool → Bool → Type 0
EntryOk s b c = (b ≡ is_runnable s) × (is_running s ≡ c) × (is_dying s ≡ false)

abbrev pub InRange : Option ℕ → Type 0
InRange none = Unit
InRange (some i) = i < nproc

pub record Inv (k : Kernel) : Type 0 where
  pub entries : (j : ℕ) → j < nproc → EntryOk (k.procs j).state (k.bits j) (is_at j k.current)
  pub in_range : InRange k.current
  pub free : k.held ≡ false

-- Every outcome keeps the invariant, and none is a lock that never comes.
abbrev pub Keeps : Outcome Kernel → Type 0
Keeps (ok k) = Inv k
Keeps panic = ⊥
Keeps stuck = ⊥

Woken-Keeps : (channel : ℕ) (k : Kernel) (o : Outcome Kernel) → Inv k → Woken channel k o → Keeps o
Woken-Keeps channel k (ok r) inv w = record {
  entries = λ j l. let e = inv.entries j l in let a = w.0.0 j l in ground (arith, e, a, w.0.2);
  in_range = rw w.0.2 inv.in_range;
  free = ground (arith, w, inv.free);
}
Woken-Keeps channel k panic inv w = w
Woken-Keeps channel k stuck inv w = absurd (ground (arith, w, inv.free))

pub wakeup-Keeps : (channel : ℕ) (k : Kernel) → Inv k → Keeps (wakeup channel k)
wakeup-Keeps channel k inv = Woken-Keeps channel k (wakeup channel k) inv (wakeup-Woken channel k)

claim-Inv :
    (i : ℕ) (k : Kernel)
    → i < nproc
    → k.bits i ≡ true
    → k.current ≡ none
    → Inv k
    → Inv (unlock (claim i (record k { held = true })))
unfolding claim clear_runnable_bit
claim-Inv i k h set idle inv =
    let at_i = inv.entries i h in
    let run : is_runnable (k.procs i).state ≡ true = ground (arith, at_i) in
    let small : leb 64 i ≡ false = ground arith in
    rw run (record {
      entries = λ j l. elim (Bool-cases (j == i)) [
        | inl q ↦ let s : j ≡ i = ground arith in ground (arith, small)
        | inr q ↦ let e = inv.entries j l in ground (arith, small, e, idle)
      ];
      in_range = h;
      free = refl;
    })

pick_at :
    (k : Kernel) (o : Option ℕ)
    → Inv k
    → k.current ≡ none
    → IsLowest 64 0 k.bits o
    → Keeps (elim o [ none ↦ ok k | some i ↦ lock k >>= λ l. ok (unlock (claim i l)) ])
pick_at k none inv idle low = inv
pick_at k (some i) inv idle low = rw inv.free (claim-Inv i k (omega (arith, low)) low.2 idle inv)

pub pick-Keeps : (k : Kernel) → Inv k → k.current ≡ none → Keeps (pick k)
unfolding pick
pick-Keeps k inv idle = pick_at k (find_runnable k.bits) inv idle (find_runnable-IsLowest k.bits)

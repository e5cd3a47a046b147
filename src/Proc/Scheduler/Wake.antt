-- ===== src/Proc/Scheduler/Wake.antt =====
-- `wakeup` of kernel/src/proc/scheduler.rs against a description of the table entry by entry.
use glenda.Prelude.{
  ℕ, zero, suc, ◌≤◌, ◌<◌, ◌≡◌, refl, Bool, true, false, ◌&&◌, ◌||◌, arith, leb, ◌==◌, Bool-cases,
  inl, inr, if◌then◌else◌, Outcome, ok, panic, stuck,
}
use glenda.Proc.RunnableQueue.{nproc, mark_runnable}
use glenda.Proc.Scheduler.{Kernel, Process, runnable, is_sleeping, wake_one, wake_below, wakeup}

-- The process sleeps on the channel.
abbrev pub sleeps_on : ℕ → Process → Bool
sleeps_on channel p = is_sleeping p.state && p.sleep_chan == channel

abbrev pub woken : ℕ → Process → Process
woken channel p = if sleeps_on channel p then record p { state = runnable; sleep_chan = 0 } else p

-- The entries below `n` are woken, the others as they were.
abbrev pub WokenBelow : ℕ → ℕ → Kernel → Kernel → Type 0
WokenBelow n channel k r =
    ((j : ℕ)
      → j < n
      → (r.procs j ≡ woken channel (k.procs j))
        × (r.bits j ≡ (sleeps_on channel (k.procs j) || k.bits j)))
    × ((j : ℕ) → n ≤ j → (r.procs j ≡ k.procs j) × (r.bits j ≡ k.bits j))
    × (r.current ≡ k.current)
    × (r.held ≡ k.held)
    × (r.global_pid ≡ k.global_pid)

wake_one-WokenBelow :
    (n channel : ℕ) (k r : Kernel)
    → n < nproc
    → WokenBelow n channel k r
    → WokenBelow (suc n) channel k (wake_one channel n r)
unfolding wake_one mark_runnable
wake_one-WokenBelow n channel k r h w =
    let small : leb 64 n ≡ false = ground arith in
    let at_n = w.1 n (omega arith) in
    elim (Bool-cases (sleeps_on channel (k.procs n))) [
      | inl e ↦ (
        λ j l. elim (Bool-cases (j == n)) [
          | inl q ↦ let s : j ≡ n = ground arith in ground (arith, at_n)
          | inr q ↦ let b = w.0 j (ground arith) in ground (arith, b, at_n)
        ],
        λ j l. let a = w.1 j (omega arith) in ground (arith, a, at_n),
        ground (arith, at_n, w.2),
        ground (arith, at_n, w.2),
        ground (arith, at_n, w.2),
      )
      | inr e ↦
          let same : wake_one channel n r ≡ r = ground (arith, at_n) in
          rw same (
            λ j l. elim (Bool-cases (j == n)) [
              | inl q ↦ let s : j ≡ n = ground arith in ground (arith, at_n)
              | inr q ↦ w.0 j (ground arith)
            ],
            λ j l. w.1 j (omega arith),
            w.2,
            w.3,
            w.4,
          )
    ]

wake_below-WokenBelow :
    (n channel : ℕ) (k : Kernel) → n ≤ nproc → WokenBelow n channel k (wake_below channel n k)
unfolding wake_below
wake_below-WokenBelow zero channel k h =
    (λ j l. absurd (omega arith), λ j l. (refl, refl), refl, refl, refl)
wake_below-WokenBelow (suc n) channel k h =
    wake_one-WokenBelow n channel k (wake_below channel n k) (omega arith)
      (wake_below-WokenBelow n channel k (omega arith))

-- What `wakeup` may do.
abbrev pub Woken : ℕ → Kernel → Outcome Kernel → Type 0
Woken channel k (ok r) = WokenBelow nproc channel k r × (k.held ≡ false)
Woken channel k panic = ⊥
Woken channel k stuck = k.held ≡ true

-- `wakeup` makes exactly the processes that sleep on the channel runnable, in the table and in the
-- queue, and changes nothing else; it spins forever exactly where the table is held.
pub wakeup-Woken : (channel : ℕ) (k : Kernel) → Woken channel k (wakeup channel k)
unfolding wakeup
wakeup-Woken channel k = elim (Bool-cases k.held) [
  | inl e ↦ rw e refl
  | inr e ↦
      let l = record k { held = true } in
      let w = wake_below-WokenBelow nproc channel l (omega arith) in
      rw e ((w.0, w.1, w.2, refl, w.4), refl)
]

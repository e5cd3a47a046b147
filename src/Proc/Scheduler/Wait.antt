-- ===== src/Proc/Scheduler/Wait.antt =====
-- `wait` of kernel/src/proc/scheduler.rs: one round of its loop, up to a return or to `stop`.
pub mod Laws
use glenda.Prelude.{
  ◌>>=◌, ℕ, zero, suc, ◌+◌, Bool, true, false, Option, none, some, ◌==◌, if◌then◌else◌, update,
  Outcome, ok, stuck,
}
use glenda.Proc.RunnableQueue.{nproc, mark_not_runnable, find_proc_index}
use glenda.Proc.Scheduler.{
  Kernel, Process, ProcState, sleeping, is_zombie, new_process, set_proc, lock, unlock, address,
  at_index,
}

-- How a round ends: `Some((pid, exit_code))`, `None`, or at `stop()`.
pub data Waited : Type 0 where
  reaped : ℕ → ℕ → Kernel → Waited
  childless : Kernel → Waited
  stopped : Kernel → Waited

-- The loop over the table from the entry `i` on: `have_kids`, and the zombie that stops it.
scan : ℕ → ℕ → ℕ → (ℕ → Process) → Bool × Option ℕ
scan zero i parent procs = (false, none)
scan (suc n) i parent procs =
    let rest = scan n (i + 1) parent procs in
    if (procs i).parent == parent
    then (if is_zombie (procs i).state then (true, some i) else (true, rest.1))
    else rest

module _ (base size : ℕ) where
  -- The end of a round without a zombie; the table is held.
  no_zombie : ℕ → Bool → Kernel → Outcome Waited
  no_zombie i have_kids k =
      let address_i = address base size i in
      let p = record (k.procs i) { state = sleeping; sleep_chan = address_i } in
      let asleep = at_index base size mark_not_runnable i (set_proc k i p) in
      if have_kids then (asleep >>= λ m. ok (stopped (unlock m))) else ok (childless (unlock k))

  after_scan : ℕ → Kernel → Bool × Option ℕ → Outcome Waited
  unfolding no_zombie
  after_scan i k (have_kids, some z) =
      ok (reaped (k.procs z).pid (k.procs z).exit_code (unlock (set_proc k z new_process)))
  after_scan i k (have_kids, none) = no_zombie i have_kids k

  unfoldable pub wait_round : ℕ → Kernel → Outcome Waited
  unfolding scan after_scan
  wait_round i k = do l ← lock k; after_scan i l (scan nproc 0 (address base size i) l.procs)

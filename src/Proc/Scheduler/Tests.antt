-- ===== src/Proc/Scheduler/Tests.antt =====
-- The theorems on the process table and the scheduler at concrete inputs.
use glenda.Prelude.{
  ℕ, Outcome, panic, ◌>>=◌, ◌≡◌, refl, true, false, none, some, arith, ok, update, stuck,
}
use glenda.Proc.RunnableQueue.{
  mark_runnable, mark_not_runnable, clear_runnable_bit, find_runnable, find_proc_index,
}
use glenda.Proc.Scheduler.{
  Kernel, sleeping, zombie, runnable, running, new_process, alloc, pick, wakeup, sleep, exit,
  switched_back, take_entry, alloc_from,
}
use glenda.Proc.Scheduler.Wake.{Woken, wakeup-Woken}
use glenda.Proc.Scheduler.Invariant.{Inv}
use glenda.Proc.Scheduler.Steps.{sleep-stuck}
use glenda.Proc.Scheduler.Alloc.{Allocated, alloc-Allocated}
use glenda.Proc.Scheduler.Fork.{fork}
use glenda.Proc.Scheduler.Reach.{
  boot, Reachable, start, step, allocates, picks, forks, exits, with_code, Reachable-Inv, Picks,
  pick-Picks,
}
use glenda.Proc.Scheduler.Wait.{wait_round}
use glenda.Proc.Scheduler.Wait.Laws.{Waits, wait_round-Waits}

abbrev table_base : ℕ
table_base = 0x8020_0000

abbrev process_size : ℕ
process_size = 520

-- The state after the first `alloc`.
abbrev one : Kernel
one = record {
  procs = update (λ _. new_process) 0 (record new_process { state = runnable; pid = 1 });
  held = false;
  bits = update (λ _. false) 0 true;
  current = none;
  global_pid = 2;
}

alloc-boot : alloc boot ≡ ok (some 0, one)
unfolding alloc alloc_from take_entry mark_runnable
alloc-boot = refl

one-Reachable : Reachable table_base process_size one
one-Reachable = step start (allocates alloc-boot)

-- The process 0 runs; its children 3 and 4 are asleep and a zombie.
abbrev family : Kernel
family = record {
  procs =
      update
        (update (update (λ _. new_process) 0 (record new_process { state = running; pid = 1 })) 3
          (record new_process { state = sleeping; sleep_chan = 7; parent = table_base; pid = 2 }))
        4 (record new_process { state = zombie; parent = table_base; pid = 3; exit_code = 9 });
  held = false;
  bits = λ _. false;
  current = some 0;
  global_pid = 4;
}

one-Inv : Inv one
one-Inv = Reachable-Inv table_base process_size (omega arith) one one-Reachable

wakeup-Woken_example : Woken 7 family (wakeup 7 family)
wakeup-Woken_example = wakeup-Woken 7 family

alloc-Allocated_example : Allocated boot (alloc boot)
alloc-Allocated_example = alloc-Allocated boot refl

-- The state that a call leaves.
abbrev state_of : Outcome Kernel → Kernel
state_of (ok k) = k
state_of panic = boot
state_of stuck = boot

-- The process 0 runs, and makes the process 1, which is its child.
abbrev forked : Kernel
forked = state_of (do k ← pick one; r ← fork table_base process_size 0 k; ok r.1)

-- It exits, and the child runs and exits, which wakes the process at its parent's address.
abbrev left : Kernel
left = state_of (exit table_base process_size 0 (with_code 3 0 forked) >>= switched_back 0)

abbrev child_runs : Kernel
child_runs = state_of (pick left)

abbrev both_left : Kernel
both_left = state_of (exit table_base process_size 1 (with_code 4 1 child_runs) >>= switched_back 1)

child_left :
    both_left.procs 1
    ≡ record { state = zombie; parent = table_base; exit_code = 4; sleep_chan = 0; pid = 2 }
unfolding alloc alloc_from take_entry mark_runnable mark_not_runnable clear_runnable_bit
    find_runnable find_proc_index pick wakeup exit fork switched_back
child_left = refl

both_left-Reachable : Reachable table_base process_size both_left
unfolding alloc alloc_from take_entry mark_runnable mark_not_runnable clear_runnable_bit
    find_runnable find_proc_index pick wakeup exit fork switched_back
both_left-Reachable =
    step
      (step
        (step (step (step one-Reachable (picks refl refl)) (forks {i = 0} refl refl))
          (exits 3 {i = 0} refl refl))
        (picks refl refl))
      (exits 4 {i = 1} refl refl)

Reachable-Inv_example : Inv both_left
Reachable-Inv_example =
    Reachable-Inv table_base process_size (omega arith) both_left both_left-Reachable

pick-Picks_example : Picks one (pick one)
pick-Picks_example = pick-Picks one one-Inv refl

wait_round-Waits_example :
    Waits table_base process_size 0 family (wait_round table_base process_size 0 family)
wait_round-Waits_example = wait_round-Waits table_base process_size 0 family refl

sleep-stuck_example : sleep table_base process_size 7 0 family ≡ stuck
sleep-stuck_example = sleep-stuck table_base process_size 7 0 family

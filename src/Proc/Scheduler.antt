-- ===== src/Proc/Scheduler.antt =====
-- kernel/src/proc/scheduler.rs, and `alloc` and `exit` of kernel/src/proc/process.rs, for one hart.
-- A process is named by its index in the table, and by its address `base + i * size` where the
-- source keeps a pointer or uses it as a channel; the pointer 0 is null. A function here is a
-- stretch of code with interrupts off, up to a context switch. Closing the files of
-- a process and freeing its memory belong to other parts.
pub mod Wake
pub mod Invariant
pub mod Steps
pub mod Alloc
pub mod Fork
pub mod Reach
pub mod Wait
mod Tests
use glenda.Prelude.{
  ℕ, zero, suc, ◌+◌, ◌*◌, Bool, true, false, ◌&&◌, ◌%◌, ◌^◌, Outcome, ok, stuck, ◌>>=◌, Option,
  none, some, ◌==◌, if◌then◌else◌, update,
}
use glenda.Proc.RunnableQueue.{
  nproc, Bitmap, mark_runnable, mark_not_runnable, clear_runnable_bit, find_runnable,
  find_proc_index,
}

pub data ProcState : Type 0 where
  unused zombie dying sleeping runnable running : ProcState

abbrev pub is_unused : ProcState → Bool
is_unused unused = true
is_unused _ = false

abbrev pub is_zombie : ProcState → Bool
is_zombie zombie = true
is_zombie _ = false

abbrev pub is_dying : ProcState → Bool
is_dying dying = true
is_dying _ = false

abbrev pub is_sleeping : ProcState → Bool
is_sleeping sleeping = true
is_sleeping _ = false

abbrev pub is_runnable : ProcState → Bool
is_runnable runnable = true
is_runnable _ = false

abbrev pub is_running : ProcState → Bool
is_running running = true
is_running _ = false

-- The fields that scheduling reads and writes.
pub record Process : Type 0 where
  pub state : ProcState
  pub parent : ℕ
  pub exit_code : ℕ
  pub sleep_chan : ℕ
  pub pid : ℕ

abbrev pub new_process : Process
new_process = record { state = unused; parent = 0; exit_code = 0; sleep_chan = 0; pid = 0 }

-- `PROC_TABLE` and whether its lock is held, `RUNNABLE_BITMAP`, `hart.proc` and `GLOBAL_PID`.
pub record Kernel : Type 0 where
  pub procs : ℕ → Process
  pub held : Bool
  pub bits : Bitmap
  pub current : Option ℕ
  pub global_pid : ℕ

abbrev pub set_proc : Kernel → ℕ → Process → Kernel
set_proc k i p = record k { procs = update k.procs i p }

-- `PROC_TABLE.lock()`, and the end of the guard's scope.
abbrev pub lock : Kernel → Outcome Kernel
lock k = if k.held then stuck else ok (record k { held = true })

abbrev pub unlock : Kernel → Kernel
unlock k = record k { held = false }

-- The block of `scheduler` that holds the lock, for the process `i` that the queue gives.
claim : ℕ → Kernel → Kernel
claim i k =
    let cleared = record k { bits = clear_runnable_bit i k.bits } in
    if is_runnable (k.procs i).state
    then record (set_proc cleared i (record (k.procs i) { state = running })) { current = some i }
    else cleared

-- The first half of a round of `scheduler`, up to the switch to the process.
unfoldable pub pick : Kernel → Outcome Kernel
unfolding claim
pick k = elim (find_runnable k.bits) [
  | none ↦ ok k
  | some i ↦ lock k >>= λ l. ok (unlock (claim i l))
]

settle : ℕ → Kernel → Kernel
settle i k =
    let p = k.procs i in
    if is_dying p.state
    then set_proc k i (record p { state = zombie })
    else if is_runnable p.state
    then record k { bits = mark_runnable i k.bits }
    else k

-- The second half, after the switch back from the process `i`.
unfoldable pub switched_back : ℕ → Kernel → Outcome Kernel
unfolding settle
switched_back i k = do l ← lock (record k { current = none }); ok (unlock (settle i l))

take_entry : ℕ → Kernel → Kernel
take_entry i k =
    let p = record (k.procs i) {
      state = runnable;
      parent = 0;
      exit_code = 0;
      sleep_chan = 0;
      pid = k.global_pid;
    } in
    record (set_proc k i p) {
      bits = mark_runnable i k.bits;
      global_pid = (k.global_pid + 1) % 2 ^ 64;
    }

-- The loop of `alloc`, from the entry `i` on.
alloc_from : ℕ → ℕ → Kernel → Option ℕ × Kernel
unfolding take_entry
alloc_from zero i k = (none, k)
alloc_from (suc n) i k =
    let rest = alloc_from n (i + 1) k in
    if is_unused (k.procs i).state then (some i, take_entry i k) else rest

unfoldable pub alloc : Kernel → Outcome (Option ℕ × Kernel)
unfolding alloc_from
alloc k = do l ← lock k; let r = alloc_from nproc 0 l; ok (r.0, unlock r.1)

-- One round of the loop of `wakeup`.
wake_one : ℕ → ℕ → Kernel → Kernel
wake_one channel i k =
    if is_sleeping (k.procs i).state && (k.procs i).sleep_chan == channel
    then record (set_proc k i (record (k.procs i) { state = runnable; sleep_chan = 0 })) {
      bits = mark_runnable i k.bits;
    }
    else k

wake_below : ℕ → ℕ → Kernel → Kernel
unfolding wake_one
wake_below channel zero k = k
wake_below channel (suc i) k = wake_one channel i (wake_below channel i k)

unfoldable pub wakeup : ℕ → Kernel → Outcome Kernel
unfolding wake_below
wakeup channel k = do l ← lock k; ok (unlock (wake_below channel nproc l))

module _ (base size : ℕ) where
  abbrev pub address : ℕ → ℕ
  address i = base + i * size

  -- `if let Some(idx) = find_proc_index(p) { f(idx) }` on the bitmap.
  abbrev pub at_index : (ℕ → Bitmap → Bitmap) → ℕ → Kernel → Outcome Kernel
  at_index f i k = find_proc_index base size k.held (address i) >>= λ o. elim o [
    | none ↦ ok k
    | some idx ↦ ok (record k { bits = f idx k.bits })
  ]

  -- `yield_proc` of the running process `i`, up to the switch; `sched` does the same.
  unfoldable pub yield_proc : ℕ → Kernel → Outcome Kernel
  yield_proc i k =
      if is_running (k.procs i).state
      then at_index mark_runnable i (set_proc k i (record (k.procs i) { state = runnable }))
      else ok k

  -- `sleep` of the running process `i`, up to the switch.
  unfoldable pub sleep : ℕ → ℕ → Kernel → Outcome Kernel
  sleep channel i k = do
    l ← lock k
    let p = record (l.procs i) { state = sleeping; sleep_chan = channel }
    m ← at_index mark_not_runnable i (set_proc l i p)
    ok (unlock m)

  reparent_below : ℕ → ℕ → Kernel → Kernel
  reparent_below i zero k = k
  reparent_below i (suc j) k =
      let before = reparent_below i j k in
      if (before.procs j).parent == address i
      then set_proc before j (record (before.procs j) { parent = base })
      else before

  wake_parent : ℕ → Kernel → Outcome Kernel
  wake_parent parent k = if parent == 0 then ok k else wakeup parent k

  -- `exit` of the running process `i`.
  unfoldable pub exit : ℕ → Kernel → Outcome Kernel
  unfolding reparent_below wake_parent
  exit i k = do
    woken ← wake_parent (k.procs i).parent k
    l ← lock woken
    let moved = reparent_below i nproc l
    let cleared = unlock (record moved { bits = mark_not_runnable i moved.bits })
    ok (set_proc cleared i (record (cleared.procs i) { state = dying }))

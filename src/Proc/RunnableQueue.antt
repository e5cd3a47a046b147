-- ===== src/Proc/RunnableQueue.antt =====
-- kernel/src/proc/runnable_queue.rs. A 64-bit word is the function from the number of a bit to the
-- bit; `fetch_or` and `fetch_and` with a shifted 1 write one bit.
pub mod Laws
use glenda.Prelude.{
  ℕ, zero, suc, ◌+◌, ◌-◌, ◌*◌, ◌/◌, Bool, true, false, ◌&&◌, Option, none, some, ltb, leb, ◌==◌,
  if◌then◌else◌, update, Outcome, ok, stuck,
}

abbrev pub nproc : ℕ
nproc = 64

abbrev pub Bitmap : Type 0
Bitmap = ℕ → Bool

unfoldable pub mark_runnable : ℕ → Bitmap → Bitmap
mark_runnable proc_idx bits = if leb nproc proc_idx then bits else update bits proc_idx true

unfoldable pub mark_not_runnable : ℕ → Bitmap → Bitmap
mark_not_runnable proc_idx bits = if leb nproc proc_idx then bits else update bits proc_idx false

unfoldable pub clear_runnable_bit : ℕ → Bitmap → Bitmap
clear_runnable_bit proc_idx bits = if leb nproc proc_idx then bits else update bits proc_idx false

-- The lowest set bit at or above `i`, among the next `n` bits: `trailing_zeros`, where a bit is set.
lowest : ℕ → ℕ → Bitmap → Option ℕ
lowest zero i bits = none
lowest (suc n) i bits = let rest = lowest n (i + 1) bits in if bits i then some i else rest

unfoldable pub find_runnable : Bitmap → Option ℕ
unfolding lowest
find_runnable bits = lowest 64 0 bits

unfoldable pub has_runnable : Bitmap → Bool
unfolding find_runnable
has_runnable bits = elim (lowest 64 0 bits) [ none ↦ false | some _ ↦ true ]

unfoldable pub clear_all : Bitmap → Bitmap
clear_all bits i = false

-- The index of the process at an address; `base` is the table's address, `size` that of a process.
index_of : ℕ → ℕ → ℕ → Option ℕ
index_of base size proc_addr =
    let idx = (proc_addr - base) / size in
    if ltb proc_addr base
    then none
    else if ltb idx nproc && base + idx * size == proc_addr
    then some idx
    else none

-- `held` says whether `PROC_TABLE` is held where it is called. It takes that lock, a spin lock that
-- is not reentrant, so that it spins forever where its caller holds the lock.
unfoldable pub find_proc_index : ℕ → ℕ → Bool → ℕ → Outcome (Option ℕ)
unfolding index_of
find_proc_index base size held proc_addr = if held then stuck else ok (index_of base size proc_addr)

-- ===== src/Proc/RunnableQueue/Laws.antt =====
-- The searches of kernel/src/proc/runnable_queue.rs.
use glenda.Prelude.{
  ap, ◌∙◌, ok, ℕ, zero, suc, ◌+◌, ◌-◌, ◌*◌, ◌/◌, ◌≤◌, ◌<◌, ◌≡◌, true, false, Option, none, some,
  arith, ltb, ◌==◌, Bool-cases, inl, inr,
}
use native.Mathlib.Nat.{mul-div_cancel}
use glenda.Proc.RunnableQueue.{nproc, Bitmap, lowest, find_runnable, find_proc_index}

-- The lowest set bit from `i` up to `i + n`, or none where no bit is set.
abbrev pub IsLowest : ℕ → ℕ → Bitmap → Option ℕ → Type 0
IsLowest n i bits none = (j : ℕ) → i ≤ j → j < i + n → bits j ≡ false
IsLowest n i bits (some k) =
    (i ≤ k) × (k < i + n) × (bits k ≡ true) × ((j : ℕ) → i ≤ j → j < k → bits j ≡ false)

IsLowest-step :
    (n i : ℕ) (bits : Bitmap) (o : Option ℕ)
    → bits i ≡ false
    → IsLowest n (i + 1) bits o
    → IsLowest (suc n) i bits o
IsLowest-step n i bits none e h = λ j l u. elim (Bool-cases (j == i)) [
  | inl q ↦ let s : j ≡ i = ground arith in rw s e
  | inr q ↦ h j (ground arith) (omega arith)
]
IsLowest-step n i bits (some k) e h = (
  omega (arith, h.0),
  omega (arith, h.1),
  h.2,
  λ j l u. elim (Bool-cases (j == i)) [
    | inl q ↦ let s : j ≡ i = ground arith in rw s e
    | inr q ↦ h.3 j (ground arith) u
  ],
)

lowest-IsLowest : (n i : ℕ) (bits : Bitmap) → IsLowest n i bits (lowest n i bits)
unfolding lowest
lowest-IsLowest zero i bits = λ j l u. absurd (omega arith)
lowest-IsLowest (suc n) i bits = elim (Bool-cases (bits i)) [
  | inl e ↦ rw e (omega arith, omega arith, e, λ j l u. absurd (omega arith))
  | inr e ↦ rw e (IsLowest-step n i bits (lowest n (i + 1) bits) e (lowest-IsLowest n (i + 1) bits))
]

-- `find_runnable` returns the lowest index that is marked, and none exactly when none is marked.
pub find_runnable-IsLowest : (bits : Bitmap) → IsLowest 64 0 bits (find_runnable bits)
unfolding find_runnable
find_runnable-IsLowest bits = lowest-IsLowest 64 0 bits

module _ (base size : ℕ) where
  -- Where the table is not held and a process has a positive size, `find_proc_index` gives the
  -- index of an entry from its address.
  pub find_proc_index-entry :
      (i : ℕ)
      → 0 < size
      → i < nproc
      → find_proc_index base size false (base + i * size) ≡ ok (some i)
  unfolding find_proc_index
  find_proc_index-entry i pos h =
      let cut : base + i * size - base ≡ i * size = omega arith in
      let div : (base + i * size - base) / size ≡ i =
        ap (λ x. x / size) cut ∙ mul-div_cancel i pos in
      let lt : ltb i nproc ≡ true = ground arith in
      let le : ltb (base + i * size) base ≡ false = ground arith in rw div (ground arith)

  -- An address that it gives an index for is the address of that entry.
  pub entry_of_find_proc_index :
      (addr i : ℕ)
      → find_proc_index base size false addr ≡ ok (some i)
      → (addr ≡ base + i * size) × (i < nproc)
  unfolding find_proc_index
  entry_of_find_proc_index addr i h = ground arith

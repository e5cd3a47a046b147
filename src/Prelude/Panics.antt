-- ===== src/Prelude/Panics.antt =====
-- The outcome of code that may panic or loop. A panic stops the kernel.
use Prim.Native.Nat.{ℕ, ◌+◌, ◌-◌, ◌^◌}
use mathlib.Core.Bool.{Bool, true, false}
use mathlib.Core.Option.{Option, none, some}
use glenda.Prelude.Tests.{ltb, leb, if◌then◌else◌}

pub data Outcome {ℓ} (A : Type ℓ) : Type ℓ where
  ok : A → Outcome A
  panic : Outcome A
  -- The code never returns: it spins on a lock, or the fuel of a loop ran out. In `free` of the two
  -- bitmaps of the file system it also stands for an access behind the buffer, which Rust does not
  -- define.
  stuck : Outcome A

-- A panic or an endless loop in the first part is one of the whole.
infixl 4 ◌>>=◌
abbrev pub ◌>>=◌ {ℓ κ} :
    {First : Type ℓ} {Second : Type κ} (m : Outcome First) (next : First → Outcome Second)
    → Outcome Second
panic >>= next = panic
stuck >>= next = stuck
ok value >>= next = next value

-- `assert!(b)`.
abbrev pub assert : Bool → Outcome (Unit {0})
assert true = ok tt
assert false = panic

-- `a + b` and `a - b` on `u32` in a debug build, which panics where they leave the range.
abbrev pub add_u32 : ℕ → ℕ → Outcome ℕ
add_u32 a b = if ltb (a + b) (2 ^ 32) then ok (a + b) else panic

abbrev pub sub_u32 : ℕ → ℕ → Outcome ℕ
sub_u32 a b = if leb b a then ok (a - b) else panic

-- `a + b` and `a - b` on `usize`, likewise.
abbrev pub add_usize : ℕ → ℕ → Outcome ℕ
add_usize a b = if ltb (a + b) (2 ^ 64) then ok (a + b) else panic

abbrev pub sub_usize : ℕ → ℕ → Outcome ℕ
sub_usize a b = if leb b a then ok (a - b) else panic

-- `Option::expect`.
abbrev pub expect {ℓ} : {A : Type ℓ} → Option A → Outcome A
expect none = panic
expect (some a) = ok a

-- ===== src/Syscall.antt =====
-- kernel/src/syscall: the handlers of the memory calls. A handler takes the arguments from the
-- registers, and what it returns goes back into one.
pub mod Brk
pub mod Mmap
use glenda.Prelude.{ℕ, ◌-◌, ◌^◌}

-- `usize::MAX`, which means failure.
abbrev pub usize_max : ℕ
usize_max = 2 ^ 64 - 1

-- ===== src/Syscall/Mmap.antt =====
-- kernel/src/syscall/mmap.rs, without what it prints.
pub mod Reach
mod Tests
use glenda.Prelude.{ℕ, Outcome, ok, ◌>>=◌}
use glenda.Mem.Addr.{mmap_begin, mmap_end}
use glenda.Mem.Uvm.{Result, value, error}
use glenda.Mem.Uvm.Mmap.{Space, mmap}
use glenda.Mem.Uvm.Munmap.{munmap}
use glenda.Syscall.{usize_max}

-- `match … { Ok(va) => …, Err(_) => usize::MAX }`.
or_max : {A : Type 0} → (A → ℕ) → Result A × Space → Outcome (ℕ × Space)
or_max f (value a, t) = ok (f a, t)
or_max f (error _, t) = ok (usize_max, t)

unfoldable pub sys_mmap : ℕ → ℕ → ℕ → Space → Outcome (ℕ × Space)
unfolding or_max
sys_mmap root begin len s = mmap root begin len mmap_begin mmap_end s >>= λ r. or_max (λ va. va) r

unfoldable pub sys_munmap : ℕ → ℕ → ℕ → Space → Outcome (ℕ × Space)
unfolding or_max
sys_munmap root begin len s = munmap root begin len s >>= λ r. or_max (λ u. 0) r

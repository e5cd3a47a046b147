-- ===== src/Mem/Addr.antt =====
-- kernel/src/mem/addr.rs and the constants of kernel/src/mem/mod.rs. Masks and shifts by numerals
-- are written as `%`, `/` and `*` by powers of two, which is what they compute on a `usize`.
pub mod Laws
use glenda.Prelude.{ℕ, ◌+◌, ◌-◌, ◌*◌, ◌/◌, ◌%◌, ◌^◌, Outcome, ok, ◌>>=◌, add_usize}

abbrev pub pgsize : ℕ
pgsize = 4096

abbrev pub pgmask : ℕ
pgmask = pgsize - 1

abbrev pub pgnum : ℕ
pgnum = pgsize / 8

abbrev pub va_max : ℕ
va_max = 2 ^ 38

abbrev pub kern_pages : ℕ
kern_pages = 8192

abbrev pub mmap_end : ℕ
mmap_end = va_max - (16 * 256 + 2) * pgsize

abbrev pub mmap_begin : ℕ
mmap_begin = mmap_end - 64 * 256 * pgsize

-- `value & !PGMASK`.
unfoldable pub align_down : ℕ → ℕ
align_down value = value / pgsize * pgsize

-- The sum is checked in a debug build.
unfoldable pub align_up : ℕ → Outcome ℕ
align_up value = do s ← add_usize value pgmask; ok (s / pgsize * pgsize)

unfoldable pub page_offset : ℕ → ℕ
page_offset addr = addr % pgsize

-- The three indices, lowest level first.
unfoldable pub vpn : ℕ → ℕ × ℕ × ℕ
vpn addr = (addr / 2 ^ 12 % 512, addr / 2 ^ 21 % 512, addr / 2 ^ 30 % 512)

unfoldable pub ppn : ℕ → ℕ × ℕ × ℕ
ppn addr = (addr / 2 ^ 12 % 512, addr / 2 ^ 21 % 512, addr / 2 ^ 30 % 512)

-- ===== src/Mem/Pte.antt =====
-- kernel/src/mem/pte.rs: Sv39 page table entries, flags in the low ten bits and the page number
-- above. An `|` of parts with no common bit is a sum.
pub mod Laws
use glenda.Prelude.{ℕ, ◌+◌, ◌-◌, ◌*◌, ◌/◌, ◌%◌, ◌^◌, Bool, true, false, not, ◌&&◌, ◌==◌}

abbrev pub pte_v : ℕ
pte_v = 1

abbrev pub pte_r : ℕ
pte_r = 2

abbrev pub pte_w : ℕ
pte_w = 4

abbrev pub pte_x : ℕ
pte_x = 8

abbrev pub pte_u : ℕ
pte_u = 16

-- `(pte & 0x3FF) | (ppn << 10)`; the shift drops what leaves the 64 bits.
unfoldable pub set_ppn : ℕ → ℕ → ℕ
set_ppn pte ppn = pte % 1024 + ppn * 1024 % 2 ^ 64

unfoldable pub get_ppn : ℕ → ℕ
get_ppn pte = pte / 1024 % 2 ^ 44

unfoldable pub set_flags : ℕ → ℕ → ℕ
set_flags pte flags = pte / 1024 * 1024 + flags % 1024

unfoldable pub get_flags : ℕ → ℕ
get_flags pte = pte % 1024

unfoldable pub is_valid : ℕ → Bool
is_valid pte = not (pte % 2 == 0)

-- The bits R, W and X.
unfoldable pub is_leaf : ℕ → Bool
is_leaf pte = not (pte / 2 % 8 == 0)

unfoldable pub is_table : ℕ → Bool
unfolding is_valid is_leaf
is_table pte = is_valid pte && not (is_leaf pte)

unfoldable pub pte_to_pa : ℕ → ℕ
unfolding get_ppn
pte_to_pa pte = get_ppn pte * 4096

unfoldable pub pa_to_pte : ℕ → ℕ → ℕ
pa_to_pte pa flags = pa / 4096 % 2 ^ 44 * 1024 + flags % 1024

-- ===== src/Mem/Addr/Laws.antt =====
-- Alignment, and the split of a virtual address into indices.
use glenda.Prelude.{ℕ, ◌+◌, ◌*◌, ◌%◌, ◌^◌, ◌≤◌, ◌<◌, ◌≡◌, arith, Outcome, ok, panic, stuck}
use glenda.Mem.Addr.{pgsize, pgmask, align_down, align_up, page_offset, vpn}

-- What `align_up` may do.
abbrev pub AlignsUp : ℕ → Outcome ℕ → Type 0
AlignsUp value (ok r) =
    (value ≤ r) × (r < value + pgsize) × (r % pgsize ≡ 0) × (value + pgmask < 2 ^ 64)
AlignsUp value panic = 2 ^ 64 ≤ value + pgmask
AlignsUp value stuck = ⊥

-- `align_up` gives the least multiple of the page size that is not below its argument, and panics
-- exactly when the sum leaves the range of `usize`.
pub align_up-AlignsUp : (value : ℕ) → AlignsUp value (align_up value)
unfolding align_up
align_up-AlignsUp value = ground arith

-- `align_down` and the page offset split an address, and the part that is left is aligned.
pub align_down-page_offset :
    (addr : ℕ)
    → (align_down addr + page_offset addr ≡ addr)
      × (page_offset addr < pgsize)
      × (align_down addr % pgsize ≡ 0)
unfolding align_down page_offset
align_down-page_offset addr = omega arith

-- The indices and the offset determine a virtual address below 2 ^ 39, so two such addresses with
-- the same indices lie in one page.
pub vpn-join :
    (addr : ℕ)
    → addr < 2 ^ 39
    → ((vpn addr).2 * 2 ^ 30 + (vpn addr).1 * 2 ^ 21 + (vpn addr).0 * 2 ^ 12 + page_offset addr
        ≡ addr)
      × ((vpn addr).2 < 512)
      × ((vpn addr).1 < 512)
      × ((vpn addr).0 < 512)
unfolding vpn page_offset
vpn-join addr h = omega arith

-- ===== src/Mem/Pte/Laws.antt =====
-- Reading back what an entry was built from.
use glenda.Prelude.{ℕ, ◌%◌, ◌^◌, ◌<◌, ◌≡◌, arith}
use glenda.Mem.Addr.{align_down}
use glenda.Mem.Pte.{set_ppn, get_ppn, set_flags, get_flags, is_valid, is_leaf, pte_to_pa, pa_to_pte}

-- An entry gives back the page and the flags that it was built from, for every address of the 56
-- bits that Sv39 has.
pub pa_to_pte-parts :
    (pa flags : ℕ)
    → pa < 2 ^ 56
    → (pte_to_pa (pa_to_pte pa flags) ≡ align_down pa)
      × (get_flags (pa_to_pte pa flags) ≡ flags % 1024)
      × (is_valid (pa_to_pte pa flags) ≡ is_valid flags)
      × (is_leaf (pa_to_pte pa flags) ≡ is_leaf flags)
unfolding pte_to_pa pa_to_pte align_down get_flags is_valid is_leaf
pa_to_pte-parts pa flags h = ground arith

-- Changing the flags keeps the page, and changing the page keeps the flags.
pub set-parts :
    (pte ppn flags : ℕ)
    → ppn < 2 ^ 44
    → (get_ppn (set_flags pte flags) ≡ get_ppn pte)
      × (get_flags (set_flags pte flags) ≡ flags % 1024)
      × (get_ppn (set_ppn pte ppn) ≡ ppn)
      × (get_flags (set_ppn pte ppn) ≡ get_flags pte)
unfolding get_ppn set_flags get_flags set_ppn
set-parts pte ppn flags h = omega arith

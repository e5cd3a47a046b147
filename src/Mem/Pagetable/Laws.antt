-- ===== src/Mem/Pagetable/Laws.antt =====
-- `walk` against `lookup` of kernel/src/mem/pagetable.rs.
use glenda.Prelude.{ℕ, zero, suc, ◌≡◌, refl, false, leb, Bool-cases, Option-cases, inl, inr, ok}
use glenda.Mem.Addr.{va_max}
use glenda.Mem.Pte.{is_valid}
use glenda.Mem.Pmem.{Pmem}
use glenda.Mem.Pagetable.{entry_at, vpn_at, next_table, walk_levels, walk, lookup_levels, lookup}

walk_levels-lookup_levels :
    (level table va : ℕ) (p : Pmem)
    → walk_levels level false table va p ≡ ok (lookup_levels level table va p.mem, p)
unfolding walk_levels lookup_levels
walk_levels-lookup_levels zero table va p = refl
walk_levels-lookup_levels (suc level) table va p =
    let pte = p.mem (entry_at table (vpn_at (suc level) va)) in
    elim (Bool-cases (is_valid pte)) [
      | inl e ↦
          rw (walk_levels, lookup_levels, e)
            (elim (Option-cases (next_table pte)) [
              | inl n ↦ rw n refl
              | inr (t, s) ↦ rw s (walk_levels-lookup_levels level t va p)
            ])
      | inr e ↦ rw (walk_levels, lookup_levels, e) refl
    ]

-- `walk` without allocation gives what `lookup` gives, and changes nothing.
pub walk-lookup : (root va : ℕ) (p : Pmem) → walk root va false p ≡ ok (lookup root va p.mem, p)
unfolding walk lookup
walk-lookup root va p = elim (Bool-cases (leb va_max va)) [
  | inl e ↦ rw e refl
  | inr e ↦ rw e (walk_levels-lookup_levels 2 root va p)
]

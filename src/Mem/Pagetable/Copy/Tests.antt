-- ===== src/Mem/Pagetable/Copy/Tests.antt =====
-- `copy` of kernel/src/mem/pagetable.rs at concrete inputs.
use glenda.Prelude.{
  ℕ, ◌+◌, ◌-◌, ◌/◌, ◌%◌, ◌^◌, ◌≡◌, refl, ◌&&◌, ltb, ◌==◌, if◌then◌else◌, Option, none, some, ok,
  ◌>>=◌,
}
use glenda.Mem.Addr.{align_up, align_down}
use glenda.Mem.Pte.{is_valid, is_leaf, is_table, pte_to_pa, pa_to_pte, get_flags}
use glenda.Mem.Pmem.{
  Pmem, region, set_region, alloc, allocate, take_head, pa_to_index, get_region, info,
}
use glenda.Mem.Pagetable.{lookup, map}
use glenda.Mem.Pagetable.Copy.{sv39_va, copy}
use glenda.Mem.Uvm.{value, error}

-- A root at 0x8000_0000 whose first entry points to a table, whose first entry points to one with a
-- leaf at 5: on the kernel's page 0x8000_3000 with the flags V, R and W. Four pages are free.
abbrev old : Pmem
old = record {
  mem = λ a.
      if a == 0x8000_0000
      then 0x8000_1000 / 4 + 1
      else if a == 0x8000_1000
      then 0x8000_2000 / 4 + 1
      else if a == 0x8000_2028
      then 0x8000_3000 / 4 + 7
      else if a == 0x8000_3008
      then 42
      else if ltb 0x8000_3fff a && a % 4096 == 0 && ltb a 0x8000_7000
      then a + 4096
      else 0;
  page_ref = λ i. if ltb i 4 then 1 else 0;
  kernel_region = record {
    bounds = some (record { begin = 0x8000_0000; end = 0x8000_8000 });
    head = 0x8000_4000;
    allocable = 4;
  };
  user_region = record {
    bounds = some (record { begin = 0x8000_8000; end = 0x8000_8000 });
    head = 0;
    allocable = 0;
  };
}

-- The copy has the leaf at the same address, on a page of its own that holds the same bytes.
copied :
    (do
      c ← copy 0x8000_0000 old
      let entry : Option ℕ = elim c.0 [ value root ↦ lookup root 0x5000 c.1.mem | error e ↦ none ]
      let r : Option ℕ × ℕ × ℕ = (entry, c.1.mem 0x8000_7028, c.1.mem 0x8000_5008)
      ok r)
    ≡ ok (some 0x8000_7028, 0x8000_5000 / 4 + 7, 42)
unfolding copy map align_up align_down is_valid is_table alloc allocate region take_head pa_to_index
    set_region pa_to_pte is_leaf pte_to_pa get_flags get_region info lookup sv39_va
copied = refl

-- The address of the last entry is at the end of the 64 bits.
last_va : sv39_va 511 511 511 ≡ 2 ^ 64 - 4096
unfolding sv39_va
last_va = refl

first_va : sv39_va 0 0 5 ≡ 0x5000
unfolding sv39_va
first_va = refl

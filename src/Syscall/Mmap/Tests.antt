-- ===== src/Syscall/Mmap/Tests.antt =====
-- The calls of kernel/src/syscall/mmap.rs at a concrete input.
use glenda.Prelude.{ℕ, false, update, Outcome, panic, stuck, refl, some, [], ok}
use glenda.Mem.Addr.{align_up, align_down, mmap_begin, mmap_end}
use glenda.Mem.Uvm.Mmap.{Space, mmap, choose, unwind}
use glenda.Mem.Uvm.Mmap.Layout.{IsLayout}
use glenda.Mem.Mmap.{region_alloc}
use glenda.Mem.Pte.{pa_to_pte, pte_to_pa, is_valid, is_leaf}
use glenda.Mem.Addr.{vpn}
use glenda.Mem.Pmem.{alloc, allocate, take_head, pa_to_index, region, set_region}
use glenda.Mem.Pagetable.{map, walk, map_entry}
use glenda.Mem.Uvm.{map_pages, add_pages}
use glenda.Syscall.Mmap.{sys_mmap}
use glenda.Syscall.Mmap.Reach.{Step, maps, none_yet, step, Reachable-IsLayout}

-- One free page for the user, and two for page tables.
abbrev empty : Space
empty = record {
  pool = record {
    mem = update (λ _. 0) 0x8000_1000 0x8000_2000;
    page_ref = update (λ _. 0) 0 1;
    kernel_region = record {
      bounds = some (record { begin = 0x8000_0000; end = 0x8000_3000 });
      head = 0x8000_1000;
      allocable = 2;
    };
    user_region = record {
      bounds = some (record { begin = 0x8000_3000; end = 0x8000_4000 });
      head = 0x8000_3000;
      allocable = 1;
    };
  };
  warehouse = record { initialized = false; nodes = [] };
  regions = [];
}

-- The state that a call leaves.
abbrev state_of : Outcome (ℕ × Space) → Space
state_of (ok (r, t)) = t
state_of panic = empty
state_of stuck = empty

abbrev mapped : Space
mapped = state_of (sys_mmap 0x8000_0000 0 4096 empty)

-- A call that maps a page at the start of the range.
mapped-Step : Step 0x8000_0000 empty mapped
unfolding sys_mmap mmap align_up choose unwind region_alloc map_pages add_pages alloc allocate
    take_head pa_to_index align_down map walk map_entry pa_to_pte pte_to_pa is_valid is_leaf vpn
    region set_region
mapped-Step = maps 0 4096 mmap_begin refl

Reachable-IsLayout_example : IsLayout mmap_begin mmap_end mapped.regions
Reachable-IsLayout_example =
    Reachable-IsLayout 0x8000_0000 mapped (step {s = empty} (none_yet refl) mapped-Step)

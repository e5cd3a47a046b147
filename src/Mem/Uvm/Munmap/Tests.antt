-- ===== src/Mem/Uvm/Munmap/Tests.antt =====
-- `munmap` of kernel/src/mem/uvm.rs at a concrete input.
use glenda.Prelude.{◌+◌, ◌*◌, ◌/◌, ◌≡◌, refl, true, some, List, [], ◌∷◌, arith, Ends}
use glenda.Mem.Addr.{pgsize, mmap_begin, mmap_end}
use glenda.Mem.Mmap.{MmapRegion, region_alloc}
use glenda.Mem.Uvm.Mmap.{Space}
use glenda.Mem.Uvm.Mmap.Layout.{IsLayout, covers}
use glenda.Mem.Uvm.Munmap.{cut, munmap}
use glenda.Mem.Uvm.Munmap.Correct.{Removes}
use glenda.Mem.Uvm.Munmap.Whole.{munmap-Removes, page_end}

abbrev one : List MmapRegion
one = record { node = 0; begin = mmap_begin; npages = 4 } ∷ []

abbrev space : Space
space = record {
  pool = record {
    mem = λ a. 0;
    page_ref = λ i. 0;
    kernel_region = record {
      bounds = some (record { begin = 0x8000_0000; end = 0x8000_1000 });
      head = 0;
      allocable = 0;
    };
    user_region = record {
      bounds = some (record { begin = 0x8000_1000; end = 0x8000_1000 });
      head = 0;
      allocable = 0;
    };
  };
  warehouse = record { initialized = true; nodes = 2 ∷ 3 ∷ [] };
  regions = one;
}

one-IsLayout : IsLayout mmap_begin mmap_end one
one-IsLayout = (omega arith, (refl, omega arith), omega arith)

-- A hole in the middle.
cut-middle :
    (cut
      (mmap_begin + pgsize)
      (mmap_begin + 2 * pgsize)
      (record { node = 0; begin = mmap_begin; npages = 4 })
      space.warehouse).0
    ≡ some (
        record { node = 2; begin = mmap_begin + 2 * pgsize; npages = 2 }
        ∷ record { node = 0; begin = mmap_begin; npages = 1 }
        ∷ [])
unfolding cut region_alloc
cut-middle = refl

munmap-Removes_example :
    Ends (munmap 0x8000_0000 (mmap_begin + 4096) 5000 space)
    × Removes mmap_begin mmap_end
        ((mmap_begin + 4096) / pgsize * pgsize)
        (page_end (mmap_begin + 4096) 5000)
        (covers one)
        (munmap 0x8000_0000 (mmap_begin + 4096) 5000 space)
munmap-Removes_example =
    munmap-Removes mmap_begin mmap_end 0x8000_0000 (mmap_begin + 4096) 5000 space (omega arith)
      one-IsLayout (omega arith)

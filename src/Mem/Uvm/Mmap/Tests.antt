-- ===== src/Mem/Uvm/Mmap/Tests.antt =====
-- `mmap` of kernel/src/mem/uvm.rs at a concrete input.
use glenda.Prelude.{
  ℕ, ◌+◌, ◌*◌, ◌≡◌, refl, true, some, List, [], ◌∷◌, arith, Ends, ok, ◌>>=◌, update,
}
use glenda.Mem.Addr.{pgsize, mmap_begin, mmap_end, align_up, align_down, vpn}
use glenda.Mem.Pte.{pa_to_pte, pte_to_pa, is_valid, is_leaf}
use glenda.Mem.Pmem.{Pmem, alloc, allocate, take_head, pa_to_index, region, set_region}
use glenda.Mem.Pagetable.{map, walk, map_entry}
use glenda.Mem.Mmap.{MmapRegion}
use glenda.Mem.Uvm.{Result, value, error, out_of_range, map_pages, add_pages}
use glenda.Mem.Uvm.Mmap.{Space, choose, find_gap, mmap, seek, unwind}
use glenda.Mem.Uvm.Mmap.Layout.{IsLayout}
use glenda.Mem.Uvm.Mmap.Correct.{Maps, mmap-Maps, size_of}
use glenda.Mem.Uvm.Mmap.Gaps.{Fits, choose-Fits}

-- No free page, so that only a call that maps nothing returns.
abbrev no_pages : Pmem
no_pages = record {
  mem = λ a. 0;
  page_ref = λ i. 0;
  kernel_region = record {
    bounds = some (record { begin = 0x8000_0000; end = 0x8000_1000 });
    head = 0;
    allocable = 0;
  };
  user_region = record {
    bounds = some (record { begin = 0x8000_1000; end = 0x8000_1000 });
    head = 0;
    allocable = 0;
  };
}

-- Two regions with three pages between them.
abbrev two : List MmapRegion
two =
    record { node = 0; begin = mmap_begin; npages = 1 }
    ∷ record { node = 1; begin = mmap_begin + 4 * pgsize; npages = 2 }
    ∷ []

abbrev space : Space
space = record {
  pool = no_pages;
  warehouse = record { initialized = true; nodes = 2 ∷ 3 ∷ [] };
  regions = two;
}

two-IsLayout : IsLayout mmap_begin mmap_end two
two-IsLayout = (omega arith, (refl, omega arith), (omega arith, (refl, omega arith), omega arith))

-- Two pages behind the first region are found.
choose-two : choose 0 8192 mmap_begin mmap_end two ≡ some (mmap_begin + pgsize)
unfolding choose find_gap
choose-two = refl

-- A place in the second region is refused.
mmap-taken :
    mmap 0 (mmap_begin + 5 * pgsize) 1 mmap_begin mmap_end space ≡ ok (error out_of_range, space)
unfolding mmap seek align_up choose
mmap-taken = refl

-- One free page for the user, and two for page tables; a region of a page at the start.
abbrev one_region : Space
one_region = record {
  pool = record {
    mem = update (λ _. 0) 0x8000_1000 0x8000_2000;
    page_ref = update (λ _. 0) 0 1;
    kernel_region = record {
      bounds = some (record { begin = 0x8000_0000; end = 0x8000_3000 });
      head = 0x8000_1000;
      allocable = 2;
    };
    user_region = record {
      bounds = some (record { begin = 0x8000_3000; end = 0x8000_4000 });
      head = 0x8000_3000;
      allocable = 1;
    };
  };
  warehouse = record { initialized = true; nodes = 1 ∷ [] };
  regions = record { node = 0; begin = mmap_begin; npages = 1 } ∷ [];
}

-- The next page joins the region, whose begin is returned.
mmap-joins :
    (do
      r ← mmap 0x8000_0000 0 4096 mmap_begin mmap_end one_region
      let seen : Result ℕ × List MmapRegion = (r.0, r.1.regions)
      ok seen)
    ≡ ok (value mmap_begin, record { node = 0; begin = mmap_begin; npages = 2 } ∷ [])
unfolding mmap align_up choose unwind map_pages add_pages alloc allocate take_head pa_to_index
    align_down map walk map_entry pa_to_pte pte_to_pa is_valid is_leaf vpn region set_region
mmap-joins = refl

mmap-Maps_example :
    Ends (mmap 0x8000_0000 0 4096 mmap_begin mmap_end one_region)
    × Maps mmap_begin mmap_end 0
        (size_of 4096)
        one_region.regions
        (mmap 0x8000_0000 0 4096 mmap_begin mmap_end one_region)
mmap-Maps_example =
    mmap-Maps 0x8000_0000 0 4096 mmap_begin mmap_end one_region (omega arith)
      (omega arith, (refl, omega arith), omega arith) (omega arith)

choose-Fits_example : Fits 8192 mmap_begin mmap_end two (choose 0 8192 mmap_begin mmap_end two)
choose-Fits_example = choose-Fits 8192 mmap_begin mmap_end two (omega arith) two-IsLayout

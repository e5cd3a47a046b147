-- ===== src/Mem/Pmem/Tests.antt =====
-- The theorems on the page allocator at concrete inputs.
use glenda.Prelude.{
  ℕ, ◌≡◌, refl, Bool, true, false, none, some, List, [], ◌∷◌, arith, update, ok, ◌>>=◌,
}
use glenda.Mem.Addr.{align_up}
use glenda.Mem.Pmem.{
  Pmem, AllocRegion, allocate, alloc, free, free_in, region, initialize_regions, take_head,
  set_region, contains, pa_to_index,
}
use glenda.Mem.Pmem.FreeList.{IsPage, nil, cons}
use glenda.Mem.Pmem.Pool.{IsPool}
use glenda.Mem.Pmem.Take.{Allocated, allocate-Allocated}
use glenda.Mem.Pmem.Give.{Freed, free-Freed}
use glenda.Mem.Pmem.Cycle.{Cycled, alloc-Cycled}
use glenda.Mem.Pmem.Boot.{Booted, initialize_regions-Booted, per_region}

abbrev page_0 : ℕ
page_0 = 0x8000_0000

abbrev page_1 : ℕ
page_1 = 0x8000_1000

abbrev page_2 : ℕ
page_2 = 0x8000_2000

-- The kernel has two free pages; the user's only page is in use.
abbrev pool : Pmem
pool = record {
  mem = update (λ _. 0) page_1 page_0;
  page_ref = update (λ _. 0) 2 1;
  kernel_region = record {
    bounds = some (record { begin = page_0; end = page_2 });
    head = page_1;
    allocable = 2;
  };
  user_region = record {
    bounds = some (record { begin = page_2; end = 0x8000_3000 });
    head = 0;
    allocable = 0;
  };
}

abbrev begins : Bool → ℕ
begins = per_region page_0 page_2

abbrev ends : Bool → ℕ
ends = per_region page_2 0x8000_3000

abbrev pages : Bool → List ℕ
pages = per_region (page_1 ∷ page_0 ∷ []) []

pool-IsPool : IsPool pool begins ends pages
unfolding region
pool-IsPool = record {
  kernel = record {
    bounds = refl;
    list = cons (omega arith) refl refl (cons (omega arith) refl refl nil);
    count = refl;
    low = omega arith;
    high = omega arith;
  };
  user = record { bounds = refl; list = nil; count = refl; low = omega arith; high = omega arith };
  apart = omega arith;
}

allocate-Allocated_example :
    Allocated pool begins ends pages true (page_1 ∷ page_0 ∷ []) (allocate true pool)
allocate-Allocated_example =
    allocate-Allocated pool begins ends pages true (page_1 ∷ page_0 ∷ []) pool-IsPool refl

free-Freed_example : Freed pool begins ends pages false page_2 1 (free page_2 pool)
free-Freed_example =
    free-Freed pool begins ends pages pool-IsPool false page_2 (omega arith) (omega arith)

no-IsPage : (k : Bool) → ¬ (IsPage (begins k) (ends k) 0x8000_0004)
no-IsPage true h = omega (arith, h.aligned)
no-IsPage false h = omega (arith, h.aligned)

alloc-Cycled_example : Cycled pool begins ends pages true page_1 (page_0 ∷ [])
alloc-Cycled_example =
    alloc-Cycled pool begins ends pages true page_1 (page_0 ∷ []) pool-IsPool refl

abbrev no_region : AllocRegion
no_region = record { bounds = none; head = 0; allocable = 0 }

abbrev cold : Pmem
cold = record {
  mem = λ _. 0;
  page_ref = λ _. 0;
  kernel_region = no_region;
  user_region = no_region;
}

-- 128 MiB of which the image takes two.
initialize_regions-Booted_example :
    Booted 0x8020_0000 0x8800_0000 (initialize_regions 0x801f_f001 0x8020_0000 none cold)
unfolding align_up
initialize_regions-Booted_example =
    initialize_regions-Booted 0x801f_f001 0x8020_0000 0x8020_0000 0x8800_0000 none cold refl refl
      (omega arith) (omega arith) refl refl (omega arith) (omega arith) refl refl (λ i. refl)

-- Two pages are taken and the first of them is given back.
reuse :
    (do
      (a, p) ← alloc true pool
      (b, q) ← alloc true p
      r ← free a q
      (c, s) ← alloc true r
      ok (a ∷ b ∷ c ∷ []))
    ≡ ok (page_1 ∷ page_0 ∷ page_1 ∷ [])
unfolding alloc allocate take_head free free_in contains pa_to_index region set_region
reuse = refl

-- ===== src/Mem/Pagetable/Tests.antt =====
-- The theorems on page tables at concrete inputs.
use glenda.Prelude.{
  Ends, ℕ, ◌≡◌, refl, Bool, true, false, Option, some, List, [], ◌∷◌, arith, update, ok, ◌>>=◌,
}
use glenda.Mem.Addr.{align_up, align_down}
use glenda.Mem.Pte.{is_valid, is_leaf, pte_to_pa, pa_to_pte}
use glenda.Mem.Pmem.{Pmem, region, set_region, alloc, allocate, take_head, pa_to_index}
use glenda.Mem.Pmem.FreeList.{nil, cons}
use glenda.Mem.Pmem.Pool.{IsPool}
use glenda.Mem.Pagetable.{walk, lookup, map, unmap}
use glenda.Mem.Pagetable.Ends.{map-Ends, unmap-Ends}
use glenda.Mem.Pagetable.Walked.{Walks, walk-Walks, OnPath, OnPath-new}

abbrev root : ℕ
root = 0x8000_0000

abbrev page_1 : ℕ
page_1 = 0x8000_1000

abbrev page_2 : ℕ
page_2 = 0x8000_2000

-- An empty root table, and two free kernel pages.
abbrev bare : Pmem
bare = record {
  mem = update (λ _. 0) page_1 page_2;
  page_ref = update (λ _. 0) 0 1;
  kernel_region = record {
    bounds = some (record { begin = root; end = 0x8000_3000 });
    head = page_1;
    allocable = 2;
  };
  user_region = record {
    bounds = some (record { begin = 0x8000_3000; end = 0x8000_3000 });
    head = 0;
    allocable = 0;
  };
}

abbrev begins : Bool → ℕ
begins true = root
begins false = 0x8000_3000

abbrev ends : Bool → ℕ
ends k = 0x8000_3000

abbrev spare : Bool → List ℕ
spare true = page_1 ∷ page_2 ∷ []
spare false = []

bare-IsPool : IsPool bare begins ends spare
unfolding region
bare-IsPool = record {
  kernel = record {
    bounds = refl;
    list = cons (omega arith) refl refl (cons (omega arith) refl refl nil);
    count = refl;
    low = omega arith;
    high = omega arith;
  };
  user = record { bounds = refl; list = nil; count = refl; low = omega arith; high = omega arith };
  apart = omega arith;
}

bare-OnPath : OnPath begins ends 2 spare bare.mem root 0x5000
bare-OnPath =
    OnPath-new begins ends 2 spare bare.mem root 0x5000
      (record {
        page = record { above = omega arith; below = omega arith; aligned = refl };
        taken = refl;
      })
      (λ a l m. ground arith)

-- `map` makes the tables on the way, and `unmap` of the page empties the entry again.
mapped :
    (do
      m ← map root 0x5000 0x8010_0000 4096 6 bare
      u ← unmap root 0x5000 4096 false m.1
      let entry : Option ℕ = lookup root 0x5000 m.1.mem
      let r : Option ℕ × Bool × Bool = (entry, m.0, u.0)
      ok r)
    ≡ ok (some 0x8000_2028, true, true)
unfolding map unmap align_up align_down is_valid alloc allocate region take_head pa_to_index
    set_region pa_to_pte is_leaf pte_to_pa
mapped = refl

walk-Walks_example : Walks begins ends spare root 0x5000 bare (walk root 0x5000 true bare)
walk-Walks_example = walk-Walks begins ends spare root 0x5000 bare bare-IsPool bare-OnPath

map-Ends_example : Ends (map root 0x5000 0x8010_0000 8192 6 bare)
map-Ends_example = map-Ends root 0x5000 0x8010_0000 8192 6 bare

unmap-Ends_example : Ends (unmap root 0x5000 8192 true bare)
unmap-Ends_example = unmap-Ends root 0x5000 8192 true bare

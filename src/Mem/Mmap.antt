-- ===== src/Mem/Mmap.antt =====
-- kernel/src/mem/mmap.rs: the warehouse of region nodes. A node is its index in `node_list`, and the
-- chain of free nodes from `head.next` is the list of their indices. A process's chain of regions is
-- a list of regions, each with its node.
use glenda.Prelude.{ℕ, zero, suc, ◌+◌, Bool, true, Option, none, some, List, [], ◌∷◌, if◌then◌else◌}

abbrev pub n_mmap : ℕ
n_mmap = 256

pub record MmapRegion : Type 0 where
  pub node : ℕ
  pub begin : ℕ
  pub npages : ℕ

-- `INIT_ONCE` and the free nodes of `WAREHOUSE`.
pub record Warehouse : Type 0 where
  pub initialized : Bool
  pub nodes : List ℕ

-- The nodes from `i` on, in order.
nodes_from : ℕ → ℕ → List ℕ
nodes_from zero i = []
nodes_from (suc n) i = i ∷ nodes_from n (i + 1)

unfoldable pub init : Warehouse → Warehouse
unfolding nodes_from
init w = if w.initialized then w else record { initialized = true; nodes = nodes_from n_mmap 0 }

take_node : Warehouse → Option ℕ × Warehouse
take_node w = elim w.nodes [ [] ↦ (none, w) | i ∷ rest ↦ (some i, record w { nodes = rest }) ]

-- The node of the new region, which is zeroed.
unfoldable pub region_alloc : Warehouse → Option ℕ × Warehouse
unfolding take_node init
region_alloc w = take_node (init w)

unfoldable pub region_free : ℕ → Warehouse → Warehouse
region_free region w = record w { nodes = region ∷ w.nodes }

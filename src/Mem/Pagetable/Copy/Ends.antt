-- ===== src/Mem/Pagetable/Copy/Ends.antt =====
-- The loops of `copy` of kernel/src/mem/pagetable.rs.
use glenda.Prelude.{
  ends_rules, Ends, returns, >>=-Ends, if-Ends, option-Ends, ℕ, zero, suc, ◌-◌, Bool, true, ◌==◌,
  Outcome,
}
use glenda.Mem.Addr.{pgnum}
use glenda.Mem.Pmem.{Pmem, zero_page}
use glenda.Mem.Pagetable.{entry_at}
use glenda.Mem.Pagetable.Ends.{alloc-Ends, map-Ends, get_region-Ends}
use glenda.Mem.Pagetable.Copy.{
  map_one, copy_owned, copy_leaf, and_then, child, copy_entry, copy_level_0, copy_level_1,
  copy_level_2, copy,
}
use glenda.Mem.Uvm.{Result, value, error}

map_one-Ends : (dst va pa flags : ℕ) (p : Pmem) → Ends (map_one dst va pa flags p)
unfolding map_one
map_one-Ends dst va pa flags p = search (ends_rules, map-Ends)

copy_owned-Ends :
    (k : Bool) (dst va pa flags : ℕ) (p : Pmem) → Ends (copy_owned k dst va pa flags p)
unfolding copy_owned
copy_owned-Ends k dst va pa flags p =
    >>=-Ends (get_region-Ends pa p) λ r.
      option-Ends r returns λ for_kernel. search (ends_rules, alloc-Ends, map_one-Ends) depth 12

copy_leaf-Ends : (dst va pte : ℕ) (p : Pmem) → Ends (copy_leaf dst va pte p)
unfolding copy_leaf
copy_leaf-Ends dst va pte p = search (ends_rules, copy_owned-Ends, map_one-Ends)

and_then-Ends :
    (r : Result (Unit {0}) × Pmem) {rest : Pmem → Outcome (Result (Unit {0}) × Pmem)}
    → ((q : Pmem) → Ends (rest q))
    → Ends (and_then r rest)
and_then-Ends (value u, p) e = e p
and_then-Ends (error x, p) e = returns

copy_entry-Ends : (dst l0 i j k : ℕ) (p : Pmem) → Ends (copy_entry dst l0 i j k p)
unfolding copy_entry
copy_entry-Ends dst l0 i j k p = search (ends_rules, copy_leaf-Ends)

copy_level_0-Ends : (n dst l0 i j : ℕ) (p : Pmem) → Ends (copy_level_0 n dst l0 i j p)
unfolding copy_level_0
copy_level_0-Ends zero dst l0 i j p = returns
copy_level_0-Ends (suc n) dst l0 i j p =
    >>=-Ends (copy_entry-Ends dst l0 i j (pgnum - suc n) p)
      λ r. and_then-Ends r λ q. copy_level_0-Ends n dst l0 i j q

copy_level_1-Ends : (n dst l1 i : ℕ) (p : Pmem) → Ends (copy_level_1 n dst l1 i p)
unfolding copy_level_1
copy_level_1-Ends zero dst l1 i p = returns
copy_level_1-Ends (suc n) dst l1 i p =
    let j = pgnum - suc n in
    option-Ends (child (p.mem (entry_at l1 j))) (copy_level_1-Ends n dst l1 i p) λ l0.
      >>=-Ends (copy_level_0-Ends pgnum dst l0 i j p)
        λ r. and_then-Ends r λ q. copy_level_1-Ends n dst l1 i q

copy_level_2-Ends : (n dst l2 : ℕ) (p : Pmem) → Ends (copy_level_2 n dst l2 p)
unfolding copy_level_2
copy_level_2-Ends zero dst l2 p = returns
copy_level_2-Ends (suc n) dst l2 p =
    let i = pgnum - suc n in
    option-Ends (child (p.mem (entry_at l2 i))) (copy_level_2-Ends n dst l2 p) λ l1.
      >>=-Ends (copy_level_1-Ends pgnum dst l1 i p)
        λ r. and_then-Ends r λ q. copy_level_2-Ends n dst l2 q

-- `copy` returns or panics, for every table and state.
copy-Ends : (root : ℕ) (p : Pmem) → Ends (copy root p)
unfolding copy
copy-Ends root p = >>=-Ends (alloc-Ends true p) λ new. if-Ends (new.0 == 0) returns (
    >>=-Ends (copy_level_2-Ends pgnum new.0 root (record new.1 { mem = zero_page new.1.mem new.0 }))
      λ r. returns)

-- ===== src/Mem/Pagetable/Copy.antt =====
-- `copy` of kernel/src/mem/pagetable.rs: a new table with the leaves of an old one, and copies of the
-- pages that are owned.
pub mod Ends
mod Tests
use glenda.Prelude.{
  ℕ, zero, suc, ◌+◌, ◌-◌, ◌*◌, ◌/◌, ◌%◌, ◌^◌, Bool, true, false, not, ◌&&◌, Option, none, some, leb,
  ltb, ◌==◌, if◌then◌else◌, Outcome, ok, ◌>>=◌,
}
use glenda.Mem.Addr.{pgsize, pgnum}
use glenda.Mem.Pte.{is_valid, is_leaf, is_table, pte_to_pa, get_flags}
use glenda.Mem.Pmem.{Pmem, alloc, get_region, zero_page}
use glenda.Mem.Pagetable.{entry_at, map}
use glenda.Mem.Uvm.{Result, value, error, no_mem, map_failed}

-- `copy_nonoverlapping` of the page at `src` to the page at `dst`.
abbrev pub copy_page : ℕ → ℕ → Pmem → Pmem
copy_page src dst p = record p {
  mem = λ a. if leb dst a && ltb a (dst + pgsize) then p.mem (src + (a - dst)) else p.mem a;
}

-- The address of the entry, with bit 38 extended to the bits above.
unfoldable pub sv39_va : ℕ → ℕ → ℕ → ℕ
sv39_va i j k =
    let va_raw = i * 2 ^ 30 + j * 2 ^ 21 + k * 2 ^ 12 in
    if va_raw / 2 ^ 38 % 2 == 1 then va_raw + (2 ^ 64 - 2 ^ 39) else va_raw % 2 ^ 39

-- `map` of one page, as `copy` reports it.
unfoldable pub map_one : ℕ → ℕ → ℕ → ℕ → Pmem → Outcome (Result (Unit {0}) × Pmem)
map_one dst va pa flags p =
    map dst va pa pgsize flags p >>= λ m. ok (if m.0 then value tt else error map_failed, m.1)

-- A leaf on a page of the region `k` gets a page of its own; one on any other page is left out.
unfoldable pub copy_owned : Bool → ℕ → ℕ → ℕ → ℕ → Pmem → Outcome (Result (Unit {0}) × Pmem)
unfolding map_one
copy_owned k dst va pa flags p = get_region pa p >>= λ r. elim r [
  | none ↦ ok (value tt, p)
  | some for_kernel ↦
      if (if k then for_kernel else not for_kernel)
      then (alloc k p >>= λ new.
          if new.0 == 0
          then ok (error no_mem, new.1)
          else map_one dst va new.0 flags (copy_page pa new.0 new.1))
      else ok (value tt, p)
]

-- The three cases of a leaf, by `PTE_U` and `PTE_X`.
unfoldable pub copy_leaf : ℕ → ℕ → ℕ → Pmem → Outcome (Result (Unit {0}) × Pmem)
unfolding copy_owned map_one
copy_leaf dst va pte p =
    let pa = pte_to_pa pte in
    let flags = get_flags pte in
    if flags / 16 % 2 == 1
    then copy_owned false dst va pa flags p
    else if flags / 8 % 2 == 1
    then map_one dst va pa flags p
    else copy_owned true dst va pa flags p

-- On with the rest, unless there was an error.
abbrev pub and_then :
    Result (Unit {0}) × Pmem
    → (Pmem → Outcome (Result (Unit {0}) × Pmem))
    → Outcome (Result (Unit {0}) × Pmem)
and_then r rest = elim r.0 [ value u ↦ rest r.1 | error e ↦ ok (error e, r.1) ]

-- One round over the entries of a last table: it skips what is no leaf.
unfoldable pub copy_entry : ℕ → ℕ → ℕ → ℕ → ℕ → Pmem → Outcome (Result (Unit {0}) × Pmem)
unfolding copy_leaf
copy_entry dst l0 i j k p =
    let pte = p.mem (entry_at l0 k) in
    if is_valid pte && is_leaf pte then copy_leaf dst (sv39_va i j k) pte p else ok (value tt, p)

-- `for k in 0..PGNUM`; the rounds left are counted down.
copy_level_0 : ℕ → ℕ → ℕ → ℕ → ℕ → Pmem → Outcome (Result (Unit {0}) × Pmem)
unfolding copy_entry
copy_level_0 zero dst l0 i j p = ok (value tt, p)
copy_level_0 (suc rounds) dst l0 i j p = copy_entry dst l0 i j (pgnum - suc rounds) p >>= λ r.
    and_then r λ q. copy_level_0 rounds dst l0 i j q

-- What an entry that points to a table is: it is skipped where it is no table.
abbrev pub child : ℕ → Option ℕ
child pte =
    if is_valid pte && is_table pte
    then if pte_to_pa pte == 0 then none else some (pte_to_pa pte)
    else none

-- `for j in 0..PGNUM`.
copy_level_1 : ℕ → ℕ → ℕ → ℕ → Pmem → Outcome (Result (Unit {0}) × Pmem)
unfolding copy_level_0
copy_level_1 zero dst l1 i p = ok (value tt, p)
copy_level_1 (suc rounds) dst l1 i p =
    let j = pgnum - suc rounds in
    elim (child (p.mem (entry_at l1 j))) [
      | none ↦ copy_level_1 rounds dst l1 i p
      | some l0 ↦
          copy_level_0 pgnum dst l0 i j p >>= λ r. and_then r λ q. copy_level_1 rounds dst l1 i q
    ]

-- `for i in 0..PGNUM`.
copy_level_2 : ℕ → ℕ → ℕ → Pmem → Outcome (Result (Unit {0}) × Pmem)
unfolding copy_level_1
copy_level_2 zero dst l2 p = ok (value tt, p)
copy_level_2 (suc rounds) dst l2 p =
    let i = pgnum - suc rounds in
    elim (child (p.mem (entry_at l2 i))) [
      | none ↦ copy_level_2 rounds dst l2 p
      | some l1 ↦
          copy_level_1 pgnum dst l1 i p >>= λ r. and_then r λ q. copy_level_2 rounds dst l2 q
    ]

-- An error leaves the new table and its pages allocated.
unfoldable pub copy : ℕ → Pmem → Outcome (Result ℕ × Pmem)
unfolding copy_level_2
copy root p = alloc true p >>= λ new.
    if new.0 == 0
    then ok (error no_mem, new.1)
    else (copy_level_2 pgnum new.0 root (record new.1 { mem = zero_page new.1.mem new.0 }) >>= λ r.
        ok (elim r.0 [ value u ↦ value new.0 | error e ↦ error e ], r.1))

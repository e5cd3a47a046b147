-- ===== src/Mem/Pagetable.antt =====
-- kernel/src/mem/pagetable.rs: Sv39 page tables in the memory of the page allocator. A table is the
-- address of its page, and an entry the word at its address; `table as *mut PageTable` reads and
-- writes that memory. `print` and `destroy` are left out.
pub mod Laws
pub mod Hang
pub mod Walked
pub mod Ends
pub mod Copy
mod Tests
use glenda.Prelude.{
  ℕ, zero, suc, ◌+◌, ◌-◌, ◌*◌, ◌/◌, Bool, true, false, not, ◌&&◌, ◌||◌, Option, none, some, leb,
  ◌==◌, if◌then◌else◌, update, Outcome, ok, panic, stuck, ◌>>=◌, add_usize, sub_usize,
}
use glenda.Mem.Addr.{pgsize, va_max, align_down, align_up, vpn}
use glenda.Mem.Pte.{pte_v, is_valid, is_leaf, pte_to_pa, pa_to_pte}
use glenda.Mem.Pmem.{Pmem, alloc, free, get_region, zero_page}

abbrev pub entry_at : ℕ → ℕ → ℕ
entry_at table idx = table + idx * 8

-- `vpn(va)[level]`.
vpn_at : ℕ → ℕ → ℕ
unfolding vpn
vpn_at zero va = (vpn va).0
vpn_at (suc zero) va = (vpn va).1
vpn_at (suc (suc level)) va = (vpn va).2

-- The table that a valid entry points to.
next_table : ℕ → Option ℕ
next_table pte =
    if is_leaf pte then none else if pte_to_pa pte == 0 then none else some (pte_to_pa pte)

-- The memory after a new table has been hung into the entry at `slot`.
abbrev pub hang : ℕ → ℕ → Pmem → Pmem
hang slot table p = record p { mem = update (zero_page p.mem table) slot (pa_to_pte table pte_v) }

-- The loop of `walk`, from the level `level` down; it ends at the entry's address.
walk_levels : ℕ → Bool → ℕ → ℕ → Pmem → Outcome (Option ℕ × Pmem)
unfolding vpn_at next_table
walk_levels zero allocates table va p = ok (some (entry_at table (vpn_at 0 va)), p)
walk_levels (suc level) allocates table va p =
    let slot = entry_at table (vpn_at (suc level) va) in
    elim (is_valid (p.mem slot)) [
      | true ↦ elim (next_table (p.mem slot)) [
        | none ↦ ok (none, p)
        | some t ↦ walk_levels level allocates t va p
      ]
      | false ↦ elim allocates [
        | false ↦ ok (none, p)
        | true ↦ alloc true p >>= λ new. elim (new.0 == 0) [
          | true ↦ ok (none, new.1)
          | false ↦ walk_levels level true new.0 va (hang slot new.0 new.1)
        ]
      ]
    ]

unfoldable pub walk : ℕ → ℕ → Bool → Pmem → Outcome (Option ℕ × Pmem)
unfolding walk_levels
walk root va allocates p = if leb va_max va then ok (none, p) else walk_levels 2 allocates root va p

lookup_levels : ℕ → ℕ → ℕ → (ℕ → ℕ) → Option ℕ
unfolding vpn_at next_table
lookup_levels zero table va mem = some (entry_at table (vpn_at 0 va))
lookup_levels (suc level) table va mem =
    let pte = mem (entry_at table (vpn_at (suc level) va)) in
    elim (is_valid pte) [
      | true ↦ elim (next_table pte) [ none ↦ none | some t ↦ lookup_levels level t va mem ]
      | false ↦ none
    ]

unfoldable pub lookup : ℕ → ℕ → (ℕ → ℕ) → Option ℕ
unfolding lookup_levels
lookup root va mem = if leb va_max va then none else lookup_levels 2 root va mem

-- `*pte = v`.
abbrev pub set_entry : ℕ → ℕ → Pmem → Pmem
set_entry slot v p = record p { mem = update p.mem slot v }

-- `flags | PTE_V`.
abbrev pub with_valid : ℕ → ℕ
with_valid flags = flags / 2 * 2 + pte_v

-- One round of `map` on the entry of a page: false where it maps something else.
unfoldable pub map_entry : ℕ → ℕ → ℕ → Pmem → Bool × Pmem
map_entry slot pa flags p =
    let cur = p.mem slot in
    if is_valid cur && (not (is_leaf cur) || not (pte_to_pa cur == pa))
    then (false, p)
    else (true, set_entry slot (pa_to_pte pa (with_valid flags)) p)

-- The loop of `map`; the fuel is the number of pages.
map_pages : ℕ → ℕ → ℕ → ℕ → ℕ → ℕ → Pmem → Outcome (Bool × Pmem)
unfolding walk map_entry
map_pages zero root a last pa flags p = stuck
map_pages (suc fuel) root a last pa flags p =
    if leb a last
    then (walk root a true p >>= λ w. elim w.0 [
      | none ↦ ok (false, w.1)
      | some slot ↦
          let m = map_entry slot pa flags w.1 in
          elim (m.0 && not (a == last)) [
            | false ↦ ok m
            | true ↦
                add_usize pa pgsize >>= λ next. map_pages fuel root (a + pgsize) last next flags m.1
          ]
    ])
    else ok (true, p)

unfoldable pub map : ℕ → ℕ → ℕ → ℕ → ℕ → Pmem → Outcome (Bool × Pmem)
unfolding map_pages
map root va pa len flags p = if len == 0 then ok (false, p) else (do
  sum ← add_usize va len
  end ← align_up sum
  last ← sub_usize end pgsize
  map_pages (end / pgsize + 1) root (align_down va) last (align_down pa) flags p)

-- One round of `unmap` on the entry of a page.
unfoldable pub unmap_entry : ℕ → Bool → Pmem → Outcome (Bool × Pmem)
unmap_entry slot frees p =
    let old = p.mem slot in
    let pa = pte_to_pa old in
    let freed = get_region pa p >>= λ r. elim r [ none ↦ panic | some _ ↦ free pa p ] in
    let unfreed = if frees then freed else ok p in
    if not (is_valid old) || not (is_leaf old)
    then ok (false, p)
    else (unfreed >>= λ q. ok (true, set_entry slot 0 q))

unmap_pages : ℕ → ℕ → ℕ → ℕ → Bool → Pmem → Outcome (Bool × Pmem)
unfolding lookup unmap_entry
unmap_pages zero root a last frees p = stuck
unmap_pages (suc fuel) root a last frees p =
    if leb a last
    then elim (lookup root a p.mem) [
      | none ↦ ok (false, p)
      | some slot ↦ unmap_entry slot frees p >>= λ m. elim (m.0 && not (a == last)) [
        | false ↦ ok m
        | true ↦ unmap_pages fuel root (a + pgsize) last frees m.1
      ]
    ]
    else ok (true, p)

unfoldable pub unmap : ℕ → ℕ → ℕ → Bool → Pmem → Outcome (Bool × Pmem)
unfolding unmap_pages
unmap root va len frees p = if len == 0 then ok (false, p) else (do
  sum ← add_usize va len
  end ← align_up sum
  last ← sub_usize end pgsize
  unmap_pages (end / pgsize + 1) root (align_down va) last frees p)

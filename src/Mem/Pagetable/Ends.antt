-- ===== src/Mem/Pagetable/Ends.antt =====
-- The loops of `map` and `unmap` of kernel/src/mem/pagetable.rs.
use glenda.Prelude.{
  ends_rules, Ends, returns, panics, >>=-Ends, >>=-Ends_at, if-Ends, option-Ends, ℕ, zero, suc, ◌+◌,
  ◌*◌, ◌/◌, ◌%◌, ◌^◌, ◌-◌, ◌≤◌, ◌<◌, ◌≡◌, refl, Bool, true, false, not, ◌&&◌, leb, ltb, ◌==◌,
  Outcome, ◌>>=◌, Bool-cases, Option-cases, inl, inr, arith, add_usize, sub_usize,
}
use glenda.Mem.Addr.{pgsize, va_max, align_up, align_down}
use glenda.Mem.Pte.{is_valid}
use glenda.Mem.Pmem.{Pmem, allocate, take_head, alloc, pa_to_index, free, free_in, get_region, info}
use glenda.Mem.Pagetable.{
  hang, walk, walk_levels, next_table, map_entry, map_pages, map, lookup, unmap_entry, unmap_pages,
  unmap, entry_at, vpn_at,
}

pa_to_index-Ends : (pa : ℕ) → Ends (pa_to_index pa)
unfolding pa_to_index
pa_to_index-Ends pa = search ends_rules

allocate-Ends : (k : Bool) (p : Pmem) → Ends (allocate k p)
unfolding allocate take_head
allocate-Ends k p = search (ends_rules, pa_to_index-Ends) depth 12

pub alloc-Ends : (k : Bool) (p : Pmem) → Ends (alloc k p)
unfolding alloc
alloc-Ends k p = >>=-Ends (allocate-Ends k p) λ r. option-Ends r.0 panics λ a. returns

walk_levels-Ends :
    (level : ℕ) (b : Bool) (table va : ℕ) (p : Pmem) → Ends (walk_levels level b table va p)
unfolding walk_levels
walk_levels-Ends zero b table va p = returns
walk_levels-Ends (suc level) b table va p =
    let pte = p.mem (entry_at table (vpn_at (suc level) va)) in
    elim (Bool-cases (is_valid pte)) [
      | inl v ↦ elim (Option-cases (next_table pte)) [
        | inl n ↦ rw (walk_levels, v, n) returns
        | inr (t, n) ↦ rw (walk_levels, v, n) (walk_levels-Ends level b t va p)
      ]
      | inr v ↦ elim (Bool-cases b) [
        | inl e ↦
            rw (walk_levels, v, e)
              (>>=-Ends (alloc-Ends true p) λ new. elim (Bool-cases (new.0 == 0)) [
                | inl z ↦ rw z returns
                | inr z ↦ rw z (
                    walk_levels-Ends level true new.0 va
                      (hang (entry_at table (vpn_at (suc level) va)) new.0 new.1))
              ])
        | inr e ↦ rw (walk_levels, v, e) returns
      ]
    ]

walk-Ends : (root va : ℕ) (b : Bool) (p : Pmem) → Ends (walk root va b p)
unfolding walk
walk-Ends root va b p = if-Ends (leb va_max va) returns (walk_levels-Ends 2 b root va p)

free_in-Ends : (k : Bool) (a : ℕ) (p : Pmem) → Ends (free_in k a p)
unfolding free_in
free_in-Ends k a p = search (ends_rules, pa_to_index-Ends) depth 12

free-Ends : (a : ℕ) (p : Pmem) → Ends (free a p)
unfolding free
free-Ends a p = search (ends_rules, free_in-Ends)

pub get_region-Ends : (pa : ℕ) (p : Pmem) → Ends (get_region pa p)
unfolding get_region info
get_region-Ends pa p = search ends_rules

unmap_entry-Ends : (slot : ℕ) (b : Bool) (p : Pmem) → Ends (unmap_entry slot b p)
unfolding unmap_entry
unmap_entry-Ends slot b p = if-Ends _ returns (
    >>=-Ends
      (if-Ends b (>>=-Ends (get_region-Ends _ p) λ r. option-Ends r panics λ k. free-Ends _ p)
        returns)
      λ q. returns)

-- The last page of a range, and that the rounds reach it.
record Rounds (va len last : ℕ) (fuel : ℕ) : Type 0 where
  starts : align_down va ≤ last
  begins : align_down va % pgsize ≡ 0
  stops : last % pgsize ≡ 0
  enough : last < align_down va + fuel * pgsize

range-Ends :
    {A : Type 0} (va len : ℕ) (f : ℕ → ℕ → Outcome A)
    → (len == 0) ≡ false
    → ((last fuel : ℕ) → Rounds va len last fuel → Ends (f last fuel))
    → Ends (do
      sum ← add_usize va len
      end ← align_up sum
      last ← sub_usize end pgsize
      f last (end / pgsize + 1))
unfolding align_up align_down
range-Ends va len f some_len g =
    >>=-Ends_at (if-Ends (ltb (va + len) (2 ^ 64)) returns panics) λ sum es.
      >>=-Ends_at (>>=-Ends (if-Ends (ltb (sum + 4095) (2 ^ 64)) returns panics) λ t. returns)
        λ end ee. >>=-Ends_at (if-Ends (leb pgsize end) returns panics) λ last el.
          let sum_is : sum ≡ va + len = ground (arith, es) in
          let end_is : end ≡ (sum + 4095) / pgsize * pgsize = ground (arith, ee) in
          let last_is : last ≡ end - pgsize = ground (arith, el) in
          let positive : 0 < len = ground (arith, some_len) in
          g last (end / pgsize + 1) (record {
            starts = omega arith;
            begins = omega arith;
            stops = omega arith;
            enough = omega arith;
          })

-- The end of a round: on to the next page, or not.
next-Ends {ℓ} :
    {A : Type ℓ} (b c : Bool) {x y : Outcome A}
    → Ends x
    → (c ≡ false → Ends y)
    → Ends (elim (b && not c) [ false ↦ x | true ↦ y ])
next-Ends true true e g = e
next-Ends true false e g = g refl
next-Ends false c e g = e

map_pages-Ends :
    (fuel root a last pa flags : ℕ) (p : Pmem)
    → a ≤ last
    → a % pgsize ≡ 0
    → last % pgsize ≡ 0
    → last < a + fuel * pgsize
    → Ends (map_pages fuel root a last pa flags p)
unfolding map_pages
map_pages-Ends zero root a last pa flags p h ea el enough = absurd (omega arith)
map_pages-Ends (suc fuel) root a last pa flags p h ea el enough =
    if-Ends _
      (>>=-Ends (walk-Ends root a true p) λ w. option-Ends w.0 returns λ slot.
        next-Ends (map_entry slot pa flags w.1).0 (a == last) returns λ n.
          >>=-Ends (if-Ends (ltb (pa + pgsize) (2 ^ 64)) returns panics) λ next.
            map_pages-Ends fuel root (a + pgsize) last next flags (map_entry slot pa flags w.1).1
              (ground arith) (omega arith) el (ground arith))
      returns

-- `map` ends for every range, table and state: its loop has a round for each page.
pub map-Ends : (root va pa len flags : ℕ) (p : Pmem) → Ends (map root va pa len flags p)
unfolding map
map-Ends root va pa len flags p = elim (Bool-cases (len == 0)) [
  | inl e ↦ rw e returns
  | inr e ↦ rw e (
      range-Ends va len
        (λ last fuel. map_pages fuel root (align_down va) last (align_down pa) flags p) e
        λ last fuel r.
          map_pages-Ends fuel root (align_down va) last (align_down pa) flags p r.starts r.begins
            r.stops r.enough)
]

unmap_pages-Ends :
    (fuel root a last : ℕ) (b : Bool) (p : Pmem)
    → a ≤ last
    → a % pgsize ≡ 0
    → last % pgsize ≡ 0
    → last < a + fuel * pgsize
    → Ends (unmap_pages fuel root a last b p)
unfolding unmap_pages
unmap_pages-Ends zero root a last b p h ea el enough = absurd (omega arith)
unmap_pages-Ends (suc fuel) root a last b p h ea el enough =
    if-Ends _
      (option-Ends (lookup root a p.mem) returns λ slot. >>=-Ends (unmap_entry-Ends slot b p) λ m.
        next-Ends m.0 (a == last) returns λ n.
          unmap_pages-Ends fuel root (a + pgsize) last b m.1 (ground arith) (omega arith) el
            (ground arith))
      returns

-- `unmap` ends for every range, table and state, with or without freeing the pages.
pub unmap-Ends : (root va len : ℕ) (b : Bool) (p : Pmem) → Ends (unmap root va len b p)
unfolding unmap
unmap-Ends root va len b p = elim (Bool-cases (len == 0)) [
  | inl e ↦ rw e returns
  | inr e ↦ rw e (
      range-Ends va len (λ last fuel. unmap_pages fuel root (align_down va) last b p) e
        λ last fuel r.
          unmap_pages-Ends fuel root (align_down va) last b p r.starts r.begins r.stops r.enough)
]

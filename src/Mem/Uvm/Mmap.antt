-- ===== src/Mem/Uvm/Mmap.antt =====
-- `mmap` of kernel/src/mem/uvm.rs. The chain of regions is walked with a zipper: the regions before
-- `cur`, the nearest first, so that `prev` is their head, and the regions from `cur` on.
pub mod Layout
pub mod Seek
pub mod Place
pub mod Start
pub mod Mapped
pub mod Ends
pub mod Correct
pub mod Gaps
mod Tests
use glenda.Prelude.{
  ℕ, zero, suc, ◌+◌, ◌-◌, ◌*◌, ◌/◌, ◌%◌, ◌^◌, Bool, true, false, not, ◌&&◌, ◌||◌, Option, none,
  some, List, [], ◌∷◌, Outcome, ok, ◌>>=◌, add_usize, ltb, leb, ◌==◌, if◌then◌else◌,
}
use glenda.Mem.Addr.{pgsize, align_up}
use glenda.Mem.Pmem.{Pmem}
use glenda.Mem.Mmap.{MmapRegion, Warehouse, region_alloc, region_free}
use glenda.Mem.Uvm.{UvmError, out_of_range, no_mem, map_failed, Result, value, error, map_pages}

-- The page allocator, the warehouse and the process's regions.
pub record Space : Type 0 where
  pub pool : Pmem
  pub warehouse : Warehouse
  pub regions : List MmapRegion

abbrev pub end_of : MmapRegion → ℕ
end_of r = r.begin + r.npages * pgsize

-- The search for a gap of `size` bytes from `cursor` on: a place where there is one, and the cursor.
pub find_gap : ℕ → ℕ → List MmapRegion → Option ℕ × ℕ
find_gap size cursor [] = (none, cursor)
find_gap size cursor (cur ∷ rest) =
    let next = find_gap size (if leb cursor cur.begin then end_of cur else cursor) rest in
    if leb cursor cur.begin && leb size (cur.begin - cursor) then (some cursor, cursor) else next

-- `begin`, where the caller gives 0 for any place.
unfoldable pub choose : ℕ → ℕ → ℕ → ℕ → List MmapRegion → Option ℕ
unfolding find_gap
choose begin size mmap_begin mmap_end regions =
    if begin == 0
    then elim (find_gap size mmap_begin regions).0 [
      | some place ↦ some place
      | none ↦
          let cursor = (find_gap size mmap_begin regions).1 in
          if leb size (mmap_end - cursor) then some cursor else none
    ]
    else some begin

-- The walk to the first region at or behind `begin`.
pub seek : ℕ → List MmapRegion → List MmapRegion → List MmapRegion × List MmapRegion
seek begin before [] = (before, [])
seek begin before (cur ∷ rest) =
    let further = seek begin (cur ∷ before) rest in
    if ltb cur.begin begin then further else (before, cur ∷ rest)

-- The whole chain.
unfoldable pub unwind : List MmapRegion → List MmapRegion → List MmapRegion
unwind [] after = after
unwind (r ∷ before) after = unwind before (r ∷ after)

abbrev pub overlaps_prev : ℕ → List MmapRegion → Bool
overlaps_prev begin [] = false
overlaps_prev begin (prev ∷ _) = ltb begin (end_of prev)

abbrev pub overlaps_next : ℕ → List MmapRegion → Bool
overlaps_next end [] = false
overlaps_next end (cur ∷ _) = ltb cur.begin end

-- A number of pages `as u32`.
abbrev pub pages : ℕ → ℕ
pages bytes = bytes / pgsize % 2 ^ 32

-- The result of `f` where the pages could be mapped, and else the error.
abbrev pub after_pages :
    Space
    → Outcome (Result (Unit {0}) × Pmem)
    → (Space → Outcome (Result ℕ × Space))
    → Outcome (Result ℕ × Space)
after_pages s mapped f = mapped >>= λ m. elim m.0 [
  | value _ ↦ f (record s { pool = m.1 })
  | error e ↦ ok (error e, record s { pool = m.1 })
]

-- The regions once the pages behind `prev` are mapped: `prev` grows up to `end`, and takes in the next
-- region where they touch.
extend_prev :
    ℕ → MmapRegion → List MmapRegion → List MmapRegion → Space → Outcome (Result ℕ × Space)
extend_prev end prev before [] s =
    let grown = record prev { npages = pages (end - prev.begin) } in
    ok (value prev.begin, record s { regions = unwind before (grown ∷ []) })
extend_prev end prev before (next ∷ rest) s =
    let grown = record prev { npages = pages (end - prev.begin) } in
    let joined = record prev { npages = pages (end_of next - prev.begin) } in
    if end == next.begin
    then ok (
      value prev.begin,
      record s {
        regions = unwind before (joined ∷ rest);
        warehouse = region_free next.node s.warehouse;
      },
    )
    else ok (value prev.begin, record s { regions = unwind before (grown ∷ next ∷ rest) })

grow_prev :
    ℕ → ℕ → MmapRegion → List MmapRegion → List MmapRegion → Space → Outcome (Result ℕ × Space)
unfolding extend_prev
grow_prev root end prev before after s =
    let prev_end = end_of prev in
    after_pages s (map_pages root prev_end ((end - prev_end) / pgsize) s.pool)
      (extend_prev end prev before after)

-- The next region grows down to `begin`.
extend_next :
    ℕ → List MmapRegion → MmapRegion → List MmapRegion → Space → Outcome (Result ℕ × Space)
extend_next begin before next rest s =
    let grown = record next { begin = begin; npages = pages (end_of next - begin) } in
    ok (value begin, record s { regions = unwind before (grown ∷ rest) })

grow_next :
    ℕ → ℕ → ℕ → List MmapRegion → MmapRegion → List MmapRegion → Space → Outcome (Result ℕ × Space)
unfolding extend_next
grow_next root begin end before next rest s =
    after_pages s (map_pages root begin ((end - begin) / pgsize) s.pool)
      (extend_next begin before next rest)

-- A region of its own, in a node from the warehouse.
add_node : ℕ → ℕ → List MmapRegion → List MmapRegion → Space → Outcome (Result ℕ × Space)
add_node begin npages before after s =
    let taken = region_alloc s.warehouse in
    let t = record s { warehouse = taken.1 } in
    elim taken.0 [
      | none ↦ ok (error no_mem, t)
      | some node ↦
          let r : MmapRegion = record { node = node; begin = begin; npages = npages % 2 ^ 32 } in
          ok (value begin, record t { regions = unwind before (r ∷ after) })
    ]

add_region : ℕ → ℕ → ℕ → List MmapRegion → List MmapRegion → Space → Outcome (Result ℕ × Space)
unfolding add_node
add_region root begin npages before after s =
    after_pages s (map_pages root begin npages s.pool) (add_node begin npages before after)

-- Without a region before that ends at `begin`.
insert_next : ℕ → ℕ → ℕ → ℕ → List MmapRegion → List MmapRegion → Space → Outcome (Result ℕ × Space)
unfolding grow_next add_region
insert_next root begin end npages before [] s = add_region root begin npages before [] s
insert_next root begin end npages before (next ∷ rest) s =
    if end == next.begin
    then grow_next root begin end before next rest s
    else add_region root begin npages before (next ∷ rest) s

-- The end of `mmap`, where the place is free.
pub insert : ℕ → ℕ → ℕ → List MmapRegion → List MmapRegion → Space → Outcome (Result ℕ × Space)
unfolding grow_prev insert_next
insert root begin npages [] after s =
    insert_next root begin (begin + npages * pgsize) npages [] after s
insert root begin npages (prev ∷ earlier) after s =
    let end = begin + npages * pgsize in
    if end_of prev == begin
    then grow_prev root end prev earlier after s
    else insert_next root begin end npages (prev ∷ earlier) after s

-- The place against its neighbours.
place : ℕ → ℕ → ℕ → List MmapRegion × List MmapRegion → Space → Outcome (Result ℕ × Space)
unfolding insert
place root begin npages (before, after) s =
    if overlaps_prev begin before || overlaps_next (begin + npages * pgsize) after
    then ok (error out_of_range, s)
    else insert root begin npages before after s

-- "Sanity", and all that follows.
pub mmap_at : ℕ → ℕ → ℕ → ℕ → ℕ → Space → Outcome (Result ℕ × Space)
unfolding seek place
mmap_at root begin npages mmap_begin mmap_end s =
    if ltb begin mmap_begin
    then ok (error out_of_range, s)
    else (add_usize begin (npages * pgsize) >>= λ end.
        if ltb mmap_end end || not (begin % pgsize == 0)
        then ok (error out_of_range, s)
        else place root begin npages (seek begin [] s.regions) s)

unfoldable pub mmap : ℕ → ℕ → ℕ → ℕ → ℕ → Space → Outcome (Result ℕ × Space)
unfolding mmap_at
mmap root begin len mmap_begin mmap_end s =
    if len == 0
    then ok (error out_of_range, s)
    else (align_up len >>= λ size.
        let npages = size / pgsize in
        if npages == 0
        then ok (error out_of_range, s)
        else (elim (choose begin (npages * pgsize) mmap_begin mmap_end s.regions) [
          | none ↦ ok (error out_of_range, s)
          | some at ↦ mmap_at root at npages mmap_begin mmap_end s
        ]))

-- ===== src/Mem/Uvm/Mmap/Ends.antt =====
-- `mmap` of kernel/src/mem/uvm.rs returns or panics.
use glenda.Prelude.{
  ℕ, ◌+◌, ◌*◌, ◌/◌, ◌%◌, not, ◌||◌, List, [], ◌∷◌, ltb, ◌==◌, Outcome, ok, panic, stuck, Ends,
  returns, panics, >>=-Ends, if-Ends, option-Ends,
}
use glenda.Mem.Addr.{pgsize}
use glenda.Mem.Pmem.{Pmem}
use glenda.Mem.Mmap.{MmapRegion}
use glenda.Mem.Uvm.{Result, value, error}
use glenda.Mem.Uvm.Ends.{map_pages-Ends, add_usize-Ends, align_up-Ends}
use glenda.Mem.Uvm.Mmap.{
  Space, end_of, seek, grow_prev, grow_next, add_region, extend_prev, extend_next, add_node,
  insert_next, insert, place, mmap_at, mmap, after_pages, overlaps_prev, overlaps_next, choose,
}

result-Ends :
    (f : Space → Outcome (Result ℕ × Space)) (s : Space) (m : Outcome (Result (Unit {0}) × Pmem))
    → Ends m
    → ((t : Space) → Ends (f t))
    → Ends (after_pages s m f)
result-Ends f s (ok (value u, q)) e g = g (record s { pool = q })
result-Ends f s (ok (error x, q)) e g = returns
result-Ends f s panic e g = panics
result-Ends f s stuck e g = elim e [ ]

add_node-Ends :
    (begin npages : ℕ) (before after : List MmapRegion) (s : Space)
    → Ends (add_node begin npages before after s)
unfolding add_node
add_node-Ends begin npages before after s = option-Ends _ returns λ node. returns

insert_next-Ends :
    (root begin end npages : ℕ) (before after : List MmapRegion) (s : Space)
    → Ends (insert_next root begin end npages before after s)
unfolding insert_next grow_next add_region extend_next
insert_next-Ends root begin end npages before [] s =
    result-Ends _ s _ (map_pages-Ends root begin npages s.pool)
      (add_node-Ends begin npages before [])
insert_next-Ends root begin end npages before (next ∷ rest) s =
    if-Ends (end == next.begin)
      (result-Ends (extend_next begin before next rest) s _ (map_pages-Ends root begin _ s.pool)
        λ t. returns)
      (result-Ends _ s _ (map_pages-Ends root begin npages s.pool)
        (add_node-Ends begin npages before (next ∷ rest)))

extend_prev-Ends :
    (end : ℕ) (prev : MmapRegion) (before after : List MmapRegion) (s : Space)
    → Ends (extend_prev end prev before after s)
unfolding extend_prev
extend_prev-Ends end prev before [] s = returns
extend_prev-Ends end prev before (next ∷ rest) s = if-Ends (end == next.begin) returns returns

insert-Ends :
    (root begin npages : ℕ) (before after : List MmapRegion) (s : Space)
    → Ends (insert root begin npages before after s)
unfolding insert grow_prev
insert-Ends root begin npages [] after s = insert_next-Ends root begin _ npages [] after s
insert-Ends root begin npages (prev ∷ earlier) after s =
    if-Ends (end_of prev == begin)
      (result-Ends _ s _ (map_pages-Ends root _ _ s.pool)
        (extend_prev-Ends (begin + npages * pgsize) prev earlier after))
      (insert_next-Ends root begin _ npages (prev ∷ earlier) after s)

mmap_at-Ends :
    (root begin npages low high : ℕ) (s : Space) → Ends (mmap_at root begin npages low high s)
unfolding mmap_at place
mmap_at-Ends root begin npages low high s = if-Ends (ltb begin low) returns (
    >>=-Ends (add_usize-Ends begin (npages * pgsize)) λ end.
      let z = seek begin [] s.regions in
      if-Ends (ltb high end || not (begin % pgsize == 0)) returns (
        if-Ends (overlaps_prev begin z.0 || overlaps_next (begin + npages * pgsize) z.1) returns
          (insert-Ends root begin npages z.0 z.1 s)))

pub mmap-Ends : (root begin len low high : ℕ) (s : Space) → Ends (mmap root begin len low high s)
unfolding mmap
mmap-Ends root begin len low high s = if-Ends (len == 0) returns (
    >>=-Ends (align_up-Ends len) λ size. if-Ends (size / pgsize == 0) returns (
      option-Ends (choose begin (size / pgsize * pgsize) low high s.regions) returns
        λ at. mmap_at-Ends root at (size / pgsize) low high s))

-- ===== src/Mem/Uvm/Mmap/Mapped.antt =====
-- `mmap` of kernel/src/mem/uvm.rs against the set of addresses that the regions cover.
use glenda.Prelude.{
  sym, ℕ, ◌+◌, ◌-◌, ◌*◌, ◌/◌, ◌%◌, ◌^◌, ◌≤◌, ◌<◌, ◌≡◌, refl, subst, false, Option-cases, List, [],
  ◌∷◌, ◌==◌, arith, Bool-cases, inl, inr, Outcome, ok, panic, stuck,
}
use glenda.Mem.Addr.{pgsize}
use glenda.Mem.Pmem.{Pmem}
use glenda.Mem.Mmap.{MmapRegion, region_alloc}
use glenda.Mem.Uvm.{Result, value, error, map_pages}
use glenda.Mem.Uvm.Mmap.{
  Space, end_of, unwind, pages, grow_prev, grow_next, add_region, extend_prev, extend_next,
  add_node, insert_next, insert, after_pages, overlaps_prev,
}
use glenda.Mem.Uvm.Mmap.Layout.{IsLayout-bound, start_of}
use glenda.Mem.Uvm.Mmap.Seek.{edge, IsZipper}
use glenda.Mem.Uvm.Mmap.Place.{
  Mapped, EndsBefore, added-Mapped, grown_prev-Mapped, joined-Mapped, grown_next-Mapped,
}
use glenda.Mem.Uvm.Mmap.Start.{EndsBy, EndsBefore-EndsBy, start_of-gap, start_of-prev}

-- What `mmap` does with `[begin, end)`: an error leaves the regions, a success adds the range. The
-- address that it returns is the begin of the old region that ends at `begin`, and else `begin`.
abbrev pub Adds : ℕ → ℕ → ℕ → ℕ → List MmapRegion → Outcome (Result ℕ × Space) → Type 0
Adds low high begin end old (ok (value va, s)) =
    Mapped low high begin end old s.regions × (va ≡ start_of begin old)
Adds low high begin end old (ok (error e, s)) = s.regions ≡ old
Adds low high begin end old panic = Unit
Adds low high begin end old stuck = Unit

after_pages-Adds :
    (low high begin end : ℕ) (old : List MmapRegion) (s : Space)
    (mapped : Outcome (Result (Unit {0}) × Pmem)) (f : Space → Outcome (Result ℕ × Space))
    → s.regions ≡ old
    → ((q : Pmem) → Adds low high begin end old (f (record s { pool = q })))
    → Adds low high begin end old (after_pages s mapped f)
after_pages-Adds low high begin end old s (ok (value u, q)) f same g = g q
after_pages-Adds low high begin end old s (ok (error e, q)) f same g = same
after_pages-Adds low high begin end old s panic f same g = tt
after_pages-Adds low high begin end old s stuck f same g = tt

module _ (root low high begin npages : ℕ) (small : high < 2 ^ 44) (some_pages : 0 < npages)
    (top : begin + npages * pgsize ≤ high) (eb : begin % pgsize ≡ 0) (s : Space) where
  abbrev end : ℕ
  end = begin + npages * pgsize

  at_begin :
      (before after : List MmapRegion)
      → unwind before after ≡ s.regions
      → IsZipper low high before after
      → edge low before ≤ begin
      → EndsBy end after
      → start_of begin s.regions ≡ begin
  at_begin before after whole z lo by =
      subst (λ old. start_of begin old ≡ begin) whole
        (start_of-gap low begin end high before after (omega arith) top z lo by)

  add_region-Adds :
      (before after : List MmapRegion)
      → unwind before after ≡ s.regions
      → IsZipper low high before after
      → edge low before ≤ begin
      → EndsBefore end high after
      → Adds low high begin end s.regions (add_region root begin npages before after s)
  unfolding add_region add_node
  add_region-Adds before after whole z lo hi =
      after_pages-Adds low high begin end s.regions s (map_pages root begin npages s.pool)
        (add_node begin npages before after) refl
        λ q. elim (Option-cases (region_alloc s.warehouse).0) [
          | inl e ↦ rw (Adds, add_node, e) refl
          | inr (node, e) ↦
              let m =
                added-Mapped low high begin end small top (omega arith) eb (omega arith) before
                  after node (npages % 2 ^ 32) z lo hi (omega arith) in
              rw (Adds, add_node, e)
                (
                  subst
                      (λ old. Mapped low high begin end old (
                        unwind before (
                          record { node = node; begin = begin; npages = npages % 2 ^ 32 } ∷ after)))
                      whole m,
                  sym (at_begin before after whole z lo (EndsBefore-EndsBy end high after hi)),
                )
        ]

  grow_next-Adds :
      (before : List MmapRegion) (next : MmapRegion) (rest : List MmapRegion)
      → unwind before (next ∷ rest) ≡ s.regions
      → IsZipper low high before (next ∷ rest)
      → edge low before ≤ begin
      → end ≡ next.begin
      → Adds low high begin end s.regions (grow_next root begin end before next rest s)
  unfolding grow_next extend_next
  grow_next-Adds before next rest whole z lo hi =
      after_pages-Adds low high begin end s.regions s
        (map_pages root begin ((end - begin) / pgsize) s.pool) (extend_next begin before next rest)
        refl
        λ q.
          let far : end_of next ≤ high =
            omega (arith, IsLayout-bound (end_of next + 1) high rest z.1.2) in
          let m =
            grown_next-Mapped low high begin end small top (omega arith) eb (omega arith) before
              next rest z lo hi far in
          (
            subst
                (λ old. Mapped low high begin end old (
                  unwind before
                    (record next { begin = begin; npages = pages (end_of next - begin) } ∷ rest)))
                whole m,
            sym (at_begin before (next ∷ rest) whole z lo (omega arith)),
          )

  extend_prev-Adds :
      (prev : MmapRegion) (earlier after : List MmapRegion) (t : Space)
      → unwind (prev ∷ earlier) after ≡ s.regions
      → IsZipper low high (prev ∷ earlier) after
      → end_of prev ≡ begin
      → EndsBy end after
      → Adds low high begin end s.regions (extend_prev end prev earlier after t)
  unfolding extend_prev
  extend_prev-Adds prev earlier [] t whole z e hi =
      let m =
        grown_prev-Mapped low high begin end small top (omega arith) eb (omega arith) prev earlier e
          [] z top in
      (
        subst
            (λ old.
              Mapped low high begin end old
                (unwind earlier (record prev { npages = pages (end - prev.begin) } ∷ [])))
            whole m,
        sym (
            subst (λ old. start_of begin old ≡ prev.begin) whole
              (start_of-prev low begin high prev earlier [] z e)),
      )
  extend_prev-Adds prev earlier (next ∷ rest) t whole z e hi =
      let start : start_of begin s.regions ≡ prev.begin =
        subst (λ old. start_of begin old ≡ prev.begin) whole
          (start_of-prev low begin high prev earlier (next ∷ rest) z e) in
      let far : end_of next ≤ high =
        omega (arith, IsLayout-bound (end_of next + 1) high rest z.1.2) in
      elim (Bool-cases (end == next.begin)) [
        | inl y ↦
            let m =
              joined-Mapped low high begin end small top (omega arith) eb (omega arith) prev earlier
                e next rest z (ground arith) far in
            rw (Adds, y)
              (
                subst
                    (λ old. Mapped low high begin end old (
                      unwind earlier
                        (record prev { npages = pages (end_of next - prev.begin) } ∷ rest)))
                    whole m,
                sym start,
              )
        | inr n ↦
            let m =
              grown_prev-Mapped low high begin end small top (omega arith) eb (omega arith) prev
                earlier e (next ∷ rest) z (ground arith) in
            rw (Adds, n)
              (
                subst
                    (λ old. Mapped low high begin end old (
                      unwind earlier
                        (record prev { npages = pages (end - prev.begin) } ∷ next ∷ rest)))
                    whole m,
                sym start,
              )
      ]

  insert_next-Adds :
      (before after : List MmapRegion)
      → unwind before after ≡ s.regions
      → IsZipper low high before after
      → edge low before ≤ begin
      → EndsBy end after
      → Adds low high begin end s.regions (insert_next root begin end npages before after s)
  unfolding insert_next
  insert_next-Adds before [] whole z lo hi = add_region-Adds before [] whole z lo top
  insert_next-Adds before (next ∷ rest) whole z lo hi = elim (Bool-cases (end == next.begin)) [
    | inl y ↦ rw (Adds, y) (grow_next-Adds before next rest whole z lo (ground arith))
    | inr n ↦ rw (Adds, n) (add_region-Adds before (next ∷ rest) whole z lo (ground arith))
  ]

  pub insert-Adds :
      (before after : List MmapRegion)
      → unwind before after ≡ s.regions
      → IsZipper low high before after
      → low ≤ begin
      → overlaps_prev begin before ≡ false
      → EndsBy end after
      → Adds low high begin end s.regions (insert root begin npages before after s)
  unfolding insert grow_prev
  insert-Adds [] after whole z lo free hi = insert_next-Adds [] after whole z lo hi
  insert-Adds (prev ∷ earlier) after whole z lo free hi = elim (Bool-cases (end_of prev == begin)) [
    | inl y ↦
        rw (Adds, y)
          (after_pages-Adds low high begin end s.regions s
            (map_pages root (end_of prev) ((end - end_of prev) / pgsize) s.pool)
            (extend_prev end prev earlier after) refl
            λ q.
              extend_prev-Adds prev earlier after (record s { pool = q }) whole z (ground arith) hi)
    | inr n ↦ rw (Adds, n) (insert_next-Adds (prev ∷ earlier) after whole z (ground arith) hi)
  ]

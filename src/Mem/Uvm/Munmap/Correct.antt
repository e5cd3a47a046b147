-- ===== src/Mem/Uvm/Munmap/Correct.antt =====
-- `munmap` of kernel/src/mem/uvm.rs against the set of addresses that the regions cover.
use glenda.Prelude.{
  ℕ, ◌+◌, ◌-◌, ◌%◌, ◌^◌, ◌≤◌, ◌<◌, ◌≡◌, subst, ◌∙◌, max, min, Bool, true, false, not, ◌&&◌, ◌||◌,
  Option-cases, List, [], ◌∷◌, ◌++◌, ltb, leb, arith, Bool-cases, inl, inr, Outcome, ok, panic,
  stuck, Outcome-cases,
}
use glenda.Mem.Addr.{pgsize}
use glenda.Mem.Pagetable.{unmap}
use glenda.Mem.Mmap.{MmapRegion}
use glenda.Mem.Uvm.{Result, value, error}
use glenda.Mem.Uvm.Mmap.{Space, end_of, unwind}
use glenda.Mem.Uvm.Mmap.Layout.{
  in_range, IsRegion, IsBefore, IsLayout, IsLayout-bound, covers, covers-unwind, covers-below,
  unwind-IsLayout,
}
use glenda.Mem.Uvm.Munmap.{cut, unmap_from}
use glenda.Mem.Uvm.Munmap.Cuts.{Cut, Cuts, cut-Cuts, IsBefore-weaken}

-- The chain afterwards. A success covers what `old` did, less `[start, end)`. An error may have taken
-- only part of that range.
abbrev pub Removes : ℕ → ℕ → ℕ → ℕ → (ℕ → Bool) → Outcome (Result (Unit {0}) × Space) → Type 0
Removes low high start end old (ok (value u, t)) =
    IsLayout low high t.regions
    × ((a : ℕ) → covers t.regions a ≡ (old a && not (in_range start end a)))
Removes low high start end old (ok (error e, t)) =
    IsLayout low high t.regions
    × ((a : ℕ) → in_range start end a ≡ false → covers t.regions a ≡ old a)
    × ((a : ℕ) → old a ≡ false → covers t.regions a ≡ false)
Removes low high start end old panic = Unit
Removes low high start end old stuck = Unit

-- The same set of addresses and range, by their members.
pub Removes-of :
    (low high start start' end : ℕ) (old old' : ℕ → Bool) (o : Outcome (Result (Unit {0}) × Space))
    → start ≤ start'
    → ((a : ℕ) → (old' a && not (in_range start' end a)) ≡ (old a && not (in_range start end a)))
    → ((a : ℕ) → old a ≡ false → old' a ≡ false)
    → ((a : ℕ) → in_range start end a ≡ false → old' a ≡ old a)
    → Removes low high start' end old' o
    → Removes low high start end old o
Removes-of low high start start' end old old' (ok (value u, t)) h same less out r =
    (r.0, λ a. r.1 a ∙ same a)
Removes-of low high start start' end old old' (ok (error e, t)) h same less out r =
    (r.0, λ a outside. r.1 a (ground (arith, outside)) ∙ out a outside, λ a no. r.2 a (less a no))
Removes-of low high start start' end old old' panic h same less out r = tt
Removes-of low high start start' end old old' stuck h same less out r = tt

-- Of two lists.
abbrev pub both : List MmapRegion → List MmapRegion → ℕ → Bool
both before after a = covers before a || covers after a

-- An error leaves the regions of the round.
kept-Removes :
    (low high start end mid : ℕ) (before after : List MmapRegion)
    → IsBefore low mid before
    → IsLayout mid high after
    → IsLayout low high (unwind before after)
      × ((a : ℕ)
          → in_range start end a ≡ false
          → covers (unwind before after) a ≡ both before after a)
      × ((a : ℕ) → both before after a ≡ false → covers (unwind before after) a ≡ false)
kept-Removes low high start end mid before after b l = (
  unwind-IsLayout low high mid before after b l,
  λ a outside. covers-unwind before after a,
  λ a no. covers-unwind before after a ∙ no,
)

-- A round of the loop takes `[s, e)` out of `cur`.
module _ (low high u end : ℕ) (before : List MmapRegion) (cur : MmapRegion) (rest : List MmapRegion)
    (clear : (a : ℕ) → in_range u end a ≡ true → covers before a ≡ false)
    (layout : IsLayout (end_of cur + 1) high rest) (region : IsRegion cur) (more : u < end)
    (meets : cur.begin < end) where
  round-Removes :
      (parts : List MmapRegion) (o : Outcome (Result (Unit {0}) × Space))
      → max u cur.begin < min end (end_of cur)
      → Cut (max u cur.begin) (min end (end_of cur)) cur parts
      → Removes low high (min end (end_of cur)) end (both (parts ++ before) rest) o
      → Removes low high u end (both before (cur ∷ rest)) o
  round-Removes parts o some_bytes c r =
      Removes-of low high u (min end (end_of cur)) end (both before (cur ∷ rest))
        (both (parts ++ before) rest) o (omega arith)
        (λ a.
          ground
            (arith, c.cover a before, clear a, covers-below (end_of cur + 1) high a rest layout))
        (λ a. ground (arith, c.cover a before)) (λ a. ground (arith, c.cover a before)) r

  clear_next :
      (parts : List MmapRegion)
      → max u cur.begin < min end (end_of cur)
      → Cut (max u cur.begin) (min end (end_of cur)) cur parts
      → (a : ℕ) → in_range (min end (end_of cur)) end a ≡ true
      → covers (parts ++ before) a ≡ false
  clear_next parts some_bytes c a inside = ground (arith, c.cover a before, clear a, inside)

  -- Behind the last region that it meets, nothing changes.
  skip-Removes :
      (o : Outcome (Result (Unit {0}) × Space))
      → min end (end_of cur) ≤ max u cur.begin
      → Removes low high (max u cur.begin) end (both (cur ∷ before) rest) o
      → Removes low high u end (both before (cur ∷ rest)) o
  skip-Removes o empty r =
      Removes-of low high u (max u cur.begin) end (both before (cur ∷ rest))
        (both (cur ∷ before) rest) o (omega arith)
        (λ a. ground (arith, clear a, region.1, covers-below (end_of cur + 1) high a rest layout))
        (λ a. ground arith) (λ a. ground arith) r

pub unmap_from-Removes :
    (low high root end u mid : ℕ) (before after : List MmapRegion) (t : Space)
    → high < 2 ^ 44
    → end % pgsize ≡ 0
    → u % pgsize ≡ 0
    → ((a : ℕ) → in_range u end a ≡ true → covers before a ≡ false)
    → IsBefore low mid before
    → IsLayout mid high after
    → Removes low high u end (both before after) (unmap_from root end u before after t)
unfolding unmap_from
unmap_from-Removes low high root end u mid before [] t small ee eu clear b l = (
  unwind-IsLayout low high mid before [] b l,
  λ a. covers-unwind before [] a ∙ ground (arith, clear a),
)
unmap_from-Removes low high root end u mid before (cur ∷ rest) t small ee eu clear b l =
    let s = max u cur.begin in
    let e = min end (end_of cur) in
    elim (Bool-cases (not (ltb u end) || leb end cur.begin)) [
      | inl y ↦
          rw (Removes, y)
            (
              unwind-IsLayout low high mid before (cur ∷ rest) b l,
              λ a.
                  covers-unwind before (cur ∷ rest) a
                  ∙ ground (
                    arith,
                    clear a,
                    y,
                    covers-below cur.begin high a (cur ∷ rest) (omega arith, l.1, l.2),
                  ),
            )
      | inr n ↦
          let more : u < end = ground (arith, n) in
          let meets : cur.begin < end = ground (arith, n) in
          let bound : end_of cur ≤ high =
            omega (arith, IsLayout-bound (end_of cur + 1) high rest l.2) in
          let al : e % pgsize ≡ 0 = ground (arith, l.1.0) in
          let next : ltb s e ≡ true → s + (e - s) ≡ e = λ y. ground (arith, y) in
          let b' = IsBefore-weaken low mid cur.begin before l.0 b in
          let kept = kept-Removes low high u end mid before (cur ∷ rest) b l in
          elim (Bool-cases (ltb s e)) [
            | inl y ↦
                let some_bytes : s < e = ground (arith, y) in
                let cuts =
                  cut-Cuts s e cur t.warehouse l.1 (omega arith) some_bytes (omega arith)
                    (omega arith) (ground (arith, l.1.0)) (ground (arith, l.1.0)) in
                elim (Outcome-cases (unmap root s (e - s) true t.pool)) [
                  | inr (inl p) ↦ rw (Removes, n, y, p) tt
                  | inr (inr p) ↦ rw (Removes, n, y, p) tt
                  | inl (m, p) ↦ elim (Bool-cases m.0) [
                    | inr failed ↦ rw (Removes, n, y, p, failed) kept
                    | inl unmapped ↦ elim (Option-cases (cut s e cur t.warehouse).0) [
                      | inl none_left ↦ rw (Removes, n, y, p, unmapped, none_left) kept
                      | inr (parts, left) ↦
                          let c = subst (Cuts s e cur) left cuts in
                          rw (Removes, n, y, p, unmapped, left, next y)
                            (round-Removes low high u end before cur rest clear l.2 l.1 more meets
                              parts _ some_bytes c
                              (unmap_from-Removes low high root end e (end_of cur + 1)
                                (parts ++ before) rest _ small ee al
                                (clear_next low high u end before cur rest clear l.2 l.1 more meets
                                  parts some_bytes c)
                                (c.order low before b') l.2))
                    ]
                  ]
                ]
            | inr n' ↦ elim (Bool-cases (leb s e)) [
              | inl z ↦
                  let stays : s + (e - s) ≡ s = ground (arith, n') in
                  rw (Removes, n, n', z, stays)
                    (skip-Removes low high u end before cur rest clear l.2 l.1 more meets _
                      (ground (arith, n'))
                      (unmap_from-Removes low high root end s (end_of cur + 1) (cur ∷ before) rest t
                        small ee (ground (arith, l.1.0))
                        (λ a inside. ground (arith, clear a, inside, n', l.1.1))
                        (omega arith, l.1, b') l.2))
              | inr z ↦ rw (Removes, n, n', z) tt
            ]
          ]
    ]

-- ===== src/Mem/Uvm/Mmap/Correct.antt =====
-- `mmap` of kernel/src/mem/uvm.rs as a whole.
use glenda.Prelude.{
  ℕ, ◌+◌, ◌*◌, ◌/◌, ◌%◌, ◌^◌, ◌≤◌, ◌<◌, ◌≡◌, refl, subst, true, false, not, ◌||◌, some,
  Option-cases, List, [], ◌∷◌, ltb, ◌==◌, arith, Bool-cases, inl, inr, ◌⊎◌, Outcome, ok, panic,
  stuck, Ends,
}
use glenda.Mem.Addr.{pgsize, align_up}
use glenda.Mem.Mmap.{MmapRegion}
use glenda.Mem.Uvm.{Result, value, error}
use glenda.Mem.Uvm.Mmap.Ends.{mmap-Ends}
use glenda.Mem.Uvm.Mmap.{
  Space, seek, insert, place, mmap_at, mmap, overlaps_prev, overlaps_next, choose,
}
use glenda.Mem.Uvm.Mmap.Layout.{
  in_range, IsLayout, IsBefore, covers, covers-unwind, covers-above, covers-below,
}
use glenda.Mem.Uvm.Mmap.Seek.{Sought, seek-Sought}
use glenda.Mem.Uvm.Mmap.Start.{EndsBy}
use glenda.Mem.Uvm.Mmap.Mapped.{Adds, insert-Adds}

-- What lies between two neighbours is covered by no region.
before_free :
    (low mid a begin : ℕ) (before : List MmapRegion)
    → IsBefore low mid before
    → overlaps_prev begin before ≡ false
    → begin ≤ a
    → covers before a ≡ false
before_free low mid a begin [] z free h = refl
before_free low mid a begin (prev ∷ earlier) z free h =
    ground (arith, covers-above low prev.begin a earlier z.2)

after_free :
    (low high a end : ℕ) (after : List MmapRegion)
    → IsLayout low high after
    → EndsBy end after
    → a < end
    → covers after a ≡ false
after_free low high a end [] l by h = refl
after_free low high a end (next ∷ rest) l by h =
    covers-below next.begin high a (next ∷ rest) (omega arith, l.1, l.2) (omega arith)

ends_by : (end : ℕ) (after : List MmapRegion) → overlaps_next end after ≡ false → EndsBy end after
ends_by end [] e = tt
ends_by end (next ∷ rest) e = ground (arith, e)

-- The pages of a length.
abbrev pub size_of : ℕ → ℕ
size_of len = (len + 4095) / pgsize * pgsize

-- `mmap` succeeds with a range that no region covered, at `asked` where that is not 0, and the regions
-- then cover it as well. An error leaves them.
abbrev pub Maps : ℕ → ℕ → ℕ → ℕ → List MmapRegion → Outcome (Result ℕ × Space) → Type 0
Maps low high asked size old (ok (value va, t)) =
    (begin : ℕ) × ((asked ≡ 0) ⊎ (begin ≡ asked))
    × ((a : ℕ) → in_range begin (begin + size) a ≡ true → covers old a ≡ false)
    × Adds low high begin (begin + size) old (ok (value va, t))
Maps low high asked size old (ok (error e, t)) = t.regions ≡ old
Maps low high asked size old panic = Unit
Maps low high asked size old stuck = Unit

Adds-Maps :
    (low high asked begin size : ℕ) (old : List MmapRegion) (o : Outcome (Result ℕ × Space))
    → (asked ≡ 0) ⊎ (begin ≡ asked)
    → ((a : ℕ) → in_range begin (begin + size) a ≡ true → covers old a ≡ false)
    → Adds low high begin (begin + size) old o
    → Maps low high asked size old o
Adds-Maps low high asked begin size old (ok (value va, t)) h free adds = (begin, h, free, adds)
Adds-Maps low high asked begin size old (ok (error e, t)) h free adds = adds
Adds-Maps low high asked begin size old panic h free adds = tt
Adds-Maps low high asked begin size old stuck h free adds = tt

module _ (root low high asked begin npages : ℕ) (small : high < 2 ^ 44) (some_pages : 0 < npages)
    (at : (asked ≡ 0) ⊎ (begin ≡ asked)) (s : Space) (layout : IsLayout low high s.regions) where
  place-Maps :
      low ≤ begin
      → begin + npages * pgsize ≤ high
      → begin % pgsize ≡ 0
      → (z : List MmapRegion × List MmapRegion) → Sought low high begin s.regions z
      → Maps low high asked (npages * pgsize) s.regions (place root begin npages z s)
  unfolding place
  place-Maps lo top eb (before, after) sought =
      elim (Bool-cases
        (overlaps_prev begin before || overlaps_next (begin + npages * pgsize) after)) [
          | inl y ↦ rw (Maps, y) refl
          | inr n ↦
              let prev_free : overlaps_prev begin before ≡ false = ground (arith, n) in
              let next_free : overlaps_next (begin + npages * pgsize) after ≡ false =
                ground (arith, n) in
              let by = ends_by (begin + npages * pgsize) after next_free in
              rw (Maps, n)
                (Adds-Maps low high asked begin (npages * pgsize) s.regions
                  (insert root begin npages before after s) at
                  (λ a inside.
                    subst (λ old. covers old a ≡ false) sought.whole
                      (rw (covers-unwind before after a) (
                        ground (
                          arith,
                          before_free low _ a begin before sought.zipper.0 prev_free,
                          after_free _ high a (begin + npages * pgsize) after sought.zipper.1 by,
                        ))))
                  (insert-Adds root low high begin npages small some_pages top eb s before after
                    sought.whole sought.zipper lo prev_free by))
        ]

  mmap_at-Maps :
      Maps low high asked (npages * pgsize) s.regions (mmap_at root begin npages low high s)
  unfolding mmap_at
  mmap_at-Maps = elim (Bool-cases (ltb begin low)) [
    | inl y ↦ rw (Maps, y) refl
    | inr n ↦ elim (Bool-cases (ltb (begin + npages * pgsize) (2 ^ 64))) [
      | inl fits ↦
          elim (Bool-cases (ltb high (begin + npages * pgsize) || not (begin % pgsize == 0))) [
            | inl y ↦ rw (Maps, n, fits, y) refl
            | inr inside ↦
                rw (Maps, n, fits, inside)
                  (place-Maps (ground (arith, n)) (ground (arith, inside)) (ground (arith, inside))
                    (seek begin [] s.regions) (seek-Sought low high begin s.regions layout))
          ]
      | inr wraps ↦ rw (Maps, n, wraps) tt
    ]
  ]

mmap_asked :
    (begin size low high at : ℕ) (rs : List MmapRegion)
    → choose begin size low high rs ≡ some at
    → (begin ≡ 0) ⊎ (at ≡ begin)
unfolding choose
mmap_asked begin size low high at rs e = elim (Bool-cases (begin == 0)) [
  | inl y ↦ inl (ground arith)
  | inr n ↦ inr (ground (arith, n, e))
]

-- For regions in order with gaps and below an `mmap_end` that is less than 2 to the 44, a length that
-- is not 0, and any `begin`, `mmap` returns or panics. Where it returns an address, the range of the
-- pages of the length starts at `begin`, or anywhere where that is 0; no region covered any of it; the
-- regions afterwards are in order with gaps between the bounds, and cover exactly this range and what
-- they covered; and the address is the begin of the old region that ends where the range starts, and
-- the start of the range where there is no such region. Where it returns an error, the regions are as before.
pub mmap-Maps :
    (root begin len low high : ℕ) (s : Space)
    → high < 2 ^ 44
    → IsLayout low high s.regions
    → 0 < len
    → Ends (mmap root begin len low high s)
      × Maps low high begin (size_of len) s.regions (mmap root begin len low high s)
unfolding mmap align_up
mmap-Maps root begin len low high s small layout some_len = (
  mmap-Ends root begin len low high s,
  elim (Bool-cases (ltb (len + 4095) (2 ^ 64))) [
    | inl fits ↦
        let positive : (size_of len / pgsize == 0) ≡ false = ground arith in
        let zero_len : (len == 0) ≡ false = ground arith in
        let back : size_of len / pgsize * pgsize ≡ size_of len = omega arith in
        elim (Option-cases (choose begin (size_of len) low high s.regions)) [
          | inl e ↦ rw (Maps, zero_len, fits, positive, back, e) refl
          | inr (at, e) ↦
              rw (Maps, zero_len, fits, positive, back, e)
                (subst
                  (λ size.
                    Maps low high begin size s.regions
                      (mmap_at root at (size_of len / pgsize) low high s))
                  back
                  (mmap_at-Maps root low high begin at (size_of len / pgsize) small (omega arith)
                    (mmap_asked begin (size_of len) low high at s.regions e) s layout))
        ]
    | inr wraps ↦ let zero_len : (len == 0) ≡ false = ground arith in rw (Maps, zero_len, wraps) tt
  ],
)

-- ===== src/Mem/Uvm/Munmap/Whole.antt =====
-- `munmap` of kernel/src/mem/uvm.rs as a whole.
use glenda.Prelude.{
  ℕ, ◌+◌, ◌-◌, ◌*◌, ◌/◌, ◌%◌, ◌^◌, ◌≤◌, ◌<◌, ◌≡◌, refl, sym, ap, ◌∙◌, max, min, true, false, not,
  ◌&&◌, ◌||◌, List, [], ◌∷◌, ◌++◌, ltb, leb, ◌==◌, arith, Bool-cases, inl, inr, Ends, returns,
  panics, >>=-Ends, if-Ends, option-Ends, bool-Ends,
}
use glenda.Mem.Addr.{pgsize, align_up, align_down}
use glenda.Mem.Pagetable.Ends.{unmap-Ends}
use glenda.Mem.Mmap.{MmapRegion}
use glenda.Mem.Uvm.Ends.{add_usize-Ends, align_up-Ends}
use glenda.Mem.Uvm.Mmap.{Space, end_of, unwind}
use glenda.Mem.Uvm.Mmap.Layout.{in_range, IsBefore, IsLayout, covers, covers-unwind}
use glenda.Mem.Uvm.Munmap.{cut, unmap_from, skip, munmap}
use glenda.Mem.Uvm.Munmap.Cuts.{IsBefore-weaken}
use glenda.Mem.Uvm.Munmap.Correct.{Removes, Removes-of, both, unmap_from-Removes}

-- The chain at the first region that ends behind `start`.
record Skipped (low high start : ℕ) (rs : List MmapRegion) (z : List MmapRegion × List MmapRegion)
    : Type 0 where
  mid : ℕ
  before : IsBefore low mid z.0
  after : IsLayout mid high z.1
  clear : (a : ℕ) → start ≤ a → covers z.0 a ≡ false
  whole : unwind z.0 z.1 ≡ rs

skip-Skipped :
    (low high start mid : ℕ) (before after : List MmapRegion)
    → IsBefore low mid before
    → IsLayout mid high after
    → ((a : ℕ) → start ≤ a → covers before a ≡ false)
    → Skipped low high start (unwind before after) (skip start before after)
unfolding skip unwind
skip-Skipped low high start mid before [] b l clear = record {
  mid = mid;
  before = b;
  after = l;
  clear = clear;
  whole = refl;
}
skip-Skipped low high start mid before (cur ∷ rest) b l clear =
    elim (Bool-cases (leb (end_of cur) start)) [
      | inl y ↦ rw y (
          skip-Skipped low high start (end_of cur + 1) (cur ∷ before) rest
            (omega arith, l.1, IsBefore-weaken low mid cur.begin before l.0 b) l.2
            λ a h. ground (arith, clear a h))
      | inr n ↦ rw n (record { mid = mid; before = b; after = l; clear = clear; whole = refl })
    ]

unmap_from-Ends :
    (root end u : ℕ) (before after : List MmapRegion) (t : Space)
    → Ends (unmap_from root end u before after t)
unfolding unmap_from
unmap_from-Ends root end u before [] t = returns
unmap_from-Ends root end u before (cur ∷ rest) t =
    let s = max u cur.begin in
    let e = min end (end_of cur) in
    bool-Ends (not (ltb u end) || leb end cur.begin)
      (bool-Ends (ltb s e)
        (>>=-Ends (if-Ends (leb s e) returns panics)
          λ size. unmap_from-Ends root end (s + size) (cur ∷ before) rest t)
        (>>=-Ends (unmap-Ends root s (e - s) true t.pool) λ m. bool-Ends m.0 returns (
          option-Ends (cut s e cur t.warehouse).0 returns λ parts.
            unmap_from-Ends root end (s + (e - s)) (parts ++ before) rest
              (record t { pool = m.1; warehouse = (cut s e cur t.warehouse).1 }))))
      returns

munmap-Ends : (root begin len : ℕ) (t : Space) → Ends (munmap root begin len t)
unfolding munmap
munmap-Ends root begin len t = if-Ends (len == 0) returns (
    >>=-Ends (add_usize-Ends begin len) λ sum. >>=-Ends (align_up-Ends sum) λ end.
      if-Ends (leb end (align_down begin)) returns (
        unmap_from-Ends root end (align_down begin) (skip (align_down begin) [] t.regions).0
          (skip (align_down begin) [] t.regions).1 t))

Skipped-Removes :
    (low high root start end : ℕ) (t : Space)
    → high < 2 ^ 44
    → start % pgsize ≡ 0
    → end % pgsize ≡ 0
    → (z : List MmapRegion × List MmapRegion) → Skipped low high start t.regions z
    → Removes low high start end (covers t.regions) (unmap_from root end start z.0 z.1 t)
Skipped-Removes low high root start end t small es ee (before, after) k =
    let same : (a : ℕ) → both before after a ≡ covers t.regions a =
      λ a. sym (covers-unwind before after a) ∙ ap (λ rs. covers rs a) k.whole in
    Removes-of low high start start end (covers t.regions) (both before after)
      (unmap_from root end start before after t) (omega arith)
      (λ a. ap (λ b. b && not (in_range start end a)) (same a)) (λ a no. same a ∙ no)
      (λ a outside. same a)
      (unmap_from-Removes low high root end start k.mid before after t small ee es
        (λ a inside. k.clear a (ground (arith, inside))) k.before k.after)

-- The range of pages that `munmap` takes.
abbrev pub page_end : ℕ → ℕ → ℕ
page_end begin len = (begin + len + 4095) / pgsize * pgsize

-- For regions in order with gaps between bounds below 2 to the 44, and a length that is not 0,
-- `munmap` returns or panics. The regions afterwards are in order with gaps between the bounds. Where
-- it succeeds, they cover exactly what they covered less the pages that meet the range; where it
-- returns an error, they cover what they covered outside of these pages, and no more in them.
pub munmap-Removes :
    (low high root begin len : ℕ) (t : Space)
    → high < 2 ^ 44
    → IsLayout low high t.regions
    → 0 < len
    → Ends (munmap root begin len t)
      × Removes low high
          (begin / pgsize * pgsize)
          (page_end begin len)
          (covers t.regions)
          (munmap root begin len t)
unfolding munmap align_up align_down unwind
munmap-Removes low high root begin len t small l some_len = (
  munmap-Ends root begin len t,
  let zero_len : (len == 0) ≡ false = ground arith in
      elim (Bool-cases (ltb (begin + len) (2 ^ 64))) [
        | inr wraps ↦ rw (Removes, zero_len, wraps) tt
        | inl fits ↦ elim (Bool-cases (ltb (begin + len + 4095) (2 ^ 64))) [
          | inr wraps ↦ rw (Removes, zero_len, fits, wraps) tt
          | inl fits' ↦
              let some_pages : leb (page_end begin len) (begin / pgsize * pgsize) ≡ false =
                ground arith in
              rw (Removes, zero_len, fits, fits', some_pages)
                (Skipped-Removes low high root (begin / pgsize * pgsize) (page_end begin len) t
                  small (omega arith) (omega arith) (skip (begin / pgsize * pgsize) [] t.regions)
                  (skip-Skipped low high (begin / pgsize * pgsize) low [] t.regions (omega arith) l
                    λ a h. refl))
        ]
      ],
)

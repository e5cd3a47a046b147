-- ===== src/Mem/Uvm/Mmap/Seek.antt =====
-- The walk of `mmap` and `munmap` to a place in the chain of regions.
use glenda.Prelude.{ℕ, ◌+◌, ◌≤◌, ◌<◌, ◌≡◌, refl, List, [], ◌∷◌, ltb, arith, Bool-cases, inl, inr}
use glenda.Mem.Mmap.{MmapRegion}
use glenda.Mem.Uvm.Mmap.{end_of, unwind, seek}
use glenda.Mem.Uvm.Mmap.Layout.{IsLayout, IsBefore}

-- The first address that a region behind these may have.
abbrev pub edge : ℕ → List MmapRegion → ℕ
edge low [] = low
edge low (prev ∷ _) = end_of prev + 1

abbrev pub BeginsBelow : ℕ → List MmapRegion → Type 0
BeginsBelow begin [] = Unit
BeginsBelow begin (prev ∷ _) = prev.begin < begin

abbrev pub BeginsFrom : ℕ → List MmapRegion → Type 0
BeginsFrom begin [] = Unit
BeginsFrom begin (cur ∷ _) = begin ≤ cur.begin

-- The chain in two parts.
abbrev pub IsZipper : ℕ → ℕ → List MmapRegion → List MmapRegion → Type 0
IsZipper low high before after =
    IsBefore low (edge low before) before × IsLayout (edge low before) high after

-- The zipper of the chain `rs` that stands before the first region that begins at `begin` or behind.
pub record Sought (low high begin : ℕ) (rs : List MmapRegion)
    (z : List MmapRegion × List MmapRegion) : Type 0 where
  pub zipper : IsZipper low high z.0 z.1
  pub below : BeginsBelow begin z.0
  pub from : BeginsFrom begin z.1
  pub whole : unwind z.0 z.1 ≡ rs

pub IsBefore-edge :
    (low mid high : ℕ) (before : List MmapRegion)
    → edge low before ≤ high
    → IsBefore low mid before
    → IsBefore low high before
IsBefore-edge low mid high [] h b = h
IsBefore-edge low mid high (r ∷ before) h b = (omega arith, b.1, b.2)

seek_from-Sought :
    (low high begin : ℕ) (before after : List MmapRegion)
    → IsZipper low high before after
    → BeginsBelow begin before
    → Sought low high begin (unwind before after) (seek begin before after)
unfolding seek unwind
seek_from-Sought low high begin before [] z b = record {
  zipper = z;
  below = b;
  from = tt;
  whole = refl;
}
seek_from-Sought low high begin before (cur ∷ rest) z b = elim (Bool-cases (ltb cur.begin begin)) [
  | inl e ↦ rw e (
      seek_from-Sought low high begin (cur ∷ before) rest
        (
          (omega arith, z.1.1, IsBefore-edge low (edge low before) cur.begin before z.1.0 z.0),
          z.1.2,
        )
        (ground arith))
  | inr e ↦ rw e (record { zipper = z; below = b; from = ground arith; whole = refl })
]

pub seek-Sought :
    (low high begin : ℕ) (rs : List MmapRegion)
    → IsLayout low high rs
    → Sought low high begin rs (seek begin [] rs)
unfolding unwind
seek-Sought low high begin rs l = seek_from-Sought low high begin [] rs (omega arith, l) tt

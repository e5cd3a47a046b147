-- ===== src/Mem/Uvm/Mmap/Layout.antt =====
-- The regions of a process as a set of addresses.
use glenda.Prelude.{
  ◌∙◌, ◌==◌, if◌then◌else◌, ℕ, ◌+◌, ◌%◌, ◌≤◌, ◌<◌, ◌≡◌, refl, Bool, false, ◌&&◌, ◌||◌, List, [],
  ◌∷◌, ltb, leb, arith,
}
use glenda.Mem.Addr.{pgsize}
use glenda.Mem.Mmap.{MmapRegion}
use glenda.Mem.Uvm.Mmap.{end_of, unwind}

abbrev pub in_range : ℕ → ℕ → ℕ → Bool
in_range begin end a = leb begin a && ltb a end

-- The address is in one of the regions.
abbrev pub covers : List MmapRegion → ℕ → Bool
covers [] a = false
covers (r ∷ rest) a = in_range r.begin (end_of r) a || covers rest a

-- The begin of the region that ends at an address, or the address where there is none.
abbrev pub start_of : ℕ → List MmapRegion → ℕ
start_of begin [] = begin
start_of begin (r ∷ rest) = if end_of r == begin then r.begin else start_of begin rest

abbrev pub IsRegion : MmapRegion → Type 0
IsRegion r = (r.begin % pgsize ≡ 0) × (0 < r.npages)

-- In order from `low` on, with a gap between any two, and up to `high`.
abbrev pub IsLayout : ℕ → ℕ → List MmapRegion → Type 0
IsLayout low high [] = low ≤ high + 1
IsLayout low high (r ∷ rest) = (low ≤ r.begin) × IsRegion r × IsLayout (end_of r + 1) high rest

-- The same for the regions before a place, the nearest first.
abbrev pub IsBefore : ℕ → ℕ → List MmapRegion → Type 0
IsBefore low high [] = low ≤ high
IsBefore low high (r ∷ before) = (end_of r < high) × IsRegion r × IsBefore low r.begin before

pub IsLayout-weaken :
    (low' low high : ℕ) (rs : List MmapRegion)
    → low' ≤ low
    → IsLayout low high rs
    → IsLayout low' high rs
IsLayout-weaken low' low high [] h l = omega arith
IsLayout-weaken low' low high (r ∷ rest) h l = (omega (arith, l.0), l.1, l.2)

pub IsLayout-bound : (low high : ℕ) (rs : List MmapRegion) → IsLayout low high rs → low ≤ high + 1
IsLayout-bound low high [] l = l
IsLayout-bound low high (r ∷ rest) l =
    omega (arith, l.0, IsLayout-bound (end_of r + 1) high rest l.2)

-- Below all regions nothing is covered.
pub covers-below :
    (low high a : ℕ) (rs : List MmapRegion) → IsLayout low high rs → a < low → covers rs a ≡ false
covers-below low high a [] l h = refl
covers-below low high a (r ∷ rest) l h =
    ground (arith, l.0, covers-below (end_of r + 1) high a rest l.2 (omega (arith, l.0)))

-- Nor above the regions before a place.
pub covers-above :
    (low high a : ℕ) (before : List MmapRegion)
    → IsBefore low high before
    → high ≤ a
    → covers before a ≡ false
covers-above low high a [] b h = refl
covers-above low high a (r ∷ before) b h =
    ground (arith, b.0, covers-above low r.begin a before b.2 (omega (arith, b.0)))

pub unwind-IsLayout :
    (low high mid : ℕ) (before after : List MmapRegion)
    → IsBefore low mid before
    → IsLayout mid high after
    → IsLayout low high (unwind before after)
unfolding unwind
unwind-IsLayout low high mid [] after b l = IsLayout-weaken low mid high after b l
unwind-IsLayout low high mid (r ∷ before) after b l =
    unwind-IsLayout low high r.begin before (r ∷ after) b.2
      (omega arith, b.1, IsLayout-weaken (end_of r + 1) mid high after (omega (arith, b.0)) l)

pub covers-unwind :
    (before after : List MmapRegion) (a : ℕ)
    → covers (unwind before after) a ≡ (covers before a || covers after a)
unfolding unwind
covers-unwind [] after a = refl
covers-unwind (r ∷ before) after a = ground (arith, covers-unwind before (r ∷ after) a)

-- No region that begins behind an address ends at it.
pub start_of-below :
    (low high begin : ℕ) (rs : List MmapRegion)
    → IsLayout low high rs
    → begin ≤ low
    → start_of begin rs ≡ begin
start_of-below low high begin [] l h = refl
start_of-below low high begin (r ∷ rest) l h =
    ground
      (arith, l.0, l.1.1, start_of-below (end_of r + 1) high begin rest l.2 (omega (arith, l.0)))

-- The regions before a place end before it.
pub start_of-unwind :
    (low high begin : ℕ) (before after : List MmapRegion)
    → IsBefore low high before
    → high ≤ begin
    → start_of begin (unwind before after) ≡ start_of begin after
unfolding unwind
start_of-unwind low high begin [] after b h = refl
start_of-unwind low high begin (r ∷ before) after b h =
    let other : (end_of r == begin) ≡ false = ground (arith, b.0) in
    start_of-unwind low r.begin begin before (r ∷ after) b.2 (omega (arith, b.0)) ∙ rw other refl

-- ===== src/Mem/Uvm/Mmap/Gaps.antt =====
-- The search of `mmap` in kernel/src/mem/uvm.rs for a place.
use glenda.Prelude.{
  ℕ, max, ◌+◌, ◌-◌, ◌≤◌, ◌<◌, ◌≡◌, refl, true, false, Option, none, some, Option-cases, List, [],
  ◌∷◌, leb, arith, Bool-cases, inl, inr, subst,
}
use glenda.Mem.Mmap.{MmapRegion}
use glenda.Mem.Uvm.Mmap.{end_of, find_gap, choose}
use glenda.Mem.Uvm.Mmap.Layout.{
  in_range, IsLayout, IsLayout-bound, IsLayout-weaken, covers, covers-below,
}

-- No region covers any of the `size` bytes from `begin` on.
abbrev pub IsFree : ℕ → ℕ → List MmapRegion → Type 0
IsFree begin size rs = (a : ℕ) → in_range begin (begin + size) a ≡ true → covers rs a ≡ false

-- A place in the regions behind `cursor`; or else, every free range lies behind the last cursor.
abbrev Finds : ℕ → ℕ → ℕ → List MmapRegion → Option ℕ × ℕ → Type 0
Finds size high cursor rs (some place, last) =
    (cursor ≤ place) × (place + size ≤ high) × IsFree place size rs
Finds size high cursor rs (none, last) =
    (cursor ≤ last)
    × ((begin : ℕ) → cursor ≤ begin → begin + size ≤ high → IsFree begin size rs → last ≤ begin)
    × ((a : ℕ) → last ≤ a → covers rs a ≡ false)

-- A free range of at least a byte that begins before a region's end, ends before the region.
fits_before :
    (begin size : ℕ) (r : MmapRegion) (rest : List MmapRegion)
    → 0 < size
    → r.begin < end_of r
    → IsFree begin size (r ∷ rest)
    → begin < end_of r
    → begin + size ≤ r.begin
fits_before begin size r rest some_bytes h free early =
    elim (Bool-cases (leb (begin + size) r.begin)) [
      | inl y ↦ ground (arith, y)
      | inr n ↦ ground (arith, n, free (max begin r.begin))
    ]

step-Finds :
    (size high cursor : ℕ) (r : MmapRegion) (rest : List MmapRegion) (o : Option ℕ × ℕ)
    → 0 < size
    → IsLayout cursor high (r ∷ rest)
    → leb size (r.begin - cursor) ≡ false
    → Finds size high (end_of r) rest o
    → Finds size high cursor (r ∷ rest) o
step-Finds size high cursor r rest (some place, last) some_bytes l tight f =
    (omega (arith, l.0, f.0), f.1, λ a inside. ground (arith, f.2 a inside, f.0))
step-Finds size high cursor r rest (none, last) some_bytes l tight f = (
  omega (arith, l.0, f.0),
  λ begin from top free. elim (Bool-cases (leb (end_of r) begin)) [
    | inl y ↦ f.1 begin (ground (arith, y)) top λ a inside. ground (arith, free a inside)
    | inr n ↦ ground (
      arith,
      n,
      tight,
      fits_before begin size r rest some_bytes (omega (arith, l.1.1)) free (ground (arith, n)),
    )
  ],
  λ a h. ground (arith, f.2 a h, f.0),
)

find_gap-Finds :
    (size high cursor : ℕ) (rs : List MmapRegion)
    → 0 < size
    → IsLayout cursor high rs
    → Finds size high cursor rs (find_gap size cursor rs)
unfolding find_gap
find_gap-Finds size high cursor [] some_bytes l =
    (omega arith, λ begin from top free. from, λ a h. refl)
find_gap-Finds size high cursor (r ∷ rest) some_bytes l =
    elim (Bool-cases (leb size (r.begin - cursor))) [
      | inl y ↦
          let behind : leb cursor r.begin ≡ true = ground (arith, l.0) in
          let bound = IsLayout-bound (end_of r + 1) high rest l.2 in
          let positive = l.1.1 in
          rw (behind, y)
            (
              omega arith,
              ground (arith, y),
              λ a inside.
                  covers-below r.begin high a (r ∷ rest) (omega arith, l.1, l.2)
                    (ground (arith, y)),
            )
      | inr n ↦
          let behind : leb cursor r.begin ≡ true = ground (arith, l.0) in
          rw (behind, n)
            (step-Finds size high cursor r rest (find_gap size (end_of r) rest) some_bytes l n (
              find_gap-Finds size high (end_of r) rest some_bytes
                (IsLayout-weaken (end_of r) (end_of r + 1) high rest (omega arith) l.2)))
    ]

-- What the search gives: a place for the bytes, or that there is none.
abbrev pub Fits : ℕ → ℕ → ℕ → List MmapRegion → Option ℕ → Type 0
Fits size low high rs (some place) = (low ≤ place) × (place + size ≤ high) × IsFree place size rs
Fits size low high rs none =
    (begin : ℕ) → low ≤ begin → begin + size ≤ high → ¬ IsFree begin size rs

-- For regions in order with gaps between the bounds, and at least a byte to place anywhere, `mmap`
-- chooses a place between the bounds where no region covers any of the bytes; where it chooses none,
-- there is no such place.
pub choose-Fits :
    (size low high : ℕ) (rs : List MmapRegion)
    → 0 < size
    → IsLayout low high rs
    → Fits size low high rs (choose 0 size low high rs)
unfolding choose
choose-Fits size low high rs some_bytes l =
    let found = find_gap-Finds size high low rs some_bytes l in
    elim (Option-cases (find_gap size low rs).0) [
      | inl e ↦
          let f = subst (λ o. Finds size high low rs (o, (find_gap size low rs).1)) e found in
          elim (Bool-cases (leb size (high - (find_gap size low rs).1))) [
            | inl y ↦
                rw (Fits, e, y) (f.0, ground (arith, y), λ a inside. f.2 a (ground (arith, inside)))
            | inr n ↦
                rw (Fits, e, n) λ begin from top free. ground (arith, n, f.1 begin from top free)
          ]
      | inr (place, e) ↦
          rw (Fits, e) (subst (λ o. Finds size high low rs (o, (find_gap size low rs).1)) e found)
    ]

-- ===== src/Mem/Uvm/Mmap/Start.antt =====
-- The region that ends where a range of `mmap` in kernel/src/mem/uvm.rs starts.
use glenda.Prelude.{◌∙◌, ℕ, ◌≤◌, ◌≡◌, refl, true, List, [], ◌∷◌, ◌==◌, arith}
use glenda.Mem.Mmap.{MmapRegion}
use glenda.Mem.Uvm.Mmap.{end_of, unwind}
use glenda.Mem.Uvm.Mmap.Layout.{IsLayout, start_of, start_of-below, start_of-unwind}
use glenda.Mem.Uvm.Mmap.Seek.{edge, IsZipper, IsBefore-edge}
use glenda.Mem.Uvm.Mmap.Place.{EndsBefore}

-- The place ends where the next region begins, or before.
abbrev pub EndsBy : ℕ → List MmapRegion → Type 0
EndsBy end [] = Unit
EndsBy end (next ∷ _) = end ≤ next.begin

pub EndsBefore-EndsBy :
    (end high : ℕ) (after : List MmapRegion) → EndsBefore end high after → EndsBy end after
EndsBefore-EndsBy end high [] h = tt
EndsBefore-EndsBy end high (next ∷ rest) h = omega arith

IsLayout-from :
    (mid begin end high : ℕ) (after : List MmapRegion)
    → begin ≤ end
    → end ≤ high
    → EndsBy end after
    → IsLayout mid high after
    → IsLayout begin high after
IsLayout-from mid begin end high [] h top by l = omega arith
IsLayout-from mid begin end high (next ∷ rest) h top by l = (omega arith, l.1, l.2)

-- Between two regions that do not touch it, no region ends at `begin`.
pub start_of-gap :
    (low begin end high : ℕ) (before after : List MmapRegion)
    → begin ≤ end
    → end ≤ high
    → IsZipper low high before after
    → edge low before ≤ begin
    → EndsBy end after
    → start_of begin (unwind before after) ≡ begin
start_of-gap low begin end high before after h top z lo by =
    start_of-unwind low begin begin before after
      (IsBefore-edge low (edge low before) begin before lo z.0) (omega arith)
    ∙ start_of-below begin high begin after
        (IsLayout-from (edge low before) begin end high after h top by z.1) (omega arith)

-- The region before the place.
pub start_of-prev :
    (low begin high : ℕ) (prev : MmapRegion) (earlier after : List MmapRegion)
    → IsZipper low high (prev ∷ earlier) after
    → end_of prev ≡ begin
    → start_of begin (unwind (prev ∷ earlier) after) ≡ prev.begin
unfolding unwind
start_of-prev low begin high prev earlier after z e =
    let touches : (end_of prev == begin) ≡ true = ground (arith, e) in
    start_of-unwind low prev.begin begin earlier (prev ∷ after) z.0.2 (omega (arith, e))
    ∙ rw touches refl

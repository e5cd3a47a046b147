-- ===== src/Mem/Uvm/Mmap/Place.antt =====
-- What the four ways in which `mmap` changes the chain make of the addresses that it covers.
use glenda.Prelude.{
  ℕ, ◌+◌, ◌-◌, ◌*◌, ◌%◌, ◌^◌, ◌≤◌, ◌<◌, ◌≡◌, refl, Bool, true, false, ◌||◌, List, [], ◌∷◌, arith,
}
use glenda.Mem.Addr.{pgsize}
use glenda.Mem.Mmap.{MmapRegion}
use glenda.Mem.Uvm.Mmap.{end_of, unwind, pages}
use glenda.Mem.Uvm.Mmap.Layout.{in_range, IsLayout, covers, covers-unwind, unwind-IsLayout}
use glenda.Mem.Uvm.Mmap.Seek.{edge, IsZipper, IsBefore-edge}

-- The new chain covers `[begin, end)` as well.
pub record Mapped (low high begin end : ℕ) (old new : List MmapRegion) : Type 0 where
  pub layout : IsLayout low high new
  pub cover : (a : ℕ) → covers new a ≡ (in_range begin end a || covers old a)

-- The first place behind, where the next region begins.
abbrev pub EndsBefore : ℕ → ℕ → List MmapRegion → Type 0
EndsBefore end high [] = end ≤ high
EndsBefore end high (next ∷ _) = end < next.begin

IsLayout-after :
    (mid end high : ℕ) (after : List MmapRegion)
    → EndsBefore end high after
    → IsLayout mid high after
    → IsLayout (end + 1) high after
IsLayout-after mid end high [] h l = omega arith
IsLayout-after mid end high (r ∷ rest) h l = (omega arith, l.1, l.2)

pub in_range-split :
    (b m e a : ℕ) → b ≤ m → m ≤ e → in_range b e a ≡ (in_range b m a || in_range m e a)
in_range-split b m e a h k = ground arith

-- The four ways to bring the new range to the front.
or_front : (x y z : Bool) → (x || (y || z)) ≡ (y || (x || z))
or_front true true z = refl
or_front true false z = refl
or_front false y z = refl

or_front_prev : (x p n z : Bool) → (x || ((p || n) || z)) ≡ (n || (x || (p || z)))
or_front_prev x p n z = ground arith

or_front_next : (x n q z : Bool) → (x || ((n || q) || z)) ≡ (n || (x || (q || z)))
or_front_next x n q z = ground arith

or_front_both : (x p n q z : Bool) → (x || ((p || (n || q)) || z)) ≡ (n || (x || (p || (q || z))))
or_front_both x p n q z = ground arith

module _ (low high begin end : ℕ) (small : high < 2 ^ 44) (top : end ≤ high)
    (some_pages : begin < end) (eb : begin % pgsize ≡ 0) (ee : end % pgsize ≡ 0) where
  -- A region of its own.
  pub added-Mapped :
      (before after : List MmapRegion) (node npages : ℕ)
      → IsZipper low high before after
      → edge low before ≤ begin
      → EndsBefore end high after
      → begin + npages * pgsize ≡ end
      → Mapped low high begin end
          (unwind before after)
          (unwind before (record { node = node; begin = begin; npages = npages } ∷ after))
  added-Mapped before after node npages z lo hi e =
      let r : MmapRegion = record { node = node; begin = begin; npages = npages } in
      record {
        layout =
            unwind-IsLayout low high begin before (r ∷ after)
              (IsBefore-edge low _ begin before lo z.0)
              (omega arith, (eb, omega arith), rw e (IsLayout-after _ end high after hi z.1));
        cover = λ a.
            rw (covers-unwind before (r ∷ after) a)
              (rw (covers-unwind before after a, e) (or_front (covers before a) _ _));
      }

  module _ (prev : MmapRegion) (earlier : List MmapRegion) (e : end_of prev ≡ begin) where
    -- The region before grows.
    pub grown_prev-Mapped :
        (after : List MmapRegion)
        → IsZipper low high (prev ∷ earlier) after
        → EndsBefore end high after
        → Mapped low high begin end
            (unwind (prev ∷ earlier) after)
            (unwind earlier (record prev { npages = pages (end - prev.begin) } ∷ after))
    unfolding unwind
    grown_prev-Mapped after z hi =
        let aligned = z.0.1.0 in
        let r : MmapRegion = record prev { npages = pages (end - prev.begin) } in
        let e' : prev.begin + pages (end - prev.begin) * pgsize ≡ end = omega arith in
        record {
          layout =
              unwind-IsLayout low high prev.begin earlier (r ∷ after) z.0.2 (
                omega arith,
                (aligned, omega arith),
                rw e' (IsLayout-after _ end high after hi z.1),
              );
          cover = λ a. rw (covers-unwind earlier (r ∷ after) a) (
              rw
                (
                  covers-unwind earlier (prev ∷ after) a,
                  e',
                  e,
                  in_range-split prev.begin begin end a (omega arith) (omega arith),
                )
                (or_front_prev (covers earlier a) _ _ _));
        }

    -- It also takes in the next.
    pub joined-Mapped :
        (next : MmapRegion) (rest : List MmapRegion)
        → IsZipper low high (prev ∷ earlier) (next ∷ rest)
        → end ≡ next.begin
        → end_of next ≤ high
        → Mapped low high begin end
            (unwind (prev ∷ earlier) (next ∷ rest))
            (unwind earlier (record prev { npages = pages (end_of next - prev.begin) } ∷ rest))
    unfolding unwind
    joined-Mapped next rest z hi top' =
        let aligned = z.0.1.0 in
        let far = end_of next in
        let r : MmapRegion = record prev { npages = pages (far - prev.begin) } in
        let e' : prev.begin + pages (far - prev.begin) * pgsize ≡ far = omega arith in
        record {
          layout =
              unwind-IsLayout low high prev.begin earlier (r ∷ rest) z.0.2
                (omega arith, (aligned, omega arith), rw e' z.1.2);
          cover = λ a. rw (covers-unwind earlier (r ∷ rest) a) (
              rw
                (
                  covers-unwind earlier (prev ∷ next ∷ rest) a,
                  e',
                  e,
                  hi,
                  in_range-split prev.begin begin far a (omega arith) (omega arith),
                  in_range-split begin next.begin far a (omega arith) (omega arith),
                )
                (or_front_both (covers earlier a) (in_range prev.begin begin a)
                  (in_range begin next.begin a) (in_range next.begin far a) (covers rest a)));
        }

  -- The next region grows down.
  pub grown_next-Mapped :
      (before : List MmapRegion) (next : MmapRegion) (rest : List MmapRegion)
      → IsZipper low high before (next ∷ rest)
      → edge low before ≤ begin
      → end ≡ next.begin
      → end_of next ≤ high
      → Mapped low high begin end (unwind before (next ∷ rest)) (
          unwind before
            (record next { begin = begin; npages = pages (end_of next - begin) } ∷ rest))
  grown_next-Mapped before next rest z lo hi top' =
      let far = end_of next in
      let r : MmapRegion = record next { begin = begin; npages = pages (far - begin) } in
      let e' : begin + pages (far - begin) * pgsize ≡ far = omega arith in
      record {
        layout =
            unwind-IsLayout low high begin before (r ∷ rest)
              (IsBefore-edge low _ begin before lo z.0)
              (omega arith, (eb, omega arith), rw e' z.1.2);
        cover = λ a. rw (covers-unwind before (r ∷ rest) a) (
            rw
              (
                covers-unwind before (next ∷ rest) a,
                e',
                hi,
                in_range-split begin next.begin far a (omega arith) (omega arith),
              )
              (or_front_next (covers before a) _ _ _));
      }

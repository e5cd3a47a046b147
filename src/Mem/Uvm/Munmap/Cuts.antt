-- ===== src/Mem/Uvm/Munmap/Cuts.antt =====
-- A region of kernel/src/mem/uvm.rs without the part that `munmap` takes.
use glenda.Prelude.{
  ℕ, ◌+◌, ◌-◌, ◌*◌, ◌%◌, ◌^◌, ◌≤◌, ◌<◌, ◌≡◌, not, ◌&&◌, ◌||◌, Option, none, some, Option-cases,
  List, [], ◌∷◌, ◌++◌, ◌==◌, arith, Bool-cases, inl, inr,
}
use glenda.Mem.Addr.{pgsize}
use glenda.Mem.Mmap.{MmapRegion, Warehouse, region_alloc}
use glenda.Mem.Uvm.Mmap.{end_of, pages}
use glenda.Mem.Uvm.Mmap.Layout.{in_range, IsRegion, IsBefore, covers}
use glenda.Mem.Uvm.Munmap.{cut}

-- The parts cover the region less `[s, e)`, and stand in its place.
pub record Cut (s e : ℕ) (cur : MmapRegion) (parts : List MmapRegion) : Type 0 where
  pub order :
      (low : ℕ) (before : List MmapRegion)
      → IsBefore low cur.begin before
      → IsBefore low (end_of cur + 1) (parts ++ before)
  pub cover :
      (a : ℕ) (before : List MmapRegion)
      → covers (parts ++ before) a
        ≡ (in_range cur.begin (end_of cur) a && not (in_range s e a) || covers before a)

abbrev pub Cuts : ℕ → ℕ → MmapRegion → Option (List MmapRegion) → Type 0
Cuts s e cur none = Unit
Cuts s e cur (some parts) = Cut s e cur parts

pub IsBefore-weaken :
    (low mid mid' : ℕ) (before : List MmapRegion)
    → mid ≤ mid'
    → IsBefore low mid before
    → IsBefore low mid' before
IsBefore-weaken low mid mid' [] h b = omega arith
IsBefore-weaken low mid mid' (r ∷ before) h b = (omega (arith, b.0), b.1, b.2)

module _ (s e : ℕ) (cur : MmapRegion) (node : ℕ) (region : IsRegion cur)
    (small : end_of cur < 2 ^ 44) (some_bytes : s < e) (from : cur.begin ≤ s) (to : e ≤ end_of cur)
    (es : s % pgsize ≡ 0) (ee : e % pgsize ≡ 0) where
  abbrev front : MmapRegion
  front = record cur { npages = pages (s - cur.begin) }

  abbrev back : MmapRegion
  back = record { node = node; begin = e; npages = pages (end_of cur - e) }

  front_end : cur.begin + pages (s - cur.begin) * pgsize ≡ s
  front_end = omega (arith, region.0)

  back_end : e + pages (end_of cur - e) * pgsize ≡ end_of cur
  back_end = omega (arith, region.0)

  whole-Cut : s ≡ cur.begin → e ≡ end_of cur → Cut s e cur []
  whole-Cut hs he = record {
    order = λ low before b. IsBefore-weaken low cur.begin (end_of cur + 1) before (omega arith) b;
    cover = λ a before. ground arith;
  }

  back-Cut : s ≡ cur.begin → e < end_of cur → Cut s e cur (back ∷ [])
  back-Cut hs he = record {
    order = λ low before b. (
      omega (arith, back_end),
      (ee, omega (arith, region.0)),
      IsBefore-weaken low cur.begin e before (omega arith) b,
    );
    cover = λ a before. rw back_end (ground arith);
  }

  front-Cut : cur.begin < s → e ≡ end_of cur → Cut s e cur (front ∷ [])
  front-Cut hs he = record {
    order = λ low before b. (omega (arith, front_end), (region.0, omega (arith, region.0)), b);
    cover = λ a before. rw front_end (ground arith);
  }

  both-Cut : cur.begin < s → e < end_of cur → Cut s e cur (back ∷ front ∷ [])
  both-Cut hs he = record {
    order = λ low before b. (
      omega (arith, back_end),
      (ee, omega (arith, region.0)),
      (omega (arith, front_end), (region.0, omega (arith, region.0)), b),
    );
    cover = λ a before. rw (back_end, front_end) (ground arith);
  }

pub cut-Cuts :
    (s e : ℕ) (cur : MmapRegion) (w : Warehouse)
    → IsRegion cur
    → end_of cur < 2 ^ 44
    → s < e
    → cur.begin ≤ s
    → e ≤ end_of cur
    → s % pgsize ≡ 0
    → e % pgsize ≡ 0
    → Cuts s e cur (cut s e cur w).0
unfolding cut
cut-Cuts s e cur w region small some_bytes from to es ee = elim (Bool-cases (s == cur.begin)) [
  | inl y ↦ elim (Bool-cases (e == end_of cur)) [
    | inl y' ↦
        rw (Cuts, y, y')
          (whole-Cut s e cur cur.node region small some_bytes from to es ee (ground arith)
            (ground arith))
    | inr n' ↦
        rw (Cuts, y, n')
          (back-Cut s e cur cur.node region small some_bytes from to es ee (ground arith)
            (ground arith))
  ]
  | inr n ↦ elim (Bool-cases (e == end_of cur)) [
    | inl y' ↦
        rw (Cuts, n, y')
          (front-Cut s e cur cur.node region small some_bytes from to es ee (ground arith)
            (ground arith))
    | inr n' ↦ elim (Option-cases (region_alloc w).0) [
      | inl none_left ↦ rw (Cuts, n, n', none_left) tt
      | inr (node, taken) ↦
          rw (Cuts, n, n', taken)
            (both-Cut s e cur node region small some_bytes from to es ee (ground arith)
              (ground arith))
    ]
  ]
]

-- ===== src/Mem/Pmem/Cycle.antt =====
-- Taking a page and giving it back.
use glenda.Prelude.{ℕ, ◌≡◌, refl, Bool, List, ◌∷◌, arith, Outcome, ok, panic}
use glenda.Mem.Pmem.{Pmem, alloc, free}
use glenda.Mem.Pmem.FreeList.{index}
use glenda.Mem.Pmem.Pool.{IsPool, put}
use glenda.Mem.Pmem.Take.{allocate-Allocated}
use glenda.Mem.Pmem.Give.{Freed, Given, free-Freed}

-- A page that goes back becomes the first free page again, and a second `free` of it panics.
pub record Cycled (p : Pmem) (begin end : Bool → ℕ) (unused : Bool → List ℕ) (k : Bool) (x : ℕ)
    (xs : List ℕ) : Type 0 where
  pub taken : Pmem
  pub back : Pmem
  pub takes : alloc k p ≡ ok (x, taken)
  pub gives : free x taken ≡ ok back
  pub pool : IsPool back begin end (put k (x ∷ put k xs unused k) (put k xs unused))
  pub counts : (i : ℕ) → back.page_ref i ≡ p.page_ref i
  pub again : free x back ≡ panic

Freed-once :
    (p : Pmem) (begin end : Bool → ℕ) (unused : Bool → List ℕ) (k : Bool) (a n : ℕ)
    (r : Outcome Pmem)
    → n ≡ 1
    → Freed p begin end unused k a n r
    → (q : Pmem) × (r ≡ ok q) × Given p begin end unused k a q
Freed-once p begin end unused k a n r e f =
    let one : Freed p begin end unused k a 1 r = rw e at f in one

Freed-never :
    (p : Pmem) (begin end : Bool → ℕ) (unused : Bool → List ℕ) (k : Bool) (a n : ℕ)
    (r : Outcome Pmem)
    → n ≡ 0
    → Freed p begin end unused k a n r
    → r ≡ panic
Freed-never p begin end unused k a n r e f =
    let none_left : Freed p begin end unused k a 0 r = rw e at f in none_left

-- In a pool where the region has a free page, `alloc` returns the first one; `free` of that page
-- makes it the first free page again with the counts as before, and a second `free` of it panics.
pub alloc-Cycled :
    (p : Pmem) (begin end : Bool → ℕ) (unused : Bool → List ℕ) (k : Bool) (x : ℕ) (xs : List ℕ)
    → IsPool p begin end unused
    → unused k ≡ x ∷ xs
    → Cycled p begin end unused k x xs
unfolding alloc
alloc-Cycled p begin end unused k x xs h e =
    let (q, runs, t) = allocate-Allocated p begin end unused k (x ∷ xs) h e in
    let one : q.page_ref (index x) ≡ 1 = ground (arith, t.counts (index x)) in
    let (r, gives, g) =
      Freed-once q begin end (put k xs unused) k x _ _ one
        (free-Freed q begin end _ t.pool k x t.page (ground arith)) in
    let gone : r.page_ref (index x) ≡ 0 = ground (arith, g.counts (index x)) in
    record {
      taken = q;
      back = r;
      takes = rw runs refl;
      gives = gives;
      pool = g.pool;
      counts = λ i. ground (arith, g.counts i, t.counts i, t.was_free);
      again =
          Freed-never r begin end _ k x _ _ gone
            (free-Freed r begin end _ g.pool k x t.page (ground arith));
    }

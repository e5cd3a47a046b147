-- ===== src/Mem/Pmem/Give.antt =====
-- `free` gives a page back to its region.
use glenda.Prelude.{
  ℕ, zero, suc, ◌+◌, ◌*◌, ◌%◌, ◌≤◌, ◌<◌, ◌≡◌, ◌≢◌, refl, Bool, ◌||◌, true, false, not, List, ◌∷◌,
  arith, ◌==◌, if◌then◌else◌, has, update, Outcome, ok, panic, ltb, leb, Bool-cases, inl, inr,
}
use glenda.Mem.Addr.{pgsize}
use glenda.Mem.Pmem.{
  phy_mem_start, sub_ref, AllocRegion, Pmem, region, set_region, contains, push_head, free_in, free,
}
use glenda.Mem.Pmem.FreeList.{index, IsPage, FreeList, cons, frame, free-IsPage}
use glenda.Mem.Pmem.Pool.{IsPool, put, at, rewritten, rewritten-IsPool, pa_to_index-index}

-- The page `a` of region `k` is free again and is the first to be taken.
pub record Given (p : Pmem) (begin end : Bool → ℕ) (unused : Bool → List ℕ) (k : Bool) (a : ℕ)
    (q : Pmem) : Type 0 where
  pub pool : IsPool q begin end (put k (a ∷ unused k) unused)
  pub counts : (i : ℕ) → q.page_ref i ≡ (if i == index a then 0 else p.page_ref i)

-- The page `a` has one user less, and stays in use.
pub record Unshared (p : Pmem) (begin end : Bool → ℕ) (unused : Bool → List ℕ) (a n : ℕ) (q : Pmem)
    : Type 0 where
  pub pool : IsPool q begin end unused
  pub counts : (i : ℕ) → q.page_ref i ≡ (if i == index a then n else p.page_ref i)
  pub words : q.mem ≡ p.mem

-- The outcome of `free` for a page with the given count.
abbrev pub Freed :
    Pmem → (Bool → ℕ) → (Bool → ℕ) → (Bool → List ℕ) → Bool → ℕ → ℕ → Outcome Pmem → Type 0
Freed p begin end unused k a zero r = r ≡ panic
Freed p begin end unused k a (suc zero) r = (q : Pmem) × (r ≡ ok q) × Given p begin end unused k a q
Freed p begin end unused k a (suc (suc n)) r =
    (q : Pmem) × (r ≡ ok q) × Unshared p begin end unused a (suc n) q

push_head-rewritten :
    (p : Pmem) (a : ℕ) (refs : ℕ → ℕ) (k : Bool)
    → push_head k a (record p { page_ref = refs })
      ≡ rewritten k
          (record (region k p) { head = a; allocable = (region k p).allocable + 1 })
          (update p.mem a (region k p).head)
          refs
          p
unfolding push_head region set_region
push_head-rewritten p a refs true = refl
push_head-rewritten p a refs false = refl

counts_apart :
    (mem refs : ℕ → ℕ) (a x m n : ℕ)
    → a % pgsize ≡ 0
    → x % pgsize ≡ 0
    → phy_mem_start ≤ a
    → phy_mem_start ≤ x
    → a ≢ x
    → (update mem x m a ≡ mem a) × (update refs (index x) n (index a) ≡ refs (index a))
counts_apart mem refs a x m n ea ex la lx ne = ground arith

module _ (p : Pmem) (begin end : Bool → ℕ) (unused : Bool → List ℕ) (h : IsPool p begin end unused)
    (k : Bool) (a : ℕ) (page : IsPage (begin k) (end k) a) where
  above_start : phy_mem_start ≤ a
  above_start = omega (arith, page.above, (at h k).low)

  in_range : a < phy_mem_start + 128 * 1024 * 1024
  in_range = omega (arith, page.below, (at h k).high)

  -- `free_in` past its checks.
  checked : free_in k a p ≡ (
      let old = p.page_ref (index a) in
      let q = record p { page_ref = sub_ref p.page_ref (index a) } in
      if old == 0 then panic else if ltb 1 old then ok q else ok (push_head k a q))
  unfolding free_in
  checked =
      let fine : not (ltb a (begin k) || leb (end k) a || not (a % pgsize == 0)) ≡ true =
        ground (arith, page) in
      rw ((at h k).bounds, fine, pa_to_index-index a above_start in_range) refl

  refs' : ℕ → ℕ
  refs' = sub_ref p.page_ref (index a)

  -- The other pages of both lists, when `a` is in use.
  module _ (m : ℕ) (used : p.page_ref (index a) ≢ 0) where
    not_a : (b : ℕ) → p.page_ref (index b) ≡ 0 → b ≢ a
    not_a b z e = used (rw (← e) z)

    kept_list :
        (j : Bool)
        → FreeList (update p.mem a m) refs' (begin j) (end j) (region j p).head (unused j)
    unfolding refs'
    kept_list j = frame (at h j).list λ b i pb.
        counts_apart p.mem p.page_ref b a m _ pb.aligned page.aligned
          (omega (arith, pb.above, (at h j).low)) above_start
          (not_a b (free-IsPage b (at h j).list i).1)

    kept_list_same :
        (j : Bool) → FreeList p.mem refs' (begin j) (end j) (region j p).head (unused j)
    unfolding refs'
    kept_list_same j = frame (at h j).list λ b i pb. (
      refl,
      (counts_apart p.mem p.page_ref b a m _ pb.aligned page.aligned
          (omega (arith, pb.above, (at h j).low)) above_start
          (not_a b (free-IsPage b (at h j).list i).1)).1,
    )

  absent : p.page_ref (index a) ≢ 0 → has a (unused k) ≡ false
  absent used = elim (Bool-cases (has a (unused k))) [
    | inr o ↦ o
    | inl i ↦ absurd (used (free-IsPage a (at h k).list i).1)
  ]

  head_region : AllocRegion
  head_region = record (region k p) { head = a; allocable = (region k p).allocable + 1 }

  last_user :
      p.page_ref (index a) ≡ 1
      → Given p begin end unused k a (push_head k a (record p { page_ref = refs' }))
  unfolding refs' head_region
  last_user one =
      let used : p.page_ref (index a) ≢ 0 = ground arith in
      let old = (region k p).head in
      let m = update p.mem a old in
      let link : m a ≡ old = ground arith in
      let list : FreeList m refs' (begin k) (end k) a (a ∷ unused k) =
        cons page (ground arith) (absent used) (rw link (kept_list old used k)) in
      rw (push_head-rewritten p a refs' k) (record {
        pool =
            rewritten-IsPool head_region m refs' p k (a ∷ unused k) h refl list
              (omega (arith, (at h k).count)) (kept_list old used (not k));
        counts = λ i. ground arith;
      })

  one_user_less :
      (n : ℕ)
      → p.page_ref (index a) ≡ suc (suc n)
      → p.page_ref (index a) < 256
      → Unshared p begin end unused a (suc n) (record p { page_ref = refs' })
  unfolding refs' region
  one_user_less n e small =
      let used : p.page_ref (index a) ≢ 0 = ground arith in
      record {
        pool = record {
          kernel = record {
            bounds = h.kernel.bounds;
            list = kept_list_same 0 used true;
            count = h.kernel.count;
            low = h.kernel.low;
            high = h.kernel.high;
          };
          user = record {
            bounds = h.user.bounds;
            list = kept_list_same 0 used false;
            count = h.user.count;
            low = h.user.low;
            high = h.user.high;
          };
          apart = h.apart;
        };
        counts = λ i. ground arith;
        words = refl;
      }

  free_in-Freed :
      (n : ℕ) → p.page_ref (index a) ≡ n → n < 256 → Freed p begin end unused k a n (free_in k a p)
  unfolding refs'
  free_in-Freed zero e small = rw (checked, e) refl
  free_in-Freed (suc zero) e small =
      (push_head k a (record p { page_ref = refs' }), rw (checked, e) refl, last_user e)
  free_in-Freed (suc (suc n)) e small =
      let positive : (suc (suc n) == 0) ≡ false = ground arith in
      let shared : ltb 1 (suc (suc n)) ≡ true = ground arith in
      (
        record p { page_ref = refs' },
        rw (checked, e, positive, shared) refl,
        one_user_less n e (ground arith),
      )

free_of_page :
    (p : Pmem) (begin end : Bool → ℕ) (unused : Bool → List ℕ) (h : IsPool p begin end unused)
    (k : Bool) (a : ℕ)
    → IsPage (begin k) (end k) a
    → free a p ≡ free_in k a p
unfolding free contains region
free_of_page p begin end unused h true a page = ground (arith, h.kernel.bounds)
free_of_page p begin end unused h false a page =
    ground (arith, h.kernel.bounds, h.user.bounds, h.apart)

-- In a pool, `free` of a page of either region, whose count fits a byte, whichever flag it is
-- called with: a count of 0 is a double free and panics; with a count of 1 the page becomes the
-- first free page of its region; a higher count falls by one and the page stays in use.
pub free-Freed :
    (p : Pmem) (begin end : Bool → ℕ) (unused : Bool → List ℕ) (h : IsPool p begin end unused)
    (k : Bool) (a : ℕ)
    → IsPage (begin k) (end k) a
    → p.page_ref (index a) < 256
    → Freed p begin end unused k a (p.page_ref (index a)) (free a p)
free-Freed p begin end unused h k a page small =
    rw (free_of_page p begin end unused h k a page)
      (free_in-Freed p begin end unused h k a page (p.page_ref (index a)) refl small)

free_in_other :
    (p : Pmem) (begin end : Bool → ℕ) (unused : Bool → List ℕ) (h : IsPool p begin end unused)
    (k : Bool) (a : ℕ)
    → ¬ (IsPage (begin k) (end k) a)
    → free_in k a p ≡ panic
unfolding free_in
free_in_other p begin end unused h k a other =
    let check : Bool = not (ltb a (begin k) || leb (end k) a || not (a % pgsize == 0)) in
    elim (Bool-cases check) [
      | inr e ↦ rw ((at h k).bounds, e) refl
      | inl e ↦
          absurd
            (other (record { above = ground arith; below = ground arith; aligned = ground arith }))
    ]

-- In a pool, `free` panics on an address that is no page of a region.
pub free_of_other :
    (p : Pmem) (begin end : Bool → ℕ) (unused : Bool → List ℕ) (a : ℕ)
    → IsPool p begin end unused
    → ((k : Bool) → ¬ (IsPage (begin k) (end k) a))
    → free a p ≡ panic
unfolding free
free_of_other p begin end unused a h other = ground (
  arith,
  free_in_other p begin end unused h true a (other true),
  free_in_other p begin end unused h false a (other false),
)

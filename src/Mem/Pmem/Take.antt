-- ===== src/Mem/Pmem/Take.antt =====
-- `allocate` takes the first free page of a region.
use glenda.Prelude.{
  ℕ, ◌+◌, ◌-◌, ◌*◌, ◌%◌, ◌≤◌, ◌<◌, ◌≡◌, ◌≢◌, refl, ap, Bool, false, not, Option, none, some, List,
  [], ◌∷◌, arith, ◌==◌, if◌then◌else◌, length, has, Outcome, ok, ltb, leb, ◌&&◌,
}
use glenda.Mem.Addr.{pgsize}
use glenda.Mem.Pmem.{
  phy_mem_start, zero_page, add_ref, AllocRegion, Pmem, region, set_region, take_head, allocate,
}
use glenda.Mem.Pmem.FreeList.{index, IsPage, FreeList, nil, cons, frame}
use glenda.Mem.Pmem.Pool.{
  IsPool, put, at, rewritten-IsPool, other_region, pages_apart, pa_to_index-index,
}

-- The page `x` of region `k` has been taken: it is zeroed and counted once, nothing else changes.
pub record Taken (p : Pmem) (begin end : Bool → ℕ) (free : Bool → List ℕ) (k : Bool) (x : ℕ)
    (xs : List ℕ) (q : Pmem) : Type 0 where
  pub pool : IsPool q begin end (put k xs free)
  pub page : IsPage (begin k) (end k) x
  pub was_free : p.page_ref (index x) ≡ 0
  pub counts : (i : ℕ) → q.page_ref i ≡ (if i == index x then 1 else p.page_ref i)
  pub words : (a : ℕ) → q.mem a ≡ (if leb x a && ltb a (x + pgsize) then 0 else p.mem a)

abbrev pub Allocated :
    Pmem
    → (Bool → ℕ)
    → (Bool → ℕ)
    → (Bool → List ℕ)
    → Bool
    → List ℕ
    → Outcome (Option ℕ × Pmem)
    → Type 0
Allocated p begin end free k [] r = r ≡ ok (none, p)
Allocated p begin end free k (x ∷ xs) r =
    (q : Pmem) × (r ≡ ok (some x, q)) × Taken p begin end free k x xs q

-- The head of a region's list, and what is known of it.
pub record Head (p : Pmem) (begin end head x : ℕ) (xs : List ℕ) : Type 0 where
  pub first : head ≡ x
  pub page : IsPage begin end x
  pub unused : p.page_ref (index x) ≡ 0
  pub out : has x xs ≡ false
  pub rest : FreeList p.mem p.page_ref begin end (p.mem x) xs

pub uncons :
    (p : Pmem) (begin end head : ℕ) (l : List ℕ) (x : ℕ) (xs : List ℕ)
    → FreeList p.mem p.page_ref begin end head l
    → l ≡ x ∷ xs
    → Head p begin end head x xs
uncons p begin end head l x xs nil e = cc
uncons p begin end head l x xs (cons {x = y} {xs = ys} page zero out rest) e =
    let ey : y ≡ x = ground arith in
    let es : ys ≡ xs = ground arith in
    record {
      first = ey;
      page = rw ey at page;
      unused = rw ey at zero;
      out = rw (ey, es) at out;
      rest = rw (ey, es) at rest;
    }

module _ (p : Pmem) (begin end : Bool → ℕ) (free : Bool → List ℕ) (h : IsPool p begin end free)
    (x : ℕ) (xs : List ℕ) where
  abbrev mem' : ℕ → ℕ
  mem' = zero_page p.mem x

  abbrev refs' : ℕ → ℕ
  refs' = add_ref p.page_ref (index x)

  module _ (k : Bool) (hd : Head p (begin k) (end k) ((region k p).head) x xs) where
    kept :
        (a : ℕ)
        → a % pgsize ≡ 0
        → phy_mem_start ≤ a
        → a ≢ x
        → (mem' a ≡ p.mem a) × (refs' (index a) ≡ p.page_ref (index a))
    kept a e l ne =
        let low = (at h k).low in
        pages_apart p.mem p.page_ref a x _ e hd.page.aligned l (omega (arith, hd.page.above, low))
          ne

    -- The rest of the list, after the page has been zeroed and counted.
    rest_list : FreeList mem' refs' (begin k) (end k) (p.mem x) xs
    rest_list = frame hd.rest λ a i page.
        kept a page.aligned (omega (arith, page.above, (at h k).low))
          (λ e. ground (arith, hd.out, ap (λ (z : ℕ). has z xs) e))

    other_list :
        FreeList mem' refs' (begin (not k)) (end (not k)) (region (not k) p).head (free (not k))
    other_list = frame (at h (not k)).list λ a i page.
        kept a page.aligned (omega (arith, page.above, (at h (not k)).low))
          (other_region h k a x hd.page page)

    abbrev rest_region : AllocRegion
    rest_region = record (region k p) { head = p.mem x; allocable = (region k p).allocable - 1 }

    abbrev after : Pmem
    after = record (set_region k rest_region p) { mem = mem'; page_ref = refs' }

    in_range : x < phy_mem_start + 128 * 1024 * 1024
    in_range = omega (arith, hd.page.below, (at h k).high)

    above_start : phy_mem_start ≤ x
    above_start = omega (arith, hd.page.above, (at h k).low)

    runs : allocate k p ≡ ok (some x, after)
    unfolding allocate take_head
    runs =
        let some_page : (x == 0) ≡ false = ground (arith, above_start) in
        rw (hd.first, some_page, pa_to_index-index x above_start in_range, hd.unused) refl

    after-Taken : free k ≡ x ∷ xs → Taken p begin end free k x xs after
    after-Taken e = record {
      pool =
          rewritten-IsPool rest_region mem' refs' p k xs h refl rest_list
            (omega (arith, (at h k).count, ap (λ (l : List ℕ). length l) e)) other_list;
      page = hd.page;
      was_free = hd.unused;
      counts = λ i. ground (arith, hd.unused);
      words = λ a. refl;
    }

empty_head :
    (p : Pmem) (begin end head : ℕ) (l : List ℕ)
    → FreeList p.mem p.page_ref begin end head l
    → l ≡ []
    → head ≡ 0
empty_head p begin end head l nil e = refl
empty_head p begin end head l (cons page zero out rest) e = cc

-- In a pool, `allocate` takes the first free page of the region, which it zeroes and counts once;
-- the other pages, their counts and the other region stay as they were. With no free page it
-- returns none and changes nothing. It never panics.
pub allocate-Allocated :
    (p : Pmem) (begin end : Bool → ℕ) (free : Bool → List ℕ) (k : Bool) (l : List ℕ)
    → IsPool p begin end free
    → free k ≡ l
    → Allocated p begin end free k l (allocate k p)
unfolding allocate
allocate-Allocated p begin end free k [] h e =
    rw (empty_head p (begin k) (end k) _ (free k) (at h k).list e) refl
allocate-Allocated p begin end free k (x ∷ xs) h e =
    let hd = uncons p (begin k) (end k) _ (free k) x xs (at h k).list e in
    (
      after p begin end free h x xs k hd,
      runs p begin end free h x xs k hd,
      after-Taken p begin end free h x xs k hd e,
    )

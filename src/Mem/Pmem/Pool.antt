-- ===== src/Mem/Pmem/Pool.antt =====
-- The state of the allocator: which pages of each region are free.
use glenda.Prelude.{
  ℕ, ◌+◌, ◌*◌, ◌%◌, ◌≤◌, ◌<◌, ◌≡◌, ◌≢◌, refl, ◌∙◌, Bool, true, false, not, some, List, arith,
  length, update, ok,
}
use glenda.Mem.Addr.{pgsize}
use glenda.Mem.Pmem.{phy_mem_start, pa_to_index, zero_page, AllocRegion, Pmem, region, set_region}
use glenda.Mem.Pmem.FreeList.{index, IsPage, FreeList}

-- The region `k` has the free pages `xs`.
pub record IsRegion (p : Pmem) (k : Bool) (begin end : ℕ) (xs : List ℕ) : Type 0 where
  pub bounds : (region k p).bounds ≡ some (record { begin = begin; end = end })
  pub list : FreeList p.mem p.page_ref begin end (region k p).head xs
  pub count : (region k p).allocable ≡ length xs
  pub low : phy_mem_start ≤ begin
  pub high : end ≤ phy_mem_start + 128 * 1024 * 1024

-- Both regions, the kernel's (`true`) below the user's.
pub record IsPool (p : Pmem) (begin end : Bool → ℕ) (free : Bool → List ℕ) : Type 0 where
  pub kernel : IsRegion p true (begin true) (end true) (free true)
  pub user : IsRegion p false (begin false) (end false) (free false)
  pub apart : end true ≤ begin false

-- The free pages with those of one region replaced.
abbrev pub put : Bool → List ℕ → (Bool → List ℕ) → Bool → List ℕ
put true xs f true = xs
put true xs f false = f false
put false xs f true = f true
put false xs f false = xs

module _ {p : Pmem} {begin end : Bool → ℕ} {free : Bool → List ℕ}
    (h : IsPool p begin end free) where
  pub at : (k : Bool) → IsRegion p k (begin k) (end k) (free k)
  at true = h.kernel
  at false = h.user

  -- A page of one region is no page of the other.
  pub other_region :
      (k : Bool) (a x : ℕ)
      → IsPage (begin k) (end k) x
      → IsPage (begin (not k)) (end (not k)) a
      → a ≢ x
  other_region true a x i j = omega (arith, h.apart)
  other_region false a x i j = omega (arith, h.apart)

-- Two distinct pages share no word and no count.
pub pages_apart :
    (mem refs : ℕ → ℕ) (a x n : ℕ)
    → a % pgsize ≡ 0
    → x % pgsize ≡ 0
    → phy_mem_start ≤ a
    → phy_mem_start ≤ x
    → a ≢ x
    → (zero_page mem x a ≡ mem a) × (update refs (index x) n (index a) ≡ refs (index a))
pages_apart mem refs a x n ea ex la lx ne = ground arith

-- The page of a region has a count.
pub pa_to_index-index :
    (a : ℕ)
    → phy_mem_start ≤ a
    → a < phy_mem_start + 128 * 1024 * 1024
    → pa_to_index a ≡ ok (index a)
unfolding pa_to_index
pa_to_index-index a l h = ground arith

-- The state with one region, the memory and the counts written.
abbrev pub rewritten : Bool → AllocRegion → (ℕ → ℕ) → (ℕ → ℕ) → Pmem → Pmem
rewritten k r m refs p = record (set_region k r p) { mem = m; page_ref = refs }

module _ (r : AllocRegion) (m refs : ℕ → ℕ) (p : Pmem) where
  pub region-rewritten : (k : Bool) → region k (rewritten k r m refs p) ≡ r
  unfolding region set_region
  region-rewritten true = refl
  region-rewritten false = refl

  pub region-rewritten_other :
      (k : Bool) → region (not k) (rewritten k r m refs p) ≡ region (not k) p
  unfolding region set_region
  region-rewritten_other true = refl
  region-rewritten_other false = refl

  -- A pool again, given the lists of both regions.
  pub rewritten-IsPool :
      {begin end : Bool → ℕ} {free : Bool → List ℕ} (k : Bool) (xs : List ℕ)
      → IsPool p begin end free
      → r.bounds ≡ (region k p).bounds
      → FreeList m refs (begin k) (end k) r.head xs
      → r.allocable ≡ length xs
      → FreeList m refs (begin (not k)) (end (not k)) (region (not k) p).head (free (not k))
      → IsPool (rewritten k r m refs p) begin end (put k xs free)
  rewritten-IsPool {begin} {end} {free} k xs h eb l n o = join k here there
    where
      here : IsRegion (rewritten k r m refs p) k (begin k) (end k) xs
      here = record {
        bounds = rw (region-rewritten k) (eb ∙ (at h k).bounds);
        list = rw (region-rewritten k) l;
        count = rw (region-rewritten k) n;
        low = (at h k).low;
        high = (at h k).high;
      }

      there : IsRegion (rewritten k r m refs p) (not k) (begin (not k)) (end (not k)) (free (not k))
      there = record {
        bounds = rw (region-rewritten_other k) (at h (not k)).bounds;
        list = rw (region-rewritten_other k) o;
        count = rw (region-rewritten_other k) (at h (not k)).count;
        low = (at h (not k)).low;
        high = (at h (not k)).high;
      }

      join :
          (j : Bool)
          → IsRegion (rewritten k r m refs p) j (begin j) (end j) xs
          → IsRegion (rewritten k r m refs p) (not j) (begin (not j)) (end (not j)) (free (not j))
          → IsPool (rewritten k r m refs p) begin end (put j xs free)
      join true a b = record { kernel = a; user = b; apart = h.apart }
      join false a b = record { kernel = b; user = a; apart = h.apart }

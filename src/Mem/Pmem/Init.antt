-- ===== src/Mem/Pmem/Init.antt =====
-- `AllocRegion::init` of kernel/src/mem/pmem.rs.
use glenda.Prelude.{
  ℕ, zero, suc, ◌+◌, ◌*◌, ◌/◌, ◌%◌, ◌^◌, ◌≤◌, ◌<◌, ◌≡◌, refl, ap, Bool, true, false, not, none,
  some, List, [], ◌∷◌, arith, ◌==◌, length, has, update, Outcome, ok, ltb, leb, Bool-cases, inl,
  inr, ◌⊎◌,
}
use glenda.Mem.Addr.{pgsize, pgmask, align_up, align_down}
use glenda.Mem.Pmem.{phy_mem_start, AllocRegion, Pmem, region, set_region, init, init_pages}
use glenda.Mem.Pmem.FreeList.{IsPage, FreeList, nil, cons, frame}
use glenda.Mem.Pmem.Pool.{IsRegion, rewritten, region-rewritten, region-rewritten_other}

-- Where the loop stands: the pages below `current` are free.
record Filled (mem refs : ℕ → ℕ) (begin end current head count : ℕ) (xs : List ℕ) : Type 0 where
  list : FreeList mem refs begin end head xs
  counted : count ≡ length xs
  below : (a : ℕ) → has a xs ≡ true → a < current
  covers : (a : ℕ) → IsPage begin current a → has a xs ≡ true

module _ (refs : ℕ → ℕ) (begin end : ℕ) (unused : (i : ℕ) → refs i ≡ 0)
    (start : begin % pgsize ≡ 0) where
  push-Filled :
      (mem : ℕ → ℕ) (current head count : ℕ) (xs : List ℕ)
      → current % pgsize ≡ 0
      → begin ≤ current
      → current < end
      → Filled mem refs begin end current head count xs
      → Filled
          (update mem current head)
          refs
          begin
          end
          (current + pgsize)
          current
          (count + 1)
          (current ∷ xs)
  push-Filled mem current head count xs e l u f =
      let out : has current xs ≡ false = elim (Bool-cases (has current xs)) [
        | inr o ↦ o
        | inl i ↦ absurd (omega (arith, f.below current i))
      ] in
      let m = update mem current head in
      let link : m current ≡ head = ground arith in
      let rest =
        frame {mem' = m} {refs' = refs} f.list (λ a i p. (ground (arith, f.below a i), refl)) in
      record {
        list = cons (record { above = l; below = u; aligned = e }) (unused _) out (rw link rest);
        counted = omega (arith, f.counted);
        below = λ a i. ground (arith, f.below a);
        covers = λ a p. elim (Bool-cases (a == current)) [
          | inl q ↦ ground arith
          | inr o ↦ ground (
            arith,
            f.covers a (record {
              above = p.above;
              below = ground (arith, p.below, p.aligned);
              aligned = p.aligned;
            }),
          )
        ];
      }

  -- The end of the loop: every page of the region is free.
  record Full (mem : ℕ → ℕ) (low : ℕ) (r : Outcome (ℕ × ℕ × (ℕ → ℕ))) : Type 0 where
    head : ℕ
    count : ℕ
    after : ℕ → ℕ
    free_pages : List ℕ
    runs : r ≡ ok (head, count, after)
    filled : Filled after refs begin end end head count free_pages
    outside : (a : ℕ) → (a < low) ⊎ (end ≤ a) → after a ≡ mem a

  Full-weaken :
      (mem : ℕ → ℕ) (current head : ℕ) (r : Outcome (ℕ × ℕ × (ℕ → ℕ)))
      → current < end
      → Full (update mem current head) (current + pgsize) r
      → Full mem current r
  Full-weaken mem current head r u f = record {
    head = f.head;
    count = f.count;
    after = f.after;
    free_pages = f.free_pages;
    runs = f.runs;
    filled = f.filled;
    outside = λ a o. ground (arith, f.outside a, o, u);
  }

  init_pages-Full :
      (fuel current head count : ℕ) (mem : ℕ → ℕ) (xs : List ℕ)
      → current % pgsize ≡ 0
      → end % pgsize ≡ 0
      → begin ≤ current
      → end < current + fuel * pgsize
      → current ≤ end
      → Filled mem refs begin end current head count xs
      → Full mem current (init_pages fuel current end head count mem)
  unfolding init_pages
  init_pages-Full zero current head count mem xs e ee l fuel o f = absurd (omega arith)
  init_pages-Full (suc fuel) current head count mem xs e ee l lt o f =
      elim (Bool-cases (leb (current + pgsize) end)) [
        | inr t ↦
            let here : current ≡ end = ground arith in
            rw t (record {
              head = head;
              count = count;
              after = mem;
              free_pages = xs;
              runs = refl;
              filled = rw here at f;
              outside = λ a q. refl;
            })
        | inl t ↦ rw t (
            Full-weaken mem current head _ (ground arith) (
              init_pages-Full fuel (current + pgsize) current (count + 1) _ (current ∷ xs)
                (omega arith) ee (omega arith) (omega arith) (ground arith)
                (push-Filled mem current head count xs e l (ground arith) f)))
      ]

align_up_aligned : (a : ℕ) → a % pgsize ≡ 0 → a + pgmask < 2 ^ 64 → align_up a ≡ ok a
unfolding align_up
align_up_aligned a e h =
    let small : ltb (a + pgmask) (2 ^ 64) ≡ true = ground arith in
    let same : (a + pgmask) / pgsize * pgsize ≡ a = omega arith in rw (small, same)

align_down_aligned : (a : ℕ) → a % pgsize ≡ 0 → align_down a ≡ a
unfolding align_down
align_down_aligned a e = omega arith

set_region-rewritten :
    (k : Bool) (r : AllocRegion) (m : ℕ → ℕ) (p : Pmem)
    → set_region k r (record p { mem = m }) ≡ rewritten k r m p.page_ref p
unfolding set_region
set_region-rewritten true r m p = refl
set_region-rewritten false r m p = refl

init-rewritten :
    (k : Bool) (begin end : ℕ) (p : Pmem) (head count : ℕ) (m : ℕ → ℕ)
    → begin % pgsize ≡ 0
    → end % pgsize ≡ 0
    → begin + pgmask < 2 ^ 64
    → (region k p).bounds ≡ none
    → init_pages (end / pgsize + 1) begin end 0 0 p.mem ≡ ok (head, count, m)
    → init k begin end p
      ≡ ok (
          rewritten k
            (record {
              bounds = some (record { begin = begin; end = end });
              head = head;
              allocable = count;
            })
            m
            p.page_ref
            p)
unfolding init
init-rewritten k begin end p head count m eb ee small unset e =
    rw (align_up_aligned begin eb small, align_down_aligned end ee, e, unset)
      (ap ok (set_region-rewritten k _ m p))

-- What `init` makes of a region that has no bounds yet.
pub record Ready (k : Bool) (begin end : ℕ) (p : Pmem) : Type 0 where
  pub after : Pmem
  pub free_pages : List ℕ
  pub runs : init k begin end p ≡ ok after
  pub ready : IsRegion after k begin end free_pages
  pub covers : (a : ℕ) → IsPage begin end a → has a free_pages ≡ true
  pub outside : (a : ℕ) → (a < begin) ⊎ (end ≤ a) → after.mem a ≡ p.mem a
  pub counts : after.page_ref ≡ p.page_ref
  pub other : region (not k) after ≡ region (not k) p

-- `init` with aligned bounds inside the counted memory, on a region that has not been set up and
-- whose pages have no users, ends without a panic. Every page of the region is then free, the number
-- of free pages is right, and memory outside the region and the other region are as before.
pub init-Ready :
    (k : Bool) (begin end : ℕ) (p : Pmem)
    → (region k p).bounds ≡ none
    → ((i : ℕ) → p.page_ref i ≡ 0)
    → begin % pgsize ≡ 0
    → end % pgsize ≡ 0
    → begin ≤ end
    → phy_mem_start ≤ begin
    → end ≤ phy_mem_start + 128 * 1024 * 1024
    → Ready k begin end p
init-Ready k begin end p unset unused eb ee le low high = record {
  after = rewritten k ready_region full.after p.page_ref p;
  free_pages = full.free_pages;
  runs =
      init-rewritten k begin end p full.head full.count full.after eb ee (omega arith) unset
        full.runs;
  ready = record {
    bounds = rw (region-rewritten ready_region full.after p.page_ref p k) refl;
    list = rw (region-rewritten ready_region full.after p.page_ref p k) full.filled.list;
    count = rw (region-rewritten ready_region full.after p.page_ref p k) full.filled.counted;
    low = low;
    high = high;
  };
  covers = full.filled.covers;
  outside = full.outside;
  counts = refl;
  other = region-rewritten_other ready_region full.after p.page_ref p k;
}
  where
    full :
        Full p.page_ref begin end unused eb p.mem begin
          (init_pages (end / pgsize + 1) begin end 0 0 p.mem)
    full =
        init_pages-Full p.page_ref begin end unused eb (end / pgsize + 1) begin 0 0 p.mem [] eb ee
          (omega arith) (omega arith) le
          (record {
            list = nil;
            counted = refl;
            below = λ a h. ground arith;
            covers = λ a h. absurd (omega (arith, h.above, h.below));
          })

    ready_region : AllocRegion
    ready_region = record {
      bounds = some (record { begin = begin; end = end });
      head = full.head;
      allocable = full.count;
    }

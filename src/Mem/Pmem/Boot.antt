-- ===== src/Mem/Pmem/Boot.antt =====
-- `initialize_regions` divides the memory into the two regions.
use glenda.Prelude.{
  ℕ, ◌+◌, ◌*◌, ◌/◌, ◌%◌, ◌^◌, ◌≤◌, ◌<◌, ◌≡◌, refl, ap, ◌∙◌, Bool, true, false, Option, none, List,
  arith, has, Outcome, ok, ltb, leb, Bool-cases, inl, inr, ◌⊎◌,
}
use glenda.Mem.Addr.{pgsize, pgmask, kern_pages, align_up}
use glenda.Mem.Pmem.{
  phy_mem_start, Pmem, MemoryRange, or_default, region, info, kernel_split, page_aligned,
  initialize_regions,
}
use glenda.Mem.Pmem.FreeList.{index, IsPage, frame}
use glenda.Mem.Pmem.Pool.{IsRegion, IsPool}
use glenda.Mem.Pmem.Init.{Ready, init-Ready}

abbrev pub per_region {ℓ} : {A : Type ℓ} → A → A → Bool → A
per_region a b true = a
per_region a b false = b

-- The state after the boot code has set the allocator up: all pages from `begin` up to `end` are
-- free, the first ones for the kernel.
pub record Booted (begin end : ℕ) (r : Outcome Pmem) : Type 0 where
  pub after : Pmem
  pub split : ℕ
  pub kernel_pages : List ℕ
  pub user_pages : List ℕ
  pub runs : r ≡ ok after
  pub pool :
      IsPool after
        (per_region begin split)
        (per_region split end)
        (per_region kernel_pages user_pages)
  pub size :
      ((split ≡ begin + kern_pages * pgsize) × (split ≤ end))
      ⊎ ((split ≡ end) × (end < begin + kern_pages * pgsize))
  pub covers_kernel : (a : ℕ) → IsPage begin split a → has a kernel_pages ≡ true
  pub covers_user : (a : ℕ) → IsPage split end a → has a user_pages ≡ true

-- The split is aligned, between the bounds, and gives the kernel its pages or all there is.
record Split (begin end : ℕ) (r : Outcome ℕ) : Type 0 where
  split : ℕ
  found : r ≡ ok split
  aligned : split % pgsize ≡ 0
  above : begin ≤ split
  below : split ≤ end
  size :
      ((split ≡ begin + kern_pages * pgsize) × (split ≤ end))
      ⊎ ((split ≡ end) × (end < begin + kern_pages * pgsize))

kernel_split-Split :
    (begin end : ℕ)
    → begin % pgsize ≡ 0
    → end % pgsize ≡ 0
    → begin ≤ end
    → end ≤ phy_mem_start + 128 * 1024 * 1024
    → Split begin end (kernel_split begin end)
unfolding kernel_split align_up
kernel_split-Split begin end eb ee le high =
    let wanted : ℕ = begin + kern_pages * pgsize in
    let fits : ltb wanted (2 ^ 64) ≡ true = ground arith in
    let small : ltb (wanted + pgmask) (2 ^ 64) ≡ true = ground arith in
    let same : (wanted + pgmask) / pgsize * pgsize ≡ wanted = omega arith in
    elim (Bool-cases (ltb end wanted)) [
      | inl t ↦
          let back : ltb end begin ≡ false = ground arith in
          record {
            split = end;
            found = rw (fits, small, same, t, back) refl;
            aligned = ee;
            above = le;
            below = omega arith;
            size = inr (refl, ground arith);
          }
      | inr t ↦
          let back : ltb wanted begin ≡ false = ground arith in
          record {
            split = wanted;
            found = rw (fits, small, same, t, back) refl;
            aligned = omega arith;
            above = omega arith;
            below = ground arith;
            size = inl (refl, ground arith);
          }
    ]

module _ (p : Pmem) (begin split end : ℕ) (k : Ready true begin split p)
    (u : Ready false split end k.after) where
  -- The kernel's list, past the set-up of the user's.
  kernel-IsRegion : IsRegion u.after true begin split k.free_pages
  kernel-IsRegion =
      let r = k.ready in
      record {
        bounds = rw u.other r.bounds;
        list = rw u.other (
            frame {mem' = u.after.mem} {refs' = u.after.page_ref} r.list
              λ a i page. (u.outside a (inl page.below), ap (λ (f : ℕ → ℕ). f (index a)) u.counts));
        count = rw u.other r.count;
        low = r.low;
        high = r.high;
      }

  both-IsPool :
      IsPool u.after
        (per_region begin split)
        (per_region split end)
        (per_region k.free_pages u.free_pages)
  both-IsPool = record { kernel = kernel-IsRegion; user = u.ready; apart = omega arith }

-- `initialize_regions` ends without a panic and leaves a pool in which every page is free, the first
-- `KERN_PAGES` pages for the kernel, or all pages where there are fewer, and the rest for the user;
-- where the end of the kernel image has an aligned bound not above the start of the memory to allocate, that memory is not
-- empty, its bounds are aligned and in the 128 MiB that have counts, no region is set up, and no page
-- has a user.
pub initialize_regions-Booted :
    (bss_end kernel_end begin end : ℕ) (memory : Option MemoryRange) (p : Pmem)
    → align_up bss_end ≡ ok kernel_end
    → (or_default memory).start + (or_default memory).size ≡ end
    → kernel_end ≤ begin
    → begin < end
    → begin % pgsize ≡ 0
    → end % pgsize ≡ 0
    → phy_mem_start ≤ begin
    → end ≤ phy_mem_start + 128 * 1024 * 1024
    → p.kernel_region.bounds ≡ none
    → p.user_region.bounds ≡ none
    → ((i : ℕ) → p.page_ref i ≡ 0)
    → Booted begin end (initialize_regions bss_end begin memory p)
unfolding initialize_regions region info
initialize_regions-Booted bss_end kernel_end begin end memory p e re kl lt eb ee low high nk nu
      unused =
    record {
      after = u.after;
      split = s.split;
      kernel_pages = k.free_pages;
      user_pages = u.free_pages;
      runs =
          let fits : ltb end (2 ^ 64) ≡ true = ground arith in
          let before : ltb kernel_end end ≡ true = ground arith in
          let behind : leb kernel_end begin ≡ true = ground arith in
          let ab : page_aligned begin ≡ true = ground arith in
          let ac : page_aligned s.split ≡ true = ground (arith, s.aligned) in
          let ad : page_aligned end ≡ true = ground arith in
          rw
            (
              e, re, fits, before, behind, ab, s.found, k.runs, u.runs, pool.kernel.bounds,
              pool.user.bounds, ab, ac, ad,
            )
            refl;
      pool = pool;
      size = s.size;
      covers_kernel = k.covers;
      covers_user = u.covers;
    }
  where
    s : Split begin end (kernel_split begin end)
    s = kernel_split-Split begin end eb ee (omega arith) high

    k : Ready true begin s.split p
    k = init-Ready true begin s.split p nk unused eb s.aligned s.above low (omega (arith, s.below))

    u : Ready false s.split end k.after
    u =
        init-Ready false s.split end k.after (rw k.other nu)
          (λ i. ap (λ (f : ℕ → ℕ). f i) k.counts ∙ unused i) s.aligned ee s.below
          (omega (arith, s.above)) high

    pool :
        IsPool u.after
          (per_region begin s.split)
          (per_region s.split end)
          (per_region k.free_pages u.free_pages)
    pool = both-IsPool p begin s.split end k u

-- ===== src/Mem/Pagetable/Hang.antt =====
-- A new table in the page allocator's memory: the step of `walk` of kernel/src/mem/pagetable.rs.
use glenda.Prelude.{
  ℕ, ◌+◌, ◌%◌, ◌≤◌, ◌<◌, ◌≡◌, ◌≢◌, refl, ap, Bool, true, false, leb, ltb, ◌==◌, ◌&&◌, update, ok,
  List, ◌∷◌, has, arith, Bool-cases, inl, inr,
}
use glenda.Mem.Addr.{pgsize}
use glenda.Mem.Pte.{pte_v, pa_to_pte}
use glenda.Mem.Pmem.{Pmem, region, zero_page, alloc}
use glenda.Mem.Pmem.FreeList.{IsPage, frame}
use glenda.Mem.Pmem.Pool.{IsPool, put, other_region}
use glenda.Mem.Pmem.Take.{Taken, uncons, allocate-Allocated}
use glenda.Mem.Pagetable.{entry_at, hang}

-- A pool does not change with the memory outside its free pages.
memory-IsPool :
    {q : Pmem} {begin end : Bool → ℕ} {unused : Bool → List ℕ} (m : ℕ → ℕ)
    → IsPool q begin end unused
    → ((k : Bool) (a : ℕ) → has a (unused k) ≡ true → IsPage (begin k) (end k) a → m a ≡ q.mem a)
    → IsPool (record q { mem = m }) begin end unused
unfolding region
memory-IsPool m h same = record {
  kernel = record {
    bounds = h.kernel.bounds;
    list = frame h.kernel.list (λ a i page. (same true a i page, refl));
    count = h.kernel.count;
    low = h.kernel.low;
    high = h.kernel.high;
  };
  user = record {
    bounds = h.user.bounds;
    list = frame h.user.list (λ a i page. (same false a i page, refl));
    count = h.user.count;
    low = h.user.low;
    high = h.user.high;
  };
  apart = h.apart;
}

untouched :
    (mem : ℕ → ℕ) (table idx x a w : ℕ)
    → table % pgsize ≡ 0
    → x % pgsize ≡ 0
    → a % pgsize ≡ 0
    → idx < 512
    → a ≢ table
    → a ≢ x
    → update (zero_page mem x) (entry_at table idx) w a ≡ mem a
untouched mem table idx x a w et ex ea small nt nx =
    let off : (a == entry_at table idx) ≡ false = elim (Bool-cases (a == entry_at table idx)) [
      | inl q ↦ absurd (nt (ground arith))
      | inr q ↦ q
    ] in
    let out : (leb x a && ltb a (x + pgsize)) ≡ false =
      elim (Bool-cases (leb x a && ltb a (x + pgsize))) [
        | inl q ↦ absurd (nx (ground arith))
        | inr q ↦ q
      ] in
    rw (off, out) refl

module _ (begin end : Bool → ℕ) where
  -- A page of the kernel that is not free.
  pub record Used (unused : Bool → List ℕ) (a : ℕ) : Type 0 where
    pub page : IsPage (begin true) (end true) a
    pub taken : has a (unused true) ≡ false

  -- The new table `x` hangs in the entry `slot`; its entries are 0, and other words are as before.
  pub record Hung (p : Pmem) (unused : Bool → List ℕ) (xs : List ℕ) (slot x : ℕ) (r : Pmem)
      : Type 0 where
    pub pool : IsPool r begin end (put true xs unused)
    pub used : Used (put true xs unused) x
    pub entry : r.mem slot ≡ pa_to_pte x pte_v
    pub empty : (a : ℕ) → x ≤ a → a < x + pgsize → r.mem a ≡ 0
    pub same :
        (a : ℕ) → (a == slot) ≡ false → (leb x a && ltb a (x + pgsize)) ≡ false → r.mem a ≡ p.mem a

  module _ (p : Pmem) (unused : Bool → List ℕ) (h : IsPool p begin end unused) (table idx : ℕ)
      (small : idx < 512) (old : Used unused table) (x : ℕ) (xs : List ℕ)
      (e : unused true ≡ x ∷ xs) where
    pub still : has table xs ≡ false
    still = ground (arith, old.taken, ap (λ (l : List ℕ). has table l) e)

    pub other : table ≢ x
    other = λ q. ground (arith, old.taken, ap (λ (l : List ℕ). has table l) e, q)

    hang-IsPool :
        (q : Pmem)
        → Taken p begin end unused true x xs q
        → has x xs ≡ false
        → IsPool (hang (entry_at table idx) x q) begin end (put true xs unused)
    hang-IsPool q t fresh = memory-IsPool _ t.pool same
      where
        same :
            (k : Bool) (a : ℕ)
            → has a (put true xs unused k) ≡ true
            → IsPage (begin k) (end k) a
            → (hang (entry_at table idx) x q).mem a ≡ q.mem a
        same true a i page =
            untouched q.mem table idx x a _ old.page.aligned t.page.aligned page.aligned small
              (λ d. ground (arith, i, still, ap (λ (z : ℕ). has z xs) d))
              (λ d. ground (arith, i, fresh, ap (λ (z : ℕ). has z xs) d))
        same false a i page =
            untouched q.mem table idx x a _ old.page.aligned t.page.aligned page.aligned small
              (other_region h true a table old.page page) (other_region h true a x t.page page)

    pub alloc-Hung :
        (q : Pmem) × (alloc true p ≡ ok (x, q))
        × Hung p unused xs (entry_at table idx) x (hang (entry_at table idx) x q)
    unfolding alloc
    alloc-Hung =
        let (q, runs, t) = allocate-Allocated p begin end unused true (x ∷ xs) h e in
        let hd = uncons p (begin true) (end true) _ (unused true) x xs h.kernel.list e in
        let apart : (leb x (entry_at table idx) && ltb (entry_at table idx) (x + pgsize)) ≡ false =
          elim (Bool-cases (leb x (entry_at table idx) && ltb (entry_at table idx) (x + pgsize))) [
            | inl q ↦
                let a = old.page.aligned in let b = t.page.aligned in absurd (other (ground arith))
            | inr q ↦ q
          ] in
        (
          q,
          rw runs refl,
          record {
            pool = hang-IsPool q t hd.out;
            used = record { page = t.page; taken = hd.out };
            entry = ground arith;
            empty = λ a l m.
                let off : (a == entry_at table idx) ≡ false =
                  elim (Bool-cases (a == entry_at table idx)) [
                    | inl d ↦
                        let same : entry_at table idx ≡ a = ground arith in
                        ground (arith, apart, same)
                    | inr d ↦ d
                  ] in
                let ins : (leb x a && ltb a (x + pgsize)) ≡ true = ground arith in
                rw (off, ins) refl;
            same = λ a off out. let w = t.words a in ground (arith, w, off, out);
          },
        )

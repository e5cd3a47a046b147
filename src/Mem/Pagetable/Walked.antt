-- ===== src/Mem/Pagetable/Walked.antt =====
-- `walk` of kernel/src/mem/pagetable.rs with allocation, and the `lookup` after it.
use glenda.Prelude.{
  ◌^◌, ℕ, zero, suc, ◌+◌, ◌%◌, ◌≤◌, ◌<◌, ◌≡◌, ◌≢◌, refl, ◌∙◌, ap, Bool, true, false, Option, none,
  some, leb, ltb, ◌==◌, ◌&&◌, Outcome, ok, panic, stuck, List, [], ◌∷◌, has, length, arith,
  Bool-cases, Option-cases, inl, inr, ◌>>=◌,
}
use glenda.Mem.Addr.{pgsize, vpn, va_max}
use glenda.Mem.Pte.{is_valid, is_leaf, pte_to_pa, pte_v, pa_to_pte, get_ppn}
use glenda.Mem.Pmem.{Pmem, allocate, alloc}
use glenda.Mem.Pmem.Pool.{IsPool, put}
use glenda.Mem.Pmem.Take.{allocate-Allocated}
use glenda.Mem.Pagetable.{
  entry_at, vpn_at, next_table, hang, walk_levels, walk, lookup_levels, lookup,
}
use glenda.Mem.Pagetable.Hang.{Used, Hung, alloc-Hung}

vpn_at-small : (level va : ℕ) → vpn_at level va < 512
unfolding vpn_at vpn
vpn_at-small zero va = omega arith
vpn_at-small (suc zero) va = omega arith
vpn_at-small (suc (suc level)) va = omega arith

-- The entry of a new table leads to it.
new_entry :
    (x : ℕ)
    → x % pgsize ≡ 0
    → 0 < x
    → x < 2 ^ 56
    → (is_valid (pa_to_pte x pte_v) ≡ true) × (next_table (pa_to_pte x pte_v) ≡ some x)
unfolding next_table is_valid is_leaf pte_to_pa pa_to_pte get_ppn
new_entry x e pos small = ground arith

module _ (begin end : Bool → ℕ) where
  -- The tables on the way down to `va` from `table` are pages of the kernel that are not free.
  pub OnPath : ℕ → (Bool → List ℕ) → (ℕ → ℕ) → ℕ → ℕ → Type 0
  OnPath zero unused mem table va = Used begin end unused table
  OnPath (suc level) unused mem table va =
      Used begin end unused table
      × ((t : ℕ)
          → is_valid (mem (entry_at table (vpn_at (suc level) va))) ≡ true
          → next_table (mem (entry_at table (vpn_at (suc level) va))) ≡ some t
          → OnPath level unused mem t va)

  -- Valid words of pages that are in use.
  abbrev pub Kept : (Bool → List ℕ) → Pmem → Pmem → Type 0
  Kept unused p q =
      (a table idx : ℕ)
      → Used begin end unused table
      → idx < 512
      → a ≡ entry_at table idx
      → is_valid (p.mem a) ≡ true
      → q.mem a ≡ p.mem a

  -- There is an entry at this level, and it is valid.
  EntryValid : ℕ → (ℕ → ℕ) → ℕ → ℕ → Type 0
  EntryValid zero mem table va = ⊥
  EntryValid (suc level) mem table va =
      is_valid (mem (entry_at table (vpn_at (suc level) va))) ≡ true

  EntryValid-empty :
      (level : ℕ) (mem : ℕ → ℕ) (x va : ℕ)
      → ((a : ℕ) → x ≤ a → a < x + pgsize → mem a ≡ 0)
      → EntryValid level mem x va
      → ⊥
  unfolding EntryValid is_valid
  EntryValid-empty zero mem x va empty v = v
  EntryValid-empty (suc level) mem x va empty v =
      let small = vpn_at-small (suc level) va in
      let e = empty (entry_at x (vpn_at (suc level) va)) (omega arith) (omega arith) in
      ground (arith, e, v)

  -- What a walk with allocation may do from `table` down.
  abbrev Walked : ℕ → (Bool → List ℕ) → ℕ → ℕ → Pmem → Outcome (Option ℕ × Pmem) → Type 0
  Walked level unused table va p (ok (some e, q)) =
      (lookup_levels level table va q.mem ≡ some e)
      × ((left : Bool → List ℕ) × IsPool q begin end left)
      × Kept unused p q
  Walked level unused table va p (ok (none, q)) =
      (lookup_levels level table va p.mem ≡ none) × (q ≡ p) × EntryValid level p.mem table va
  Walked level unused table va p panic =
      (lookup_levels level table va p.mem ≡ none) × (length (unused true) < level)
  Walked level unused table va p stuck = ⊥

  module _ (level : ℕ) (unused : Bool → List ℕ) (table va : ℕ) (p : Pmem)
      (used : Used begin end unused table) where
    abbrev slot : ℕ
    slot = entry_at table (vpn_at (suc level) va)

    -- Through a valid entry to the table `t`.
    Walked-down :
        (t : ℕ) (o : Outcome (Option ℕ × Pmem))
        → is_valid (p.mem slot) ≡ true
        → next_table (p.mem slot) ≡ some t
        → Walked level unused t va p o
        → Walked (suc level) unused table va p o
    unfolding lookup_levels EntryValid
    Walked-down t (ok (some e, q)) valid next w =
        let same =
          w.2 slot table (vpn_at (suc level) va) used (vpn_at-small (suc level) va) refl valid in
        (rw (lookup_levels, same, valid, same, next) w.0, w.1, w.2)
    Walked-down t (ok (none, q)) valid next w = (rw (lookup_levels, valid, next) w.0, w.1, valid)
    Walked-down t panic valid next w = (rw (lookup_levels, valid, next) w.0, omega (arith, w.1))
    Walked-down t stuck valid next w = w

    Used-after :
        (x : ℕ) (xs : List ℕ)
        → unused true ≡ x ∷ xs
        → (t : ℕ) → Used begin end unused t
        → Used begin end (put true xs unused) t
    Used-after x xs more t u = record {
      page = u.page;
      taken = ground (arith, u.taken, ap (λ (l : List ℕ). has t l) more);
    }

    -- A valid word of a table that is in use lies neither in the slot nor in the new table.
    kept_word :
        (x : ℕ) (xs : List ℕ) (r : Pmem) (a t idx : ℕ)
        → is_valid (p.mem slot) ≡ false
        → unused true ≡ x ∷ xs
        → Hung begin end p unused xs slot x r
        → Used begin end unused t
        → idx < 512
        → a ≡ entry_at t idx
        → is_valid (p.mem a) ≡ true
        → r.mem a ≡ p.mem a
    kept_word x xs r a t idx invalid more g u small e valid =
        let apart : t ≢ x = λ q. ground (arith, u.taken, ap (λ (l : List ℕ). has t l) more, q) in
        let off : (a == slot) ≡ false = elim (Bool-cases (a == slot)) [
          | inl d ↦
              let same : a ≡ slot = ground arith in
              absurd (ground (arith, invalid, valid, ap (λ b. is_valid (p.mem b)) same))
          | inr d ↦ d
        ] in
        let out : (leb x a && ltb a (x + pgsize)) ≡ false =
          elim (Bool-cases (leb x a && ltb a (x + pgsize))) [
            | inl d ↦
                let ea = u.page.aligned in
                let eb = g.used.page.aligned in absurd (apart (ground arith))
            | inr d ↦ d
          ] in
        g.same a off out

    -- Through a new table `x`.
    Walked-hang :
        (x : ℕ) (xs : List ℕ) (r : Pmem) (o : Outcome (Option ℕ × Pmem))
        → is_valid (p.mem slot) ≡ false
        → unused true ≡ x ∷ xs
        → (is_valid (pa_to_pte x pte_v) ≡ true) × (next_table (pa_to_pte x pte_v) ≡ some x)
        → Hung begin end p unused xs slot x r
        → Walked level (put true xs unused) x va r o
        → Walked (suc level) unused table va p o
    unfolding lookup_levels EntryValid
    Walked-hang x xs r (ok (some e, q)) invalid more leads g w =
        let valid : is_valid (r.mem slot) ≡ true = rw g.entry leads.0 in
        let same : q.mem slot ≡ pa_to_pte x pte_v =
          w.2 slot table (vpn_at (suc level) va) (Used-after x xs more table used)
            (vpn_at-small (suc level) va) refl valid
          ∙ g.entry in
        (
          rw (lookup_levels, same, leads.0, same, leads.1) w.0,
          w.1,
          λ a t idx u small e v.
              let word = kept_word x xs r a t idx invalid more g u small e v in
              w.2 a t idx (Used-after x xs more t u) small e (rw word v) ∙ word,
        )
    Walked-hang x xs r (ok (none, q)) invalid more leads g w =
        absurd (EntryValid-empty level r.mem x va g.empty w.2)
    Walked-hang x xs r panic invalid more leads g w =
        (rw (lookup_levels, invalid) refl, ground (arith, w.1, ap (λ (l : List ℕ). length l) more))
    Walked-hang x xs r stuck invalid more leads g w = w

  -- An empty table has no table below.
  pub OnPath-new :
      (level : ℕ) (unused : Bool → List ℕ) (mem : ℕ → ℕ) (x va : ℕ)
      → Used begin end unused x
      → ((a : ℕ) → x ≤ a → a < x + pgsize → mem a ≡ 0)
      → OnPath level unused mem x va
  unfolding OnPath EntryValid
  OnPath-new zero unused mem x va used empty = used
  OnPath-new (suc level) unused mem x va used empty =
      (used, λ t v n. absurd (EntryValid-empty (suc level) mem x va empty v))

  -- The entry is not valid: the walk takes a page for the new table, if there is one.
  walk_absent :
      (level : ℕ) (unused : Bool → List ℕ) (table va : ℕ) (p : Pmem)
      → IsPool p begin end unused
      → Used begin end unused table
      → is_valid (p.mem (entry_at table (vpn_at (suc level) va))) ≡ false
      → ((x : ℕ) (xs : List ℕ) (r : Pmem)
          → IsPool r begin end (put true xs unused)
          → OnPath level (put true xs unused) r.mem x va
          → Walked level (put true xs unused) x va r (walk_levels level true x va r))
      → (l : List ℕ) → unused true ≡ l
      → Walked (suc level) unused table va p (walk_levels (suc level) true table va p)
  unfolding walk_levels lookup_levels alloc
  walk_absent level unused table va p h used invalid ih [] e =
      let runs : allocate true p ≡ ok (none, p) =
        allocate-Allocated p begin end unused true [] h e in
      rw (walk_levels, invalid, runs)
        (rw (lookup_levels, invalid) refl, ground (arith, ap (λ (l : List ℕ). length l) e))
  walk_absent level unused table va p h used invalid ih (x ∷ xs) e =
      let idx = vpn_at (suc level) va in
      let small = vpn_at-small (suc level) va in
      let (q, runs, g) = alloc-Hung begin end p unused h table idx small used x xs e in
      let low = h.kernel.low in
      let high = h.kernel.high in
      let page = g.used.page in
      let some_page : (x == 0) ≡ false = ground (arith, page.above, low) in
      let leads =
        new_entry x page.aligned (omega (arith, page.above, low))
          (omega (arith, page.below, high)) in
      let r = hang (entry_at table idx) x q in
      let w = ih x xs r g.pool (OnPath-new level (put true xs unused) r.mem x va g.used g.empty) in
      let hung : ℕ × Pmem → Outcome (Option ℕ × Pmem) = λ new. elim (new.0 == 0) [
        | true ↦ ok (none, new.1)
        | false ↦ walk_levels level true new.0 va (hang (entry_at table idx) new.0 new.1)
      ] in
      let step : walk_levels (suc level) true table va p ≡ walk_levels level true x va r =
        rw (walk_levels, invalid)
          (ap (λ o. o >>= hung) runs
            ∙ ap (λ b. elim b [ true ↦ ok (none, q) | false ↦ walk_levels level true x va r ])
                some_page) in
      rw step (
        Walked-hang level unused table va p used x xs r (walk_levels level true x va r) invalid e
          leads g w)

  walk_levels-Walked :
      (level : ℕ) (unused : Bool → List ℕ) (table va : ℕ) (p : Pmem)
      → IsPool p begin end unused
      → OnPath level unused p.mem table va
      → Walked level unused table va p (walk_levels level true table va p)
  unfolding walk_levels lookup_levels OnPath EntryValid
  walk_levels-Walked zero unused table va p h path =
      (refl, (unused, h), λ a t idx u small e v. refl)
  walk_levels-Walked (suc level) unused table va p h path =
      let pte = p.mem (entry_at table (vpn_at (suc level) va)) in
      elim (Bool-cases (is_valid pte)) [
        | inl valid ↦ elim (Option-cases (next_table pte)) [
          | inl none_next ↦
              rw (walk_levels, valid, none_next)
                (rw (lookup_levels, valid, none_next) refl, refl, valid)
          | inr (t, next) ↦
              rw (walk_levels, valid, next)
                (Walked-down level unused table va p path.0 t (walk_levels level true t va p) valid
                  next (walk_levels-Walked level unused t va p h (path.1 t valid next)))
        ]
        | inr invalid ↦
            walk_absent level unused table va p h path.0 invalid
              (λ x xs r pool below. walk_levels-Walked level (put true xs unused) x va r pool below)
              (unused true) refl
      ]

  -- What `walk` with allocation may do.
  abbrev pub Walks : (Bool → List ℕ) → ℕ → ℕ → Pmem → Outcome (Option ℕ × Pmem) → Type 0
  Walks unused root va p (ok (some e, q)) =
      (lookup root va q.mem ≡ some e)
      × ((left : Bool → List ℕ) × IsPool q begin end left)
      × Kept unused p q
  Walks unused root va p (ok (none, q)) = (lookup root va p.mem ≡ none) × (q ≡ p)
  Walks unused root va p panic =
      (lookup root va p.mem ≡ none) × (va < va_max) × (length (unused true) < 2)
  Walks unused root va p stuck = ⊥

  Walks-below :
      (unused : Bool → List ℕ) (root va : ℕ) (p : Pmem) (o : Outcome (Option ℕ × Pmem))
      → leb va_max va ≡ false
      → Walked 2 unused root va p o
      → Walks unused root va p o
  unfolding lookup
  Walks-below unused root va p (ok (some e, q)) low w = rw low w
  Walks-below unused root va p (ok (none, q)) low w = rw low (w.0, w.1)
  Walks-below unused root va p panic low w = rw low (w.0, ground arith, w.1)
  Walks-below unused root va p stuck low w = w

  -- In a pool, where the tables on the way are kernel pages in use, `walk` with allocation ends in
  -- one of three ways. It returns the entry that `lookup` then finds, leaves a pool, and keeps
  -- every valid entry of the pages in use. It returns none and changes nothing, and `lookup` finds
  -- none. Or it panics, where `lookup` finds none and fewer than two kernel pages are free.
  pub walk-Walks :
      (unused : Bool → List ℕ) (root va : ℕ) (p : Pmem)
      → IsPool p begin end unused
      → OnPath 2 unused p.mem root va
      → Walks unused root va p (walk root va true p)
  unfolding walk lookup
  walk-Walks unused root va p h path = elim (Bool-cases (leb va_max va)) [
    | inl e ↦ rw e (rw e refl, refl)
    | inr e ↦ rw e (
        Walks-below unused root va p (walk_levels 2 true root va p) e
          (walk_levels-Walked 2 unused root va p h path))
  ]

-- ===== src/Mem/Pmem/FreeList.antt =====
-- Free lists in memory.
use glenda.Prelude.{
  ℕ, ◌-◌, ◌/◌, ◌%◌, ◌≤◌, ◌<◌, ◌≡◌, true, false, List, [], ◌∷◌, arith, ◌==◌, has, Bool-cases, inl,
  inr,
}
use glenda.Mem.Addr.{pgsize}
use glenda.Mem.Pmem.{phy_mem_start}

abbrev pub index : ℕ → ℕ
index a = (a - phy_mem_start) / pgsize

-- `a` is the address of a page of the region `[begin, end)`.
pub record IsPage (begin end a : ℕ) : Type 0 where
  pub above : begin ≤ a
  pub below : a < end
  pub aligned : a % pgsize ≡ 0

-- From `head` the links lead through the distinct pages `xs`, none of which is referenced.
pub data FreeList (mem refs : ℕ → ℕ) (begin end : ℕ) : ℕ → List ℕ → Type 0 where
  nil : FreeList mem refs begin end 0 []
  cons :
      {x : ℕ} {xs : List ℕ}
      → IsPage begin end x
      → refs (index x) ≡ 0
      → has x xs ≡ false
      → FreeList mem refs begin end (mem x) xs
      → FreeList mem refs begin end x (x ∷ xs)

module _ {begin end : ℕ} where
  -- A free list does not change with memory and counts outside its pages.
  pub frame :
      {mem refs mem' refs' : ℕ → ℕ} {head : ℕ} {xs : List ℕ}
      → FreeList mem refs begin end head xs
      → ((a : ℕ)
          → has a xs ≡ true
          → IsPage begin end a
          → (mem' a ≡ mem a) × (refs' (index a) ≡ refs (index a)))
      → FreeList mem' refs' begin end head xs
  frame nil same = nil
  frame {mem' = m} {refs' = r} (cons {x} {xs} page zero out rest) same =
      let e = same x (ground arith) page in
      let tail = frame {mem' = m} {refs' = r} rest (λ a h p. same a (ground arith) p) in
      cons page (ground (arith, e)) out (rw e.0 tail)

  pub free-IsPage :
      {mem refs : ℕ → ℕ} {head : ℕ} {xs : List ℕ} (a : ℕ)
      → FreeList mem refs begin end head xs
      → has a xs ≡ true
      → IsPage begin end a × (refs (index a) ≡ 0)
  free-IsPage a nil h = cc
  free-IsPage a (cons {x} {xs} page zero out rest) h = elim (Bool-cases (a == x)) [
    | inl e ↦ let q : x ≡ a = ground arith in (rw q at page, rw q at zero)
    | inr e ↦ free-IsPage a rest (ground arith)
  ]

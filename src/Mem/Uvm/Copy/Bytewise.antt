-- ===== src/Mem/Uvm/Copy/Bytewise.antt =====
-- Copies that translate the address of every byte, and what the copies of kernel/src/mem/uvm.rs take
-- from one page.
use glenda.Prelude.{
  ℕ, zero, suc, ◌+◌, ◌*◌, ◌/◌, ◌≤◌, ◌<◌, ◌≡◌, refl, ◌∙◌, Bool, true, false, Option, none, some,
  List, [], ◌∷◌, ◌++◌, leb, ◌==◌, if◌then◌else◌, arith, Bool-cases, inl, inr, ◌⊎◌,
}
use glenda.Mem.Addr.{pgsize, va_max, align_down, page_offset}
use glenda.Mem.Pagetable.{lookup}
use glenda.Mem.Bytes.{get_byte, read_bytes}
use glenda.Mem.Uvm.Copy.{CopyError, not_mapped, too_long, Page, at, failed, user_page, str_page}

-- A copy of `n` bytes, each through the page table.
unfoldable pub bytes_at : ℕ → ℕ → ℕ → (ℕ → ℕ) → Option CopyError × List ℕ
bytes_at zero root va mem = (none, [])
bytes_at (suc n) root va mem =
    let rest = bytes_at n root (va + 1) mem in
    elim (user_page 2 root va mem) [
      | failed e ↦ (some e, [])
      | at pa ↦ (rest.0, get_byte mem (pa + page_offset va) ∷ rest.1)
    ]

-- The same up to a zero.
unfoldable pub str_at : ℕ → ℕ → ℕ → (ℕ → ℕ) → Option CopyError × List ℕ
str_at zero root va mem = (some too_long, [])
str_at (suc n) root va mem =
    let rest = str_at n root (va + 1) mem in
    elim (user_page 2 root va mem) [
      | failed e ↦ (some e, [])
      | at pa ↦
          let byte = get_byte mem (pa + page_offset va) in
          if byte == 0 then (none, byte ∷ []) else (rest.0, byte ∷ rest.1)
    ]

-- The bytes of a page, and those of the rest where no zero was among them.
unfoldable pub str_ends : Bool × List ℕ → Option CopyError × List ℕ → Option CopyError × List ℕ
str_ends (true, bytes) rest = (none, bytes)
str_ends (false, bytes) rest = (rest.0, bytes ++ rest.1)

pub Page-cases : (p : Page) → ((e : CopyError) × (p ≡ failed e)) ⊎ ((pa : ℕ) × (p ≡ at pa))
Page-cases (failed e) = inl (e, refl)
Page-cases (at pa) = inr (pa, refl)

-- The addresses of a page have one physical page.
user_page-same :
    (flag root va off : ℕ) (mem : ℕ → ℕ)
    → page_offset va + off < pgsize
    → user_page flag root (va + off) mem ≡ user_page flag root va mem
unfolding user_page align_down page_offset
user_page-same flag root va off mem h =
    let e : (va + off) / pgsize * pgsize ≡ va / pgsize * pgsize = omega arith in
    rw (user_page, e) refl

pub user_page-bound :
    (flag root va pa : ℕ) (mem : ℕ → ℕ) → user_page flag root va mem ≡ at pa → va < va_max
unfolding user_page align_down lookup
user_page-bound flag root va pa mem e = elim (Bool-cases (leb va_max (va / pgsize * pgsize))) [
  | inl y ↦
      let out : user_page flag root va mem ≡ failed not_mapped = rw (user_page, lookup, y) refl in
      ground (arith, out, e)
  | inr n ↦ ground (arith, n)
]

offset-add :
    (va off : ℕ) → page_offset va + off < pgsize → page_offset (va + off) ≡ page_offset va + off
unfolding page_offset
offset-add va off h = omega arith

module _ (root va pa : ℕ) (mem : ℕ → ℕ) (mapped : user_page 2 root va mem ≡ at pa) where
  pub run-bytes_at :
      (k m off : ℕ)
      → page_offset va + off + k ≤ pgsize
      → bytes_at (k + m) root (va + off) mem ≡ (
        (bytes_at m root (va + off + k) mem).0,
        read_bytes mem (pa + (page_offset va + off)) k ++ (bytes_at m root (va + off + k) mem).1,
      )
  unfolding bytes_at read_bytes
  run-bytes_at zero m off h =
      let e : zero + m ≡ m = omega arith in
      let e' : va + off + zero ≡ va + off = omega arith in rw (e, e') refl
  run-bytes_at (suc k) m off h =
      let e : suc k + m ≡ suc (k + m) = omega arith in
      let here : user_page 2 root (va + off) mem ≡ at pa =
        user_page-same 2 root va off mem (omega arith) ∙ mapped in
      let ih = run-bytes_at k m (off + 1) (omega arith) in
      let e1 : va + (off + 1) ≡ va + off + 1 = omega arith in
      let e2 : va + off + 1 + k ≡ va + off + suc k = omega arith in
      let e3 : pa + (page_offset va + (off + 1)) ≡ pa + (page_offset va + off) + 1 = omega arith in
      rw (e, bytes_at, here, offset-add va off (omega arith)) (rw (rw (e1, e2, e3) at ih) refl)

  pub run-str_at :
      (k m off a q next : ℕ)
      → a ≡ va + off
      → q ≡ pa + (page_offset va + off)
      → next ≡ a + k
      → page_offset va + off + k ≤ pgsize
      → str_at (k + m) root a mem ≡ str_ends (str_page mem q k) (str_at m root next mem)
  unfolding str_at str_page str_ends
  run-str_at zero m off a q next ea eq en h =
      let e : zero + m ≡ m = omega arith in let e' : next ≡ a = omega arith in rw (e, e') refl
  run-str_at (suc k) m off a q next ea eq en h =
      let e : suc k + m ≡ suc (k + m) = omega arith in
      let here : user_page 2 root a mem ≡ at pa =
        rw ea (user_page-same 2 root va off mem (omega arith) ∙ mapped) in
      let there : pa + page_offset a ≡ q = rw (ea, offset-add va off (omega arith)) (omega arith) in
      let ih =
        run-str_at k m (off + 1) (a + 1) (q + 1) next (omega arith) (omega arith) (omega arith)
          (omega arith) in
      elim (Bool-cases (get_byte mem q == 0)) [
        | inl y ↦
            let page : str_page mem q (suc k) ≡ (true, get_byte mem q ∷ []) =
              rw (str_page, y) refl in
            rw (e, str_ends, page, str_at, here, there, y) refl
        | inr n ↦
            let rest = str_page mem (q + 1) k in
            let page : str_page mem q (suc k) ≡ (rest.0, get_byte mem q ∷ rest.1) =
              rw (str_page, n) refl in
            elim (Bool-cases rest.0) [
              | inl ends ↦
                  rw (e, str_ends, page, str_at, here, there, n, ends)
                    (rw (rw (str_ends, ends) at ih) refl)
              | inr goes ↦
                  rw (e, str_ends, page, str_at, here, there, n, goes)
                    (rw (rw (str_ends, goes) at ih) refl)
            ]
      ]

-- ===== src/Mem/Uvm/Copy.antt =====
-- `copyin`, `copyout` and `copyin_str` of kernel/src/mem/uvm.rs: bytes between the kernel and the pages
-- that a user process may read or write. The kernel's buffer is a list of bytes; one that a call leaves
-- partly filled is the list of what was copied.
pub mod Bytewise
pub mod Correct
mod Tests
use glenda.Prelude.{
  ℕ, zero, suc, ◌+◌, ◌-◌, ◌/◌, ◌%◌, min, Bool, true, false, not, ◌||◌, Option, none, some, List, [],
  ◌∷◌, ◌++◌, length, take, drop, Outcome, ok, stuck, ◌>>=◌, add_usize, ltb, ◌==◌, if◌then◌else◌,
}
use glenda.Mem.Addr.{pgsize, align_down, page_offset}
use glenda.Mem.Pte.{is_valid, is_leaf, get_flags, pte_to_pa}
use glenda.Mem.Pagetable.{lookup}
use glenda.Mem.Bytes.{get_byte, read_bytes, write_bytes}

pub data CopyError : Type 0 where
  not_mapped no_perm fault too_long : CopyError

-- The physical page of an address, or why there is none.
pub data Page : Type 0 where
  at : ℕ → Page
  failed : CopyError → Page

-- The bit `PTE_R`, `PTE_W` or `PTE_U`, by its weight.
abbrev pub has_flag : ℕ → ℕ → Bool
has_flag flag flags = not (flags / flag % 2 == 0)

-- The checks of an entry; `flags & 0xE` are the bits R, W and X.
unfoldable pub check_entry : ℕ → ℕ → Page
check_entry flag pte =
    let flags = get_flags pte in
    if not (is_valid pte) || not (is_leaf pte)
    then failed not_mapped
    else if flags / 2 % 8 == 0
    then failed not_mapped
    else if not (has_flag 16 flags) || not (has_flag flag flags)
    then failed no_perm
    else at (pte_to_pa pte)

unfoldable pub user_page : ℕ → ℕ → ℕ → (ℕ → ℕ) → Page
unfolding check_entry
user_page flag root va mem = elim (lookup root (align_down va) mem) [
  | none ↦ failed not_mapped
  | some slot ↦ check_entry flag (mem slot)
]

-- The loop of `copyin` for the `left` bytes that are left. A round copies at least one.
copyin_from : ℕ → ℕ → ℕ → ℕ → (ℕ → ℕ) → Outcome (Option CopyError × List ℕ)
copyin_from zero root va left mem = if left == 0 then ok (none, []) else stuck
copyin_from (suc fuel) root va left mem =
    let off = page_offset va in
    let n = min (pgsize - off) left in
    if left == 0 then ok (none, []) else elim (user_page 2 root va mem) [
      | failed e ↦ ok (some e, [])
      | at pa ↦ add_usize va n >>= λ next. copyin_from fuel root next (left - n) mem >>= λ r.
          ok (r.0, read_bytes mem (pa + off) n ++ r.1)
    ]

unfoldable pub copyin : ℕ → ℕ → ℕ → (ℕ → ℕ) → Outcome (Option CopyError × List ℕ)
unfolding copyin_from
copyin root src_va len mem = copyin_from len root src_va len mem

-- The loop of `copyout`. The page table is read in the memory that the bytes are written to.
copyout_from : ℕ → ℕ → ℕ → List ℕ → (ℕ → ℕ) → Outcome (Option CopyError × (ℕ → ℕ))
copyout_from zero root va src mem = if length src == 0 then ok (none, mem) else stuck
copyout_from (suc fuel) root va src mem =
    let off = page_offset va in
    let n = min (pgsize - off) (length src) in
    if length src == 0 then ok (none, mem) else elim (user_page 4 root va mem) [
      | failed e ↦ ok (some e, mem)
      | at pa ↦ add_usize va n >>= λ next.
          copyout_from fuel root next (drop n src) (write_bytes mem (pa + off) (take n src))
    ]

unfoldable pub copyout : ℕ → ℕ → List ℕ → (ℕ → ℕ) → Outcome (Option CopyError × (ℕ → ℕ))
unfolding copyout_from
copyout root dst_va src mem = copyout_from (length src) root dst_va src mem

-- The inner loop of `copyin_str`, at most `n` bytes from `a` on, up to a zero: whether it was there.
pub str_page : (ℕ → ℕ) → ℕ → ℕ → Bool × List ℕ
str_page mem a zero = (false, [])
str_page mem a (suc n) =
    let byte = get_byte mem a in
    let rest = str_page mem (a + 1) n in
    if byte == 0 then (true, byte ∷ []) else (rest.0, byte ∷ rest.1)

-- Its outer loop: none where a zero was copied, or the error.
copyin_str_from : ℕ → ℕ → ℕ → ℕ → (ℕ → ℕ) → Outcome (Option CopyError × List ℕ)
unfolding str_page
copyin_str_from zero root va left mem = if left == 0 then ok (some too_long, []) else stuck
copyin_str_from (suc fuel) root va left mem =
    let off = page_offset va in
    let n = min (pgsize - off) left in
    if left == 0 then ok (some too_long, []) else elim (user_page 2 root va mem) [
      | failed e ↦ ok (some e, [])
      | at pa ↦
          let page = str_page mem (pa + off) n in
          elim page.0 [
            | true ↦ ok (none, page.1)
            | false ↦ add_usize (align_down va) pgsize >>= λ next.
                copyin_str_from fuel root next (left - n) mem >>= λ r. ok (r.0, page.1 ++ r.1)
          ]
    ]

-- The number of bytes that it returns is the length of the list.
unfoldable pub copyin_str : ℕ → ℕ → ℕ → (ℕ → ℕ) → Outcome (Option CopyError × List ℕ)
unfolding copyin_str_from
copyin_str root src_va len mem = copyin_str_from len root src_va len mem

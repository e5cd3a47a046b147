-- ===== src/Mem/Uvm/Copy/Correct.antt =====
-- `copyin` and `copyin_str` of kernel/src/mem/uvm.rs against copies that translate the address of every
-- single byte.
use glenda.Prelude.{
  ℕ, zero, suc, ◌+◌, ◌-◌, ◌*◌, ◌/◌, ◌%◌, ◌≤◌, ◌<◌, ◌≡◌, refl, sym, ap, min, false, ok, add_usize,
  leb, ◌==◌, arith, Bool-cases, inl, inr,
}
use glenda.Mem.Addr.{pgsize, va_max, align_down, page_offset}
use glenda.Mem.Uvm.Copy.{user_page, copyin_from, copyin, str_page, copyin_str_from, copyin_str}
use glenda.Mem.Uvm.Copy.Bytewise.{
  bytes_at, str_at, str_ends, Page-cases, user_page-bound, run-bytes_at, run-str_at,
}

-- A round of `copyin` takes at least a byte, and stays in the page.
module _ (va m : ℕ) where
  abbrev round : ℕ
  round = min (pgsize - page_offset va) (suc m)

  round-pos : 0 < round
  unfolding page_offset
  round-pos = omega arith

  round-page : page_offset va + 0 + round ≤ pgsize
  unfolding page_offset
  round-page = omega arith

fits_usize : (va n : ℕ) → va < va_max → n ≤ pgsize → add_usize va n ≡ ok (va + n)
fits_usize va n h k = ground arith

-- With rounds enough for the bytes.
copyin_from-bytes_at :
    (fuel root va left : ℕ) (mem : ℕ → ℕ)
    → left ≤ fuel
    → copyin_from fuel root va left mem ≡ ok (bytes_at left root va mem)
unfolding copyin_from bytes_at
copyin_from-bytes_at zero root va left mem h = let e : left ≡ 0 = omega arith in rw e refl
copyin_from-bytes_at (suc fuel) root va zero mem h = refl
copyin_from-bytes_at (suc fuel) root va (suc m) mem h =
    let some_left : (suc m == 0) ≡ false = ground arith in
    let n = round va m in
    elim (Page-cases (user_page 2 root va mem)) [
      | inl (e, p) ↦ rw (some_left, bytes_at, p) refl
      | inr (pa, p) ↦
          let rest =
            copyin_from-bytes_at fuel root (va + n) (suc m - n) mem
              (omega (arith, round-pos va m)) in
          let all : n + (suc m - n) ≡ suc m = omega arith in
          let run = run-bytes_at root va pa mem p n (suc m - n) 0 (round-page va m) in
          let e1 : va + 0 ≡ va = omega arith in
          let e2 : page_offset va + 0 ≡ page_offset va = omega arith in
          let run' = rw (all, e1, e2) at run in
          rw
            (some_left, p, fits_usize va n (user_page-bound 2 root va pa mem p) (omega arith), rest)
            (sym (ap ok run'))
    ]

-- The next page is where the round ends, but where nothing is left.
next_page-str_at :
    (root va m : ℕ) (mem : ℕ → ℕ)
    → str_at (suc m - round va m) root (va / pgsize * pgsize + pgsize) mem
      ≡ str_at (suc m - round va m) root (va + round va m) mem
unfolding str_at page_offset
next_page-str_at root va m mem = elim (Bool-cases (leb (suc m) (pgsize - va % pgsize))) [
  | inl y ↦ let e : suc m - min (pgsize - va % pgsize) (suc m) ≡ 0 = ground arith in rw e refl
  | inr n ↦
      let e : va / pgsize * pgsize + pgsize ≡ va + min (pgsize - va % pgsize) (suc m) =
        ground arith in
      rw e refl
]

copyin_str_from-str_at :
    (fuel root va left : ℕ) (mem : ℕ → ℕ)
    → left ≤ fuel
    → copyin_str_from fuel root va left mem ≡ ok (str_at left root va mem)
unfolding copyin_str_from str_at align_down str_ends
copyin_str_from-str_at zero root va left mem h = let e : left ≡ 0 = omega arith in rw e refl
copyin_str_from-str_at (suc fuel) root va zero mem h = refl
copyin_str_from-str_at (suc fuel) root va (suc m) mem h =
    let some_left : (suc m == 0) ≡ false = ground arith in
    let n = round va m in
    elim (Page-cases (user_page 2 root va mem)) [
      | inl (e, p) ↦ rw (some_left, str_at, p) refl
      | inr (pa, p) ↦
          let low = user_page-bound 2 root va pa mem p in
          let q = pa + page_offset va in
          let all : n + (suc m - n) ≡ suc m = omega arith in
          let run =
            run-str_at root va pa mem p n (suc m - n) 0 va q (va + n) (omega arith) (omega arith)
              refl (round-page va m) in
          let run' = rw all at run in
          let rest =
            copyin_str_from-str_at fuel root (va / pgsize * pgsize + pgsize) (suc m - n) mem
              (omega (arith, round-pos va m)) in
          elim (Bool-cases (str_page mem q n).0) [
            | inl ends ↦ rw (some_left, p, ends) (sym (ap ok (rw (str_ends, ends) at run')))
            | inr goes ↦
                rw
                  (
                    some_left,
                    p,
                    goes,
                    fits_usize (va / pgsize * pgsize) pgsize (omega arith) (omega arith),
                    rest,
                    next_page-str_at root va m mem,
                  )
                  (sym (ap ok (rw (str_ends, goes) at run')))
          ]
    ]

-- `copyin` never runs forever: for every page table, address and length it returns what a copy gives
-- that translates the address of each byte through the page table: all the bytes; or the first error
-- on the way, with the bytes before it.
pub copyin-bytes_at :
    (root va len : ℕ) (mem : ℕ → ℕ) → copyin root va len mem ≡ ok (bytes_at len root va mem)
unfolding copyin
copyin-bytes_at root va len mem = copyin_from-bytes_at len root va len mem (omega arith)

-- `copyin_str` never runs forever: for every page table, address and length of the buffer it returns
-- what a copy gives that translates the address of each byte: the bytes up to the first zero; or the
-- first error on the way, with the bytes before it, where the end of the buffer is the error
-- `TooLong`.
pub copyin_str-str_at :
    (root va len : ℕ) (mem : ℕ → ℕ) → copyin_str root va len mem ≡ ok (str_at len root va mem)
unfolding copyin_str
copyin_str-str_at root va len mem = copyin_str_from-str_at len root va len mem (omega arith)

-- ===== src/Fs/Bitmap/Tests.antt =====
-- The theorems on the bitmap at concrete inputs.
use glenda.Prelude.{
  ℕ, zero, suc, ◌<◌, true, ◌==◌, Bool-cases, inl, inr, ◌≡◌, refl, some, [], arith, update,
}
use glenda.Fs.Buffer.Lru.{Block, new_cache, init}
use glenda.Fs.Buffer.Lru.Init.{all_ids}
use glenda.Fs.Buffer.{Store, init_cache}
use glenda.Fs.Buffer.Refine.{view}
use glenda.Fs.Buffer.Coherent.{init-Coherent}
use glenda.Fs.Bitmap.Bits.{bit, IsLowestClear}
use glenda.Fs.Bitmap.{SuperBlock, find_free, find_bit, block_size}
use glenda.Fs.Bitmap.Cleared.{Cleared, free-Cleared}
use glenda.Fs.Bitmap.Taken.{Taken, alloc-Taken}

-- The bitmap is in block 3; the blocks 4 to 15 are taken.
abbrev bits : Block
bits = update (update (λ _. 0) 0 0xFF) 1 0x0F

abbrev disk : ℕ → Block
disk = update (λ n i. n) 3 bits

abbrev sb : SuperBlock
sb = record { ninodes = 64; inode_start = 2; bmap_start = 3; nblocks = 100 }

abbrev store : Store
store = init_cache (record { cache = new_cache; disk = disk })

-- The bits up to a place are set.
SetTo : ℕ → Type 0
SetTo zero = Unit
SetTo (suc m) = SetTo m × (bit bits m ≡ true)

set_below : (m n : ℕ) → n < m → SetTo m → bit bits n ≡ true
unfolding SetTo
set_below zero n l h = absurd (omega arith)
set_below (suc m) n l h = elim (Bool-cases (n == m)) [
  | inl q ↦ let same : n ≡ m = ground arith in rw same h.1
  | inr q ↦ set_below m n (ground arith) h.0
]

bits-free : find_free block_size 0 bits ≡ some (1, 4)
unfolding find_free find_bit
bits-free = refl

bits-lowest : IsLowestClear bits 12
unfolding SetTo
bits-lowest =
    let all : SetTo 12 = (
      (((((((((((tt, refl), refl), refl), refl), refl), refl), refl), refl), refl), refl), refl),
      refl,
    ) in
    record { inside = omega arith; clear = refl; below = λ n l. set_below 12 n l all }

alloc-Taken_example : Taken sb store 12
unfolding init_cache
alloc-Taken_example =
    alloc-Taken sb store (view (init new_cache) [] all_ids) 12 (init-Coherent disk) (λ e. cc e)
      bits-lowest (omega arith) (omega arith)

free-Cleared_example : Cleared sb store 10
unfolding init_cache
free-Cleared_example =
    free-Cleared sb store (view (init new_cache) [] all_ids) 10 (init-Coherent disk) (λ e. cc e)
      (omega arith) (omega arith) (omega arith) refl

-- ===== src/Fs/Bitmap/Lowest.antt =====
-- The search of kernel/src/fs/bitmap.rs finds the lowest clear bit.
use glenda.Prelude.{
  ℕ, ◌+◌, ◌*◌, ◌/◌, ◌%◌, ◌<◌, ◌≡◌, true, false, Option, none, some, ltb, arith, Bool-cases, inl,
  inr,
}
use glenda.Fs.Buffer.Lru.{Block}
use glenda.Fs.Bitmap.{block_size, is_clear, find_free}
use glenda.Fs.Bitmap.Bits.{has_bit-clear, IsLowestClear}
use glenda.Fs.Bitmap.Search.{FirstFree, find_free-FirstFree}

module _ (bytes : Block) (k : ℕ) (low : IsLowestClear bytes k) where
  clear_here : is_clear (bytes (k / 8)) (k % 8) ≡ true
  clear_here = ground (arith, low.clear, has_bit-clear (bytes (k / 8)) (k % 8))

  -- A clear bit is not below.
  not_below : (b j : ℕ) → j < 8 → is_clear (bytes b) j ≡ true → ltb (b * 8 + j) k ≡ false
  not_below b j h e = elim (Bool-cases (ltb (b * 8 + j) k)) [
    | inr n ↦ n
    | inl y ↦
        let set = low.below (b * 8 + j) (ground (arith, y)) in
        let eb : (b * 8 + j) / 8 ≡ b = omega arith in
        let ej : (b * 8 + j) % 8 ≡ j = omega arith in
        let set' = rw (eb, ej) at set in absurd (ground (arith, set', e, has_bit-clear (bytes b) j))
  ]

  FirstFree-lowest : (o : Option (ℕ × ℕ)) → FirstFree block_size 0 bytes o → o ≡ some (k / 8, k % 8)
  FirstFree-lowest none h =
      let inside = low.inside in
      absurd
        (cc (clear_here, h (k / 8) (omega arith) (omega (arith, inside)) (k % 8) (omega arith)))
  FirstFree-lowest (some (b, j)) h =
      let up = not_below b j h.2 h.3 in
      elim (Bool-cases (ltb (k / 8) b)) [
        | inl y ↦
            absurd
              (cc (clear_here, h.4 (k / 8) (omega arith) (ground (arith, y)) (k % 8) (omega arith)))
        | inr n ↦
            let small = h.2 in
            let same : b ≡ k / 8 = ground (arith, up, n, small) in
            elim (Bool-cases (ltb (k % 8) j)) [
              | inl y ↦ absurd (cc (clear_here, h.5 (k % 8) (ground (arith, y)), same))
              | inr m ↦ let last : j ≡ k % 8 = ground (arith, up, n, m, small) in cc (same, last)
            ]
      ]

  pub find_free-lowest : find_free block_size 0 bytes ≡ some (k / 8, k % 8)
  find_free-lowest =
      FirstFree-lowest (find_free block_size 0 bytes) (find_free-FirstFree block_size 0 bytes)

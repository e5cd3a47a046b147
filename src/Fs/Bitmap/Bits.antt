-- ===== src/Fs/Bitmap/Bits.antt =====
-- The bits of a block: bit `n` is the bit `n % 8` of the byte `n / 8`, as in kernel/src/fs/bitmap.rs.
use native.Mathlib.Nat.{pow-suc, div-div-eq-div-mul}
use glenda.Prelude.{
  ℕ, zero, suc, ◌+◌, ◌-◌, ◌*◌, ◌/◌, ◌%◌, ◌^◌, ◌≤◌, ◌<◌, ◌≡◌, refl, ap, sym, ◌∙◌, Bool, true, false,
  not, ◌||◌, ◌&&◌, ◌==◌, arith, Bool-cases, inl, inr,
}
use glenda.Fs.Buffer.Lru.{Block}
use glenda.Fs.Bitmap.{block_size, is_clear, mark, unmark}

-- The bit `k` of a number.
abbrev pub has_bit : ℕ → ℕ → Bool
has_bit b zero = b % 2 == 1
has_bit b (suc k) = has_bit (b / 2) k

-- The bit `n` of a block.
abbrev pub bit : Block → ℕ → Bool
bit bytes n = has_bit (bytes (n / 8)) (n % 8)

twice-pow : (k : ℕ) → 2 ^ suc k ≡ 2 * 2 ^ k
twice-pow k = omega (arith, pow-suc 2 k)

div-pow : (b k : ℕ) → b / 2 ^ suc k ≡ b / 2 / 2 ^ k
div-pow b k = ap (λ (t : ℕ). b / t) (twice-pow k) ∙ sym (div-div-eq-div-mul b 2 (2 ^ k))

pub has_bit-clear : (b k : ℕ) → has_bit b k ≡ not (is_clear b k)
has_bit-clear b zero = ground arith
has_bit-clear b (suc k) = rw (div-pow b k) (has_bit-clear (b / 2) k)

half-add : (b t : ℕ) → (b + 2 * t) / 2 ≡ b / 2 + t
half-add b t = omega arith

half-sub : (b t : ℕ) → (b - 2 * t) / 2 ≡ b / 2 - t
half-sub b t = omega arith

suc-==-zero : (k : ℕ) → (suc k == 0) ≡ false
suc-==-zero k = ground arith

zero-==-suc : (k : ℕ) → (0 == suc k) ≡ false
zero-==-suc k = ground arith

suc-==-suc : (k j : ℕ) → (suc k == suc j) ≡ (k == j)
suc-==-suc k j = ground arith

-- Adding the power of a clear bit sets it.
add-bit : (b j k : ℕ) → has_bit b j ≡ false → has_bit (b + 2 ^ j) k ≡ ((k == j) || has_bit b k)
add-bit b zero zero e = ground arith
add-bit b zero (suc k) e =
    let same : (b + 1) / 2 ≡ b / 2 = ground arith in rw (same, suc-==-zero k) refl
add-bit b (suc j) zero e = rw (twice-pow j) (ground arith)
add-bit b (suc j) (suc k) e =
    rw (twice-pow j, half-add b (2 ^ j), suc-==-suc k j) (add-bit (b / 2) j k e)

pow-le-bit : (b k : ℕ) → has_bit b k ≡ true → 2 ^ k ≤ b
pow-le-bit b zero e = ground arith
pow-le-bit b (suc k) e = omega (arith, twice-pow k, pow-le-bit (b / 2) k e)

even-sub : (b t : ℕ) → 2 * t ≤ b → (b - 2 * t) % 2 ≡ b % 2
even-sub b t h = omega arith

-- Taking the power of a set bit away clears it.
sub-bit : (b j k : ℕ) → has_bit b j ≡ true → has_bit (b - 2 ^ j) k ≡ (not (k == j) && has_bit b k)
sub-bit b zero zero e = ground arith
sub-bit b zero (suc k) e =
    let same : (b - 1) / 2 ≡ b / 2 = ground arith in rw (same, suc-==-zero k) refl
sub-bit b (suc j) zero e =
    let small = pow-le-bit (b / 2) j e in
    rw (twice-pow j, even-sub b (2 ^ j) (omega (arith, small)), zero-==-suc j) refl
sub-bit b (suc j) (suc k) e =
    rw (twice-pow j, half-sub b (2 ^ j), suc-==-suc k j) (sub-bit (b / 2) j k e)

module _ (bytes : Block) (k : ℕ) where
  apart : (n : ℕ) → (n / 8 == k / 8) ≡ true → (n % 8 == k % 8) ≡ (n == k)
  apart n e = ground arith

  other : (n : ℕ) → (n / 8 == k / 8) ≡ false → (n == k) ≡ false
  other n e = ground arith

  -- `mark` sets its bit and keeps the others.
  pub bit-mark :
      (n : ℕ) → bit bytes k ≡ false → bit (mark bytes (k / 8) (k % 8)) n ≡ ((n == k) || bit bytes n)
  bit-mark n e = elim (Bool-cases (n / 8 == k / 8)) [
    | inl y ↦
        let same : n / 8 ≡ k / 8 = ground arith in
        rw (mark, y) (add-bit (bytes (k / 8)) (k % 8) (n % 8) e ∙ rw (apart n y, same) refl)
    | inr o ↦ rw (mark, o, other n o) refl
  ]

  -- `unmark` clears its bit and keeps the others.
  pub bit-unmark :
      (n : ℕ) → bit bytes k ≡ true → bit (unmark bytes k) n ≡ (not (n == k) && bit bytes n)
  bit-unmark n e = elim (Bool-cases (n / 8 == k / 8)) [
    | inl y ↦
        let same : n / 8 ≡ k / 8 = ground arith in
        rw (unmark, y) (sub-bit (bytes (k / 8)) (k % 8) (n % 8) e ∙ rw (apart n y, same) refl)
    | inr o ↦ rw (unmark, o, other n o) refl
  ]

-- The lowest clear bit of the bytes of a block.
pub record IsLowestClear (bytes : Block) (k : ℕ) : Type 0 where
  pub inside : k < 8 * block_size
  pub clear : bit bytes k ≡ false
  pub below : (n : ℕ) → n < k → bit bytes n ≡ true

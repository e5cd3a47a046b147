-- ===== src/Mem/Bytes.antt =====
-- The memory of mem/pmem as bytes: its words are 8 bytes, the lowest first, as on RISC-V.
use glenda.Prelude.{ℕ, zero, suc, ◌+◌, ◌*◌, ◌/◌, ◌%◌, ◌^◌, List, [], ◌∷◌, update}

abbrev pub word_of : ℕ → ℕ
word_of a = a / 8 * 8

-- The weight of the byte at `a` in its word.
abbrev pub weight : ℕ → ℕ
weight a = 2 ^ (8 * (a % 8))

unfoldable pub get_byte : (ℕ → ℕ) → ℕ → ℕ
get_byte mem a = mem (word_of a) / weight a % 256

unfoldable pub set_byte : (ℕ → ℕ) → ℕ → ℕ → ℕ → ℕ
set_byte mem a b =
    let w = mem (word_of a) in
    update mem (word_of a) (w / (weight a * 256) * (weight a * 256) + b * weight a + w % weight a)

-- `copy_nonoverlapping` out of memory and into it.
unfoldable pub read_bytes : (ℕ → ℕ) → ℕ → ℕ → List ℕ
unfolding get_byte
read_bytes mem a zero = []
read_bytes mem a (suc n) = get_byte mem a ∷ read_bytes mem (a + 1) n

unfoldable pub write_bytes : (ℕ → ℕ) → ℕ → List ℕ → ℕ → ℕ
unfolding set_byte
write_bytes mem a [] = mem
write_bytes mem a (b ∷ rest) = write_bytes (set_byte mem a b) (a + 1) rest

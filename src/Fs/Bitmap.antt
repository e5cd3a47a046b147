-- ===== src/Fs/Bitmap.antt =====
-- kernel/src/fs/bitmap.rs: the bitmap of data blocks, in one block of the disk. A byte is a number,
-- and a test or a write of one bit is arithmetic by the power of two.
pub mod Bits
pub mod Search
pub mod Lowest
pub mod Taken
pub mod Cleared
mod Tests
use glenda.Prelude.{
  ℕ, zero, suc, ◌+◌, ◌-◌, ◌*◌, ◌/◌, ◌%◌, ◌^◌, Bool, true, false, ◌||◌, Option, none, some, leb, ltb,
  ◌==◌, if◌then◌else◌, update, Outcome, ok, panic, stuck, ◌>>=◌, add_u32,
}
use glenda.Fs.Buffer.Lru.{Block}
use glenda.Fs.Buffer.{Store, read, write, release, get_data, set_data}

abbrev pub block_size : ℕ
block_size = 4096

-- The fields of the superblock (kernel/src/fs/fs.rs) that the bitmaps and the inodes use.
pub record SuperBlock : Type 0 where
  pub ninodes : ℕ
  pub inode_start : ℕ
  pub bmap_start : ℕ
  pub nblocks : ℕ

-- `(byte & (1 << j)) == 0`.
abbrev pub is_clear : ℕ → ℕ → Bool
is_clear byte j = byte / 2 ^ j % 2 == 0

-- The loop over the bits of a byte, from `j` on.
find_bit : ℕ → ℕ → ℕ → Option ℕ
find_bit zero j byte = none
find_bit (suc n) j byte =
    let rest = find_bit n (j + 1) byte in if is_clear byte j then some j else rest

-- The loop over the bytes, from `i` on.
pub find_free : ℕ → ℕ → Block → Option (ℕ × ℕ)
unfolding find_bit
find_free zero i bytes = none
find_free (suc n) i bytes =
    let rest = find_free n (i + 1) bytes in
    if bytes i == 0xFF
    then rest
    else (elim (find_bit 8 0 (bytes i)) [ none ↦ rest | some j ↦ some (i, j) ])

-- `*data.add(i) |= 1 << j` where the bit is clear.
abbrev pub mark : Block → ℕ → ℕ → Block
mark bytes i j = update bytes i (bytes i + 2 ^ j)

-- Writes through the data pointer, `buffer::write` and `buffer::release`.
abbrev pub write_back : Store → ℕ → Block → Outcome Store
write_back s b block = do
  u ← (do u ← set_data s b block; write u b)
  c ← release u.cache b
  ok (record u { cache = c })

abbrev pub zeros : Block
zeros a = 0

-- "Zero the allocated block".
abbrev pub zero_block : Store → ℕ → Outcome Store
zero_block s abs_block = do (t, zero_buf) ← read s 0 abs_block; write_back t zero_buf zeros

-- `alloc` from a bit that is free on; `b` is the bitmap's buffer.
take_bit : SuperBlock → Store → ℕ → Block → ℕ × ℕ → Outcome (ℕ × Store)
take_bit sb s b bytes (i, j) =
    let bit_idx = i * 8 + j in
    if leb sb.nblocks bit_idx then (release s.cache b >>= λ c. panic) else (do
      t ← write_back s b (mark bytes i j)
      data_start ← add_u32 sb.bmap_start 1
      abs_block ← add_u32 data_start bit_idx
      u ← zero_block t abs_block
      ok (abs_block, u))

-- `alloc` from the result of the search on.
finish : SuperBlock → Store → ℕ → Block → Option (ℕ × ℕ) → Outcome (ℕ × Store)
unfolding take_bit
finish sb s b bytes none = release s.cache b >>= λ c. panic
finish sb s b bytes (some place) = take_bit sb s b bytes place

unfoldable pub alloc : SuperBlock → Store → Outcome (ℕ × Store)
unfolding finish
alloc sb s = do
  (t, b) ← read s 0 sb.bmap_start
  bytes ← get_data t b
  finish sb t b bytes (find_free block_size 0 bytes)

-- `*data.add(byte_idx) &= !(1 << bit)` where the bit is set.
abbrev pub unmark : Block → ℕ → Block
unmark bytes bit_idx = update bytes (bit_idx / 8) (bytes (bit_idx / 8) - 2 ^ (bit_idx % 8))

-- `free` from the bit's place on. The source does not check that the byte is in the buffer.
clear_bit : SuperBlock → Store → ℕ → Outcome Store
clear_bit sb s bit_idx = do
  (t, b) ← read s 0 sb.bmap_start
  bytes ← get_data t b
  let val = bytes (bit_idx / 8)
  if leb block_size (bit_idx / 8)
      then stuck
      else if is_clear val (bit_idx % 8)
      then panic
      else write_back t b (unmark bytes bit_idx)

unfoldable pub free : SuperBlock → ℕ → Store → Outcome Store
unfolding clear_bit
free sb block_no s = do
  data_start ← add_u32 sb.bmap_start 1
  data_end ← add_u32 data_start sb.nblocks
  let outside = ltb block_no data_start || leb data_end block_no
  if outside then panic else clear_bit sb s (block_no - data_start)

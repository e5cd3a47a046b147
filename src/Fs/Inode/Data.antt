-- ===== src/Fs/Inode/Data.antt =====
-- `inode_read_data` and `inode_write_data` of kernel/src/fs/inode.rs. The buffer that is read into or
-- written from is a list of bytes.
pub mod Rounds
pub mod Reads
use glenda.Prelude.{
  ℕ, zero, suc, ◌+◌, ◌-◌, ◌/◌, ◌%◌, Bool, true, false, not, ◌&&◌, Option, none, some, List, [], ◌∷◌,
  ◌++◌, take, drop, leb, ltb, ◌==◌, if◌then◌else◌, Outcome, ok, panic, stuck, ◌>>=◌, add_u32,
  expect,
}
use glenda.Fs.Buffer.Lru.{Block}
use glenda.Fs.Buffer.{Store, read, release, get_data}
use glenda.Fs.Bitmap.{SuperBlock, block_size, write_back}
use glenda.Fs.Inode.{Inode, locate_or_add_block, inode_rw}

-- `n` bytes of a block from `a` on, and `n` zeros.
pub block_bytes : Block → ℕ → ℕ → List ℕ
block_bytes b a zero = []
block_bytes b a (suc n) = b a ∷ block_bytes b (a + 1) n

pub zero_bytes : ℕ → List ℕ
zero_bytes zero = []
zero_bytes (suc n) = 0 ∷ zero_bytes n

-- A block with bytes written from `a` on.
put_bytes : Block → ℕ → List ℕ → Block
put_bytes b a [] i = b i
put_bytes b a (x ∷ rest) i = if i == a then x else put_bytes b (a + 1) rest i

-- The bytes of a round: up to the end of the block, or to `end`. The sum is checked.
round_len : ℕ → ℕ → Outcome ℕ
round_len off end =
    let copy_len = block_size - off % block_size in
    add_u32 off copy_len >>= λ next. ok (if ltb end next then end - off else copy_len)

-- The bytes of a round of `inode_read_data`, zeros where the file has no block.
pub read_round : ℕ → ℕ → Option ℕ → Store → Outcome (List ℕ × Store)
unfolding block_bytes zero_bytes
read_round off copy_len none s = ok (zero_bytes copy_len, s)
read_round off copy_len (some block_no) s = do
  (t, b) ← read s 0 block_no
  block ← get_data t b
  c ← release t.cache b
  ok (block_bytes block (off % block_size) copy_len, record t { cache = c })

-- The loop, with a round for each byte at most.
read_from : ℕ → SuperBlock → Inode → ℕ → ℕ → Store → Outcome (List ℕ × Inode × Store)
unfolding round_len read_round locate_or_add_block
read_from zero sb inode off end s = if ltb off end then stuck else ok ([], inode, s)
read_from (suc fuel) sb inode off end s =
    if not (ltb off end)
    then ok ([], inode, s)
    else (round_len off end >>= λ copy_len.
        locate_or_add_block sb inode (off / block_size) false s >>= λ (found, inode', t).
        read_round off copy_len found t >>= λ (bytes, u). add_u32 off copy_len >>= λ next.
        read_from fuel sb inode' next end u >>= λ (rest, inode'', w).
        ok (bytes ++ rest, inode'', w))

-- The number of bytes that it returns is the length of the list.
unfoldable pub inode_read_data :
    SuperBlock → Inode → ℕ → ℕ → Store → Outcome (List ℕ × Inode × Store)
unfolding read_from
inode_read_data sb inode off len s =
    if leb inode.disk.size off
    then ok ([], inode, s)
    else (add_u32 off len >>= λ sum.
        let n = if ltb inode.disk.size sum then inode.disk.size - off else len in
        add_u32 off n >>= λ end. read_from n sb inode off end s)

-- The loop of `inode_write_data`.
write_from : ℕ → SuperBlock → Inode → ℕ → ℕ → List ℕ → Store → Outcome (Inode × Store)
unfolding round_len put_bytes locate_or_add_block
write_from zero sb inode off end src s = if ltb off end then stuck else ok (inode, s)
write_from (suc fuel) sb inode off end src s =
    if not (ltb off end)
    then ok (inode, s)
    else (round_len off end >>= λ copy_len.
        locate_or_add_block sb inode (off / block_size) true s >>= λ (found, inode', t).
        expect found >>= λ block_no. read t 0 block_no >>= λ (u, b). get_data u b >>= λ block.
        write_back u b (put_bytes block (off % block_size) (take copy_len src)) >>= λ w.
        add_u32 off copy_len >>= λ next. write_from fuel sb inode' next end (drop copy_len src) w)

unfoldable pub inode_write_data :
    SuperBlock → Inode → ℕ → ℕ → List ℕ → Store → Outcome (ℕ × Inode × Store)
unfolding write_from inode_rw
inode_write_data sb inode off len src s = add_u32 off len >>= λ end.
    write_from len sb inode off end src s >>= λ (after, t).
    if ltb after.disk.size end
    then (inode_rw sb (record after { disk = record after.disk { size = end } }) true t
        >>= λ (grown, u). ok (len, grown, u))
    else ok (len, after, t)

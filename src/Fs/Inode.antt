-- ===== src/Fs/Inode.antt =====
-- kernel/src/fs/inode.rs: inodes on the disk, and the blocks of a file. An array is a function of the
-- index. The lock of an inode is not a state of the model: one thread runs.
pub mod Layout
pub mod Stored
pub mod Blocks
pub mod Data
pub mod Cache
mod Tests
use glenda.Prelude.{
  ℕ, ◌+◌, ◌-◌, ◌*◌, ◌/◌, ◌%◌, ◌^◌, Bool, true, false, not, ◌&&◌, Option, none, some, leb, ltb, ◌==◌,
  if◌then◌else◌, update, Outcome, ok, panic, ◌>>=◌, add_u32,
}
use glenda.Fs.Buffer.Lru.{Block}
use glenda.Fs.Buffer.{Store, read, release, get_data}
use glenda.Fs.Bitmap.{SuperBlock, block_size, write_back, alloc}

-- `INODE_INDEX_1` and `INODE_INDEX_2`: the first indices that are not direct.
abbrev pub inode_index_1 : ℕ
inode_index_1 = 10

abbrev pub inode_index_2 : ℕ
inode_index_2 = 12

abbrev pub inode_index_3 : ℕ
inode_index_3 = 13

abbrev pub nindirect : ℕ
nindirect = block_size / 4

pub record InodeDisk : Type 0 where
  pub type_ : ℕ
  pub major : ℕ
  pub minor : ℕ
  pub nlink : ℕ
  pub size : ℕ
  pub index : ℕ → ℕ

pub record Inode : Type 0 where
  pub disk : InodeDisk
  pub valid : Bool
  pub inode_num : ℕ
  pub refcnt : ℕ

-- `size_of::<InodeDisk>()`: four `u16`, a `u32` and 13 more.
abbrev pub inode_size : ℕ
inode_size = 64

-- A word of 4 bytes at an offset, the lowest first, and one of 2 bytes.
abbrev pub get_u32 : Block → ℕ → ℕ
get_u32 b a = b a + b (a + 1) * 256 + b (a + 2) * 65536 + b (a + 3) * 16777216

abbrev pub get_u16 : Block → ℕ → ℕ
get_u16 b a = b a + b (a + 1) * 256

-- The byte `k` of a word.
abbrev pub byte_of : ℕ → ℕ → ℕ
byte_of word k = word / 256 ^ k % 256

abbrev pub put_u32 : Block → ℕ → ℕ → Block
put_u32 b a word i = if leb a i && ltb i (a + 4) then byte_of word (i - a) else b i

-- The bytes of an `InodeDisk`, as `repr(C)` lays it out.
unfoldable pub inode_byte : InodeDisk → ℕ → ℕ
inode_byte d k =
    if ltb k 2
    then byte_of d.type_ k
    else if ltb k 4
    then byte_of d.major (k - 2)
    else if ltb k 6
    then byte_of d.minor (k - 4)
    else if ltb k 8
    then byte_of d.nlink (k - 6)
    else if ltb k 12
    then byte_of d.size (k - 8)
    else byte_of (d.index ((k - 12) / 4)) ((k - 12) % 4)

-- The copies of an inode into a block at `offset` and out of it.
unfoldable pub put_inode : Block → ℕ → InodeDisk → Block
unfolding inode_byte
put_inode b offset d a =
    if leb offset a && ltb a (offset + inode_size) then inode_byte d (a - offset) else b a

unfoldable pub get_inode : Block → ℕ → InodeDisk
get_inode b offset = record {
  type_ = get_u16 b offset;
  major = get_u16 b (offset + 2);
  minor = get_u16 b (offset + 4);
  nlink = get_u16 b (offset + 6);
  size = get_u32 b (offset + 8);
  index = λ i. get_u32 b (offset + 12 + i * 4);
}

-- Inodes per block.
abbrev pub ipb : ℕ
ipb = block_size / inode_size

abbrev pub inode_offset : ℕ → ℕ
inode_offset inode_num = inode_num % ipb * inode_size

unfoldable pub inode_rw : SuperBlock → Inode → Bool → Store → Outcome (Inode × Store)
unfolding put_inode get_inode
inode_rw sb inode write s = do
  block ← add_u32 sb.inode_start (inode.inode_num / ipb)
  (t, b) ← read s 0 block
  data_block ← get_data t b
  let offset = inode_offset inode.inode_num
  if write
      then (do u ← write_back t b (put_inode data_block offset inode.disk); ok (inode, u))
      else (do
        c ← release t.cache b
        ok (record inode { disk = get_inode data_block offset }, record t { cache = c }))

-- `inode.disk.index[idx] = blk`.
abbrev pub set_index : Inode → ℕ → ℕ → Inode
set_index inode idx blk = record inode {
  disk = record inode.disk { index = update inode.disk.index idx blk };
}

-- The block of an index, or a new one that is entered there.
unfoldable pub index_block :
    SuperBlock → Inode → ℕ → Bool → Store → Outcome (Option ℕ × Inode × Store)
unfolding inode_rw alloc
index_block sb inode idx grow s =
    let blk = inode.disk.index idx in
    if not (blk == 0)
    then ok (some blk, inode, s)
    else if not grow
    then ok (none, inode, s)
    else (do
      (new, t) ← alloc sb s
      (after, u) ← inode_rw sb (set_index inode idx new) true t
      ok (some new, after, u))

-- The same for the word `i` of an indirect block. The block's buffer is held while a new one is
-- allocated, and the new number is written through its data pointer.
unfoldable pub entry_block : SuperBlock → ℕ → ℕ → Bool → Store → Outcome (Option ℕ × Store)
unfolding alloc
entry_block sb indirect_blk i grow s = do
  (t, b) ← read s 0 indirect_blk
  words ← get_data t b
  let blk = get_u32 words (i * 4)
  if not (blk == 0)
      then (do c ← release t.cache b; ok (some blk, record t { cache = c }))
      else if not grow
      then (do c ← release t.cache b; ok (none, record t { cache = c }))
      else (do
        (new, u) ← alloc sb t
        now ← get_data u b
        w ← write_back u b (put_u32 now (i * 4) new)
        ok (some new, w))

-- On to the next level, where there is a block.
abbrev pub through :
    Outcome (Option ℕ × Inode × Store)
    → (ℕ → Store → Outcome (Option ℕ × Store))
    → Outcome (Option ℕ × Inode × Store)
through m f = m >>= λ (found, inode, s). elim found [
  | none ↦ ok (none, inode, s)
  | some blk ↦ f blk s >>= λ (next, t). ok (next, inode, t)
]

unfoldable pub locate_or_add_block :
    SuperBlock → Inode → ℕ → Bool → Store → Outcome (Option ℕ × Inode × Store)
unfolding index_block entry_block
locate_or_add_block sb inode lbn grow s =
    let lbn1 = lbn - inode_index_1 in
    let lbn2 = lbn1 - nindirect in
    if ltb lbn inode_index_1
    then index_block sb inode lbn grow s
    else if ltb lbn1 nindirect
    then through (index_block sb inode inode_index_1 grow s)
        (λ blk t. entry_block sb blk lbn1 grow t)
    else if ltb lbn2 (nindirect * nindirect)
    then through
        (through (index_block sb inode inode_index_2 grow s)
          (λ blk t. entry_block sb blk (lbn2 / nindirect) grow t))
        (λ blk t. entry_block sb blk (lbn2 % nindirect) grow t)
    else panic

-- ===== src/Fs/Inode/Cache.antt =====
-- The cache of inodes of kernel/src/fs/inode.rs, and the bitmap of inodes.
pub mod Found
pub mod Get
use glenda.Prelude.{
  ℕ, zero, suc, ◌+◌, ◌-◌, ◌*◌, ◌/◌, ◌%◌, ◌^◌, Bool, true, false, not, ◌&&◌, Option, none, some, leb,
  ltb, ◌==◌, if◌then◌else◌, update, Outcome, ok, panic, stuck, ◌>>=◌, add_u32, sub_u32,
}
use glenda.Fs.Buffer.{Store, read, release, get_data}
use glenda.Fs.Bitmap.{SuperBlock, block_size, is_clear, find_free, mark, unmark, write_back}
use glenda.Fs.Bitmap as Bitmap
use glenda.Fs.Inode.{
  Inode, InodeDisk, inode_index_1, inode_index_2, nindirect, get_u32, set_index, inode_rw,
}

abbrev pub n_inode : ℕ
n_inode = 50

-- `INODE_CACHE`, and the store.
pub record Inodes : Type 0 where
  pub inodes : ℕ → Inode
  pub store : Store

abbrev pub set_inode : Inodes → ℕ → Inode → Inodes
set_inode c i p = record c { inodes = update c.inodes i p }

-- The searches of `inode_get` from the slot `i` on: an active inode with the number, and a free slot.
pub find_cached : ℕ → ℕ → ℕ → (ℕ → Inode) → Option ℕ
find_cached zero i inum inodes = none
find_cached (suc n) i inum inodes =
    let rest = find_cached n (i + 1) inum inodes in
    if ltb 0 (inodes i).refcnt && (inodes i).inode_num == inum && (inodes i).valid
    then some i
    else rest

pub find_slot : ℕ → ℕ → (ℕ → Inode) → Option ℕ
find_slot zero i inodes = none
find_slot (suc n) i inodes =
    let rest = find_slot n (i + 1) inodes in if (inodes i).refcnt == 0 then some i else rest

-- The inode that `inode_get` returns is named by its slot.
get_free : SuperBlock → ℕ → Option ℕ → Inodes → Outcome (ℕ × Inodes)
unfolding inode_rw
get_free sb inum none c = panic
get_free sb inum (some i) c =
    let p = record (c.inodes i) { inode_num = inum; valid = false; refcnt = 1 } in
    inode_rw sb p false c.store >>= λ (q, t).
    ok (i, record { inodes = update c.inodes i (record q { valid = true }); store = t })

unfoldable pub inode_get : SuperBlock → ℕ → Inodes → Outcome (ℕ × Inodes)
unfolding find_cached find_slot get_free
inode_get sb inum c = elim (find_cached n_inode 0 inum c.inodes) [
  | some i ↦ add_u32 (c.inodes i).refcnt 1 >>= λ n.
      ok (i, set_inode c i (record (c.inodes i) { refcnt = n }))
  | none ↦ get_free sb inum (find_slot n_inode 0 c.inodes) c
]

unfoldable pub inode_dup : ℕ → Inodes → Outcome Inodes
inode_dup i c =
    add_u32 (c.inodes i).refcnt 1 >>= λ n. ok (set_inode c i (record (c.inodes i) { refcnt = n }))

-- The loop of `free_data_blocks` over the direct blocks, from `i` on.
free_direct : ℕ → ℕ → SuperBlock → Inode → Store → Outcome (Inode × Store)
free_direct zero i sb inode s = ok (inode, s)
free_direct (suc n) i sb inode s =
    if inode.disk.index i == 0
    then free_direct n (i + 1) sb inode s
    else (Bitmap.free sb (inode.disk.index i) s >>= λ t.
        free_direct n (i + 1) sb (set_index inode i 0) t)

-- The loop over the words of an indirect block, which is held.
free_words : ℕ → ℕ → SuperBlock → ℕ → Store → Outcome Store
free_words zero i sb b s = ok s
free_words (suc n) i sb b s = get_data s b >>= λ words.
    let blk = get_u32 words (i * 4) in
    if blk == 0
    then free_words n (i + 1) sb b s
    else (Bitmap.free sb blk s >>= λ t. free_words n (i + 1) sb b t)

-- An indirect block with its entries.
free_indirect : SuperBlock → ℕ → Store → Outcome Store
unfolding free_words
free_indirect sb blk s = read s 0 blk >>= λ (t, b). free_words nindirect 0 sb b t >>= λ u.
    release u.cache b >>= λ c. Bitmap.free sb blk (record u { cache = c })

-- The loop over the words of the doubly indirect block, which is held.
free_tables : ℕ → ℕ → SuperBlock → ℕ → Store → Outcome Store
unfolding free_indirect
free_tables zero i sb b s = ok s
free_tables (suc n) i sb b s = get_data s b >>= λ words.
    let blk = get_u32 words (i * 4) in
    if blk == 0
    then free_tables n (i + 1) sb b s
    else (free_indirect sb blk s >>= λ t. free_tables n (i + 1) sb b t)

free_double : SuperBlock → ℕ → Store → Outcome Store
unfolding free_tables
free_double sb blk s = read s 0 blk >>= λ (t, b). free_tables nindirect 0 sb b t >>= λ u.
    release u.cache b >>= λ c. Bitmap.free sb blk (record u { cache = c })

-- An index with all below it.
free_index :
    (SuperBlock → ℕ → Store → Outcome Store)
    → SuperBlock
    → ℕ
    → Inode × Store
    → Outcome (Inode × Store)
free_index f sb idx (inode, s) =
    if inode.disk.index idx == 0
    then ok (inode, s)
    else (f sb (inode.disk.index idx) s >>= λ t. ok (set_index inode idx 0, t))

unfoldable pub free_data_blocks : SuperBlock → Inode → Store → Outcome (Inode × Store)
unfolding free_direct free_indirect free_double free_index
free_data_blocks sb inode s = free_direct inode_index_1 0 sb inode s >>= λ r.
    free_index free_indirect sb inode_index_1 r >>= λ r'. free_index free_double sb inode_index_2 r'

-- `free` of the bitmap of inodes. The source does not check that the byte is in the buffer.
unfoldable pub free : SuperBlock → ℕ → Store → Outcome Store
free sb inode_idx s = sub_u32 sb.inode_start 1 >>= λ ibmap_block. read s 0 ibmap_block >>= λ (t, b).
    get_data t b >>= λ bytes.
    if leb block_size (inode_idx / 8)
    then stuck
    else if is_clear (bytes (inode_idx / 8)) (inode_idx % 8)
    then panic
    else write_back t b (unmark bytes inode_idx)

-- `alloc` of the bitmap of inodes, from the result of the search on.
take_inum : SuperBlock → Store → ℕ → (ℕ → ℕ) → Option (ℕ × ℕ) → Outcome (ℕ × Store)
take_inum sb t b bytes none = release t.cache b >>= λ c. panic
take_inum sb t b bytes (some (i, j)) =
    if leb sb.ninodes (i * 8 + j)
    then (release t.cache b >>= λ c. panic)
    else (write_back t b (mark bytes i j) >>= λ u. ok (i * 8 + j, u))

unfoldable pub alloc : SuperBlock → Store → Outcome (ℕ × Store)
unfolding take_inum
alloc sb s = sub_u32 sb.inode_start 1 >>= λ ibmap_block. read s 0 ibmap_block >>= λ (t, b).
    get_data t b >>= λ bytes. take_inum sb t b bytes (find_free block_size 0 bytes)

-- The end of an inode that no name and no user has.
delete : SuperBlock → ℕ → Inode → Inodes → Outcome Inodes
unfolding free_data_blocks free inode_rw
delete sb i inode c = free_data_blocks sb inode c.store >>= λ (p, s).
    free sb inode.inode_num s >>= λ t.
    inode_rw sb (record p { disk = record p.disk { size = 0; type_ = 0 } }) true t >>= λ (q, u).
    ok
      (record { inodes = update c.inodes i (record q { valid = false; inode_num = 0 }); store = u })

unfoldable pub inode_put : SuperBlock → ℕ → Inodes → Outcome Inodes
unfolding delete
inode_put sb i c =
    let inode = c.inodes i in
    if inode.refcnt == 0
    then panic
    else (let left = record inode { refcnt = inode.refcnt - 1 } in
        if left.refcnt == 0 && left.disk.nlink == 0
        then delete sb i left c
        else ok (set_inode c i left))

unfoldable pub inode_create : SuperBlock → ℕ → ℕ → ℕ → Inodes → Outcome (ℕ × Inodes)
unfolding alloc inode_get inode_rw
inode_create sb type_ major minor c = alloc sb c.store >>= λ (inum, s).
    inode_get sb inum (record c { store = s }) >>= λ (i, got).
    let disk : InodeDisk = record {
      type_ = type_;
      major = major;
      minor = minor;
      nlink = 1;
      size = 0;
      index = λ k. 0;
    } in
    inode_rw sb (record (got.inodes i) { disk = disk }) true got.store >>= λ (p, t).
    ok (i, record { inodes = update got.inodes i p; store = t })

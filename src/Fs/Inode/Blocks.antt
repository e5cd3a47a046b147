-- ===== src/Fs/Inode/Blocks.antt =====
-- `locate_or_add_block` of kernel/src/fs/inode.rs without growing, against the map from block indices
-- to blocks that an inode and the disk stand for.
use glenda.Prelude.{
  ℕ, ◌-◌, ◌*◌, ◌/◌, ◌%◌, ◌^◌, ◌<◌, ◌≡◌, ◌≢◌, refl, ap, ◌∙◌, true, false, Option, none, some,
  Bool-cases, inl, inr, [], arith, ltb, ◌==◌, if◌then◌else◌, Outcome, ok,
}
use glenda.Fs.Buffer.Lru.{Block, LruCache}
use glenda.Fs.Buffer.{Store, read, release, get_data}
use glenda.Fs.Buffer.View.{View}
use glenda.Fs.Buffer.Coherent.{Coherent}
use glenda.Fs.Buffer.Coherent.Stores.{read_total, release_total}
use glenda.Fs.Buffer.Coherent.RoundTrip.{get_data-content}
use glenda.Fs.Bitmap.{SuperBlock}
use glenda.Fs.Inode.{
  InodeDisk, Inode, inode_index_1, inode_index_2, nindirect, get_u32, index_block, entry_block,
  through, locate_or_add_block,
}

-- A block number, where 0 stands for none.
abbrev pub nonzero : ℕ → Option ℕ
nonzero blk = if blk == 0 then none else some blk

abbrev pub next_block : Option ℕ → (ℕ → Option ℕ) → Option ℕ
next_block none f = none
next_block (some blk) f = f blk

-- The word `i` of an indirect block.
abbrev pub entry_of : (ℕ → Block) → ℕ → ℕ → Option ℕ
entry_of disk i blk = nonzero (get_u32 (disk blk) (i * 4))

-- The block of a file's block index, by the direct, indirect and doubly indirect indices.
unfoldable pub block_of : (ℕ → Block) → InodeDisk → ℕ → Option ℕ
block_of disk d lbn =
    let lbn1 = lbn - inode_index_1 in
    let lbn2 = lbn1 - nindirect in
    if ltb lbn inode_index_1
    then nonzero (d.index lbn)
    else if ltb lbn1 nindirect
    then next_block (nonzero (d.index inode_index_1)) (entry_of disk lbn1)
    else next_block
        (next_block (nonzero (d.index inode_index_2)) (entry_of disk (lbn2 / nindirect)))
        (entry_of disk (lbn2 % nindirect))

-- A run that only reads: what it gives, with the disk as before and the cache coherent.
pub record Gives {ℓ} {A : Type ℓ} (s : Store) (r : Outcome A) (value : Store → A) : Type ℓ where
  pub result : Store
  pub after : View
  pub runs : r ≡ ok (value result)
  pub coherent : Coherent result after
  pub room : after.inactive ≢ []
  pub disk : result.disk ≡ s.disk

entry_run :
    (sb : SuperBlock) (blk i : ℕ) (s t : Store) (b : ℕ) (words : Block) (c : LruCache)
    → read s 0 blk ≡ ok (t, b)
    → get_data t b ≡ ok words
    → release t.cache b ≡ ok c
    → entry_block sb blk i false s ≡ ok (nonzero (get_u32 words (i * 4)), record t { cache = c })
unfolding entry_block
entry_run sb blk i s t b words c e f g = elim (Bool-cases (get_u32 words (i * 4) == 0)) [
  | inl y ↦ rw (entry_block, e, f, y, g) refl
  | inr n ↦ rw (entry_block, e, f, n, g) refl
]

pub entry_block-Gives :
    (sb : SuperBlock) (s : Store) (v : View) (blk i : ℕ)
    → Coherent s v
    → v.inactive ≢ []
    → Gives s (entry_block sb blk i false s) (λ t. (entry_of s.disk i blk, t))
entry_block-Gives sb s v blk i h ne =
    let (t, b, e, l) = read_total s v blk h ne in
    let words : get_data t b ≡ ok (s.disk blk) =
      get_data-content t l.after b l.coherent l.active ∙ ap ok l.content in
    let (c, x, f, k, p, q) = release_total t l.after b l.coherent l.active in
    record {
      result = record t { cache = c };
      after = x;
      runs = entry_run sb blk i s t b (s.disk blk) c e words f;
      coherent = k;
      room = λ z. cc (q, z);
      disk = l.disk;
    }

index_block-Gives :
    (sb : SuperBlock) (inode : Inode) (s : Store) (v : View) (idx : ℕ)
    → Coherent s v
    → v.inactive ≢ []
    → Gives s (index_block sb inode idx false s) (λ t. (nonzero (inode.disk.index idx), inode, t))
unfolding index_block
index_block-Gives sb inode s v idx h ne = elim (Bool-cases (inode.disk.index idx == 0)) [
  | inl y ↦ record { result = s; after = v; runs = rw y refl; coherent = h; room = ne; disk = refl }
  | inr n ↦ record { result = s; after = v; runs = rw n refl; coherent = h; room = ne; disk = refl }
]

-- The next level of indirection.
through-Gives :
    (sb : SuperBlock) (inode : Inode) (s : Store) (o : Option ℕ)
    (m : Outcome (Option ℕ × Inode × Store)) (i : ℕ)
    → Gives s m (λ t. (o, inode, t))
    → Gives s
        (through m (λ blk t. entry_block sb blk i false t))
        (λ t. (next_block o (entry_of s.disk i), inode, t))
through-Gives sb inode s none m i g = record {
  result = g.result;
  after = g.after;
  runs = rw (g.runs) refl;
  coherent = g.coherent;
  room = g.room;
  disk = g.disk;
}
through-Gives sb inode s (some blk) m i g =
    let k = entry_block-Gives sb g.result g.after blk i g.coherent g.room in
    record {
      result = k.result;
      after = k.after;
      runs = rw (g.runs, k.runs) (ap (λ d. ok (entry_of d i blk, inode, k.result)) g.disk);
      coherent = k.coherent;
      room = k.room;
      disk = k.disk ∙ g.disk;
    }

-- For every offset of a `u32`, with a coherent cache and an inactive buffer, looking for a file's
-- block without growing the file ends without a panic. It gives the block that the indices of the
-- inode and the indirect blocks on the disk name, or none where one of these is 0. The inode and the
-- disk stay as they are, the cache stays coherent, and a buffer is inactive again.
pub locate_or_add_block-Gives :
    (sb : SuperBlock) (inode : Inode) (s : Store) (v : View) (lbn : ℕ)
    → Coherent s v
    → v.inactive ≢ []
    → lbn < 2 ^ 20
    → Gives s
        (locate_or_add_block sb inode lbn false s)
        (λ t. (block_of s.disk inode.disk lbn, inode, t))
unfolding locate_or_add_block block_of
locate_or_add_block-Gives sb inode s v lbn h ne small = elim (Bool-cases (ltb lbn inode_index_1)) [
  | inl y ↦ rw y (index_block-Gives sb inode s v lbn h ne)
  | inr n ↦ elim (Bool-cases (ltb (lbn - inode_index_1) nindirect)) [
    | inl y ↦
        rw (n, y)
          (through-Gives sb inode s (nonzero (inode.disk.index inode_index_1))
            (index_block sb inode inode_index_1 false s) (lbn - inode_index_1)
            (index_block-Gives sb inode s v inode_index_1 h ne))
    | inr n' ↦
        let lbn2 = lbn - inode_index_1 - nindirect in
        let inside : ltb lbn2 (nindirect * nindirect) ≡ true = ground arith in
        rw (n, n', inside)
          (through-Gives sb inode s
            (next_block (nonzero (inode.disk.index inode_index_2))
              (entry_of s.disk (lbn2 / nindirect)))
            (through (index_block sb inode inode_index_2 false s)
              (λ blk t. entry_block sb blk (lbn2 / nindirect) false t))
            (lbn2 % nindirect)
            (through-Gives sb inode s (nonzero (inode.disk.index inode_index_2))
              (index_block sb inode inode_index_2 false s) (lbn2 / nindirect)
              (index_block-Gives sb inode s v inode_index_2 h ne)))
  ]
]

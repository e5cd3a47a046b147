-- ===== src/Fs/Inode/Tests.antt =====
-- The theorems on inodes at concrete inputs.
use glenda.Prelude.{
  ℕ, ◌+◌, ◌/◌, ◌^◌, ◌<◌, ◌≡◌, ◌==◌, refl, true, false, some, [], arith, update, ok, if◌then◌else◌,
}
use glenda.Fs.Buffer.Lru.{Block, new_cache, init}
use glenda.Fs.Buffer.Lru.Init.{all_ids}
use glenda.Fs.Buffer.{Store, init_cache}
use glenda.Fs.Buffer.Refine.{view}
use glenda.Fs.Buffer.Coherent.{init-Coherent}
use glenda.Fs.Bitmap.{SuperBlock}
use glenda.Fs.Inode.{InodeDisk, Inode, ipb, inode_rw, locate_or_add_block}
use glenda.Fs.Inode.Layout.{IsInodeDisk, Same}
use glenda.Fs.Inode.Stored.{disk_inode, inode_rw-Same}
use glenda.Fs.Inode.Blocks.{Gives, block_of, locate_or_add_block-Gives}
use glenda.Fs.Inode.Data.{inode_read_data}
use glenda.Fs.Inode.Data.Rounds.{file_bytes}
use glenda.Fs.Inode.Data.Reads.{read_len, inode_read_data-Gives}
use glenda.Fs.Inode.Cache.{Inodes, inode_get}
use glenda.Fs.Inode.Cache.Found.{IsUnique}
use glenda.Fs.Inode.Cache.Get.{Gets, inode_get-Gets}

abbrev sb : SuperBlock
sb = record { ninodes = 64; inode_start = 2; bmap_start = 3; nblocks = 100 }

-- The block 9 is an indirect block with the number 12 as its second word.
abbrev disk : ℕ → Block
disk = update (λ n i. n) 9 (update (λ i. 0) 4 12)

abbrev store : Store
store = init_cache (record { cache = new_cache; disk = disk })

-- A file with a direct block, a hole, and an indirect block.
abbrev file : Inode
file = record {
  disk = record {
    type_ = 2;
    major = 0;
    minor = 0;
    nlink = 1;
    size = 50000;
    index = update (update (λ i. 0) 0 7) 10 9;
  };
  valid = true;
  inode_num = 3;
  refcnt = 1;
}

file-IsInodeDisk : IsInodeDisk file.disk
file-IsInodeDisk = record {
  type_ = omega arith;
  major = omega arith;
  minor = omega arith;
  nlink = omega arith;
  size = omega arith;
  index = λ i h. ground arith;
}

-- The second word of the indirect block.
block_of-11 : block_of disk file.disk 11 ≡ some 12
unfolding block_of
block_of-11 = refl

locate_or_add_block-Gives_example :
    Gives store
      (locate_or_add_block sb file 11 false store)
      (λ t. (block_of disk file.disk 11, file, t))
unfolding init_cache
locate_or_add_block-Gives_example =
    locate_or_add_block-Gives sb file store (view (init new_cache) [] all_ids) 11
      (init-Coherent disk) (λ e. cc e) (omega arith)

inode_read_data-Gives_example :
    Gives store
      (inode_read_data sb file 4090 10 store)
      (λ t. (file_bytes disk file.disk 4090 (read_len 50000 4090 10), file, t))
unfolding init_cache
inode_read_data-Gives_example =
    inode_read_data-Gives sb file 4090 10 store (view (init new_cache) [] all_ids)
      (init-Coherent disk) (λ e. cc e) (omega arith) (omega arith)

inode_rw-Same_example :
    (t : Store) × (inode_rw sb file true store ≡ ok (file, t))
    × ((q : Inode)
        → sb.inode_start + q.inode_num / ipb < 2 ^ 32
        → (u : Store) × (d : InodeDisk) × (inode_rw sb q false t ≡ ok (record q { disk = d }, u))
          × Same d (if q.inode_num == 3 then file.disk else disk_inode sb disk q.inode_num))
unfolding init_cache
inode_rw-Same_example =
    inode_rw-Same sb file store (view (init new_cache) [] all_ids) (init-Coherent disk) (λ e. cc e)
      file-IsInodeDisk (omega arith)

-- The file stands in the slot 1.
abbrev cached : Inodes
cached = record {
  inodes = update (λ i. record file { valid = false; refcnt = 0 }) 1 file;
  store = store;
}

cached-IsUnique : IsUnique cached.inodes
cached-IsUnique i j ei ej same hi hj = ground arith

inode_get-Gets_example : Gets sb 3 cached (inode_get sb 3 cached)
unfolding init_cache
inode_get-Gets_example =
    inode_get-Gets sb 3 cached (view (init new_cache) [] all_ids) (init-Coherent disk) (λ e. cc e)
      cached-IsUnique (λ a. ground arith) (omega arith)

-- ===== src/Fs/Dentry/Tests.antt =====
-- `dentry_search` of kernel/src/fs/dentry.rs at a concrete directory.
use glenda.Prelude.{ℕ, ◌/◌, ◌≡◌, refl, true, Option, some, [], ◌∷◌, arith, update}
use glenda.Fs.Buffer.Lru.{Block, new_cache, init}
use glenda.Fs.Buffer.Lru.Init.{all_ids}
use glenda.Fs.Buffer.{Store, init_cache}
use glenda.Fs.Buffer.Refine.{view}
use glenda.Fs.Buffer.Coherent.{init-Coherent}
use glenda.Fs.Bitmap.{SuperBlock}
use glenda.Fs.Inode.{Inode}
use glenda.Fs.Inode.Blocks.{Gives, block_of}
use glenda.Fs.Inode.Data.Rounds.{file_bytes}
use glenda.Fs.Dentry.{dentry_size, is_entry, found_inum, dentry_search}
use glenda.Fs.Dentry.Entries.{find_entry, FirstNamed}
use glenda.Fs.Dentry.Search.{dentry_search-Gives}

abbrev sb : SuperBlock
sb = record { ninodes = 64; inode_start = 2; bmap_start = 3; nblocks = 100 }

-- The second entry is named `a` and has the inode number 5.
abbrev disk : ℕ → Block
disk = update (λ n i. 0) 7 (update (update (λ i. 0) 64 0x61) 124 5)

abbrev store : Store
store = init_cache (record { cache = new_cache; disk = disk })

abbrev dir : Inode
dir = record {
  disk = record {
    type_ = 1;
    major = 0;
    minor = 0;
    nlink = 1;
    size = 128;
    index = update (λ i. 0) 0 7;
  };
  valid = true;
  inode_num = 0;
  refcnt = 1;
}

find_entry-a : found_inum (find_entry 2 disk dir.disk 0 (is_entry (0x61 ∷ []))) ≡ some 5
unfolding find_entry file_bytes block_of
find_entry-a = refl

dentry_search-Gives_example :
    (found : Option ℕ) × FirstNamed (128 / dentry_size) disk dir.disk (0x61 ∷ []) found
    × Gives store (dentry_search sb dir (0x61 ∷ []) store) (λ t. (found, dir, t))
unfolding init_cache
dentry_search-Gives_example =
    dentry_search-Gives sb dir (0x61 ∷ []) store (view (init new_cache) [] all_ids)
      (init-Coherent disk) (λ e. cc e) (omega arith)

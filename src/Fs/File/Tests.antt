-- ===== src/Fs/File/Tests.antt =====
-- The table of files of kernel/src/fs/file.rs at a concrete input.
use glenda.Prelude.{ℕ, ◌≡◌, arith, true, false, update, ok}
use glenda.Fs.Buffer.Lru.{new_cache}
use glenda.Fs.Bitmap.{SuperBlock}
use glenda.Fs.Inode.Cache.{Inodes}
use glenda.Fs.File.{Files, new, file_dup, file_close}
use glenda.Fs.File.Counts.{file_close-file_dup}

abbrev sb : SuperBlock
sb = record { ninodes = 64; inode_start = 2; bmap_start = 3; nblocks = 100 }

-- The file 5 has two users.
abbrev files : Files
files = update (λ i. new) 5 (record new { readable = true; refcnt = 2 })

abbrev none_cached : Inodes
none_cached = record {
  inodes = λ i. record {
    disk = record { type_ = 0; major = 0; minor = 0; nlink = 0; size = 0; index = λ k. 0 };
    valid = false;
    inode_num = 0;
    refcnt = 0;
  };
  store = record { cache = new_cache; disk = λ n i. 0 };
}

file_close-file_dup_example :
    (g : Files) × (h : Files) × (file_dup 5 files ≡ ok g)
    × (file_close sb 5 g none_cached ≡ ok (h, none_cached))
    × ((a : ℕ) → h a ≡ files a)
file_close-file_dup_example =
    file_close-file_dup sb 5 files none_cached (omega arith) (omega arith) (omega arith)

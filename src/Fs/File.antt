-- ===== src/Fs/File.antt =====
-- kernel/src/fs/file.rs: the table of open files. A file is named by its index.
pub mod Counts
mod Tests
use glenda.Prelude.{
  ℕ, zero, suc, ◌+◌, ◌-◌, Bool, false, Option, none, some, ltb, ◌==◌, if◌then◌else◌, update,
  Outcome, ok, panic, ◌>>=◌, add_u32,
}
use glenda.Fs.Bitmap.{SuperBlock}
use glenda.Fs.Inode.Cache.{Inodes, inode_get, inode_put}

abbrev pub nfile : ℕ
nfile = 128

pub data FileType : Type 0 where
  unused inode pipe : FileType
  device : (major minor : ℕ) → FileType

pub record File : Type 0 where
  pub ty : FileType
  pub readable : Bool
  pub writable : Bool
  pub off : ℕ
  pub inum : ℕ
  pub refcnt : ℕ

-- `File::new`.
abbrev pub new : File
new = record { ty = unused; readable = false; writable = false; off = 0; inum = 0; refcnt = 0 }

abbrev pub Files : Type 0
Files = ℕ → File

-- The loop of `file_alloc` from the index `i` on.
find_free : ℕ → ℕ → Files → Option ℕ
find_free zero i files = none
find_free (suc n) i files =
    let rest = find_free n (i + 1) files in if (files i).refcnt == 0 then some i else rest

unfoldable pub file_alloc : Files → Option ℕ × Files
unfolding find_free
file_alloc files = elim (find_free nfile 0 files) [
  | none ↦ (none, files)
  | some i ↦ (some i, update files i (record (files i) { refcnt = 1; off = 0 }))
]

unfoldable pub file_dup : ℕ → Files → Outcome Files
file_dup i files =
    if ltb (files i).refcnt 1
    then panic
    else (add_u32 (files i).refcnt 1 >>= λ n. ok (update files i (record (files i) { refcnt = n })))

-- The inode of a file that is closed is got once more, and put twice.
put_inode : SuperBlock → FileType → ℕ → Inodes → Outcome Inodes
put_inode sb inode inum c = do (i, d) ← inode_get sb inum c; e ← inode_put sb i d; inode_put sb i e
put_inode sb unused inum c = ok c
put_inode sb pipe inum c = ok c
put_inode sb (device major minor) inum c = ok c

unfoldable pub file_close : SuperBlock → ℕ → Files → Inodes → Outcome (Files × Inodes)
unfolding put_inode
file_close sb f_idx files c =
    let f = files f_idx in
    if ltb f_idx nfile
    then (if ltb f.refcnt 1
        then panic
        else if ltb 0 (f.refcnt - 1)
        then ok (update files f_idx (record f { refcnt = f.refcnt - 1 }), c)
        else (put_inode sb f.ty f.inum c >>= λ d.
            ok (update files f_idx (record f { refcnt = f.refcnt - 1; ty = unused }), d)))
    else panic

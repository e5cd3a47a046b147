-- ===== src/Fs/Dentry.antt =====
-- kernel/src/fs/dentry.rs: the entries of a directory, 64 bytes each: a name of at most 60 bytes, with
-- zeros behind, and an inode number. `dentry_print` only prints.
pub mod Names
pub mod Entries
pub mod Search
mod Tests
use glenda.Prelude.{
  ℕ, zero, suc, ◌+◌, ◌-◌, ◌*◌, ◌/◌, ◌%◌, Bool, true, false, not, ◌&&◌, Option, none, some, List, [],
  ◌∷◌, ◌++◌, length, take, ltb, ◌==◌, if◌then◌else◌, Outcome, ok, stuck, ◌>>=◌, add_u32,
}
use glenda.Fs.Buffer.{Store}
use glenda.Fs.Bitmap.{SuperBlock}
use glenda.Fs.Inode.{Inode, byte_of}
use glenda.Fs.Inode.Data.{inode_read_data, inode_write_data, zero_bytes}

abbrev pub maxlen_filename : ℕ
maxlen_filename = 60

abbrev pub dentry_size : ℕ
dentry_size = 64

-- `buf[i]`.
abbrev pub byte_at : List ℕ → ℕ → ℕ
byte_at [] i = 0
byte_at (b ∷ rest) zero = b
byte_at (b ∷ rest) (suc i) = byte_at rest i

-- `dentry.inode_num`.
abbrev pub entry_inum : List ℕ → ℕ
entry_inum buf =
    byte_at buf 60 + byte_at buf 61 * 256 + byte_at buf 62 * 65536 + byte_at buf 63 * 16777216

-- The loop that compares the bytes of the entry with the name, over `n` of them.
abbrev pub match_name : ℕ → List ℕ → List ℕ → Bool
match_name zero buf name = true
match_name (suc n) [] name = true
match_name (suc n) (b ∷ rest) [] = b == 0 && match_name n rest []
match_name (suc n) (b ∷ rest) (x ∷ xs) = b == x && match_name n rest xs

-- The entry is in use, and has the name.
abbrev pub is_entry : List ℕ → List ℕ → Bool
is_entry name buf = not (byte_at buf 0 == 0) && match_name maxlen_filename buf name

-- The loops of the three searches, which differ in the entries that they look for: the first one with
-- its offset. A short read ends the loop.
scan :
    ℕ
    → SuperBlock
    → Inode
    → ℕ
    → (List ℕ → Bool)
    → Store
    → Outcome (Option (ℕ × List ℕ) × Inode × Store)
unfolding inode_read_data
scan zero sb dir off wanted s = if ltb off dir.disk.size then stuck else ok (none, dir, s)
scan (suc fuel) sb dir off wanted s =
    if not (ltb off dir.disk.size)
    then ok (none, dir, s)
    else (inode_read_data sb dir off dentry_size s >>= λ (buf, dir', t).
        if not (length buf == dentry_size)
        then ok (none, dir', t)
        else if wanted buf
        then ok (some (off, buf), dir', t)
        else (add_u32 off dentry_size >>= λ next. scan fuel sb dir' next wanted t))

-- Rounds enough for the entries of a directory and a short read.
abbrev pub scan_rounds : Inode → ℕ
scan_rounds dir = dir.disk.size / dentry_size + 1

abbrev pub found_inum : Option (ℕ × List ℕ) → Option ℕ
found_inum none = none
found_inum (some (off, buf)) = some (entry_inum buf)

unfoldable pub dentry_search :
    SuperBlock → Inode → List ℕ → Store → Outcome (Option ℕ × Inode × Store)
unfolding scan
dentry_search sb dir name s =
    scan (scan_rounds dir) sb dir 0 (is_entry name) s >>= λ (found, dir', t).
    ok (found_inum found, dir', t)

-- The bytes of a new entry; a longer name is cut.
new_dentry : ℕ → List ℕ → List ℕ
new_dentry target_inum name =
    let kept = take maxlen_filename name in
    kept
    ++ zero_bytes (maxlen_filename - length kept)
    ++ byte_of target_inum 0
      ∷ byte_of target_inum 1
      ∷ byte_of target_inum 2
      ∷ byte_of target_inum 3
      ∷ []

-- An entry that is free.
abbrev pub is_empty : List ℕ → Bool
is_empty buf = byte_at buf 0 == 0

abbrev pub target_off : Inode → Option (ℕ × List ℕ) → ℕ
target_off dir none = dir.disk.size
target_off dir (some (off, buf)) = off

-- Whether the entry could be made: 0 or -1 in the source.
unfoldable pub dentry_create :
    SuperBlock → Inode → ℕ → List ℕ → Store → Outcome (Bool × Inode × Store)
unfolding dentry_search scan new_dentry inode_write_data
dentry_create sb dir target_inum name s = dentry_search sb dir name s >>= λ (existing, dir1, t).
    elim existing [
      | some inum ↦ ok (false, dir1, t)
      | none ↦ scan (scan_rounds dir1) sb dir1 0 is_empty t >>= λ (slot, dir2, u).
          inode_write_data sb dir2 (target_off dir1 slot) dentry_size (new_dentry target_inum name)
            u
          >>= λ (n, dir3, w). ok (n == dentry_size, dir3, w)
    ]

-- The inode number of the entry that is deleted, or none, which is -1 in the source.
unfoldable pub dentry_delete :
    SuperBlock → Inode → List ℕ → Store → Outcome (Option ℕ × Inode × Store)
unfolding scan inode_write_data
dentry_delete sb dir name s =
    scan (scan_rounds dir) sb dir 0 (is_entry name) s >>= λ (found, dir1, t). elim found [
      | none ↦ ok (none, dir1, t)
      | some entry ↦
          inode_write_data sb dir1 entry.0 dentry_size (zero_bytes dentry_size) t
          >>= λ (n, dir2, u). ok (some (entry_inum entry.1), dir2, u)
    ]

-- ===== src/Fs/Path.antt =====
-- kernel/src/fs/path.rs: paths are lists of bytes, and a position is the rest of the path from there.
pub mod Elements
mod Tests
use glenda.Prelude.{
  ℕ, zero, suc, ◌+◌, ◌-◌, ◌==◌, Bool, true, false, not, Option, none, some, List, [], ◌∷◌, ◌++◌,
  length, take, update, leb, if◌then◌else◌, Outcome, ok, panic, stuck, ◌>>=◌,
}
use glenda.Fs.Buffer.{Store}
use glenda.Fs.Bitmap.{SuperBlock}
use glenda.Fs.Inode.{Inode}
use glenda.Fs.Inode.Data.{zero_bytes}
use glenda.Fs.Inode.Cache.{Inodes, inode_get, inode_put}
use glenda.Fs.Dentry.{maxlen_filename, dentry_search}

-- `b'/'`.
abbrev pub slash : ℕ
slash = 0x2F

abbrev pub root_inode : ℕ
root_inode = 0

abbrev pub inode_type_dir : ℕ
inode_type_dir = 1

-- "Skip leading slashes".
pub skip_slashes : List ℕ → List ℕ
skip_slashes [] = []
skip_slashes (b ∷ rest) =
    let further = skip_slashes rest in if b == slash then further else b ∷ rest

-- The bytes up to the next slash, and the rest from there.
pub split_name : List ℕ → List ℕ × List ℕ
split_name [] = ([], [])
split_name (b ∷ rest) =
    let further = split_name rest in
    if b == slash then ([], b ∷ rest) else (b ∷ further.0, further.1)

named : List ℕ → Option (List ℕ × List ℕ)
unfolding split_name
named [] = none
named (b ∷ rest) = some (split_name (b ∷ rest))

unfoldable pub get_element : List ℕ → Option (List ℕ × List ℕ)
unfolding skip_slashes named
get_element path = named (skip_slashes path)

-- `path.starts_with(b"/")`.
abbrev pub start_inum : ℕ → List ℕ → ℕ
start_inum cwd_inum [] = cwd_inum
start_inum cwd_inum (b ∷ rest) = if b == slash then root_inode else cwd_inum

-- From the directory in the slot `i` to its entry `name`: the slot of the entry's inode, or none. The
-- directory is put back.
unfoldable pub enter : SuperBlock → ℕ → List ℕ → Inodes → Outcome (Option ℕ × Inodes)
unfolding dentry_search inode_get inode_put
enter sb i name c =
    if not ((c.inodes i).disk.type_ == inode_type_dir)
    then (inode_put sb i c >>= λ d. ok (none, d))
    else (dentry_search sb (c.inodes i) name c.store >>= λ (found, p, s).
        let after : Inodes = record { inodes = update c.inodes i p; store = s } in
        elim found [
          | none ↦ inode_put sb i after >>= λ d. ok (none, d)
          | some inum ↦
              inode_get sb inum after >>= λ (j, d). inode_put sb i d >>= λ e. ok (some j, e)
        ])

-- The loop of `__path_to_inode_at`; an element takes at least a byte of the path.
walk : ℕ → SuperBlock → ℕ → List ℕ → Inodes → Outcome (Option ℕ × Inodes)
unfolding get_element enter
walk zero sb i path c = stuck
walk (suc fuel) sb i path c = elim (get_element path) [
  | none ↦ ok (some i, c)
  | some e ↦ enter sb i e.0 c >>= λ (next, d). elim next [
    | none ↦ ok (none, d)
    | some j ↦ walk fuel sb j e.1 d
  ]
]

unfoldable pub path_to_inode_at : SuperBlock → ℕ → List ℕ → Inodes → Outcome (Option ℕ × Inodes)
unfolding walk
path_to_inode_at sb cwd_inum path c =
    inode_get sb (start_inum cwd_inum path) c >>= λ (i, d). walk (length path + 1) sb i path d

unfoldable pub path_to_inode : SuperBlock → List ℕ → Inodes → Outcome (Option ℕ × Inodes)
unfolding path_to_inode_at
path_to_inode sb path c = path_to_inode_at sb root_inode path c

-- `name_buf` of `n` bytes with the name, cut and filled up with zeros. A shorter buffer than the name
-- panics.
fill_name : ℕ → List ℕ → Outcome (List ℕ)
fill_name n name =
    let kept = take maxlen_filename name in
    if leb (length kept) n then ok (kept ++ zero_bytes (n - length kept)) else panic

-- The loop of `path_to_parent_inode_at` with `name` ahead.
walk_parent :
    ℕ → SuperBlock → ℕ → List ℕ → List ℕ → ℕ → Inodes → Outcome (Option (ℕ × List ℕ) × Inodes)
unfolding get_element enter fill_name
walk_parent zero sb i name path n c = stuck
walk_parent (suc fuel) sb i name path n c = elim (get_element path) [
  | none ↦ fill_name n name >>= λ buf. ok (some (i, buf), c)
  | some e ↦ enter sb i name c >>= λ (next, d). elim next [
    | none ↦ ok (none, d)
    | some j ↦ walk_parent fuel sb j e.0 e.1 n d
  ]
]

-- The slot of the parent, and the buffer of `n` bytes with the name; for a path without a name the
-- start, with the buffer as it was.
unfoldable pub path_to_parent_inode_at :
    SuperBlock → ℕ → List ℕ → List ℕ → Inodes → Outcome (Option (ℕ × List ℕ) × Inodes)
unfolding walk_parent
path_to_parent_inode_at sb cwd_inum path name_buf c =
    inode_get sb (start_inum cwd_inum path) c >>= λ (i, d). elim (get_element path) [
      | none ↦ ok (some (i, name_buf), d)
      | some e ↦ walk_parent (length path + 1) sb i e.0 e.1 (length name_buf) d
    ]

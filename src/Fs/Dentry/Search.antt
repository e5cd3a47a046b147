-- ===== src/Fs/Dentry/Search.antt =====
-- `dentry_search` of kernel/src/fs/dentry.rs against the entries of the directory's file.
use glenda.Prelude.{
  ℕ, zero, suc, ◌+◌, ◌-◌, ◌*◌, ◌/◌, ◌^◌, ◌≤◌, ◌<◌, ◌≡◌, ◌≢◌, refl, ap, ◌∙◌, subst, Bool, true,
  false, Option, Bool-cases, inl, inr, List, [], length, arith, ltb, ◌==◌, ok,
}
use glenda.Fs.Buffer.{Store}
use glenda.Fs.Buffer.View.{View}
use glenda.Fs.Buffer.Coherent.{Coherent}
use glenda.Fs.Bitmap.{SuperBlock, block_size}
use glenda.Fs.Bitmap.Taken.{add_u32-ok}
use glenda.Fs.Inode.{Inode}
use glenda.Fs.Inode.Blocks.{Gives}
use glenda.Fs.Inode.Data.{inode_read_data}
use glenda.Fs.Inode.Data.Rounds.{file_bytes}
use glenda.Fs.Inode.Data.Reads.{read_len, inode_read_data-Gives}
use glenda.Fs.Dentry.{dentry_size, is_entry, scan, scan_rounds, found_inum, dentry_search}
use glenda.Fs.Dentry.Entries.{
  find_entry, length_bytes, FirstNamed, find_entry-FirstWanted, FirstWanted-Named,
}

read_entry-Gives :
    (sb : SuperBlock) (dir : Inode) (off : ℕ) (s : Store) (v : View)
    → Coherent s v
    → v.inactive ≢ []
    → dir.disk.size ≤ 2 ^ 32 - block_size
    → off + dentry_size ≤ dir.disk.size
    → Gives s
        (inode_read_data sb dir off dentry_size s)
        (λ t. (file_bytes s.disk dir.disk off dentry_size, dir, t))
read_entry-Gives sb dir off s v h ne small inside =
    let all : read_len dir.disk.size off dentry_size ≡ dentry_size = omega arith in
    subst
      (λ n.
        Gives s (inode_read_data sb dir off dentry_size s)
          (λ t. (file_bytes s.disk dir.disk off n, dir, t)))
      all (inode_read_data-Gives sb dir off dentry_size s v h ne small (omega arith))

-- With `n` whole entries left from `off` on.
scan-Gives :
    (fuel n : ℕ) (sb : SuperBlock) (dir : Inode) (off : ℕ) (wanted : List ℕ → Bool) (s : Store)
    (v : View)
    → Coherent s v
    → v.inactive ≢ []
    → dir.disk.size ≤ 2 ^ 32 - block_size
    → off + n * dentry_size ≤ dir.disk.size
    → dir.disk.size < off + n * dentry_size + dentry_size
    → n < fuel
    → Gives s
        (scan fuel sb dir off wanted s)
        (λ t. (find_entry n s.disk dir.disk off wanted, dir, t))
unfolding scan find_entry
scan-Gives zero n sb dir off wanted s v h ne small lo hi enough = absurd (omega arith)
scan-Gives (suc fuel) zero sb dir off wanted s v h ne small lo hi enough =
    elim (Bool-cases (ltb off dir.disk.size)) [
      | inr n ↦ record {
        result = s;
        after = v;
        runs = rw n refl;
        coherent = h;
        room = ne;
        disk = refl;
      }
      | inl y ↦
          let g = inode_read_data-Gives sb dir off dentry_size s v h ne small (omega arith) in
          let short : (length
                  (file_bytes s.disk dir.disk off (read_len dir.disk.size off dentry_size))
                == dentry_size)
              ≡ false =
            rw (length_bytes s.disk dir.disk off (read_len dir.disk.size off dentry_size))
              (ground arith) in
          record {
            result = g.result;
            after = g.after;
            runs = rw (y, g.runs, short) refl;
            coherent = g.coherent;
            room = g.room;
            disk = g.disk;
          }
    ]
scan-Gives (suc fuel) (suc n) sb dir off wanted s v h ne small lo hi enough =
    let more : ltb off dir.disk.size ≡ true = ground arith in
    let g = read_entry-Gives sb dir off s v h ne small (omega arith) in
    let entry = file_bytes s.disk dir.disk off dentry_size in
    let full : (length entry == dentry_size) ≡ true =
      rw (length_bytes s.disk dir.disk off dentry_size) refl in
    elim (Bool-cases (wanted entry)) [
      | inl y ↦ record {
        result = g.result;
        after = g.after;
        runs = rw (more, g.runs, full, y) refl;
        coherent = g.coherent;
        room = g.room;
        disk = g.disk;
      }
      | inr other ↦
          let next = add_u32-ok off dentry_size (omega arith) in
          let k =
            scan-Gives fuel n sb dir (off + dentry_size) wanted g.result g.after g.coherent g.room
              small (omega arith) (omega arith) (omega arith) in
          record {
            result = k.result;
            after = k.after;
            runs =
                rw (more, g.runs, full, other, next, k.runs)
                  (ap
                    (λ disk.
                      ok (find_entry n disk dir.disk (off + dentry_size) wanted, dir, k.result))
                    g.disk);
            coherent = k.coherent;
            room = k.room;
            disk = k.disk ∙ g.disk;
          }
    ]

-- With a coherent cache and an inactive buffer, and for a directory that ends a block before the end
-- of what a `u32` counts, `dentry_search` ends without a panic. Among the whole entries of 64 bytes of
-- the directory's file it gives the first that has the name: its first byte is not 0, and its first
-- 60 bytes are those of the name, with zeros behind or cut; what it gives is the number that the last
-- four bytes stand for, the lowest first. It gives none where no entry has the name. The inode and the
-- disk stay as they are, and the cache stays coherent.
pub dentry_search-Gives :
    (sb : SuperBlock) (dir : Inode) (name : List ℕ) (s : Store) (v : View)
    → Coherent s v
    → v.inactive ≢ []
    → dir.disk.size ≤ 2 ^ 32 - block_size
    → (found : Option ℕ) × FirstNamed (dir.disk.size / dentry_size) s.disk dir.disk name found
      × Gives s (dentry_search sb dir name s) (λ t. (found, dir, t))
unfolding dentry_search
dentry_search-Gives sb dir name s v h ne small =
    let n = dir.disk.size / dentry_size in
    let o = find_entry n s.disk dir.disk 0 (is_entry name) in
    let g =
      scan-Gives (scan_rounds dir) n sb dir 0 (is_entry name) s v h ne small (omega arith)
        (omega arith) (omega arith) in
    (
      found_inum o,
      FirstWanted-Named n s.disk dir.disk name o
          (find_entry-FirstWanted n s.disk dir.disk 0 0 (is_entry name) refl),
      record {
        result = g.result;
        after = g.after;
        runs = rw g.runs refl;
        coherent = g.coherent;
        room = g.room;
        disk = g.disk;
      },
    )

-- ===== src/Fs/Inode/Data/Reads.antt =====
-- `inode_read_data` of kernel/src/fs/inode.rs against the bytes of the file.
use glenda.Prelude.{
  ℕ, zero, suc, ◌+◌, ◌-◌, ◌/◌, ◌%◌, ◌^◌, ◌≤◌, ◌<◌, ◌≡◌, ◌≢◌, refl, ap, ◌∙◌, sym, subst, min, false,
  Bool-cases, inl, inr, [], ◌++◌, arith, leb, ltb, if◌then◌else◌, Outcome, ok,
}
use glenda.Fs.Buffer.Lru.{Block}
use glenda.Fs.Buffer.{Store}
use glenda.Fs.Buffer.View.{View}
use glenda.Fs.Buffer.Coherent.{Coherent}
use glenda.Fs.Bitmap.{SuperBlock, block_size}
use glenda.Fs.Bitmap.Taken.{add_u32-ok}
use glenda.Fs.Inode.{InodeDisk, Inode}
use glenda.Fs.Inode.Blocks.{block_of, Gives, locate_or_add_block-Gives}
use glenda.Fs.Inode.Data.{round_len, read_from, inode_read_data}
use glenda.Fs.Inode.Data.Rounds.{file_bytes, append_bytes, read_round-Gives}

-- The length of a round, and what is left.
abbrev round_of : ℕ → ℕ → ℕ
round_of off end = min (block_size - off % block_size) (end - off)

round_len-ok :
    (off end : ℕ)
    → off < end
    → end ≤ 2 ^ 32 - block_size
    → round_len off end ≡ ok (round_of off end)
unfolding round_len
round_len-ok off end more small = ground arith

joined_bytes :
    (disk1 disk2 disk : ℕ → Block) (d : InodeDisk) (a n m total : ℕ)
    → disk1 ≡ disk
    → disk2 ≡ disk
    → n + m ≡ total
    → file_bytes disk1 d a n ++ file_bytes disk2 d (a + n) m ≡ file_bytes disk d a total
joined_bytes disk1 disk2 disk d a n m total e1 e2 e =
    rw (e1, e2) (sym (append_bytes disk d a n m) ∙ ap (file_bytes disk d a) e)

-- The rounds from `off` to `end`, with rounds enough.
read_from-Gives :
    (fuel : ℕ) (sb : SuperBlock) (inode : Inode) (off end : ℕ) (s : Store) (v : View)
    → Coherent s v
    → v.inactive ≢ []
    → end ≤ 2 ^ 32 - block_size
    → end - off ≤ fuel
    → Gives s
        (read_from fuel sb inode off end s)
        (λ t. (file_bytes s.disk inode.disk off (end - off), inode, t))
unfolding read_from file_bytes
read_from-Gives zero sb inode off end s v h ne small enough =
    let done : ltb off end ≡ false = ground arith in
    let left : end - off ≡ 0 = omega arith in
    record {
      result = s;
      after = v;
      runs = rw (done, left) refl;
      coherent = h;
      room = ne;
      disk = refl;
    }
read_from-Gives (suc fuel) sb inode off end s v h ne small enough =
    elim (Bool-cases (ltb off end)) [
      | inr n ↦
          let left : end - off ≡ 0 = ground arith in
          record {
            result = s;
            after = v;
            runs = rw (n, left) refl;
            coherent = h;
            room = ne;
            disk = refl;
          }
      | inl more ↦
          let n = round_of off end in
          let d = inode.disk in
          let l = locate_or_add_block-Gives sb inode s v (off / block_size) h ne (ground arith) in
          let r =
            read_round-Gives d l.result l.after off n (block_of s.disk d (off / block_size))
              l.coherent l.room (ap (λ disk. block_of disk d (off / block_size)) l.disk)
              (omega arith) in
          let k =
            read_from-Gives fuel sb inode (off + n) end r.result r.after r.coherent r.room small
              (ground arith) in
          let len = round_len-ok off end (ground (arith, more)) small in
          let next = add_u32-ok off n (ground (arith, more)) in
          let bytes =
            joined_bytes l.result.disk r.result.disk s.disk d off n (end - (off + n)) (end - off)
              l.disk (r.disk ∙ l.disk) (ground (arith, more)) in
          record {
            result = k.result;
            after = k.after;
            runs =
                rw (more, len, l.runs, r.runs, next, k.runs)
                  (ap (λ b. ok (b, inode, k.result)) bytes);
            coherent = k.coherent;
            room = k.room;
            disk = k.disk ∙ r.disk ∙ l.disk;
          }
    ]

-- A run by another name.
Gives-of :
    {A : Type 0} (s : Store) (r r' : Outcome A) (f : Store → A)
    → r' ≡ r
    → Gives s r f
    → Gives s r' f
Gives-of s r r' f e g = record {
  result = g.result;
  after = g.after;
  runs = e ∙ g.runs;
  coherent = g.coherent;
  room = g.room;
  disk = g.disk;
}

read_all-Gives :
    (sb : SuperBlock) (inode : Inode) (off n : ℕ) (s : Store) (v : View)
    → Coherent s v
    → v.inactive ≢ []
    → off + n ≤ 2 ^ 32 - block_size
    → Gives s
        (read_from n sb inode off (off + n) s)
        (λ t. (file_bytes s.disk inode.disk off n, inode, t))
read_all-Gives sb inode off n s v h ne small =
    let left : off + n - off ≡ n = omega arith in
    subst
      (λ m.
        Gives s (read_from n sb inode off (off + n) s)
          (λ t. (file_bytes s.disk inode.disk off m, inode, t)))
      left (read_from-Gives n sb inode off (off + n) s v h ne small (omega arith))

-- The bytes that a read of `len` bytes gets.
abbrev pub read_len : ℕ → ℕ → ℕ → ℕ
read_len size off len = min len (size - off)

-- With a coherent cache and an inactive buffer, and for a file that ends a block before the end of
-- what a `u32` counts, `inode_read_data` ends without a panic, for every offset and length whose sum
-- fits a `u32`. It gives the bytes of the file from the offset on, up to the length or the end of the
-- file: those of the blocks that the inode and its indirect blocks on the disk name, and zeros where
-- there is no block. The inode and the disk stay as they are, and the cache stays coherent.
pub inode_read_data-Gives :
    (sb : SuperBlock) (inode : Inode) (off len : ℕ) (s : Store) (v : View)
    → Coherent s v
    → v.inactive ≢ []
    → inode.disk.size ≤ 2 ^ 32 - block_size
    → off + len < 2 ^ 32
    → Gives s
        (inode_read_data sb inode off len s)
        (λ t. (file_bytes s.disk inode.disk off (read_len inode.disk.size off len), inode, t))
unfolding inode_read_data file_bytes
inode_read_data-Gives sb inode off len s v h ne small fits =
    elim (Bool-cases (leb inode.disk.size off)) [
      | inl y ↦
          let left : read_len inode.disk.size off len ≡ 0 = ground (arith, y) in
          record {
            result = s;
            after = v;
            runs = rw (y, left) refl;
            coherent = h;
            room = ne;
            disk = refl;
          }
      | inr n ↦
          let got = read_len inode.disk.size off len in
          let sum = add_u32-ok off len fits in
          let is_got : (if ltb inode.disk.size (off + len) then inode.disk.size - off else len)
              ≡ got =
            ground (arith, n) in
          let end = add_u32-ok off got (omega arith) in
          Gives-of s (read_from got sb inode off (off + got) s) (inode_read_data sb inode off len s)
            (λ t. (file_bytes s.disk inode.disk off got, inode, t)) (rw (n, sum, is_got, end) refl)
            (read_all-Gives sb inode off got s v h ne (ground (arith, n)))
    ]

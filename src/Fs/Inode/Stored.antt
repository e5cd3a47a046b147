-- ===== src/Fs/Inode/Stored.antt =====
-- `inode_rw` of kernel/src/fs/inode.rs on the disk behind the buffer cache.
use glenda.Prelude.{
  ℕ, ◌+◌, ◌/◌, ◌^◌, ◌<◌, ◌≡◌, ◌≢◌, refl, ap, ◌∙◌, sym, subst, true, false, [], arith, ◌==◌,
  if◌then◌else◌, update, Bool-cases, inl, inr, ok,
}
use glenda.Fs.Buffer.Lru.{Block, LruCache}
use glenda.Fs.Buffer.{Store, read, release, get_data}
use glenda.Fs.Buffer.View.{View}
use glenda.Fs.Buffer.Coherent.{Coherent}
use glenda.Fs.Buffer.Coherent.Stores.{read_total, release_total}
use glenda.Fs.Buffer.Coherent.RoundTrip.{get_data-content}
use glenda.Fs.Bitmap.{SuperBlock, write_back}
use glenda.Fs.Bitmap.Taken.{write_back-Written, add_u32-ok}
use glenda.Fs.Inode.{InodeDisk, Inode, ipb, inode_offset, put_inode, get_inode, inode_rw}
use glenda.Fs.Inode.Layout.{IsInodeDisk, Same, Same-refl, get_inode-put_inode, get_inode-other}
use glenda.Fs.Inode.Blocks.{Gives}

abbrev block_no : SuperBlock → ℕ → ℕ
block_no sb inum = sb.inode_start + inum / ipb

-- An inode as it stands on a disk.
abbrev pub disk_inode : SuperBlock → (ℕ → Block) → ℕ → InodeDisk
disk_inode sb disk inum = get_inode (disk (block_no sb inum)) (inode_offset inum)

write_run :
    (sb : SuperBlock) (p : Inode) (s t u : Store) (b : ℕ) (block : Block)
    → block_no sb p.inode_num < 2 ^ 32
    → read s 0 (block_no sb p.inode_num) ≡ ok (t, b)
    → get_data t b ≡ ok block
    → write_back t b (put_inode block (inode_offset p.inode_num) p.disk) ≡ ok u
    → inode_rw sb p true s ≡ ok (p, u)
unfolding inode_rw
write_run sb p s t u b block small e f g =
    rw (add_u32-ok sb.inode_start (p.inode_num / ipb) small, e, f, g) refl

read_run :
    (sb : SuperBlock) (p : Inode) (s t : Store) (b : ℕ) (block : Block) (c : LruCache)
    → block_no sb p.inode_num < 2 ^ 32
    → read s 0 (block_no sb p.inode_num) ≡ ok (t, b)
    → get_data t b ≡ ok block
    → release t.cache b ≡ ok c
    → inode_rw sb p false s
      ≡ ok (record p { disk = get_inode block (inode_offset p.inode_num) }, record t { cache = c })
unfolding inode_rw
read_run sb p s t b block c small e f g =
    rw (add_u32-ok sb.inode_start (p.inode_num / ipb) small, e, f, g) refl

-- Reading an inode gives it as it stands on the disk.
pub read-Gives :
    (sb : SuperBlock) (p : Inode) (s : Store) (v : View)
    → Coherent s v
    → v.inactive ≢ []
    → block_no sb p.inode_num < 2 ^ 32
    → Gives s
        (inode_rw sb p false s)
        (λ t. (record p { disk = disk_inode sb s.disk p.inode_num }, t))
read-Gives sb p s v h ne small =
    let n = block_no sb p.inode_num in
    let (t, b, e, l) = read_total s v n h ne in
    let block : get_data t b ≡ ok (s.disk n) =
      get_data-content t l.after b l.coherent l.active ∙ ap ok l.content in
    let (c, x, f, k, o, q) = release_total t l.after b l.coherent l.active in
    record {
      result = record t { cache = c };
      after = x;
      runs = read_run sb p s t b (s.disk n) c small e block f;
      coherent = k;
      room = λ z. cc (q, z);
      disk = l.disk;
    }

-- A run that writes the inode.
pub record Wrote (sb : SuperBlock) (p : Inode) (s : Store) : Type 0 where
  pub result : Store
  pub after : View
  pub runs : inode_rw sb p true s ≡ ok (p, result)
  pub coherent : Coherent result after
  pub room : after.inactive ≢ []
  pub disk :
      result.disk
      ≡ update s.disk
          (block_no sb p.inode_num)
          (put_inode (s.disk (block_no sb p.inode_num)) (inode_offset p.inode_num) p.disk)

pub write-Wrote :
    (sb : SuperBlock) (p : Inode) (s : Store) (v : View)
    → Coherent s v
    → v.inactive ≢ []
    → block_no sb p.inode_num < 2 ^ 32
    → Wrote sb p s
write-Wrote sb p s v h ne small =
    let n = block_no sb p.inode_num in
    let (t, b, e, l) = read_total s v n h ne in
    let block : get_data t b ≡ ok (s.disk n) =
      get_data-content t l.after b l.coherent l.active ∙ ap ok l.content in
    let new = put_inode (s.disk n) (inode_offset p.inode_num) p.disk in
    let w = write_back-Written t l.after b new l.coherent l.active in
    record {
      result = w.result;
      after = w.after;
      runs = write_run sb p s t w.result b (s.disk n) small e block w.runs;
      coherent = w.coherent;
      room = w.room;
      disk =
          w.disk
          ∙ ap (λ (d : ℕ → Block). update d (l.after.buffers b).block_no new) l.disk
          ∙ ap (λ (m : ℕ). update s.disk m new) l.block_no;
    }

-- The inodes of a disk after one has been written there.
disk_inode-write :
    (sb : SuperBlock) (disk : ℕ → Block) (n inum : ℕ) (d : InodeDisk)
    → IsInodeDisk d
    → Same
        (disk_inode sb
          (update disk (block_no sb n) (put_inode (disk (block_no sb n)) (inode_offset n) d))
          inum)
        (if inum == n then d else disk_inode sb disk inum)
disk_inode-write sb disk n inum d fits = elim (Bool-cases (inum == n)) [
  | inl y ↦
      let e : inum ≡ n = ground (arith, y) in
      let same : (block_no sb n == block_no sb n) ≡ true = ground arith in
      rw (y, e, same) (get_inode-put_inode (disk (block_no sb n)) (inode_offset n) d fits)
  | inr n' ↦ elim (Bool-cases (block_no sb inum == block_no sb n)) [
    | inl y ↦
        let e : block_no sb inum ≡ block_no sb n = ground (arith, y) in
        rw (n', y)
          (subst
            (λ m.
              Same
                (get_inode (put_inode (disk (block_no sb n)) (inode_offset n) d)
                  (inode_offset inum))
                (get_inode (disk m) (inode_offset inum)))
            (sym e)
            (get_inode-other (disk (block_no sb n)) (inode_offset n) d (inode_offset inum)
              (ground (arith, n'))))
    | inr far ↦ rw (n', far) (Same-refl (disk_inode sb disk inum))
  ]
]

-- With a coherent cache and an inactive buffer, and for an inode whose fields fit their words,
-- writing the inode ends without a panic. Every inode that is read afterwards has the fields that
-- were written, where it has the same number, and else those that it had on the disk before, also
-- where it lies in the same block.
pub inode_rw-Same :
    (sb : SuperBlock) (p : Inode) (s : Store) (v : View)
    → Coherent s v
    → v.inactive ≢ []
    → IsInodeDisk p.disk
    → sb.inode_start + p.inode_num / ipb < 2 ^ 32
    → (t : Store) × (inode_rw sb p true s ≡ ok (p, t))
      × ((q : Inode)
          → sb.inode_start + q.inode_num / ipb < 2 ^ 32
          → (u : Store) × (d : InodeDisk) × (inode_rw sb q false t ≡ ok (record q { disk = d }, u))
            × Same d
                (if q.inode_num == p.inode_num then p.disk else disk_inode sb s.disk q.inode_num))
inode_rw-Same sb p s v h ne fits small =
    let w = write-Wrote sb p s v h ne small in
    (
      w.result,
      w.runs,
      λ q fine.
          let g = read-Gives sb q w.result w.after w.coherent w.room fine in
          (
            g.result,
            disk_inode sb w.result.disk q.inode_num,
            g.runs,
            subst
                (λ disk.
                  Same (disk_inode sb disk q.inode_num) (
                    if q.inode_num == p.inode_num
                    then p.disk
                    else disk_inode sb s.disk q.inode_num))
                (sym w.disk) (disk_inode-write sb s.disk p.inode_num q.inode_num p.disk fits),
          ),
    )

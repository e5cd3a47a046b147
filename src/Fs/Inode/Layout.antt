-- ===== src/Fs/Inode/Layout.antt =====
-- The bytes of an `InodeDisk` of kernel/src/fs/inode.rs in a block, and `inode_rw`, which copies them.
use glenda.Prelude.{
  ℕ, ◌+◌, ◌-◌, ◌*◌, ◌/◌, ◌%◌, ◌^◌, ◌≤◌, ◌<◌, ◌≡◌, refl, ◌∙◌, true, false, ◌&&◌, ◌||◌, arith, leb,
  ltb,
}
use glenda.Fs.Buffer.Lru.{Block}
use glenda.Fs.Inode.{
  InodeDisk, inode_size, get_u16, get_u32, byte_of, inode_byte, put_inode, get_inode,
}

-- The fields fit their words.
pub record IsInodeDisk (d : InodeDisk) : Type 0 where
  pub type_ : d.type_ < 2 ^ 16
  pub major : d.major < 2 ^ 16
  pub minor : d.minor < 2 ^ 16
  pub nlink : d.nlink < 2 ^ 16
  pub size : d.size < 2 ^ 32
  pub index : (i : ℕ) → i < 13 → d.index i < 2 ^ 32

-- The same fields, and the same 13 indices.
pub record Same (d e : InodeDisk) : Type 0 where
  pub type_ : d.type_ ≡ e.type_
  pub major : d.major ≡ e.major
  pub minor : d.minor ≡ e.minor
  pub nlink : d.nlink ≡ e.nlink
  pub size : d.size ≡ e.size
  pub index : (i : ℕ) → i < 13 → d.index i ≡ e.index i

join_u16 : (w : ℕ) → w < 2 ^ 16 → byte_of w 0 + byte_of w 1 * 256 ≡ w
join_u16 w h = omega arith

join_u32 :
    (w : ℕ)
    → w < 2 ^ 32
    → byte_of w 0 + byte_of w 1 * 256 + byte_of w 2 * 65536 + byte_of w 3 * 16777216 ≡ w
join_u32 w h = omega arith

module _ (b : Block) (offset : ℕ) (d : InodeDisk) where
  inside : (k : ℕ) → k < inode_size → put_inode b offset d (offset + k) ≡ inode_byte d k
  unfolding put_inode
  inside k h =
      let y : (leb offset (offset + k) && ltb (offset + k) (offset + inode_size)) ≡ true =
        ground arith in
      let e : offset + k - offset ≡ k = omega arith in rw (y, e) refl

  index_bytes :
      (i k : ℕ)
      → i < 13
      → k < 4
      → put_inode b offset d (offset + 12 + i * 4 + k) ≡ byte_of (d.index i) k
  unfolding inode_byte
  index_bytes i k hi hk =
      let e : offset + 12 + i * 4 + k ≡ offset + (12 + i * 4 + k) = omega arith in
      let far : (12 + i * 4 + k < 64) = omega arith in
      let n2 : ltb (12 + i * 4 + k) 2 ≡ false = ground arith in
      let n4 : ltb (12 + i * 4 + k) 4 ≡ false = ground arith in
      let n6 : ltb (12 + i * 4 + k) 6 ≡ false = ground arith in
      let n8 : ltb (12 + i * 4 + k) 8 ≡ false = ground arith in
      let n12 : ltb (12 + i * 4 + k) 12 ≡ false = ground arith in
      let q : (12 + i * 4 + k - 12) / 4 ≡ i = omega arith in
      let r : (12 + i * 4 + k - 12) % 4 ≡ k = omega arith in
      rw e (inside (12 + i * 4 + k) far ∙ (rw (inode_byte, n2, n4, n6, n8, n12, q, r) refl))

  at_byte : (a k : ℕ) → a ≡ offset + k → k < inode_size → put_inode b offset d a ≡ inode_byte d k
  at_byte a k e h = rw e (inside k h)

  half :
      (k w : ℕ)
      → k < 8
      → inode_byte d k ≡ byte_of w 0
      → inode_byte d (k + 1) ≡ byte_of w 1
      → w < 2 ^ 16
      → get_u16 (put_inode b offset d) (offset + k) ≡ w
  half k w low e0 e1 h =
      rw
        (
          at_byte (offset + k) k refl (omega arith),
          at_byte (offset + k + 1) (k + 1) (omega arith) (omega arith),
          e0,
          e1,
        )
        (join_u16 w h)

  index_word :
      (i : ℕ)
      → i < 13
      → d.index i < 2 ^ 32
      → get_u32 (put_inode b offset d) (offset + 12 + i * 4) ≡ d.index i
  index_word i hi h =
      let z : offset + 12 + i * 4 + 0 ≡ offset + 12 + i * 4 = omega arith in
      let b0 = rw z at (index_bytes i 0 hi (omega arith)) in
      rw
        (
          b0,
          index_bytes i 1 hi (omega arith),
          index_bytes i 2 hi (omega arith),
          index_bytes i 3 hi (omega arith),
        )
        (join_u32 (d.index i) h)

  size_word : d.size < 2 ^ 32 → get_u32 (put_inode b offset d) (offset + 8) ≡ d.size
  unfolding inode_byte
  size_word h =
      rw
        (
          at_byte (offset + 8) 8 refl (omega arith),
          at_byte (offset + 8 + 1) 9 (omega arith) (omega arith),
          at_byte (offset + 8 + 2) 10 (omega arith) (omega arith),
          at_byte (offset + 8 + 3) 11 (omega arith) (omega arith),
        )
        (join_u32 d.size h)

  -- An inode that is copied into a block is read back from there.
  pub get_inode-put_inode : IsInodeDisk d → Same (get_inode (put_inode b offset d) offset) d
  unfolding get_inode inode_byte
  get_inode-put_inode h =
      let z : offset + 0 ≡ offset = omega arith in
      record {
        type_ = rw z at (half 0 d.type_ (omega arith) refl refl h.type_);
        major = half 2 d.major (omega arith) refl refl h.major;
        minor = half 4 d.minor (omega arith) refl refl h.minor;
        nlink = half 6 d.nlink (omega arith) refl refl h.nlink;
        size = size_word h.size;
        index = λ i hi. index_word i hi (h.index i hi);
      }

  -- Outside of the copy, the block is as before.
  outside :
      (a : ℕ) → (leb offset a && ltb a (offset + inode_size)) ≡ false → put_inode b offset d a ≡ b a
  unfolding put_inode
  outside a e = rw e refl

  -- Another inode of the block, at an offset apart.
  pub get_inode-other :
      (other : ℕ)
      → (leb (other + inode_size) offset || leb (offset + inode_size) other) ≡ true
      → Same (get_inode (put_inode b offset d) other) (get_inode b other)
  unfolding get_inode
  get_inode-other other apart =
      let same : (a : ℕ) → other ≤ a → a < other + inode_size → put_inode b offset d a ≡ b a =
        λ a lo hi. outside a (ground (arith, apart)) in
      let half_same : (a : ℕ)
          → other ≤ a
          → a + 1 < other + inode_size
          → get_u16 (put_inode b offset d) a ≡ get_u16 b a =
        λ a lo hi.
          rw (same a (omega arith) (omega arith), same (a + 1) (omega arith) (omega arith)) refl in
      let word_same : (a : ℕ)
          → other ≤ a
          → a + 3 < other + inode_size
          → get_u32 (put_inode b offset d) a ≡ get_u32 b a =
        λ a lo hi.
          rw
            (
              same a (omega arith) (omega arith),
              same (a + 1) (omega arith) (omega arith),
              same (a + 2) (omega arith) (omega arith),
              same (a + 3) (omega arith) (omega arith),
            )
            refl in
      record {
        type_ = half_same other (omega arith) (omega arith);
        major = half_same (other + 2) (omega arith) (omega arith);
        minor = half_same (other + 4) (omega arith) (omega arith);
        nlink = half_same (other + 6) (omega arith) (omega arith);
        size = word_same (other + 8) (omega arith) (omega arith);
        index = λ i hi. word_same (other + 12 + i * 4) (omega arith) (omega arith);
      }

pub Same-refl : (d : InodeDisk) → Same d d
Same-refl d = record {
  type_ = refl;
  major = refl;
  minor = refl;
  nlink = refl;
  size = refl;
  index = λ i h. refl;
}

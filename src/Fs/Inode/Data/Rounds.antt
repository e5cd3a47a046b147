-- ===== src/Fs/Inode/Data/Rounds.antt =====
-- The bytes of a file, and one round of `inode_read_data` of kernel/src/fs/inode.rs.
use glenda.Prelude.{
  ℕ, zero, suc, ◌+◌, ◌*◌, ◌/◌, ◌%◌, ◌≤◌, ◌≡◌, ◌≢◌, refl, ap, ◌∙◌, sym, Option, none, some, List, [],
  ◌∷◌, ◌++◌, arith, ok,
}
use glenda.Fs.Buffer.Lru.{Block, LruCache}
use glenda.Fs.Buffer.{Store, read, release, get_data}
use glenda.Fs.Buffer.View.{View}
use glenda.Fs.Buffer.Coherent.{Coherent}
use glenda.Fs.Buffer.Coherent.Stores.{read_total, release_total}
use glenda.Fs.Buffer.Coherent.RoundTrip.{get_data-content}
use glenda.Fs.Bitmap.{block_size}
use glenda.Fs.Inode.{InodeDisk}
use glenda.Fs.Inode.Blocks.{block_of, Gives}
use glenda.Fs.Inode.Data.{block_bytes, zero_bytes, read_round}

-- The byte of a file at an offset: 0 where the file has no block.
abbrev pub block_byte : (ℕ → Block) → Option ℕ → ℕ → ℕ
block_byte disk none r = 0
block_byte disk (some blk) r = disk blk r

unfoldable pub file_bytes : (ℕ → Block) → InodeDisk → ℕ → ℕ → List ℕ
file_bytes disk d a zero = []
file_bytes disk d a (suc n) =
    block_byte disk (block_of disk d (a / block_size)) (a % block_size)
    ∷ file_bytes disk d (a + 1) n

pub append_bytes :
    (disk : ℕ → Block) (d : InodeDisk) (a n m : ℕ)
    → file_bytes disk d a (n + m) ≡ file_bytes disk d a n ++ file_bytes disk d (a + n) m
unfolding file_bytes
append_bytes disk d a zero m =
    let e : zero + m ≡ m = omega arith in let e' : a + zero ≡ a = omega arith in rw (e, e') refl
append_bytes disk d a (suc n) m =
    let e : suc n + m ≡ suc (n + m) = omega arith in
    let e' : a + suc n ≡ a + 1 + n = omega arith in rw (e, e', append_bytes disk d (a + 1) n m) refl

module _ (disk : ℕ → Block) (d : InodeDisk) (q : ℕ) where
  -- The bytes of a round, which lie in one block.
  page_bytes :
      (o : Option ℕ) (r n a : ℕ)
      → block_of disk d q ≡ o
      → a ≡ q * block_size + r
      → r + n ≤ block_size
      → file_bytes disk d a n
        ≡ (elim o [ none ↦ zero_bytes n | some blk ↦ block_bytes (disk blk) r n ])
  unfolding file_bytes block_bytes zero_bytes
  page_bytes none r zero a e ea h = refl
  page_bytes (some blk) r zero a e ea h = refl
  page_bytes none r (suc n) a e ea h =
      let eq : a / block_size ≡ q = omega arith in
      rw (file_bytes, eq, e, page_bytes none (r + 1) n (a + 1) e (omega arith) (omega arith)) refl
  page_bytes (some blk) r (suc n) a e ea h =
      let eq : a / block_size ≡ q = omega arith in
      let er : a % block_size ≡ r = omega arith in
      rw
        (
          file_bytes,
          eq,
          e,
          er,
          page_bytes (some blk) (r + 1) n (a + 1) e (omega arith) (omega arith),
        )
        refl

read_run :
    (off n blk : ℕ) (s t : Store) (b : ℕ) (block : Block) (c : LruCache)
    → read s 0 blk ≡ ok (t, b)
    → get_data t b ≡ ok block
    → release t.cache b ≡ ok c
    → read_round off n (some blk) s
      ≡ ok (block_bytes block (off % block_size) n, record t { cache = c })
unfolding read_round
read_run off n blk s t b block c e f g = rw (e, f, g) refl

pub read_round-Gives :
    (d : InodeDisk) (s : Store) (v : View) (off n : ℕ) (o : Option ℕ)
    → Coherent s v
    → v.inactive ≢ []
    → block_of s.disk d (off / block_size) ≡ o
    → off % block_size + n ≤ block_size
    → Gives s (read_round off n o s) (λ t. (file_bytes s.disk d off n, t))
unfolding read_round
read_round-Gives d s v off n none h ne found fits = record {
  result = s;
  after = v;
  runs =
      ap (λ bytes. ok (bytes, s))
        (sym (
          page_bytes s.disk d (off / block_size) none (off % block_size) n off found (omega arith)
            fits));
  coherent = h;
  room = ne;
  disk = refl;
}
read_round-Gives d s v off n (some blk) h ne found fits =
    let (t, b, e, l) = read_total s v blk h ne in
    let block : get_data t b ≡ ok (s.disk blk) =
      get_data-content t l.after b l.coherent l.active ∙ ap ok l.content in
    let (c, x, f, k, p, q) = release_total t l.after b l.coherent l.active in
    record {
      result = record t { cache = c };
      after = x;
      runs =
          read_run off n blk s t b (s.disk blk) c e block f
          ∙ ap (λ bytes. ok (bytes, record t { cache = c }))
              (sym (
                page_bytes s.disk d (off / block_size) (some blk) (off % block_size) n off found
                  (omega arith) fits));
      coherent = k;
      room = λ z. cc (q, z);
      disk = l.disk;
    }

-- ===== src/Fs/Bitmap/Taken.antt =====
-- `alloc` of kernel/src/fs/bitmap.rs on the disk behind the buffer cache.
use glenda.Prelude.{
  ◌/◌, ◌%◌, ◌||◌, ◌==◌, ℕ, ◌+◌, ◌*◌, ◌^◌, ◌<◌, ◌≡◌, ◌≢◌, refl, ap, ◌∙◌, true, false, some, [],
  arith, leb, has, update, Outcome, ok, add_u32,
}
use glenda.Fs.Buffer.Lru.{Block}
use glenda.Fs.Buffer.{Store, read, get_data}
use glenda.Fs.Buffer.View.{View}
use glenda.Fs.Buffer.Coherent.{Coherent}
use glenda.Fs.Buffer.Coherent.Stores.{write-Saved, read_total, release_total}
use glenda.Fs.Buffer.Coherent.RoundTrip.{get_data-content, save_block-Stored}
use glenda.Fs.Bitmap.Bits.{bit, bit-mark, IsLowestClear}
use glenda.Fs.Bitmap.Lowest.{find_free-lowest}
use glenda.Fs.Bitmap.{
  SuperBlock, block_size, find_free, mark, write_back, zeros, zero_block, take_bit, finish, alloc,
}

-- A run of `write_back` on an active buffer.
pub record Written (s : Store) (blockno : ℕ) (block : Block) (r : Outcome Store) : Type 0 where
  pub result : Store
  pub after : View
  pub runs : r ≡ ok result
  pub coherent : Coherent result after
  pub disk : result.disk ≡ update s.disk blockno block
  pub room : after.inactive ≢ []

pub write_back-Written :
    (s : Store) (v : View) (id : ℕ) (block : Block)
    → Coherent s v
    → has id v.active ≡ true
    → Written s (v.buffers id).block_no block (write_back s id block)
write_back-Written s v id block h active =
    let (u, e, w) = write-Saved s v h id active block in
    let (c, x, f, k, p, q) =
      release_total u w.after id w.coherent (ground (arith, w.active, active)) in
    record {
      result = record u { cache = c };
      after = x;
      runs = rw (e, f) refl;
      coherent = k;
      disk = w.disk;
      room = λ z. cc (q, z);
    }

-- A run of `alloc` at the bit `j` of the byte `i`.
record Ran (sb : SuperBlock) (s : Store) (i j : ℕ) : Type 0 where
  result : Store
  after : View
  runs : alloc sb s ≡ ok (sb.bmap_start + 1 + (i * 8 + j), result)
  coherent : Coherent result after
  room : after.inactive ≢ []
  disk :
      result.disk
      ≡ update
          (update s.disk sb.bmap_start (mark (s.disk sb.bmap_start) i j))
          (sb.bmap_start + 1 + (i * 8 + j))
          zeros

-- What `alloc` leaves: the bit `k` is set, its block is all zero, and nothing else on the disk changes.
pub record Taken (sb : SuperBlock) (s : Store) (k : ℕ) : Type 0 where
  pub result : Store
  pub after : View
  pub runs : alloc sb s ≡ ok (sb.bmap_start + 1 + k, result)
  pub coherent : Coherent result after
  pub room : after.inactive ≢ []
  pub bits :
      (n : ℕ) → bit (result.disk sb.bmap_start) n ≡ ((n == k) || bit (s.disk sb.bmap_start) n)
  pub zeroed : (a : ℕ) → result.disk (sb.bmap_start + 1 + k) a ≡ 0
  pub others :
      (b : ℕ)
      → (b == sb.bmap_start) ≡ false
      → (b == sb.bmap_start + 1 + k) ≡ false
      → result.disk b ≡ s.disk b

pub not_over : (n m : ℕ) → n < m → leb m n ≡ false
not_over n m h = ground arith

pub add_u32-ok : (a b : ℕ) → a + b < 2 ^ 32 → add_u32 a b ≡ ok (a + b)
add_u32-ok a b h = ground arith

take_bit-ok :
    (sb : SuperBlock) (t u z : Store) (b i j : ℕ) (bytes : Block)
    → i * 8 + j < sb.nblocks
    → sb.bmap_start + 1 + (i * 8 + j) < 2 ^ 32
    → write_back t b (mark bytes i j) ≡ ok u
    → zero_block u (sb.bmap_start + 1 + (i * 8 + j)) ≡ ok z
    → take_bit sb t b bytes (i, j) ≡ ok (sb.bmap_start + 1 + (i * 8 + j), z)
unfolding take_bit
take_bit-ok sb t u z b i j bytes inside small written zeroed =
    let start = sb.bmap_start in
    let limit = not_over (i * 8 + j) sb.nblocks inside in
    let one = add_u32-ok start 1 (omega arith) in
    let two = add_u32-ok (start + 1) (i * 8 + j) small in rw (limit, written, one, two, zeroed) refl

alloc-ok :
    (sb : SuperBlock) (s t z : Store) (b abs_block : ℕ) (bytes : Block) (place : ℕ × ℕ)
    → read s 0 sb.bmap_start ≡ ok (t, b)
    → get_data t b ≡ ok bytes
    → find_free block_size 0 bytes ≡ some place
    → take_bit sb t b bytes place ≡ ok (abs_block, z)
    → alloc sb s ≡ ok (abs_block, z)
unfolding alloc
alloc-ok sb s t z b abs_block bytes place e f g h = rw (e, f) (ap (finish sb t b bytes) g ∙ h)

alloc-Ran :
    (sb : SuperBlock) (s : Store) (v : View) (i j : ℕ)
    → Coherent s v
    → v.inactive ≢ []
    → find_free block_size 0 (s.disk sb.bmap_start) ≡ some (i, j)
    → i * 8 + j < sb.nblocks
    → sb.bmap_start + 1 + (i * 8 + j) < 2 ^ 32
    → Ran sb s i j
alloc-Ran sb s v i j h ne found inside small =
    let start = sb.bmap_start in
    let (t, b, e, l) = read_total s v start h ne in
    let bytes : get_data t b ≡ ok (s.disk start) =
      get_data-content t l.after b l.coherent l.active ∙ ap ok l.content in
    let w = write_back-Written t l.after b (mark (s.disk start) i j) l.coherent l.active in
    let z = save_block-Stored w.result w.after (start + 1 + (i * 8 + j)) zeros w.coherent w.room in
    record {
      result = z.result;
      after = z.after;
      runs =
          alloc-ok sb s t z.result b (start + 1 + (i * 8 + j)) (s.disk start) (i, j) e bytes found
            (take_bit-ok sb t w.result z.result b i j (s.disk start) inside small w.runs z.runs);
      coherent = z.coherent;
      room = z.room;
      disk =
          z.disk
          ∙ ap (λ (d : ℕ → Block). update d (start + 1 + (i * 8 + j)) zeros)
              (w.disk
                ∙ ap
                    (λ (d : ℕ → Block).
                      update d (l.after.buffers b).block_no (mark (s.disk start) i j))
                    l.disk
                ∙ ap (λ (n : ℕ). update s.disk n (mark (s.disk start) i j)) l.block_no);
    }

-- Where a buffer is inactive, `k` is the lowest clear bit of the bitmap's block and stands for one of
-- the data blocks, and that block's number fits `u32`: `alloc` returns the number. In the bitmap on
-- the disk the bit is set and the other bits are as before; the block is all zero; and the other
-- blocks are as before. The cache stays coherent, and some buffer is inactive again.
pub alloc-Taken :
    (sb : SuperBlock) (s : Store) (v : View) (k : ℕ)
    → Coherent s v
    → v.inactive ≢ []
    → IsLowestClear (s.disk sb.bmap_start) k
    → k < sb.nblocks
    → sb.bmap_start + 1 + k < 2 ^ 32
    → Taken sb s k
alloc-Taken sb s v k h ne low inside small =
    let start = sb.bmap_start in
    let place : k / 8 * 8 + k % 8 ≡ k = omega arith in
    let r =
      alloc-Ran sb s v (k / 8) (k % 8) h ne (find_free-lowest (s.disk start) k low)
        (omega (arith, inside)) (omega (arith, small)) in
    let disk : r.result.disk
        ≡ update (update s.disk start (mark (s.disk start) (k / 8) (k % 8))) (start + 1 + k) zeros =
      r.disk
      ∙ ap
          (λ (n : ℕ).
            update (update s.disk start (mark (s.disk start) (k / 8) (k % 8))) (start + 1 + n)
              zeros)
          place in
    let same : (start + 1 + k == start + 1 + k) ≡ true = ground arith in
    let here : (start == start) ≡ true = ground arith in
    let before : (start == start + 1 + k) ≡ false = ground arith in
    record {
      result = r.result;
      after = r.after;
      runs = r.runs ∙ ap (λ (n : ℕ). ok (start + 1 + n, r.result)) place;
      coherent = r.coherent;
      room = r.room;
      bits = λ n. rw (disk, before, here) (bit-mark (s.disk start) k n low.clear);
      zeroed = λ a. rw (disk, same) refl;
      others = λ b o q. rw (disk, q, o) refl;
    }

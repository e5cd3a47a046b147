-- ===== src/Fs/Bitmap/Cleared.antt =====
-- `free` of kernel/src/fs/bitmap.rs on the disk behind the buffer cache.
use glenda.Prelude.{
  refl, true, not, ◌&&◌, ◌*◌, ◌==◌, ℕ, ◌+◌, ◌-◌, ◌/◌, ◌%◌, ◌^◌, ◌≤◌, ◌<◌, ◌≡◌, ◌≢◌, ap, ◌∙◌, false,
  [], arith, leb, ltb, ◌||◌, update, ok,
}
use glenda.Fs.Buffer.Lru.{Block}
use glenda.Fs.Buffer.{Store, read, get_data}
use glenda.Fs.Buffer.View.{View}
use glenda.Fs.Buffer.Coherent.{Coherent}
use glenda.Fs.Buffer.Coherent.Stores.{read_total}
use glenda.Fs.Buffer.Coherent.RoundTrip.{get_data-content}
use glenda.Fs.Bitmap.Bits.{bit, bit-unmark, has_bit-clear}
use glenda.Fs.Bitmap.{block_size, SuperBlock, is_clear, unmark, write_back, clear_bit, free}
use glenda.Fs.Bitmap.Taken.{write_back-Written, add_u32-ok}

-- A run of `free`.
record Ran (sb : SuperBlock) (s : Store) (block_no : ℕ) : Type 0 where
  result : Store
  after : View
  runs : free sb block_no s ≡ ok result
  coherent : Coherent result after
  room : after.inactive ≢ []
  disk :
      result.disk
      ≡ update s.disk sb.bmap_start (unmark (s.disk sb.bmap_start) (block_no - (sb.bmap_start + 1)))

-- What `free` leaves: the bit `k` of the block is cleared, and nothing else on the disk changes.
pub record Cleared (sb : SuperBlock) (s : Store) (k : ℕ) : Type 0 where
  pub result : Store
  pub after : View
  pub runs : free sb (sb.bmap_start + 1 + k) s ≡ ok result
  pub coherent : Coherent result after
  pub room : after.inactive ≢ []
  pub bits :
      (n : ℕ) → bit (result.disk sb.bmap_start) n ≡ (not (n == k) && bit (s.disk sb.bmap_start) n)
  pub others : (b : ℕ) → (b == sb.bmap_start) ≡ false → result.disk b ≡ s.disk b

in_data :
    (first end block_no : ℕ)
    → first ≤ block_no
    → block_no < end
    → (ltb block_no first || leb end block_no) ≡ false
in_data first end block_no l m = ground arith

clear_bit-ok :
    (sb : SuperBlock) (s t u : Store) (b bit_idx : ℕ) (bytes : Block)
    → read s 0 sb.bmap_start ≡ ok (t, b)
    → get_data t b ≡ ok bytes
    → leb block_size (bit_idx / 8) ≡ false
    → is_clear (bytes (bit_idx / 8)) (bit_idx % 8) ≡ false
    → write_back t b (unmark bytes bit_idx) ≡ ok u
    → clear_bit sb s bit_idx ≡ ok u
unfolding clear_bit
clear_bit-ok sb s t u b bit_idx bytes e f fits g h = rw (e, f, fits, g) h

free-ok :
    (sb : SuperBlock) (s u : Store) (block_no : ℕ)
    → sb.bmap_start + 1 ≤ block_no
    → block_no < sb.bmap_start + 1 + sb.nblocks
    → sb.bmap_start + 1 + sb.nblocks < 2 ^ 32
    → clear_bit sb s (block_no - (sb.bmap_start + 1)) ≡ ok u
    → free sb block_no s ≡ ok u
unfolding free
free-ok sb s u block_no low high small h =
    let one = add_u32-ok sb.bmap_start 1 (omega arith) in
    let two = add_u32-ok (sb.bmap_start + 1) sb.nblocks small in
    let inside = in_data (sb.bmap_start + 1) (sb.bmap_start + 1 + sb.nblocks) block_no low high in
    rw (one, two, inside) h

free-Ran :
    (sb : SuperBlock) (s : Store) (v : View) (block_no : ℕ)
    → Coherent s v
    → v.inactive ≢ []
    → sb.bmap_start + 1 ≤ block_no
    → block_no < sb.bmap_start + 1 + sb.nblocks
    → sb.bmap_start + 1 + sb.nblocks < 2 ^ 32
    → leb block_size ((block_no - (sb.bmap_start + 1)) / 8) ≡ false
    → is_clear
        (s.disk sb.bmap_start ((block_no - (sb.bmap_start + 1)) / 8))
        ((block_no - (sb.bmap_start + 1)) % 8)
      ≡ false
    → Ran sb s block_no
free-Ran sb s v block_no h ne low high small fits set =
    let start = sb.bmap_start in
    let bit_idx = block_no - (start + 1) in
    let bits = s.disk start in
    let (t, b, e, l) = read_total s v start h ne in
    let bytes : get_data t b ≡ ok bits =
      get_data-content t l.after b l.coherent l.active ∙ ap ok l.content in
    let w = write_back-Written t l.after b (unmark bits bit_idx) l.coherent l.active in
    record {
      result = w.result;
      after = w.after;
      runs =
          free-ok sb s w.result block_no low high small
            (clear_bit-ok sb s t w.result b bit_idx bits e bytes fits set w.runs);
      coherent = w.coherent;
      room = w.room;
      disk =
          w.disk
          ∙ ap (λ (d : ℕ → Block). update d (l.after.buffers b).block_no (unmark bits bit_idx))
              l.disk
          ∙ ap (λ (n : ℕ). update s.disk n (unmark bits bit_idx)) l.block_no;
    }

-- Where a buffer is inactive, `k` is a bit of the bitmap's block that is set and stands for one of the
-- data blocks, whose numbers fit `u32`: `free` of that block returns. In the bitmap on the disk the bit
-- is cleared and the other bits are as before, and so are the other blocks. The cache stays coherent,
-- and some buffer is inactive again.
pub free-Cleared :
    (sb : SuperBlock) (s : Store) (v : View) (k : ℕ)
    → Coherent s v
    → v.inactive ≢ []
    → k < sb.nblocks
    → k < 8 * block_size
    → sb.bmap_start + 1 + sb.nblocks < 2 ^ 32
    → bit (s.disk sb.bmap_start) k ≡ true
    → Cleared sb s k
free-Cleared sb s v k h ne inside fits small set =
    let start = sb.bmap_start in
    let place : start + 1 + k - (start + 1) ≡ k = omega arith in
    let in_buffer : leb block_size ((start + 1 + k - (start + 1)) / 8) ≡ false =
      rw place (ground arith) in
    let busy : is_clear (s.disk start ((start + 1 + k - (start + 1)) / 8))
          ((start + 1 + k - (start + 1)) % 8)
        ≡ false =
      rw place (ground (arith, set, has_bit-clear (s.disk start (k / 8)) (k % 8))) in
    let r = free-Ran sb s v (start + 1 + k) h ne (omega arith) (omega arith) small in_buffer busy in
    let disk : r.result.disk ≡ update s.disk start (unmark (s.disk start) k) =
      r.disk ∙ ap (λ (n : ℕ). update s.disk start (unmark (s.disk start) n)) place in
    let here : (start == start) ≡ true = ground arith in
    record {
      result = r.result;
      after = r.after;
      runs = r.runs;
      coherent = r.coherent;
      room = r.room;
      bits = λ n. rw (disk, here) (bit-unmark (s.disk start) k n set);
      others = λ b o. rw (disk, o) refl;
    }

-- ===== src/Fs/Buffer.antt =====
-- kernel/src/fs/buffer/mod.rs: the buffer cache over a disk. A lock that a function takes and drops
-- is not a state of the model: one thread runs.
pub mod Lru
pub mod View
pub mod Refine
pub mod Invariant
pub mod Cached
pub mod Coherent
pub mod Nested
mod Tests
use glenda.Prelude.{
  ℕ, Bool, true, false, Option, none, some, ◌==◌, if◌then◌else◌, update, Outcome, ok, ◌>>=◌, expect,
  sub_u32,
}
use glenda.Fs.Buffer.Lru.{
  LruCache, Block, BufferId, buffer_id, set_buffer, find_active, find_inactive, promote_to_active,
  demote_to_inactive, recycle_lru, init,
}

-- `c.get_buffer_mut(id).locked = true`.
abbrev pub lock : LruCache → BufferId → LruCache
lock c id = set_buffer c id (record (c.buffers id) { locked = true })

get_inactive : LruCache → ℕ → ℕ → Option BufferId → Outcome (LruCache × BufferId)
get_inactive c dev blockno (some id) = do d ← promote_to_active c id; ok (lock d id, id)
get_inactive c dev blockno none = recycle_lru c dev blockno

get_active : LruCache → ℕ → ℕ → Option BufferId → Outcome (LruCache × BufferId)
unfolding get_inactive
get_active c dev blockno (some id) = ok (lock c id, id)
get_active c dev blockno none = do
  found ← find_inactive c dev blockno
  get_inactive c dev blockno found

unfoldable pub get : LruCache → ℕ → ℕ → Outcome (LruCache × BufferId)
unfolding get_active
get c dev blockno = do found ← find_active c dev blockno; get_active c dev blockno found

-- The cache, and the blocks of the disk by their number. The driver has no device number.
pub record Store : Type 0 where
  pub cache : LruCache
  pub disk : ℕ → Block

-- The buffer after `virtio::disk::rw(buf, blockno, false)`.
abbrev pub fill : Store → BufferId → ℕ → Store
fill s id blockno = record s {
  cache =
      set_buffer s.cache id
        (record (s.cache.buffers id) { content = s.disk blockno; valid = true });
}

unfoldable pub read : Store → ℕ → ℕ → Outcome (Store × ℕ)
read s dev blockno = do
  (c, id) ← get s.cache dev blockno
  let t = record s { cache = c }
  ok (if (c.buffers id).valid then t else fill t id blockno, id)

unfoldable pub write : Store → ℕ → Outcome Store
write s idx = do
  id ← expect (buffer_id idx)
  let b = s.cache.buffers id
  ok (record {
    cache = set_buffer s.cache id (record b { dirty = false });
    disk = update s.disk b.block_no b.content;
  })

unfoldable pub release : LruCache → ℕ → Outcome LruCache
release c idx = do
  id ← expect (buffer_id idx)
  n ← sub_u32 (c.buffers id).refcnt 1
  let d = set_buffer c id (record (c.buffers id) { refcnt = n; locked = false })
  ok (if n == 0 then demote_to_inactive d id else d)

-- Reads and writes through the pointer of `get_data_ptr`.
unfoldable pub get_data : Store → ℕ → Outcome Block
get_data s idx = do id ← expect (buffer_id idx); ok (s.cache.buffers id).content

unfoldable pub set_data : Store → ℕ → Block → Outcome Store
set_data s idx block = do
  id ← expect (buffer_id idx)
  ok (record s { cache = set_buffer s.cache id (record (s.cache.buffers id) { content = block }) })

unfoldable pub init_cache : Store → Store
init_cache s = record s { cache = init s.cache }

-- ===== src/Fs/Buffer/Lru/Rep.antt =====
-- What the two linked lists of lru.rs stand for: the active and the inactive buffers, in order.
use glenda.Prelude.{ℕ, ◌+◌, ◌<◌, ◌≡◌, true, false, ◌||◌, List, none, length, has, IsDistinct}
use glenda.Fs.Buffer.Lru.{LruCache, n_buffer}
use glenda.Fs.Buffer.Lru.Chain.{Chain}

-- The links spell two lists of distinct buffers with no buffer in common.
pub record Lists (c : LruCache) (xs ys : List ℕ) : Type 0 where
  pub active : Chain c.nodes none c.active_head xs
  pub inactive : Chain c.nodes none c.inactive_head ys
  pub distinct_active : IsDistinct xs
  pub distinct_inactive : IsDistinct ys
  pub apart : (a : ℕ) → has a xs ≡ true → has a ys ≡ false

-- The lists hold each of the `n_buffer` buffers once, and nothing else.
pub record Rep (c : LruCache) (xs ys : List ℕ) : Type 0 where
  pub lists : Lists c xs ys
  pub count : length xs + length ys ≡ n_buffer
  pub covers : (a : ℕ) → a < n_buffer → (has a xs || has a ys) ≡ true
  pub within : (a : ℕ) → (has a xs || has a ys) ≡ true → a < n_buffer

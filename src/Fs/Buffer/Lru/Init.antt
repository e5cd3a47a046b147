-- ===== src/Fs/Buffer/Lru/Init.antt =====
-- `init` chains all buffers into the inactive list.
use glenda.Prelude.{ℕ, zero, suc, ◌+◌, ◌≡◌, refl, List, [], ◌∷◌, arith, ltb, leb, ◌&&◌, has}
use glenda.Fs.Buffer.Lru.{LruCache, n_buffer, init}
use glenda.Fs.Buffer.Lru.Rep.{Rep}

-- `k`, `k + 1`, … with `n` entries.
abbrev pub range_from : ℕ → ℕ → List ℕ
range_from k zero = []
range_from k (suc n) = k ∷ range_from (k + 1) n

abbrev pub all_ids : List ℕ
all_ids = range_from 0 n_buffer

has-range_from : (a k n : ℕ) → has a (range_from k n) ≡ (leb k a && ltb a (k + n))
has-range_from a k zero = ground arith
has-range_from a k (suc n) = ground (arith, has-range_from a (k + 1) n)

-- After `init` the active list is empty and the inactive list holds all buffers in order.
pub init-Rep : (c : LruCache) → Rep (init c) [] all_ids
unfolding init
init-Rep c = record {
  lists = record {
    active = refl;
    inactive = ground arith;
    distinct_active = tt;
    distinct_inactive = ground arith;
    apart = λ a h. ground arith;
  };
  count = refl;
  covers = λ a h. ground (arith, has-range_from a 0 n_buffer);
  within = λ a h. ground (arith, has-range_from a 0 n_buffer);
}

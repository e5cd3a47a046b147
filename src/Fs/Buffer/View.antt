-- ===== src/Fs/Buffer/View.antt =====
-- The buffer cache as a client sees it: the buffers, and two lists of them in order of use.
use glenda.Prelude.{
  ℕ, true, false, Option, none, some, List, ◌∷◌, ◌==◌, if◌then◌else◌, update, erase, Outcome, ok,
  ◌>>=◌, add_u32, sub_u32, expect, assert,
}
use glenda.Fs.Buffer.Lru.{Buffer, BufferId, buffer_id, recycled}
use glenda.Fs.Buffer.Lru.Search.{first, last}

pub record View : Type 0 where
  pub buffers : ℕ → Buffer
  pub active : List ℕ
  pub inactive : List ℕ

-- The buffer `id` becomes `b` and the most recently used one of the active list.
abbrev pub to_active : View → BufferId → Buffer → View
to_active v id b = record {
  buffers = update v.buffers id b;
  active = id ∷ erase id v.active;
  inactive = erase id v.inactive;
}

abbrev pub to_inactive : View → BufferId → Buffer → View
to_inactive v id b = record {
  buffers = update v.buffers id b;
  active = erase id v.active;
  inactive = id ∷ erase id v.inactive;
}

-- What `get` does to the lists: a hit in the active list changes no order, a hit in the inactive
-- list moves the buffer, and a miss takes the last buffer of the inactive list.
unfoldable pub take_inactive : View → ℕ → ℕ → Option BufferId → Outcome (View × BufferId)
take_inactive v dev blockno (some id) = do
  n ← add_u32 (v.buffers id).refcnt 1
  ok (to_active v id (record (v.buffers id) { refcnt = n; locked = true }), id)
take_inactive v dev blockno none = do
  lru ← expect (last v.inactive)
  _ ← assert ((v.buffers lru).refcnt == 0)
  ok (to_active v lru (recycled dev blockno (v.buffers lru)), lru)

unfoldable pub take_active : View → ℕ → ℕ → Option BufferId → Outcome (View × BufferId)
unfolding take_inactive
take_active v dev blockno (some id) =
    ok (record v { buffers = update v.buffers id (record (v.buffers id) { locked = true }) }, id)
take_active v dev blockno none =
    take_inactive v dev blockno (first v.buffers dev blockno v.inactive)

unfoldable pub view_get : View → ℕ → ℕ → Outcome (View × BufferId)
unfolding take_active
view_get v dev blockno = take_active v dev blockno (first v.buffers dev blockno v.active)

unfoldable pub view_release : View → ℕ → Outcome View
view_release v idx = do
  id ← expect (buffer_id idx)
  n ← sub_u32 (v.buffers id).refcnt 1
  let b = record (v.buffers id) { refcnt = n; locked = false }
  ok (if n == 0 then to_inactive v id b else record v { buffers = update v.buffers id b })

-- ===== src/Fs/Buffer/Nested.antt =====
-- `get` of kernel/src/fs/buffer/mod.rs on a buffer that is in use.
use glenda.Prelude.{
  ℕ, ◌<◌, ◌≡◌, refl, inl, some, has-erase_self, true, false, arith, Outcome, ok, panic, stuck,
  update, has,
}
use glenda.Fs.Buffer.Lru.{LruCache, n_buffer, holds}
use glenda.Fs.Buffer.Lru.Search.{first}
use glenda.Fs.Buffer.{get, release}
use glenda.Fs.Buffer.View.{View, view_get, take_active}
use glenda.Fs.Buffer.Refine.{Refined, get-Refined}
use glenda.Fs.Buffer.Invariant.Moves.{keep-IsGood}
use glenda.Fs.Buffer.Cached.{Cached, ReleaseOutcome, release-Cached}

-- The view after a hit in the active list.
abbrev relocked : View → ℕ → View
relocked v id = record v { buffers = update v.buffers id (record (v.buffers id) { locked = true }) }

get_again_view :
    (v : View) (dev blockno id : ℕ)
    → first v.buffers dev blockno v.active ≡ some id
    → view_get v dev blockno ≡ ok (relocked v id, id)
unfolding view_get take_active
get_again_view v dev blockno id e = rw e

-- A second `get` of a block that is active returns the same buffer, and leaves its count at 1.
get_again :
    (c : LruCache) (v : View) (dev blockno id : ℕ)
    → Cached c v
    → has id v.active ≡ true
    → holds dev blockno (v.buffers id) ≡ true
    → (d : LruCache) × (get c dev blockno ≡ ok (d, id)) × Cached d (relocked v id)
get_again c v dev blockno id k i h = go (get c dev blockno) refl (rw seen at refined)
  where
    seen : view_get v dev blockno ≡ ok (relocked v id, id)
    seen = get_again_view v dev blockno id (ground (arith, k.good.found id i))

    refined : Refined (get c dev blockno) (view_get v dev blockno)
    refined = get-Refined c v dev blockno k.shows

    go :
        (x : Outcome (LruCache × ℕ))
        → get c dev blockno ≡ x
        → Refined x (ok (relocked v id, id))
        → (d : LruCache) × (get c dev blockno ≡ ok (d, id)) × Cached d (relocked v id)
    go (ok (d, j)) e (s, q) = (
      d,
      rw (← q) e,
      record { shows = s; good = keep-IsGood v id _ k.good refl refl refl (inl refl) },
    )
    go panic e p = elim p [ ]
    go stuck e p = elim p [ ]

release_once :
    (c : LruCache) (v : View) (id : ℕ)
    → Cached c v
    → has id v.active ≡ true
    → (d : LruCache) × (release c id ≡ ok d) × (release d id ≡ panic)
release_once c v id k i = go (release c id) refl (release-Cached c v id k bound)
  where
    bound : id < n_buffer
    bound = k.shows.rep.within id (ground arith)

    again : (d : LruCache) (w : View) → Cached d w → has id w.active ≡ false → release d id ≡ panic
    again d w kw o = stop (release d id) refl (release-Cached d w id kw bound)
      where
        stop :
            (x : Outcome LruCache) → release d id ≡ x → ReleaseOutcome w id x → release d id ≡ panic
        stop (ok x) e p = absurd (ground (arith, p.2.0))
        stop panic e p = e
        stop stuck e p = elim p [ ]

    go :
        (x : Outcome LruCache)
        → release c id ≡ x
        → ReleaseOutcome v id x
        → (d : LruCache) × (release c id ≡ ok d) × (release d id ≡ panic)
    go (ok d) e (w, kw, (a, g, l, m, s)) =
        (d, e, again d w kw (rw l (has-erase_self id v.active k.good.distinct_active)))
    go panic e p = absurd (cc p)
    go stuck e p = elim p [ ]

-- When one client gets a block that another holds, the count stays 1: the first release puts the
-- buffer into the inactive list, and the second panics.
pub release_twice :
    (c : LruCache) (v : View) (dev blockno id : ℕ)
    → Cached c v
    → has id v.active ≡ true
    → holds dev blockno (v.buffers id) ≡ true
    → (d e : LruCache) × (get c dev blockno ≡ ok (d, id))
      × (release d id ≡ ok e)
      × (release e id ≡ panic)
release_twice c v dev blockno id k i h =
    let (d, f, kd) = get_again c v dev blockno id k i h in
    let (e, r, p) = release_once d (relocked v id) id kd i in (d, e, f, r, p)

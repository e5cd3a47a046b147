-- ===== src/Fs/Buffer/Cached.antt =====
-- The cache with its linked lists and its invariant: what `get` and `release` promise.
use glenda.Prelude.{
  ℕ, ◌<◌, ◌≡◌, refl, inl, inr, false, none, [], arith, has, Outcome, ok, panic, stuck, Bool-cases,
}
use glenda.Fs.Buffer.Lru.{LruCache, n_buffer, init, new_cache}
use glenda.Fs.Buffer.Lru.Init.{all_ids, init-Rep}
use glenda.Fs.Buffer.Lru.Search.{first}
use glenda.Fs.Buffer.{get, release}
use glenda.Fs.Buffer.Refine.{Shows, Refined, RefinedCache, get-Refined, release-Refined, view}
use glenda.Fs.Buffer.View.{View, view_get, view_release}
use glenda.Fs.Buffer.Invariant.{IsGood}
use glenda.Fs.Buffer.Invariant.Calls.{
  Got, GetPost, ReleasePost, view_get-GetPost, release_active, release_idle,
}

-- The cache `c` is in a state that the view `v` describes.
pub record Cached (c : LruCache) (v : View) : Type 0 where
  pub shows : Shows c v
  pub good : IsGood v

abbrev pub GetOutcome : View → ℕ → ℕ → Outcome (LruCache × ℕ) → Type 0
GetOutcome v dev blockno (ok (c, id)) = (w : View) × Cached c w × Got v dev blockno w id
GetOutcome v dev blockno panic = (first v.buffers dev blockno v.active ≡ none) × (v.inactive ≡ [])
GetOutcome v dev blockno stuck = ⊥

abbrev pub ReleaseOutcome : View → ℕ → Outcome LruCache → Type 0
ReleaseOutcome v id (ok c) = (w : View) × Cached c w × ReleasePost v id (ok w)
ReleaseOutcome v id panic = has id v.active ≡ false
ReleaseOutcome v id stuck = ⊥

-- After `init` every buffer is inactive, and the invariant holds.
pub init-Cached : Cached (init new_cache) (view (init new_cache) [] all_ids)
unfolding init
init-Cached = record {
  shows = record { rep = init-Rep new_cache; same = refl };
  good = record {
    distinct_active = tt;
    distinct_inactive = ground arith;
    apart = λ a h. ground arith;
    pinned = λ a h. ground arith;
    idle = λ a h. refl;
    found = λ a h. ground arith;
    found_valid = λ a h w. ground arith;
  };
}

join_get :
    (v : View) (dev blockno : ℕ) (x : Outcome (LruCache × ℕ)) (y : Outcome (View × ℕ))
    → Refined x y
    → GetPost v dev blockno y
    → GetOutcome v dev blockno x
join_get v dev blockno (ok (c, id)) (ok (w, j)) r p =
    let got : Got v dev blockno w id = rw r.1 p in (w, record { shows = r.0; good = p.good }, got)
join_get v dev blockno panic panic r p = p
join_get v dev blockno (ok x) panic r p = elim r [ ]
join_get v dev blockno (ok x) stuck r p = elim r [ ]
join_get v dev blockno panic (ok y) r p = elim r [ ]
join_get v dev blockno panic stuck r p = elim r [ ]
join_get v dev blockno stuck y r p = elim r [ ]

-- `get` ends. It returns a locked buffer for the block, in a cache that keeps the invariant, or it
-- panics when no active buffer holds the block and no buffer is inactive.
pub get-Cached :
    (c : LruCache) (v : View) (dev blockno : ℕ)
    → Cached c v
    → GetOutcome v dev blockno (get c dev blockno)
get-Cached c v dev blockno k =
    join_get v dev blockno (get c dev blockno) (view_get v dev blockno)
      (get-Refined c v dev blockno k.shows) (view_get-GetPost v dev blockno k.good)

join_release :
    (v : View) (id : ℕ) (x : Outcome LruCache) (y : Outcome View)
    → RefinedCache x y
    → ReleasePost v id y
    → ReleaseOutcome v id x
join_release v id (ok c) (ok w) r p = (w, record { shows = r; good = p.1 }, p)
join_release v id panic panic r p = p
join_release v id (ok x) panic r p = elim r [ ]
join_release v id (ok x) stuck r p = elim r [ ]
join_release v id panic (ok y) r p = elim r [ ]
join_release v id panic stuck r p = elim r [ ]
join_release v id stuck y r p = elim r [ ]

-- `release` of one of the buffers ends. An active buffer goes to the front of the inactive list with
-- a count of 0, and on an inactive one it panics.
pub release-Cached :
    (c : LruCache) (v : View) (id : ℕ)
    → Cached c v
    → id < n_buffer
    → ReleaseOutcome v id (release c id)
release-Cached c v id k h =
    join_release v id (release c id) (view_release v id) (release-Refined c v id k.shows)
      (elim (Bool-cases (has id v.active)) [
        | inl a ↦ release_active v id k.good a h
        | inr o ↦ release_idle v id k.good o (ground (arith, k.shows.rep.covers id h))
      ])

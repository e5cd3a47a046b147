-- ===== src/Fs/Buffer/Coherent.antt =====
-- The cache and the disk: what `read`, `write` and `release` of kernel/src/fs/buffer/mod.rs promise.
pub mod Stores
pub mod RoundTrip
use glenda.Prelude.{
  subst, ℕ, suc, ◌+◌, ◌-◌, ◌^◌, ◌<◌, ◌≡◌, ◌≢◌, refl, sym, ◌∙◌, ap, ◌⊎◌, inl, inr, Bool, true, false,
  ◌||◌, ◌&&◌, Option, none, some, List, [], ◌∷◌, arith, ◌==◌, ltb, leb, if◌then◌else◌, has, erase,
  IsDistinct, update, Outcome, ok, panic, stuck, Bool-cases, Option-cases, ◌>>=◌,
}
use glenda.Fs.Buffer.Lru.{
  LruCache, Buffer, Block, n_buffer, buffer_id, holds, set_buffer, init, new_cache,
}
use glenda.Fs.Buffer.Lru.Init.{all_ids}
use glenda.Fs.Buffer.Lru.Search.{first, last}
use glenda.Fs.Buffer.{Store, get, read, write, set_data, get_data, release, fill, init_cache}
use glenda.Fs.Buffer.Refine.{Shows, Refined, get-Refined, Rep-set_buffer, view}
use glenda.Fs.Buffer.View.{View, view_get, take_active, take_inactive}
use glenda.Fs.Buffer.Invariant.{IsGood, IsFirst, IsAbsent}
use glenda.Fs.Buffer.Invariant.Moves.{keep-IsGood}
use glenda.Fs.Buffer.Invariant.Calls.{Got}
use glenda.Fs.Buffer.Cached.{Cached, GetOutcome, get-Cached, init-Cached}

-- Every valid buffer holds what its block holds on the disk, and all blocks are of device 0.
pub record Coherent (s : Store) (v : View) : Type 0 where
  pub cached : Cached s.cache v
  pub clean :
      (a : ℕ)
      → a < n_buffer
      → (v.buffers a).valid ≡ true
      → (v.buffers a).content ≡ s.disk (v.buffers a).block_no
  pub one_device : (a : ℕ) → a < n_buffer → (v.buffers a).dev ≡ 0

pub keep-Cached :
    (c : LruCache) (v : View) (id : ℕ) (n : Buffer)
    → Cached c v
    → n.dev ≡ (v.buffers id).dev
    → n.block_no ≡ (v.buffers id).block_no
    → n.refcnt ≡ (v.buffers id).refcnt
    → (n.valid ≡ (v.buffers id).valid) ⊎ (has id v.active ≡ true)
    → Cached (set_buffer c id n) (record v { buffers = update v.buffers id n })
keep-Cached c v id n k ed eb er ev = record {
  shows = record {
    rep = Rep-set_buffer c id n v.active v.inactive k.shows.rep;
    same = ap (λ b. update b id n) k.shows.same;
  };
  good = keep-IsGood v id n k.good ed eb er ev;
}

-- The block is in no active buffer, and no buffer is inactive.
abbrev pub Exhausted : View → ℕ → Type 0
Exhausted v blockno = (first v.buffers 0 blockno v.active ≡ none) × (v.inactive ≡ [])

-- The buffer `id` holds the block `blockno` as it stands on the disk.
pub record Loaded (s : Store) (v : View) (blockno : ℕ) (t : Store) (id : ℕ) : Type 0 where
  pub after : View
  pub coherent : Coherent t after
  pub disk : t.disk ≡ s.disk
  pub active : has id after.active ≡ true
  pub block_no : (after.buffers id).block_no ≡ blockno
  pub valid : (after.buffers id).valid ≡ true
  pub content : (after.buffers id).content ≡ s.disk blockno

module _ (s : Store) (v w : View) (blockno : ℕ) (c : LruCache) (id : ℕ) (h : Coherent s v)
    (k : Cached c w) (got : Got v 0 blockno w id) where
  inside : id < n_buffer
  inside = k.shows.rep.within id (ground (arith, got.active))

  named_block : (w.buffers id).block_no ≡ blockno
  named_block = ground (arith, got.named)

  one_device_after : (a : ℕ) → a < n_buffer → (w.buffers a).dev ≡ 0
  one_device_after a b = ground (arith, got.named, got.rest a, h.one_device a b)

  clean_after :
      (a : ℕ)
      → a < n_buffer
      → (w.buffers a).valid ≡ true
      → (w.buffers a).content ≡ s.disk (w.buffers a).block_no
  clean_after a b e = elim (Bool-cases (a == id)) [
    | inr o ↦ rw (got.rest a o) (h.clean a b (rw (got.rest a o) at e))
    | inl i ↦ ground (arith, got.fresh, h.clean a b)
  ]

  -- The buffer held the block already.
  hit-Loaded : (w.buffers id).valid ≡ true → Loaded s v blockno (record s { cache = c }) id
  hit-Loaded e = record {
    after = w;
    coherent = record { cached = k; clean = clean_after; one_device = one_device_after };
    disk = refl;
    active = got.active;
    block_no = named_block;
    valid = e;
    content = clean_after id inside e ∙ ap s.disk named_block;
  }

  -- The block is read from the disk.
  fill-Loaded : Loaded s v blockno (fill (record s { cache = c }) id blockno) id
  fill-Loaded =
      let n = record (c.buffers id) { content = s.disk blockno; valid = true } in
      let e = ap (λ (f : ℕ → Buffer). f id) k.shows.same in
      let eb : n.block_no ≡ blockno = ground (arith, named_block, e) in
      record {
        after = record w { buffers = update w.buffers id n };
        coherent = record {
          cached =
              keep-Cached c w id n k (ground (arith, e)) (ground (arith, e)) (ground (arith, e))
                (inr got.active);
          clean = λ a b t. ground (arith, clean_after a b, ap s.disk eb);
          one_device = λ a b. ground (arith, one_device_after a b, e);
        };
        disk = refl;
        active = got.active;
        block_no = ground (arith, eb);
        valid = ground arith;
        content = ground arith;
      }

abbrev pub ReadOutcome : Store → View → ℕ → Outcome (Store × ℕ) → Type 0
ReadOutcome s v blockno (ok (t, id)) = Loaded s v blockno t id × (Exhausted v blockno → ⊥)
ReadOutcome s v blockno panic = Exhausted v blockno
ReadOutcome s v blockno stuck = ⊥

Refined-panic : (x : Outcome (LruCache × ℕ)) → Refined x panic → x ≡ panic
Refined-panic (ok x) r = elim r [ ]
Refined-panic panic r = refl
Refined-panic stuck r = elim r [ ]

-- Without a buffer to take, `get` panics.
get-Exhausted :
    (c : LruCache) (v : View) (blockno : ℕ)
    → Shows c v
    → Exhausted v blockno
    → get c 0 blockno ≡ panic
unfolding view_get take_active take_inactive
get-Exhausted c v blockno shows e =
    let none_idle : view_get v 0 blockno ≡ panic = rw (e.0, e.1) refl in
    Refined-panic (get c 0 blockno)
      (subst (Refined (get c 0 blockno)) none_idle (get-Refined c v 0 blockno shows))

finish_read :
    (s : Store) (v : View) (blockno : ℕ) (x : Outcome (LruCache × ℕ))
    → Coherent s v
    → (Exhausted v blockno → x ≡ panic)
    → GetOutcome v 0 blockno x
    → ReadOutcome s v blockno (
        x >>= λ (c, id).
        let t = record s { cache = c } in
        ok (if (c.buffers id).valid then t else fill t id blockno, id))
finish_read s v blockno (ok (c, id)) h taken (w, k, got) =
    let room : Exhausted v blockno → ⊥ = λ e. cc (taken e) in
    elim (Bool-cases ((c.buffers id).valid)) [
      | inl e ↦
          let e' = ap (λ (f : ℕ → Buffer). f id) k.shows.same in
          rw e (hit-Loaded s v w blockno c id h k got (ground (arith, e')), room)
      | inr e ↦ rw e (fill-Loaded s v w blockno c id h k got, room)
    ]
finish_read s v blockno panic h taken p = p
finish_read s v blockno stuck h taken p = p

-- `read` of a block of device 0 ends. It panics exactly when the block is in no active buffer and no
-- buffer is inactive. Else it returns the index of an active, valid buffer that holds the block as it
-- stands on the disk, and keeps the cache coherent and the disk as it was.
pub read-Loaded :
    (s : Store) (v : View) (blockno : ℕ) → Coherent s v → ReadOutcome s v blockno (read s 0 blockno)
unfolding read
read-Loaded s v blockno h =
    finish_read s v blockno (get s.cache 0 blockno) h
      (get-Exhausted s.cache v blockno h.cached.shows) (get-Cached s.cache v 0 blockno h.cached)

-- After `init` the cache of a new system is coherent with any disk, and all buffers are inactive.
pub init-Coherent :
    (disk : ℕ → Block)
    → Coherent
        (init_cache (record { cache = new_cache; disk = disk }))
        (view (init new_cache) [] all_ids)
unfolding init_cache init
init-Coherent disk = record {
  cached = init-Cached;
  clean = λ a h e. ground arith;
  one_device = λ a h. refl;
}

-- ===== src/Fs/Buffer/Coherent/Stores.antt =====
-- A client of kernel/src/fs/buffer/mod.rs that fills a buffer and calls `write`.
use glenda.Prelude.{
  ℕ, ◌<◌, ◌≡◌, ◌≢◌, refl, ap, inl, inr, true, false, [], ◌∷◌, arith, ◌==◌, ltb, has, erase, update,
  Outcome, ok, panic, stuck, Bool-cases, ◌>>=◌, ==_refl,
}
use glenda.Fs.Buffer.Lru.{LruCache, Buffer, Block, n_buffer, buffer_id, set_buffer}
use glenda.Fs.Buffer.{Store, read, write, set_data, release}
use glenda.Fs.Buffer.View.{View}
use glenda.Fs.Buffer.Cached.{Cached, ReleaseOutcome, release-Cached}
use glenda.Fs.Buffer.Coherent.{Coherent, keep-Cached, Loaded, ReadOutcome, read-Loaded}

-- A client fills the buffer and writes it out.
abbrev pub put_data : Store → ℕ → Block → Outcome Store
put_data s id block = do u ← set_data s id block; write u id

-- The state after a client has put `block` into the buffer `id` and written it out.
pub record Saved (s : Store) (v : View) (id : ℕ) (block : Block) (t : Store) : Type 0 where
  pub after : View
  pub coherent : Coherent t after
  pub disk : t.disk ≡ update s.disk (v.buffers id).block_no block
  pub active : after.active ≡ v.active
  pub inactive : after.inactive ≡ v.inactive

module _ (s : Store) (v : View) (h : Coherent s v) (id : ℕ) (inside : has id v.active ≡ true)
    (block : Block) where
  bound : id < n_buffer
  bound = h.cached.shows.rep.within id (ground arith)

  -- No other valid buffer holds the same block.
  other_block :
      (a : ℕ)
      → a < n_buffer
      → (a == id) ≡ false
      → (v.buffers a).valid ≡ true
      → ((v.buffers a).block_no == (v.buffers id).block_no) ≡ false
  other_block a b o e = elim (Bool-cases ((v.buffers a).block_no == (v.buffers id).block_no)) [
    | inr n ↦ n
    | inl q ↦
        let good = h.cached.good in
        let da = h.one_device a b in
        let di = h.one_device id bound in
        let here = good.found id inside in
        let placed = h.cached.shows.rep.covers a b in
        let same : (v.buffers a).block_no ≡ (v.buffers id).block_no = ground arith in
        absurd (elim (Bool-cases (has a v.active)) [
          | inl i ↦ ground (arith, good.found a i, here)
          | inr i ↦ ground (arith, good.found_valid a (ground arith) e, here)
        ])
  ]

  abbrev b : Buffer
  b = s.cache.buffers id

  abbrev filled : Buffer
  filled = record b { content = block }

  abbrev saved : Store
  saved = record {
    cache = set_buffer (set_buffer s.cache id filled) id (record filled { dirty = false });
    disk = update s.disk b.block_no block;
  }

  abbrev saved_view : View
  saved_view = record v {
    buffers = update (update v.buffers id filled) id (record filled { dirty = false });
  }

  same_buffer : b ≡ v.buffers id
  same_buffer = ap (λ (f : ℕ → Buffer). f id) h.cached.shows.same

  runs : put_data s id block ≡ ok saved
  unfolding set_data write buffer_id
  runs = let below : ltb id n_buffer ≡ true = ground (arith, bound) in rw (below, ==_refl id)

  saved-Cached : Cached saved.cache saved_view
  saved-Cached =
      let e = same_buffer in
      let one =
        keep-Cached s.cache v id filled h.cached (ground (arith, e)) (ground (arith, e))
          (ground (arith, e)) (inl (ground (arith, e))) in
      keep-Cached _ _ id (record filled { dirty = false }) one (ground arith) (ground arith)
        (ground arith) (inl (ground arith))

  saved-Saved : Saved s v id block saved
  saved-Saved =
      let e = same_buffer in
      let eb = ap (λ (x : Buffer). x.block_no) e in
      record {
        after = saved_view;
        coherent = record {
          cached = saved-Cached;
          clean = λ a w t. elim (Bool-cases (a == id)) [
            | inl q ↦ ground (arith, eb)
            | inr o ↦ ground (arith, h.clean a w, other_block a w o, eb)
          ];
          one_device = λ a w. ground (arith, h.one_device a w, e);
        };
        disk = rw eb;
        active = refl;
        inactive = refl;
      }

  -- A client that fills an active buffer and calls `write` gets no panic, sets the buffer's block on
  -- the disk and no other, and leaves a coherent cache with the lists unchanged.
  pub write-Saved : (t : Store) × (put_data s id block ≡ ok t) × Saved s v id block t
  write-Saved = (saved, runs, saved-Saved)

-- The sequence by which the file system stores a block.
abbrev pub save_block : Store → ℕ → Block → Outcome Store
save_block s blockno block = do
  (t, id) ← read s 0 blockno
  u ← put_data t id block
  c ← release u.cache id
  ok (record u { cache = c })

-- A read succeeds while some buffer is inactive.
pub read_total :
    (s : Store) (v : View) (blockno : ℕ)
    → Coherent s v
    → v.inactive ≢ []
    → (t : Store) × (id : ℕ) × (read s 0 blockno ≡ ok (t, id)) × Loaded s v blockno t id
read_total s v blockno h ne = go (read s 0 blockno) refl (read-Loaded s v blockno h)
  where
    go :
        (x : Outcome (Store × ℕ))
        → read s 0 blockno ≡ x
        → ReadOutcome s v blockno x
        → (t : Store) × (id : ℕ) × (read s 0 blockno ≡ ok (t, id)) × Loaded s v blockno t id
    go (ok (t, id)) e l = (t, id, e, l.0)
    go panic e l = absurd (ne l.1)
    go stuck e l = elim l [ ]

-- The release of an active buffer succeeds and keeps the cache coherent.
pub release_total :
    (s : Store) (v : View) (id : ℕ)
    → Coherent s v
    → has id v.active ≡ true
    → (c : LruCache) × (w : View) × (release s.cache id ≡ ok c)
      × Coherent (record s { cache = c }) w
      × (w.active ≡ erase id v.active)
      × (w.inactive ≡ id ∷ v.inactive)
release_total s v id h i =
    go (release s.cache id) refl
      (release-Cached s.cache v id h.cached (h.cached.shows.rep.within id (ground arith)))
  where
    go :
        (x : Outcome LruCache)
        → release s.cache id ≡ x
        → ReleaseOutcome v id x
        → (c : LruCache) × (w : View) × (release s.cache id ≡ ok c)
          × Coherent (record s { cache = c }) w
          × (w.active ≡ erase id v.active)
          × (w.inactive ≡ id ∷ v.inactive)
    go (ok c) e (w, k, (a, g, l, m, same)) = (
      c,
      w,
      e,
      record {
        cached = k;
        clean = λ a b t. ground (arith, h.clean a b, same a);
        one_device = λ a b. ground (arith, h.one_device a b, same a);
      },
      l,
      m,
    )
    go panic e l = absurd (cc l)
    go stuck e l = elim l [ ]

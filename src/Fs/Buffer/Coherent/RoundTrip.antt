-- ===== src/Fs/Buffer/Coherent/RoundTrip.antt =====
-- `read`, `write`, `release` and again `read` of kernel/src/fs/buffer/mod.rs.
use glenda.Prelude.{
  ℕ, ◌≡◌, ◌≢◌, [], arith, ◌==◌, if◌then◌else◌, ok, ap, ◌∙◌, update, has, true, ltb,
}
use glenda.Fs.Buffer.Lru.{Block, Buffer, n_buffer, buffer_id}
use glenda.Fs.Buffer.{Store, read, get_data}
use glenda.Fs.Buffer.View.{View}
use glenda.Fs.Buffer.Coherent.{Coherent}
use glenda.Fs.Buffer.Coherent.Stores.{write-Saved, save_block, read_total, release_total}

-- A run of `save_block`, and the state it ends in.
pub record Stored (s : Store) (blockno : ℕ) (block : Block) : Type 0 where
  pub result : Store
  pub after : View
  pub runs : save_block s blockno block ≡ ok result
  pub coherent : Coherent result after
  pub disk : result.disk ≡ update s.disk blockno block
  pub room : after.inactive ≢ []

pub save_block-Stored :
    (s : Store) (v : View) (blockno : ℕ) (block : Block)
    → Coherent s v
    → v.inactive ≢ []
    → Stored s blockno block
save_block-Stored s v blockno block h ne =
    let (t, id, e, l) = read_total s v blockno h ne in
    let (u, e', w) = write-Saved t l.after l.coherent id l.active block in
    let (c, x, f, k, p, q) =
      release_total u w.after id w.coherent (ground (arith, w.active, l.active)) in
    record {
      result = record u { cache = c };
      after = x;
      runs = rw (e, e', f);
      coherent = k;
      disk =
          w.disk
          ∙ ap (λ (d : ℕ → Block). update d (l.after.buffers id).block_no block) l.disk
          ∙ ap (λ (n : ℕ). update s.disk n block) l.block_no;
      room = λ z. cc (q, z);
    }

pub get_data-content :
    (s : Store) (v : View) (id : ℕ)
    → Coherent s v
    → has id v.active ≡ true
    → get_data s id ≡ ok (v.buffers id).content
unfolding get_data buffer_id
get_data-content s v id h i =
    let below : ltb id n_buffer ≡ true =
      ground (arith, h.cached.shows.rep.within id (ground arith)) in
    let e = ap (λ (f : ℕ → Buffer). f id) h.cached.shows.same in rw (below, e)

-- While a buffer is inactive, storing a block succeeds, and each later read returns a buffer that
-- holds the stored block or, for any other block number, what the disk held before.
pub read-save_block :
    (s : Store) (v : View) (blockno : ℕ) (block : Block)
    → Coherent s v
    → v.inactive ≢ []
    → (t : Store) × (save_block s blockno block ≡ ok t)
      × ((n : ℕ)
          → (u : Store) × (id : ℕ) × (read t 0 n ≡ ok (u, id))
            × (get_data u id ≡ ok (if n == blockno then block else s.disk n)))
read-save_block s v blockno block h ne =
    let st = save_block-Stored s v blockno block h ne in
    (
      st.result,
      st.runs,
      λ n.
          let (u, id, e, l) = read_total st.result st.after n st.coherent st.room in
          (
            u,
            id,
            e,
            get_data-content u l.after id l.coherent l.active
                ∙ ap ok (l.content ∙ ap (λ (d : ℕ → Block). d n) st.disk),
          ),
    )

-- ===== src/Fs/Buffer/Tests.antt =====
-- The theorems on the buffer cache at concrete inputs.
use glenda.Prelude.{ℕ, ◌≡◌, refl, [], ◌∷◌, arith, ◌==◌, if◌then◌else◌, ok, ◌>>=◌, panic, erase}
use glenda.Fs.Buffer.Lru.{
  LruCache, Block, set_buffer, recycled, new_cache, init, insert_active_head, insert_inactive_head,
  remove_node, recycle_lru, get_lru, find_active, find_inactive, promote_to_active,
  demote_to_inactive, buffer_id,
}
use glenda.Fs.Buffer.Lru.Init.{all_ids, init-Rep}
use glenda.Fs.Buffer.Lru.Insert.{insert_active_head-Rep}
use glenda.Fs.Buffer.Lru.Rep.{Rep}
use glenda.Fs.Buffer.{Store, get, read, release, init_cache, get_data}
use glenda.Fs.Buffer.View.{View, view_get, view_release, to_active}
use glenda.Fs.Buffer.Refine.{
  view, Shows-to_active, Refined, get-Refined, RefinedCache, release-Refined,
}
use glenda.Fs.Buffer.Invariant.Moves.{to_active-IsGood}
use glenda.Fs.Buffer.Cached.{
  Cached, init-Cached, GetOutcome, get-Cached, ReleaseOutcome, release-Cached,
}
use glenda.Fs.Buffer.Coherent.{Coherent, init-Coherent, ReadOutcome, read-Loaded}
use glenda.Fs.Buffer.Coherent.Stores.{save_block}
use glenda.Fs.Buffer.Coherent.RoundTrip.{read-save_block}
use glenda.Fs.Buffer.Nested.{release_twice}

abbrev cold : LruCache
cold = init new_cache

abbrev cold_view : View
cold_view = view cold [] all_ids

-- One buffer in use, for block 5 of device 0.
abbrev warm : LruCache
warm = insert_active_head (set_buffer cold 31 (recycled 0 5 (cold.buffers 31))) 31

abbrev warm_view : View
warm_view = to_active cold_view 31 (recycled 0 5 (cold.buffers 31))

warm-Cached : Cached warm warm_view
unfolding init
warm-Cached = record {
  shows =
      Shows-to_active cold [] all_ids (init-Rep new_cache) 31 (recycled 0 5 (cold.buffers 31)) refl;
  good =
      to_active-IsGood cold_view 31 (recycled 0 5 (cold.buffers 31)) init-Cached.good refl refl refl
        (λ a h o e. ground arith);
}

abbrev disk : ℕ → Block
disk n i = n

abbrev store : Store
store = init_cache (record { cache = new_cache; disk = disk })

-- Misses take buffers from the end of the inactive list; a released buffer is found again.
reuse :
    (do
      (c, a) ← get cold 0 5
      (d, b) ← get c 0 6
      e ← release d a
      (f, x) ← get e 0 5
      (g, y) ← get f 0 7
      ok (a ∷ b ∷ x ∷ y ∷ []))
    ≡ ok (31 ∷ 30 ∷ 31 ∷ 29 ∷ [])
unfolding get init insert_active_head insert_inactive_head remove_node recycle_lru get_lru
    find_active find_inactive promote_to_active demote_to_inactive release buffer_id
reuse = refl

get-Refined_example : Refined (get warm 0 5) (view_get warm_view 0 5)
get-Refined_example = get-Refined warm warm_view 0 5 warm-Cached.shows

release-Refined_example : RefinedCache (release warm 31) (view_release warm_view 31)
release-Refined_example = release-Refined warm warm_view 31 warm-Cached.shows

get-Cached_example : GetOutcome cold_view 0 5 (get cold 0 5)
get-Cached_example = get-Cached cold cold_view 0 5 init-Cached

release-Cached_example : ReleaseOutcome warm_view 31 (release warm 31)
release-Cached_example = release-Cached warm warm_view 31 warm-Cached (omega arith)

insert_active_head-Rep_example : Rep (insert_active_head cold 7) (7 ∷ []) (erase 7 all_ids)
insert_active_head-Rep_example = insert_active_head-Rep cold 7 [] all_ids (init-Rep new_cache) refl

read-Loaded_example : ReadOutcome store cold_view 5 (read store 0 5)
read-Loaded_example = read-Loaded store cold_view 5 (init-Coherent disk)

read-save_block_example :
    (t : Store) × (save_block store 5 (λ i. 9) ≡ ok t)
    × ((n : ℕ)
        → (u : Store) × (id : ℕ) × (read t 0 n ≡ ok (u, id))
          × (get_data u id ≡ ok (if n == 5 then (λ i. 9) else disk n)))
unfolding init_cache
read-save_block_example =
    read-save_block store cold_view 5 (λ i. 9) (init-Coherent disk) (λ e. cc e)

release_twice_example :
    (d e : LruCache) × (get warm 0 5 ≡ ok (d, 31)) × (release d 31 ≡ ok e) × (release e 31 ≡ panic)
release_twice_example = release_twice warm warm_view 0 5 31 warm-Cached refl refl

abbrev warm_store : Store
warm_store = record { cache = warm; disk = disk }

warm-Coherent : Coherent warm_store warm_view
unfolding init
warm-Coherent = record {
  cached = warm-Cached;
  clean = λ a h e. ground arith;
  one_device = λ a h. ground arith;
}

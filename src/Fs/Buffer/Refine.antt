-- ===== src/Fs/Buffer/Refine.antt =====
-- The linked lists of lru.rs, under the calls of mod.rs, against the two lists of `View`.
use mathlib.Core.Path.{subst, fun_ext}
use glenda.Prelude.{
  ℕ, ◌+◌, ◌-◌, ◌^◌, update, leb, ◌<◌, ◌≡◌, refl, inl, inr, true, false, ◌||◌, Option, none, some,
  List, [], ◌∷◌, arith, ◌==◌, ltb, if◌then◌else◌, has, Outcome, ok, panic, Bool-cases, Option-cases,
}
use glenda.Fs.Buffer.Lru.{
  LruCache, Buffer, n_buffer, buffer_id, set_buffer, holds, remove_node, insert_active_head,
  insert_inactive_head, promote_to_active, demote_to_inactive, recycle_lru, recycled,
}
use glenda.Fs.Buffer.Lru.Rep.{Rep}
use glenda.Fs.Buffer.Lru.Insert.{insert_active_head-Rep, insert_inactive_head-Rep}
use glenda.Fs.Buffer.Lru.Search.{first, last, find_active-first, find_inactive-first, get_lru-last}
use glenda.Fs.Buffer.{get, get_active, get_inactive, lock, release}
use glenda.Fs.Buffer.View.{
  View, take_active, take_inactive, view_get, view_release, to_active, to_inactive,
}

pub record Shows (c : LruCache) (v : View) : Type 0 where
  pub rep : Rep c v.active v.inactive
  pub same : c.buffers ≡ v.buffers

-- Both sides fail, or they return the same buffer and matching caches.
abbrev pub Refined : Outcome (LruCache × ℕ) → Outcome (View × ℕ) → Type 0
Refined (ok (c, id)) (ok (v, j)) = Shows c v × (id ≡ j)
Refined panic panic = Unit {0}
Refined _ _ = ⊥

abbrev pub RefinedCache : Outcome LruCache → Outcome View → Type 0
RefinedCache (ok c) (ok v) = Shows c v
RefinedCache panic panic = Unit {0}
RefinedCache _ _ = ⊥

pub first-has :
    (b : ℕ → Buffer) (dev blockno : ℕ) (xs : List ℕ) (id : ℕ)
    → first b dev blockno xs ≡ some id
    → (has id xs ≡ true) × (holds dev blockno (b id) ≡ true)
first-has b dev blockno [] id e = ground arith
first-has b dev blockno (x ∷ xs) id e = ground (arith, first-has b dev blockno xs id)

pub last-has : (xs : List ℕ) (id : ℕ) → last xs ≡ some id → has id xs ≡ true
last-has [] id e = ground arith
last-has (x ∷ []) id e = ground arith
last-has (x ∷ y ∷ ys) id e = ground (arith, last-has (y ∷ ys) id e)

buffers-insert_active_head : (c : LruCache) (id : ℕ) → (insert_active_head c id).buffers ≡ c.buffers
unfolding insert_active_head remove_node
buffers-insert_active_head c id = ground arith

buffers-insert_inactive_head :
    (c : LruCache) (id : ℕ) → (insert_inactive_head c id).buffers ≡ c.buffers
unfolding insert_inactive_head remove_node
buffers-insert_inactive_head c id = ground arith

pub Rep-set_buffer :
    (c : LruCache) (id : ℕ) (b : Buffer) (xs ys : List ℕ)
    → Rep c xs ys
    → Rep (set_buffer c id b) xs ys
Rep-set_buffer c id b xs ys r = record {
  lists = record {
    active = r.lists.active;
    inactive = r.lists.inactive;
    distinct_active = r.lists.distinct_active;
    distinct_inactive = r.lists.distinct_inactive;
    apart = r.lists.apart;
  };
  count = r.count;
  covers = r.covers;
  within = r.within;
}

abbrev pub view : LruCache → List ℕ → List ℕ → View
view c xs ys = record { buffers = c.buffers; active = xs; inactive = ys }

module _ (c : LruCache) (xs ys : List ℕ) (r : Rep c xs ys) (id : ℕ) (b : Buffer)
    (h : (has id xs || has id ys) ≡ true) where
  pub Shows-to_active :
      Shows (insert_active_head (set_buffer c id b) id) (to_active (view c xs ys) id b)
  Shows-to_active = record {
    rep = insert_active_head-Rep (set_buffer c id b) id xs ys (Rep-set_buffer c id b xs ys r) h;
    same = buffers-insert_active_head (set_buffer c id b) id;
  }

  Shows-to_inactive :
      Shows (demote_to_inactive (set_buffer c id b) id) (to_inactive (view c xs ys) id b)
  unfolding demote_to_inactive
  Shows-to_inactive = record {
    rep = insert_inactive_head-Rep (set_buffer c id b) id xs ys (Rep-set_buffer c id b xs ys r) h;
    same = buffers-insert_inactive_head (set_buffer c id b) id;
  }

  -- The count is raised, the buffer moved, and then locked.
  Shows-promote :
      (n : ℕ)
      → b ≡ record (c.buffers id) { refcnt = n; locked = true }
      → Shows
          (lock (insert_active_head (set_buffer c id (record (c.buffers id) { refcnt = n })) id) id)
          (to_active (view c xs ys) id b)
  Shows-promote n e =
      let low = record (c.buffers id) { refcnt = n } in
      let d = insert_active_head (set_buffer c id low) id in
      let moved = buffers-insert_active_head (set_buffer c id low) id in
      record {
        rep = Rep-set_buffer d id _ _ _ (
            insert_active_head-Rep (set_buffer c id low) id xs ys (Rep-set_buffer c id low xs ys r)
              h);
        same = rw moved (fun_ext λ a. ground arith);
      }

module _ (c : LruCache) (xs ys : List ℕ) (r : Rep c xs ys) where
  recycle_lru-Refined :
      (dev blockno : ℕ)
      → Refined (recycle_lru c dev blockno) (take_inactive (view c xs ys) dev blockno none)
  unfolding recycle_lru take_inactive
  recycle_lru-Refined dev blockno = rw (get_lru-last c xs ys r) (elim (Option-cases (last ys)) [
    | inl e ↦ rw e tt
    | inr (lru, e) ↦
        let b = recycled dev blockno (c.buffers lru) in
        let inside = last-has ys lru e in
        elim (Bool-cases ((c.buffers lru).refcnt == 0)) [
          | inl t ↦ rw (e, t) (Shows-to_active c xs ys r lru b (ground arith), refl)
          | inr t ↦ rw (e, t) tt
        ]
  ])

  get_inactive-Refined :
      (dev blockno : ℕ) (o : Option ℕ)
      → first c.buffers dev blockno ys ≡ o
      → Refined (get_inactive c dev blockno o) (take_inactive (view c xs ys) dev blockno o)
  unfolding get_inactive take_inactive promote_to_active
  get_inactive-Refined dev blockno (some id) e =
      let inside = first-has c.buffers dev blockno ys id e in
      let n = (c.buffers id).refcnt + 1 in
      let b = record (c.buffers id) { refcnt = n; locked = true } in
      elim (Bool-cases (ltb n (2 ^ 32))) [
        | inl t ↦ rw t (Shows-promote c xs ys r id b (ground arith) n refl, refl)
        | inr t ↦ rw t tt
      ]
  get_inactive-Refined dev blockno none e = recycle_lru-Refined dev blockno

  get_active-Refined :
      (dev blockno : ℕ) (o : Option ℕ)
      → first c.buffers dev blockno xs ≡ o
      → Refined (get_active c dev blockno o) (take_active (view c xs ys) dev blockno o)
  unfolding get_active take_active
  get_active-Refined dev blockno (some id) e =
      (record { rep = Rep-set_buffer c id _ xs ys r; same = refl }, refl)
  get_active-Refined dev blockno none e =
      rw (find_inactive-first c xs ys r dev blockno)
        (get_inactive-Refined dev blockno (first c.buffers dev blockno ys) refl)

  get-Refined-view :
      (dev blockno : ℕ) → Refined (get c dev blockno) (view_get (view c xs ys) dev blockno)
  unfolding get view_get
  get-Refined-view dev blockno =
      rw (find_active-first c xs ys r dev blockno)
        (get_active-Refined dev blockno (first c.buffers dev blockno xs) refl)

  release-Refined_below :
      (id : ℕ)
      → id < n_buffer
      → let n = (c.buffers id).refcnt - 1 in
        let b = record (c.buffers id) { refcnt = n; locked = false } in
        Shows (if n == 0 then demote_to_inactive (set_buffer c id b) id else set_buffer c id b) (
          if n == 0
          then to_inactive (view c xs ys) id b
          else record { buffers = update c.buffers id b; active = xs; inactive = ys })
  release-Refined_below id h =
      let n = (c.buffers id).refcnt - 1 in
      let b = record (c.buffers id) { refcnt = n; locked = false } in
      elim (Bool-cases (n == 0)) [
        | inl t ↦ rw t (Shows-to_inactive c xs ys r id b (r.covers id h))
        | inr t ↦ rw t (record { rep = Rep-set_buffer c id b xs ys r; same = refl })
      ]

  release-Refined-view : (idx : ℕ) → RefinedCache (release c idx) (view_release (view c xs ys) idx)
  unfolding release view_release buffer_id
  release-Refined-view idx = elim (Bool-cases (ltb idx n_buffer)) [
    | inr e ↦ rw e tt
    | inl e ↦ elim (Bool-cases (leb 1 (c.buffers idx).refcnt)) [
      | inl t ↦ rw (e, t) (release-Refined_below idx (ground arith))
      | inr t ↦ rw (e, t) tt
    ]
  ]

-- A view that a cache shows is the view of its buffers.
view-eq : (c : LruCache) (v : View) → Shows c v → view c v.active v.inactive ≡ v
view-eq c v s = λ i. record { buffers = s.same i; active = v.active; inactive = v.inactive }

-- `get` on the linked lists does what `view_get` does on the lists of buffers: it panics where that
-- panics, and else returns the same buffer and leaves lists that stand for its result.
pub get-Refined :
    (c : LruCache) (v : View) (dev blockno : ℕ)
    → Shows c v
    → Refined (get c dev blockno) (view_get v dev blockno)
get-Refined c v dev blockno s =
    subst (λ w. Refined (get c dev blockno) (view_get w dev blockno)) (view-eq c v s)
      (get-Refined-view c v.active v.inactive s.rep dev blockno)

-- `release` on the linked lists does what `view_release` does on the lists of buffers, panics
-- included.
pub release-Refined :
    (c : LruCache) (v : View) (idx : ℕ)
    → Shows c v
    → RefinedCache (release c idx) (view_release v idx)
release-Refined c v idx s =
    subst (λ w. RefinedCache (release c idx) (view_release w idx)) (view-eq c v s)
      (release-Refined-view c v.active v.inactive s.rep idx)

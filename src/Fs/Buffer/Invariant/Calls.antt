-- ===== src/Fs/Buffer/Invariant/Calls.antt =====
-- The invariant under `get` and `release` of kernel/src/fs/buffer/mod.rs.
use glenda.Prelude.{
  ℕ, ◌+◌, ◌^◌, ◌<◌, ◌≡◌, refl, ◌⊎◌, inl, inr, true, false, Option, none, some, List, [], ◌∷◌, arith,
  ◌==◌, ltb, if◌then◌else◌, has, erase, erase-not_has, update, Outcome, ok, panic, stuck,
  Bool-cases, Option-cases,
}
use glenda.Fs.Buffer.Lru.{n_buffer, buffer_id, holds, recycled}
use glenda.Fs.Buffer.Lru.Search.{first, last}
use glenda.Fs.Buffer.Refine.{first-has, last-has}
use glenda.Fs.Buffer.View.{View, take_active, take_inactive, view_get, view_release, to_active}
use glenda.Fs.Buffer.Invariant.{IsGood, first-none}
use glenda.Fs.Buffer.Invariant.Moves.{keep-IsGood, to_active-IsGood}
use glenda.Fs.Buffer.Invariant.Back.{to_inactive-IsGood}

-- What `get` returns: a locked active buffer that stands for the block, and good lists.
pub record Got (v : View) (dev blockno : ℕ) (w : View) (id : ℕ) : Type 0 where
  pub good : IsGood w
  pub active : has id w.active ≡ true
  pub named : holds dev blockno (w.buffers id) ≡ true
  pub locked : (w.buffers id).locked ≡ true
  -- Every other buffer is as it was.
  pub rest : (a : ℕ) → (a == id) ≡ false → w.buffers a ≡ v.buffers a
  -- The content is kept, unless the buffer is recycled and no longer valid.
  pub fresh :
      (w.buffers id ≡ record (v.buffers id) { refcnt = 1; locked = true })
      ⊎ ((w.buffers id).valid ≡ false)

hit_active-Got :
    (v : View) (dev blockno id : ℕ)
    → IsGood v
    → first v.buffers dev blockno v.active ≡ some id
    → Got v dev blockno
        (record v { buffers = update v.buffers id (record (v.buffers id) { locked = true }) })
        id
hit_active-Got v dev blockno id g e =
    let hit = first-has v.buffers dev blockno v.active id e in
    record {
      good = keep-IsGood v id _ g refl refl refl (inl refl);
      active = hit.0;
      named = ground arith;
      locked = ground arith;
      rest = λ a h. ground arith;
      fresh = inl (ground (arith, g.pinned id hit.0));
    }

hit_inactive-Got :
    (v : View) (dev blockno id : ℕ)
    → IsGood v
    → first v.buffers dev blockno v.active ≡ none
    → first v.buffers dev blockno v.inactive ≡ some id
    → Got v dev blockno
        (to_active v id
          (record (v.buffers id) { refcnt = (v.buffers id).refcnt + 1; locked = true }))
        id
hit_inactive-Got v dev blockno id g e f =
    let hit = first-has v.buffers dev blockno v.inactive id f in
    let one : (v.buffers id).refcnt + 1 ≡ 1 = omega (arith, g.idle id hit.0) in
    record {
      good =
          to_active-IsGood v id _ g hit.0 one (ground arith)
            (λ a i h w. ground (arith, g.found_valid a i w));
      active = ground arith;
      named = ground arith;
      locked = ground arith;
      rest = λ a h. ground arith;
      fresh = inl (ground (arith, one));
    }

recycle-Got :
    (v : View) (dev blockno id : ℕ)
    → IsGood v
    → first v.buffers dev blockno v.active ≡ none
    → first v.buffers dev blockno v.inactive ≡ none
    → has id v.inactive ≡ true
    → Got v dev blockno (to_active v id (recycled dev blockno (v.buffers id))) id
recycle-Got v dev blockno id g e f i = record {
  good =
      to_active-IsGood v id _ g i refl e
        (λ a j h w. first-none v.buffers dev blockno v.inactive a f j);
  active = ground arith;
  named = ground arith;
  locked = ground arith;
  rest = λ a h. ground arith;
  fresh = inr (ground arith);
}

-- `get` returns a buffer, or panics when it finds neither the block nor an inactive buffer.
abbrev pub GetPost : View → ℕ → ℕ → Outcome (View × ℕ) → Type 0
GetPost v dev blockno (ok (w, id)) = Got v dev blockno w id
GetPost v dev blockno panic = (first v.buffers dev blockno v.active ≡ none) × (v.inactive ≡ [])
GetPost v dev blockno stuck = ⊥

last-none : (xs : List ℕ) → last xs ≡ none → xs ≡ []
last-none [] e = refl
last-none (x ∷ []) e = cc
last-none (x ∷ y ∷ ys) e = absurd (cc (last-none (y ∷ ys) e))

take_inactive-GetPost :
    (v : View) (dev blockno : ℕ) (o : Option ℕ)
    → IsGood v
    → first v.buffers dev blockno v.active ≡ none
    → first v.buffers dev blockno v.inactive ≡ o
    → GetPost v dev blockno (take_inactive v dev blockno o)
unfolding take_inactive
take_inactive-GetPost v dev blockno (some id) g e f =
    let hit = first-has v.buffers dev blockno v.inactive id f in
    let small : ltb ((v.buffers id).refcnt + 1) (2 ^ 32) ≡ true = ground (arith, g.idle id hit.0) in
    rw small (hit_inactive-Got v dev blockno id g e f)
take_inactive-GetPost v dev blockno none g e f = elim (Option-cases (last v.inactive)) [
  | inl l ↦ rw l (e, last-none v.inactive l)
  | inr (id, l) ↦
      let i = last-has v.inactive id l in
      let idle : ((v.buffers id).refcnt == 0) ≡ true = ground (arith, g.idle id i) in
      rw (l, idle) (recycle-Got v dev blockno id g e f i)
]

pub view_get-GetPost :
    (v : View) (dev blockno : ℕ) → IsGood v → GetPost v dev blockno (view_get v dev blockno)
unfolding view_get take_active
view_get-GetPost v dev blockno g = elim (Option-cases (first v.buffers dev blockno v.active)) [
  | inl e ↦
      rw e (take_inactive-GetPost v dev blockno (first v.buffers dev blockno v.inactive) g e refl)
  | inr (id, e) ↦ rw e (hit_active-Got v dev blockno id g e)
]

-- `release` gives an active buffer back to the front of the inactive list, and panics on any other.
abbrev pub ReleasePost : View → ℕ → Outcome View → Type 0
ReleasePost v id (ok w) =
    (has id v.active ≡ true)
    × IsGood w
    × (w.active ≡ erase id v.active)
    × (w.inactive ≡ id ∷ v.inactive)
    × ((a : ℕ)
        → w.buffers a
          ≡ (if a == id then record (v.buffers id) { refcnt = 0; locked = false } else v.buffers a))
ReleasePost v id panic = has id v.active ≡ false
ReleasePost v id stuck = ⊥

pub release_active :
    (v : View) (id : ℕ)
    → IsGood v
    → has id v.active ≡ true
    → id < n_buffer
    → ReleasePost v id (view_release v id)
unfolding view_release buffer_id
release_active v id g h b =
    let inside : ltb id n_buffer ≡ true = ground arith in
    let one : (v.buffers id).refcnt ≡ 1 = g.pinned id h in
    rw (inside, one)
      (
        h,
        to_inactive-IsGood v id _ g h refl refl refl,
        refl,
        rw (erase-not_has id v.inactive (g.apart id h)),
        λ a. ground arith,
      )

pub release_idle :
    (v : View) (id : ℕ)
    → IsGood v
    → has id v.active ≡ false
    → has id v.inactive ≡ true
    → ReleasePost v id (view_release v id)
unfolding view_release buffer_id
release_idle v id g h i = elim (Bool-cases (ltb id n_buffer)) [
  | inl t ↦ rw (t, g.idle id i) h
  | inr t ↦ rw t h
]

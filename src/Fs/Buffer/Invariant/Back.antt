-- ===== src/Fs/Buffer/Invariant/Back.antt =====
-- The invariant where `release` gives a buffer back.
use glenda.Prelude.{
  ℕ, ◌≡◌, ◌≢◌, ◌∙◌, inl, inr, true, false, none, some, ◌∷◌, arith, ◌==◌, has, erase, has-erase,
  has-erase_self, erase-IsDistinct, erase-not_has, update, Bool-cases, Option-cases,
}
use glenda.Fs.Buffer.Lru.{Buffer, holds}
use glenda.Fs.Buffer.Lru.Search.{first}
use glenda.Fs.Buffer.Refine.{first-has}
use glenda.Fs.Buffer.View.{View, to_inactive}
use glenda.Fs.Buffer.Invariant.{
  IsGood, IsFirst, IsAbsent, first-erase, first-update, has_of_erase, ne_of_erase,
}

-- A buffer that its client gives back goes to the front of the inactive list.
module _ (v : View) (id : ℕ) (n : Buffer) (g : IsGood v) (inside : has id v.active ≡ true)
    (count : n.refcnt ≡ 0) (same_dev : n.dev ≡ (v.buffers id).dev)
    (same_block : n.block_no ≡ (v.buffers id).block_no) where
  open g use {distinct_active, distinct_inactive, apart, pinned, idle, found, found_valid}

  out : has id v.inactive ≡ false
  out = apart id inside

  kept : erase id v.inactive ≡ v.inactive
  kept = erase-not_has id v.inactive out

  less :
      (dev blockno : ℕ)
      → first v.buffers dev blockno v.active ≢ some id
      → first (update v.buffers id n) dev blockno (erase id v.active)
        ≡ first v.buffers dev blockno v.active
  less dev blockno h =
      first-update v.buffers dev blockno id n (erase id v.active)
        (has-erase_self id v.active distinct_active)
      ∙ first-erase v.buffers dev blockno id v.active h

  -- No other active buffer holds the block of `id`.
  alone : first (update v.buffers id n) n.dev n.block_no (erase id v.active) ≡ none
  alone = elim (Option-cases (first (update v.buffers id n) n.dev n.block_no (erase id v.active))) [
    | inl e ↦ e
    | inr (b, e) ↦
        let hit = first-has (update v.buffers id n) n.dev n.block_no (erase id v.active) b e in
        let other = ne_of_erase b id v.active distinct_active hit.0 in
        let inside' = has_of_erase b id v.active hit.0 in
        absurd (ground (arith, found b inside', found id inside))
  ]

  more :
      (dev blockno : ℕ)
      → holds dev blockno n ≡ false
      → first (update v.buffers id n) dev blockno (id ∷ erase id v.inactive)
        ≡ first v.buffers dev blockno v.inactive
  more dev blockno h =
      rw kept (ground (arith, first-update v.buffers dev blockno id n v.inactive out))

  -- A buffer whose block is not active has another block than `id`.
  apart_block :
      (a : ℕ)
      → IsAbsent v.buffers a v.active
      → holds (v.buffers a).dev (v.buffers a).block_no n ≡ false
  apart_block a e = elim (Bool-cases (holds (v.buffers a).dev (v.buffers a).block_no n)) [
    | inr h ↦ h
    | inl h ↦
        let ed : (v.buffers id).dev ≡ (v.buffers a).dev = ground arith in
        let eb : (v.buffers id).block_no ≡ (v.buffers a).block_no = ground arith in
        let f = found id inside in absurd (cc f)
  ]

  found_less :
      (a : ℕ)
      → has a (erase id v.active) ≡ true
      → IsFirst (update v.buffers id n) a (erase id v.active)
  found_less a h =
      let other = ne_of_erase a id v.active distinct_active h in
      let old = found a (has_of_erase a id v.active h) in
      ground (arith, less (v.buffers a).dev (v.buffers a).block_no (ground arith), old)

  found_more :
      (a : ℕ)
      → has a (id ∷ erase id v.inactive) ≡ true
      → (update v.buffers id n a).valid ≡ true
      → IsAbsent (update v.buffers id n) a (erase id v.active)
        × IsFirst (update v.buffers id n) a (id ∷ erase id v.inactive)
  found_more a h w = elim (Bool-cases (a == id)) [
    | inl e ↦ (ground (arith, alone), ground arith)
    | inr e ↦
        let inside' = has_of_erase a id v.inactive (ground arith) in
        let old = found_valid a inside' (ground arith) in
        let dev = (v.buffers a).dev in
        let blockno = (v.buffers a).block_no in
        (
          ground (arith, less dev blockno (ground arith), old.0),
          ground (arith, more dev blockno (apart_block a old.0), old.1),
        )
  ]

  pub to_inactive-IsGood : IsGood (to_inactive v id n)
  to_inactive-IsGood = record {
    distinct_active = erase-IsDistinct id v.active distinct_active;
    distinct_inactive = (has-erase_self id v.inactive distinct_inactive, rw kept distinct_inactive);
    apart = λ a h. ground (
      arith,
      apart a (has_of_erase a id v.active h),
      ne_of_erase a id v.active distinct_active h,
      has-erase id a v.inactive,
    );
    pinned = λ a h. ground (
      arith,
      pinned a (has_of_erase a id v.active h),
      ne_of_erase a id v.active distinct_active h,
    );
    idle = λ a h. ground (arith, idle a, has_of_erase a id v.inactive);
    found = found_less;
    found_valid = found_more;
  }

-- ===== src/Fs/Buffer/Invariant/Moves.antt =====
-- The invariant under each change that `get` and `release` make to the lists.
use glenda.Prelude.{
  ℕ, ◌≡◌, ◌≢◌, ◌∙◌, ◌⊎◌, inl, inr, true, false, none, some, List, ◌∷◌, arith, ◌==◌, has, erase,
  has-erase, has-erase_self, erase-IsDistinct, erase-not_has, update, Bool-cases,
}
use glenda.Fs.Buffer.Lru.{Buffer, holds}
use glenda.Fs.Buffer.Lru.Search.{first}
use glenda.Fs.Buffer.View.{View, to_active}
use glenda.Fs.Buffer.Invariant.{
  IsGood, IsFirst, IsAbsent, first-erase, first-update, first-update_same, first-none, has_of_erase,
  ne_of_erase,
}

-- A write to a buffer that keeps its block and its count, and makes it valid only while it is active.
pub keep-IsGood :
    (v : View) (id : ℕ) (n : Buffer)
    → IsGood v
    → n.dev ≡ (v.buffers id).dev
    → n.block_no ≡ (v.buffers id).block_no
    → n.refcnt ≡ (v.buffers id).refcnt
    → (n.valid ≡ (v.buffers id).valid) ⊎ (has id v.active ≡ true)
    → IsGood (record v { buffers = update v.buffers id n })
keep-IsGood v id n g ed eb er ev = record {
  distinct_active = distinct_active;
  distinct_inactive = distinct_inactive;
  apart = apart;
  pinned = λ a h. ground (arith, pinned a h);
  idle = λ a h. ground (arith, idle a h);
  found = λ a h. same a v.active ∙ found a h;
  found_valid = λ a h w.
      let old = found_valid a h (ground (arith, apart a)) in
      (same a v.active ∙ old.0, same a v.inactive ∙ old.1);
}
  where
    open g use {distinct_active, distinct_inactive, apart, pinned, idle, found, found_valid}

    b' : ℕ → Buffer
    b' = update v.buffers id n

    same :
        (a : ℕ) (xs : List ℕ)
        → first b' (b' a).dev (b' a).block_no xs
          ≡ first v.buffers (v.buffers a).dev (v.buffers a).block_no xs
    same a xs =
        let ea : (b' a).dev ≡ (v.buffers a).dev = ground arith in
        let eb' : (b' a).block_no ≡ (v.buffers a).block_no = ground arith in
        rw (ea, eb') (first-update_same v.buffers _ _ id n xs ed eb)

-- An inactive buffer becomes active, for a block that no active or valid other buffer holds.
module _ (v : View) (id : ℕ) (n : Buffer) (g : IsGood v) (inside : has id v.inactive ≡ true)
    (count : n.refcnt ≡ 1) (absent : first v.buffers n.dev n.block_no v.active ≡ none)
    (others : (a : ℕ)
      → has a v.inactive ≡ true
      → (a == id) ≡ false
      → (v.buffers a).valid ≡ true
      → holds n.dev n.block_no (v.buffers a) ≡ false) where
  open g use {distinct_active, distinct_inactive, apart, pinned, idle, found, found_valid}

  outside : has id v.active ≡ false
  outside = ground (arith, apart id)

  shrunk : erase id v.active ≡ v.active
  shrunk = erase-not_has id v.active outside

  front :
      (dev blockno : ℕ)
      → holds dev blockno n ≡ false
      → first (update v.buffers id n) dev blockno (id ∷ erase id v.active)
        ≡ first v.buffers dev blockno v.active
  front dev blockno h =
      rw shrunk (ground (arith, first-update v.buffers dev blockno id n v.active outside))

  back :
      (dev blockno : ℕ)
      → first v.buffers dev blockno v.inactive ≢ some id
      → first (update v.buffers id n) dev blockno (erase id v.inactive)
        ≡ first v.buffers dev blockno v.inactive
  back dev blockno h =
      first-update v.buffers dev blockno id n (erase id v.inactive)
        (has-erase_self id v.inactive distinct_inactive)
      ∙ first-erase v.buffers dev blockno id v.inactive h

  found_front :
      (a : ℕ)
      → has a (id ∷ erase id v.active) ≡ true
      → IsFirst (update v.buffers id n) a (id ∷ erase id v.active)
  found_front a h = elim (Bool-cases (a == id)) [
    | inl e ↦ ground arith
    | inr e ↦
        let inside' = has_of_erase a id v.active (ground arith) in
        let away = first-none v.buffers n.dev n.block_no v.active a absent inside' in
        ground
          (arith, front (v.buffers a).dev (v.buffers a).block_no (ground arith), found a inside')
  ]

  found_back :
      (a : ℕ)
      → has a (erase id v.inactive) ≡ true
      → (update v.buffers id n a).valid ≡ true
      → IsAbsent (update v.buffers id n) a (id ∷ erase id v.active)
        × IsFirst (update v.buffers id n) a (erase id v.inactive)
  found_back a h w =
      let e = ne_of_erase a id v.inactive distinct_inactive h in
      let i = has_of_erase a id v.inactive h in
      let w' : (v.buffers a).valid ≡ true = ground arith in
      let dev = (v.buffers a).dev in
      let blockno = (v.buffers a).block_no in
      let away = others a i e w' in
      let old = found_valid a i w' in
      (
        ground (arith, front dev blockno (ground arith), old.0),
        ground (arith, back dev blockno (ground arith), old.1),
      )

  pub to_active-IsGood : IsGood (to_active v id n)
  to_active-IsGood = record {
    distinct_active = (has-erase_self id v.active distinct_active, rw shrunk distinct_active);
    distinct_inactive = erase-IsDistinct id v.inactive distinct_inactive;
    apart = λ a h. ground (
      arith,
      apart a,
      has-erase id a v.inactive,
      has-erase_self id v.inactive distinct_inactive,
      has_of_erase a id v.active,
    );
    pinned = λ a h. ground (arith, pinned a, has_of_erase a id v.active);
    idle = λ a h. ground (
      arith,
      idle a (has_of_erase a id v.inactive h),
      ne_of_erase a id v.inactive distinct_inactive h,
    );
    found = found_front;
    found_valid = found_back;
  }

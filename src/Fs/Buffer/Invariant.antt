-- ===== src/Fs/Buffer/Invariant.antt =====
-- The invariant of the cache's lists, for the calls of kernel/src/fs/buffer/mod.rs.
pub mod Moves
pub mod Back
pub mod Calls
use glenda.Prelude.{
  ℕ, suc, ◌+◌, ◌-◌, ◌<◌, ◌≡◌, ◌≢◌, refl, sym, ◌∙◌, ap, ◌⊎◌, inl, inr, Bool, true, false, ◌||◌, ◌&&◌,
  Option, none, some, List, [], ◌∷◌, arith, ◌==◌, ltb, leb, if◌then◌else◌, has, erase, IsDistinct,
  has-erase, has-erase_self, has-erase_ne, erase-IsDistinct, erase-not_has, update, Outcome, ok,
  panic, Bool-cases, Option-cases,
}
use glenda.Fs.Buffer.Lru.{Buffer, n_buffer, buffer_id, holds, recycled}
use glenda.Fs.Buffer.Lru.Search.{first, last}
use glenda.Fs.Buffer.Refine.{first-has, last-has}
use glenda.Fs.Buffer.View.{
  View, take_active, take_inactive, view_get, view_release, to_active, to_inactive,
}

-- The buffer `a` of a list is the first that holds its block.
abbrev pub IsFirst : (ℕ → Buffer) → ℕ → List ℕ → Type 0
IsFirst b a xs = first b (b a).dev (b a).block_no xs ≡ some a

abbrev pub IsAbsent : (ℕ → Buffer) → ℕ → List ℕ → Type 0
IsAbsent b a xs = first b (b a).dev (b a).block_no xs ≡ none

pub record IsGood (v : View) : Type 0 where
  pub distinct_active : IsDistinct v.active
  pub distinct_inactive : IsDistinct v.inactive
  pub apart : (a : ℕ) → has a v.active ≡ true → has a v.inactive ≡ false
  -- A client holds each active buffer once, and no inactive one.
  pub pinned : (a : ℕ) → has a v.active ≡ true → (v.buffers a).refcnt ≡ 1
  pub idle : (a : ℕ) → has a v.inactive ≡ true → (v.buffers a).refcnt ≡ 0
  -- A search for the block of an active buffer, or of a valid one, finds that buffer.
  pub found : (a : ℕ) → has a v.active ≡ true → IsFirst v.buffers a v.active
  pub found_valid :
      (a : ℕ)
      → has a v.inactive ≡ true
      → (v.buffers a).valid ≡ true
      → IsAbsent v.buffers a v.active × IsFirst v.buffers a v.inactive

pub first-erase :
    (b : ℕ → Buffer) (dev blockno id : ℕ) (xs : List ℕ)
    → first b dev blockno xs ≢ some id
    → first b dev blockno (erase id xs) ≡ first b dev blockno xs
first-erase b dev blockno id [] h = refl
first-erase b dev blockno id (x ∷ xs) h = ground (arith, first-erase b dev blockno id xs)

pub first-update :
    (b : ℕ → Buffer) (dev blockno id : ℕ) (n : Buffer) (xs : List ℕ)
    → has id xs ≡ false
    → first (update b id n) dev blockno xs ≡ first b dev blockno xs
first-update b dev blockno id n [] h = refl
first-update b dev blockno id n (x ∷ xs) h = ground (arith, first-update b dev blockno id n xs)

-- A write that leaves the block's name alone.
pub first-update_same :
    (b : ℕ → Buffer) (dev blockno id : ℕ) (n : Buffer) (xs : List ℕ)
    → n.dev ≡ (b id).dev
    → n.block_no ≡ (b id).block_no
    → first (update b id n) dev blockno xs ≡ first b dev blockno xs
first-update_same b dev blockno id n [] e f = refl
first-update_same b dev blockno id n (x ∷ xs) e f =
    ground (arith, first-update_same b dev blockno id n xs e f)

pub first-none :
    (b : ℕ → Buffer) (dev blockno : ℕ) (xs : List ℕ) (a : ℕ)
    → first b dev blockno xs ≡ none
    → has a xs ≡ true
    → holds dev blockno (b a) ≡ false
first-none b dev blockno [] a e h = ground arith
first-none b dev blockno (x ∷ xs) a e h = ground (arith, first-none b dev blockno xs a)

pub has_of_erase : (a id : ℕ) (xs : List ℕ) → has a (erase id xs) ≡ true → has a xs ≡ true
has_of_erase a id xs h = ground (arith, has-erase id a xs)

pub ne_of_erase :
    (a id : ℕ) (xs : List ℕ) → IsDistinct xs → has a (erase id xs) ≡ true → (a == id) ≡ false
ne_of_erase a id xs d h = ground (arith, has-erase_self id xs d)

-- ===== src/Fs/Buffer/Lru/Search.antt =====
-- The walks over the lists: `find_active`, `find_inactive` and `get_lru`.
use glenda.Prelude.{
  ℕ, zero, suc, ◌≤◌, ◌≡◌, Option, none, some, List, [], ◌∷◌, arith, if◌then◌else◌, length, ok,
}
use glenda.Fs.Buffer.Lru.{
  LruCache, Nodes, Buffer, n_buffer, holds, find_from, find_active, find_inactive, last_from,
  get_lru,
}
use glenda.Fs.Buffer.Lru.Chain.{Chain}
use glenda.Fs.Buffer.Lru.Rep.{Rep}

-- The first buffer of a list that holds a block.
abbrev pub first : (ℕ → Buffer) → ℕ → ℕ → List ℕ → Option ℕ
first b dev blockno [] = none
first b dev blockno (x ∷ xs) = if holds dev blockno (b x) then some x else first b dev blockno xs

-- The last entry of a list.
abbrev pub last : List ℕ → Option ℕ
last [] = none
last (x ∷ []) = some x
last (x ∷ y ∷ ys) = last (y ∷ ys)

find_from-first :
    (c : LruCache) (dev blockno fuel : ℕ) (p : Option ℕ) (x : ℕ) (xs : List ℕ)
    → Chain c.nodes p (some x) (x ∷ xs)
    → suc (length xs) ≤ fuel
    → find_from c dev blockno fuel x ≡ ok (first c.buffers dev blockno (x ∷ xs))
unfolding find_from
find_from-first c dev blockno zero p x xs ch f = absurd (omega arith)
find_from-first c dev blockno (suc fuel) p x [] ch f = ground arith
find_from-first c dev blockno (suc fuel) p x (y ∷ ys) ch f =
    let next : (c.nodes x).next ≡ some y = ch.2.0 in
    let tail : Chain c.nodes (some x) (some y) (y ∷ ys) = rw next at ch.2 in
    let rest = find_from-first c dev blockno fuel (some x) y ys tail (omega arith) in
    ground (arith, next, rest)

last_from-last :
    (n : Nodes) (fuel : ℕ) (p : Option ℕ) (x : ℕ) (xs : List ℕ)
    → Chain n p (some x) (x ∷ xs)
    → suc (length xs) ≤ fuel
    → last_from n fuel x ≡ ok (last (x ∷ xs))
unfolding last_from
last_from-last n zero p x xs ch f = absurd (omega arith)
last_from-last n (suc fuel) p x [] ch f = ground arith
last_from-last n (suc fuel) p x (y ∷ ys) ch f =
    let next : (n x).next ≡ some y = ch.2.0 in
    let tail : Chain n (some x) (some y) (y ∷ ys) = rw next at ch.2 in
    rw (next, last_from) (last_from-last n fuel (some x) y ys tail (omega arith))

-- A walk along a whole list.
walk_find :
    (c : LruCache) (dev blockno : ℕ) (cur : Option ℕ) (xs : List ℕ)
    → Chain c.nodes none cur xs
    → length xs ≤ n_buffer
    → (elim cur [ none ↦ ok none | some h ↦ find_from c dev blockno n_buffer h ])
      ≡ ok (first c.buffers dev blockno xs)
walk_find c dev blockno cur [] ch f = rw ch
walk_find c dev blockno cur (x ∷ xs) ch f =
    let e = ch.0 in rw e (find_from-first c dev blockno n_buffer none x xs (rw e at ch) f)

module _ (c : LruCache) (xs ys : List ℕ) (r : Rep c xs ys) where
  -- The walks end, and find what the lists hold.
  pub find_active-first :
      (dev blockno : ℕ) → find_active c dev blockno ≡ ok (first c.buffers dev blockno xs)
  unfolding find_active
  find_active-first dev blockno =
      walk_find c dev blockno c.active_head xs r.lists.active (omega (arith, r.count))

  pub find_inactive-first :
      (dev blockno : ℕ) → find_inactive c dev blockno ≡ ok (first c.buffers dev blockno ys)
  unfolding find_inactive
  find_inactive-first dev blockno =
      walk_find c dev blockno c.inactive_head ys r.lists.inactive (omega (arith, r.count))

walk_last :
    (n : Nodes) (cur : Option ℕ) (ys : List ℕ)
    → Chain n none cur ys
    → length ys ≤ n_buffer
    → (elim cur [ none ↦ ok none | some h ↦ last_from n n_buffer h ]) ≡ ok (last ys)
walk_last n cur [] ch f = rw ch
walk_last n cur (x ∷ xs) ch f =
    let e = ch.0 in rw e (last_from-last n n_buffer none x xs (rw e at ch) f)

pub get_lru-last : (c : LruCache) (xs ys : List ℕ) → Rep c xs ys → get_lru c ≡ ok (last ys)
unfolding get_lru
get_lru-last c xs ys r =
    walk_last c.nodes c.inactive_head ys r.lists.inactive (omega (arith, r.count))

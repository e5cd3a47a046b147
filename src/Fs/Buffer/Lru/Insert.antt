-- ===== src/Fs/Buffer/Lru/Insert.antt =====
-- `insert_active_head` and `insert_inactive_head` move a buffer to the head of a list.
use glenda.Prelude.{
  ℕ, suc, ◌+◌, ◌≡◌, refl, sym, ◌∙◌, inl, inr, true, false, ◌||◌, Option, none, some, List, [], ◌∷◌,
  arith, ◌==◌, has, erase, length, has-erase_self, length-erase, Bool-cases, erase-not_has,
  has-erase_ne, IsDistinct,
}
use glenda.Fs.Buffer.Lru.{
  LruCache, Nodes, link_head, remove_node, insert_active_head, insert_inactive_head,
}
use glenda.Fs.Buffer.Lru.Chain.{Chain, Chain-frame, head_in_Chain}
use glenda.Fs.Buffer.Lru.Remove.{remove_node-Lists}
use glenda.Fs.Buffer.Lru.Rep.{Lists, Rep}

Chain-link_head :
    (n : Nodes) (id : ℕ) (cur : Option ℕ) (xs : List ℕ)
    → Chain n none cur xs
    → has id xs ≡ false
    → IsDistinct xs
    → Chain (link_head n id cur) none (some id) (id ∷ xs)
unfolding link_head
Chain-link_head n id none [] c o d = ground arith
Chain-link_head n id none (x ∷ xs) c o d = ground arith
Chain-link_head n id (some h) [] c o d = ground arith
Chain-link_head n id (some h) (x ∷ xs) c o d =
    let m = link_head n id (some h) in
    let rest = Chain-frame n m (some x) (n x).next xs (λ a i. ground arith) c.2 in
    (refl, ground arith, (ground arith, ground arith, ground arith))

Chain-link_other :
    (n : Nodes) (id : ℕ) (cur other : Option ℕ) (xs ys : List ℕ)
    → Chain n none cur xs
    → Chain n none other ys
    → ((a : ℕ) → has a xs ≡ true → has a ys ≡ false)
    → has id ys ≡ false
    → Chain (link_head n id cur) none other ys
unfolding link_head
Chain-link_other n id none other xs ys c d apart o =
    Chain-frame n _ none other ys (λ a i. ground arith) d
Chain-link_other n id (some h) other xs ys c d apart o =
    let first = head_in_Chain n none (some h) xs h c refl in
    Chain-frame n _ none other ys (λ a i. ground (arith, apart h first)) d

module _ (d : LruCache) (id : ℕ) (xs ys : List ℕ) (l : Lists d xs ys) (not_xs : has id xs ≡ false)
    (not_ys : has id ys ≡ false) where
  open l use {active, inactive, distinct_active, distinct_inactive, apart}

  link_active :
      Lists
        (record d { nodes = link_head d.nodes id d.active_head; active_head = some id })
        (id ∷ xs)
        ys
  link_active = record {
    active = Chain-link_head d.nodes id d.active_head xs active not_xs distinct_active;
    inactive =
        Chain-link_other d.nodes id d.active_head d.inactive_head xs ys active inactive apart
          not_ys;
    distinct_active = (not_xs, distinct_active);
    distinct_inactive = distinct_inactive;
    apart = λ a h. ground (arith, apart a);
  }

  link_inactive :
      Lists
        (record d { nodes = link_head d.nodes id d.inactive_head; inactive_head = some id })
        xs
        (id ∷ ys)
  link_inactive = record {
    active =
        Chain-link_other d.nodes id d.inactive_head d.active_head ys xs inactive active
          (λ a h. ground (arith, apart a)) not_xs;
    inactive = Chain-link_head d.nodes id d.inactive_head ys inactive not_ys distinct_inactive;
    distinct_active = distinct_active;
    distinct_inactive = (not_ys, distinct_inactive);
    apart = λ a h. ground (arith, apart a);
  }

-- Membership and length when `id` moves to the front of one of two lists.
moved_count :
    (id : ℕ) (xs ys : List ℕ)
    → (has id xs || has id ys) ≡ true
    → ((a : ℕ) → has a xs ≡ true → has a ys ≡ false)
    → suc (length (erase id xs)) + length (erase id ys) ≡ length xs + length ys
moved_count id xs ys h apart = elim (Bool-cases (has id xs)) [
  | inl i ↦ rw (erase-not_has id ys (apart id i)) (omega (arith, length-erase id xs i))
  | inr o ↦ rw (erase-not_has id xs o) (omega (arith, length-erase id ys (ground arith)))
]

moved_has :
    (id a : ℕ) (xs ys : List ℕ)
    → (has id xs || has id ys) ≡ true
    → ((a == id) || (has a (erase id xs) || has a (erase id ys))) ≡ (has a xs || has a ys)
moved_has id a xs ys h = elim (Bool-cases (a == id)) [
  | inl e ↦ let q : a ≡ id = ground arith in rw (e, q) (sym h)
  | inr e ↦ rw (e, has-erase_ne id a xs e, has-erase_ne id a ys e)
]

module _ (c : LruCache) (id : ℕ) (xs ys : List ℕ) (r : Rep c xs ys)
    (h : (has id xs || has id ys) ≡ true) where
  open r use {lists, count, covers, within}

  removed : Lists (remove_node c id) (erase id xs) (erase id ys)
  removed = remove_node-Lists c id xs ys lists h

  -- `insert_active_head` moves a buffer from either list to the head of the active one.
  pub insert_active_head-Rep : Rep (insert_active_head c id) (id ∷ erase id xs) (erase id ys)
  unfolding insert_active_head
  insert_active_head-Rep = record {
    lists =
        link_active (remove_node c id) id (erase id xs) (erase id ys) removed
          (has-erase_self id xs lists.distinct_active)
          (has-erase_self id ys lists.distinct_inactive);
    count = moved_count id xs ys h lists.apart ∙ count;
    covers = λ a b. ground (arith, moved_has id a xs ys h, covers a b);
    within = λ a i. within a (ground (arith, moved_has id a xs ys h));
  }

  -- `insert_inactive_head` moves a buffer from either list to the head of the inactive one.
  pub insert_inactive_head-Rep : Rep (insert_inactive_head c id) (erase id xs) (id ∷ erase id ys)
  unfolding insert_inactive_head
  insert_inactive_head-Rep = record {
    lists =
        link_inactive (remove_node c id) id (erase id xs) (erase id ys) removed
          (has-erase_self id xs lists.distinct_active)
          (has-erase_self id ys lists.distinct_inactive);
    count = omega (arith, moved_count id xs ys h lists.apart, count);
    covers = λ a b. ground (arith, moved_has id a xs ys h, covers a b);
    within = λ a i. within a (ground (arith, moved_has id a xs ys h));
  }

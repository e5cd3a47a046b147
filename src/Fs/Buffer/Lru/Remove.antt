-- ===== src/Fs/Buffer/Lru/Remove.antt =====
-- `remove_node` takes a buffer out of the list that holds it.
use glenda.Prelude.{
  ℕ, ◌≡◌, refl, inl, inr, true, false, ◌||◌, Option, none, some, List, arith, ◌==◌, if◌then◌else◌,
  is_at, has, erase, IsDistinct, has-erase, erase-not_has, erase-IsDistinct, Bool-cases,
}
use glenda.Fs.Buffer.Lru.{LruCache, Nodes, remove_node}
use glenda.Fs.Buffer.Lru.Chain.{
  Chain, Unlinked, Chain-frame, Chain-LeftOf, Chain-unlink, next_in_Chain, next_ne, head_in_Chain,
}
use glenda.Fs.Buffer.Lru.Rep.{Lists}

remove_node-Unlinked :
    (c : LruCache) (id : ℕ)
    → is_at id (c.nodes id).next ≡ false
    → is_at id (c.nodes id).prev ≡ false
    → Unlinked c.nodes id (remove_node c id).nodes
unfolding remove_node
remove_node-Unlinked c id hn hp a = ground arith

not_at : (a : ℕ) (o : Option ℕ) → ((b : ℕ) → o ≡ some b → (b == a) ≡ false) → is_at a o ≡ false
not_at a none h = refl
not_at a (some b) h = h b refl

-- A node is no neighbour of its own, nor of a node outside its list.
record Alone (n : Nodes) (cur : Option ℕ) (xs : List ℕ) (id : ℕ) : Type 0 where
  next_other : is_at id (n id).next ≡ false
  prev_other : is_at id (n id).prev ≡ false
  next_inside : (a : ℕ) → has a xs ≡ false → is_at a (n id).next ≡ false
  prev_inside : (a : ℕ) → has a xs ≡ false → is_at a (n id).prev ≡ false

Chain-Alone :
    (n : Nodes) (cur : Option ℕ) (xs : List ℕ) (id : ℕ)
    → Chain n none cur xs
    → IsDistinct xs
    → has id xs ≡ true
    → Alone n cur xs id
Chain-Alone n cur xs id c d h = record {
  next_other = not_at id (n id).next (λ b e. next_ne n none cur xs id b c d h e);
  prev_other = ground (arith, Chain-LeftOf n none cur xs id c h);
  next_inside = λ a o. ground (arith, next_in_Chain n none cur xs id a c h);
  prev_inside = λ a o. ground (arith, Chain-LeftOf n none cur xs id c h);
}

module _ (c : LruCache) (id : ℕ) (xs ys : List ℕ) (l : Lists c xs ys) where
  open l use {active, inactive, distinct_active, distinct_inactive, apart}

  active_head-remove :
      has id xs ≡ true
      → (remove_node c id).active_head
        ≡ (if is_at id c.active_head then (c.nodes id).next else c.active_head)
  unfolding remove_node
  active_head-remove h = ground (arith, Chain-LeftOf c.nodes none c.active_head xs id active h)

  inactive_head-remove : has id xs ≡ true → (remove_node c id).inactive_head ≡ c.inactive_head
  unfolding remove_node
  inactive_head-remove h = ground (arith, Chain-LeftOf c.nodes none c.active_head xs id active h)

  remove_active : has id xs ≡ true → Lists (remove_node c id) (erase id xs) ys
  remove_active h =
      let n = c.nodes in
      let alone = Chain-Alone n c.active_head xs id active distinct_active h in
      let u = remove_node-Unlinked c id alone.next_other alone.prev_other in
      let m = (remove_node c id).nodes in
      record {
        active =
            rw (active_head-remove h)
              (Chain-unlink n m id u none c.active_head xs active distinct_active refl h);
        inactive = rw (inactive_head-remove h) (
            Chain-frame n m none c.inactive_head ys
              (λ a i.
                ground (arith, u a, apart a, apart id, alone.next_inside a, alone.prev_inside a))
              inactive);
        distinct_active = erase-IsDistinct id xs distinct_active;
        distinct_inactive = distinct_inactive;
        apart = λ a h'. ground (arith, has-erase id a xs, apart a);
      }

  -- A buffer of the inactive list does not stand at the head of the active one.
  not_active_head : has id ys ≡ true → is_at id c.active_head ≡ false
  not_active_head h =
      ground (arith, head_in_Chain c.nodes none c.active_head xs id active, apart id)

  heads-remove_inactive :
      has id ys ≡ true
      → ((remove_node c id).active_head ≡ c.active_head)
        × ((remove_node c id).inactive_head
            ≡ (if is_at id c.inactive_head then (c.nodes id).next else c.inactive_head))
  unfolding remove_node
  heads-remove_inactive h =
      ground (arith, not_active_head h, Chain-LeftOf c.nodes none c.inactive_head ys id inactive h)

  remove_inactive : has id ys ≡ true → Lists (remove_node c id) xs (erase id ys)
  remove_inactive h =
      let n = c.nodes in
      let alone = Chain-Alone n c.inactive_head ys id inactive distinct_inactive h in
      let u = remove_node-Unlinked c id alone.next_other alone.prev_other in
      let m = (remove_node c id).nodes in
      let heads = heads-remove_inactive h in
      record {
        active = rw heads.0 (
            Chain-frame n m none c.active_head xs
              (λ a i.
                ground (arith, u a, apart a, apart id, alone.next_inside a, alone.prev_inside a))
              active);
        inactive =
            rw heads.1
              (Chain-unlink n m id u none c.inactive_head ys inactive distinct_inactive refl h);
        distinct_active = distinct_active;
        distinct_inactive = erase-IsDistinct id ys distinct_inactive;
        apart = λ a h'. has-erase id a ys (apart a h');
      }

  pub remove_node-Lists :
      (has id xs || has id ys) ≡ true → Lists (remove_node c id) (erase id xs) (erase id ys)
  remove_node-Lists h = elim (Bool-cases (has id xs)) [
    | inl a ↦ rw (erase-not_has id ys (apart id a)) (remove_active a)
    | inr o ↦ rw (erase-not_has id xs o) (remove_inactive (ground arith))
  ]

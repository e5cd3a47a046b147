-- ===== src/Fs/Buffer/Lru/Chain.antt =====
-- Doubly linked lists in the node array of lru.rs.
use glenda.Prelude.{
  ℕ, ◌≡◌, ◌⊎◌, inl, inr, Bool, true, false, Option, none, some, List, [], ◌∷◌, arith, ◌==◌,
  if◌then◌else◌, is_at, has, erase, IsDistinct, Bool-cases,
}
use glenda.Fs.Buffer.Lru.{Nodes, ListNode}

-- From `cur`, whose left neighbour is `p`, the links lead through `xs` and end.
abbrev pub Chain : Nodes → Option ℕ → Option ℕ → List ℕ → Type 0
Chain n p cur [] = cur ≡ none
Chain n p cur (x ∷ xs) = (cur ≡ some x) × ((n x).prev ≡ p) × Chain n (some x) (n x).next xs

pub Chain-frame :
    (n m : Nodes) (p cur : Option ℕ) (xs : List ℕ)
    → ((a : ℕ) → has a xs ≡ true → m a ≡ n a)
    → Chain n p cur xs
    → Chain m p cur xs
Chain-frame n m p cur [] same c = c
Chain-frame n m p cur (x ∷ xs) same c =
    let e : m x ≡ n x = same x (ground arith) in
    let rest = Chain-frame n m (some x) (n x).next xs (λ a h. same a (ground arith)) c.2 in
    (c.0, ground arith, ground arith)

pub head_in_Chain :
    (n : Nodes) (p cur : Option ℕ) (xs : List ℕ) (b : ℕ)
    → Chain n p cur xs
    → cur ≡ some b
    → has b xs ≡ true
head_in_Chain n p cur [] b c e = ground arith
head_in_Chain n p cur (x ∷ xs) b c e = ground arith

-- A node's right neighbour is in the list too, and is not the node itself.
pub next_in_Chain :
    (n : Nodes) (p cur : Option ℕ) (xs : List ℕ) (a b : ℕ)
    → Chain n p cur xs
    → has a xs ≡ true
    → (n a).next ≡ some b
    → has b xs ≡ true
next_in_Chain n p cur [] a b c h e = ground arith
next_in_Chain n p cur (x ∷ []) a b c h e = ground arith
next_in_Chain n p cur (x ∷ y ∷ xs) a b c h e =
    ground (arith, next_in_Chain n (some x) (n x).next (y ∷ xs) a b c.2)

pub next_ne :
    (n : Nodes) (p cur : Option ℕ) (xs : List ℕ) (a b : ℕ)
    → Chain n p cur xs
    → IsDistinct xs
    → has a xs ≡ true
    → (n a).next ≡ some b
    → (b == a) ≡ false
next_ne n p cur [] a b c d h e = ground arith
next_ne n p cur (x ∷ []) a b c d h e = ground arith
next_ne n p cur (x ∷ y ∷ xs) a b c d h e =
    ground (arith, next_ne n (some x) (n x).next (y ∷ xs) a b c.2 d.1)

-- A node is the first, or it has a left neighbour in the list.
abbrev pub LeftOf : Nodes → Option ℕ → Option ℕ → List ℕ → ℕ → Type 0
LeftOf n p cur xs a =
    ((cur ≡ some a) × ((n a).prev ≡ p))
    ⊎ ((z : ℕ) × ((n a).prev ≡ some z)
        × (has z xs ≡ true)
        × ((z == a) ≡ false)
        × ((n z).next ≡ some a)
        × (is_at a cur ≡ false))

LeftOf-cons :
    (n : Nodes) (p cur : Option ℕ) (x : ℕ) (xs : List ℕ) (a : ℕ)
    → cur ≡ some x
    → (a == x) ≡ false
    → LeftOf n (some x) (n x).next xs a
    → LeftOf n p cur (x ∷ xs) a
LeftOf-cons n p cur x xs a e ne (inl l) =
    inr (x, l.1, ground arith, ground arith, l.0, ground arith)
LeftOf-cons n p cur x xs a e ne (inr (z, l, i, ne', j, k)) =
    inr (z, l, ground arith, ne', j, ground arith)

pub Chain-LeftOf :
    (n : Nodes) (p cur : Option ℕ) (xs : List ℕ) (a : ℕ)
    → Chain n p cur xs
    → has a xs ≡ true
    → LeftOf n p cur xs a
Chain-LeftOf n p cur [] a c h = ground arith
Chain-LeftOf n p cur (x ∷ xs) a c h = elim (Bool-cases (a == x)) [
  | inl e ↦ inl (ground arith)
  | inr e ↦
      LeftOf-cons n p cur x xs a c.0 e (Chain-LeftOf n (some x) (n x).next xs a c.2 (ground arith))
]

abbrev pub blank : ListNode
blank = record { prev = none; next = none }

-- `m` is `n` with the node `id` taken out and its neighbours joined.
abbrev pub Unlinked : Nodes → ℕ → Nodes → Type 0
Unlinked n id m =
    (a : ℕ)
    → m a ≡ (
        if a == id then blank else record {
          prev = if is_at a (n id).next then (n id).prev else (n a).prev;
          next = if is_at a (n id).prev then (n id).next else (n a).next;
        })

abbrev pub has_opt : Option ℕ → List ℕ → Bool
has_opt none xs = false
has_opt (some a) xs = has a xs

module _ (n m : Nodes) (id : ℕ) (u : Unlinked n id m) where
  -- The rest of a chain moves up to the place of its first node.
  Chain-relink :
      (p : Option ℕ) (xs : List ℕ)
      → (n id).prev ≡ p
      → Chain n (some id) (n id).next xs
      → IsDistinct xs
      → has id xs ≡ false
      → has_opt p xs ≡ false
      → Chain m p (n id).next xs
  Chain-relink p [] e c d h o = c
  Chain-relink p (y ∷ ys) e c d h o =
      let here = u y in
      let rest = Chain-frame n m (some y) (n y).next ys (λ a i. ground (arith, u a)) c.2 in
      (c.0, ground arith, ground arith)

  Unlinked-before :
      (p cur : Option ℕ) (x : ℕ) (xs : List ℕ)
      → Chain n p cur (x ∷ xs)
      → IsDistinct (x ∷ xs)
      → has id xs ≡ true
      → (id == x) ≡ false
      → (m x ≡ record { prev = p; next = if is_at id (n x).next then (n id).next else (n x).next })
  Unlinked-before p cur x xs c d h e = ground (
    arith,
    u x,
    next_in_Chain n (some x) (n x).next xs id x,
    Chain-LeftOf n (some x) (n x).next xs id,
  )

  pub Chain-unlink :
      (p cur : Option ℕ) (xs : List ℕ)
      → Chain n p cur xs
      → IsDistinct xs
      → has_opt p xs ≡ false
      → has id xs ≡ true
      → Chain m p (if is_at id cur then (n id).next else cur) (erase id xs)
  Chain-unlink p cur [] c d o h = ground arith
  Chain-unlink p cur (x ∷ xs) c d o h = elim (Bool-cases (id == x)) [
    | inl e ↦
        let q : x ≡ id = ground arith in
        let r : (x == id) ≡ true = ground arith in
        let above : Chain n (some id) (n id).next xs = rw q at c.2 in
        rw (e, c.0, r) (Chain-relink p xs (ground arith) above d.1 (ground arith) (ground arith))
    | inr e ↦ rw e (
        let here = Unlinked-before p cur x xs c d (ground arith) e in
        let rest = Chain-unlink (some x) (n x).next xs c.2 d.1 d.0 (ground arith) in
        (ground arith, ground arith, rw here rest))
  ]

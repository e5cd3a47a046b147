-- ===== src/Fs/Inode/Cache/Found.antt =====
-- The searches of `inode_get` in kernel/src/fs/inode.rs, and that an inode has one slot of the cache.
use glenda.Prelude.{
  ℕ, zero, suc, ◌+◌, ◌≤◌, ◌<◌, ◌≡◌, ◌∙◌, subst, Bool, true, false, ◌&&◌, Option, none, some,
  Option-cases, Bool-cases, inl, inr, arith, ltb, ◌==◌, update,
}
use glenda.Fs.Inode.{Inode}
use glenda.Fs.Inode.Cache.{n_inode, find_cached, find_slot}

-- The slot holds an inode of the disk.
abbrev pub is_active : Inode → Bool
is_active p = ltb 0 p.refcnt && p.valid

-- No inode stands in two slots.
abbrev pub IsUnique : (ℕ → Inode) → Type 0
IsUnique inodes =
    (i j : ℕ)
    → is_active (inodes i) ≡ true
    → is_active (inodes j) ≡ true
    → (inodes i).inode_num ≡ (inodes j).inode_num
    → i < n_inode
    → j < n_inode
    → i ≡ j

abbrev pub Cached : ℕ → ℕ → ℕ → (ℕ → Inode) → Option ℕ → Type 0
Cached n i inum inodes (some a) =
    (a < i + n) × (is_active (inodes a) ≡ true) × ((inodes a).inode_num ≡ inum)
Cached n i inum inodes none =
    (a : ℕ) → i ≤ a → a < i + n → (is_active (inodes a) && ((inodes a).inode_num == inum)) ≡ false

pub find_cached-Cached :
    (n i inum : ℕ) (inodes : ℕ → Inode) → Cached n i inum inodes (find_cached n i inum inodes)
unfolding find_cached
find_cached-Cached zero i inum inodes = λ a lo hi. absurd (omega arith)
find_cached-Cached (suc n) i inum inodes =
    let rest = find_cached-Cached n (i + 1) inum inodes in
    let here = ltb 0 (inodes i).refcnt && (inodes i).inode_num == inum && (inodes i).valid in
    elim (Bool-cases here) [
      | inl y ↦ rw (Cached, y) (omega arith, ground (arith, y), ground (arith, y))
      | inr miss ↦ elim (Option-cases (find_cached n (i + 1) inum inodes)) [
        | inl e ↦
            let later = subst (Cached n (i + 1) inum inodes) e rest in
            rw (Cached, miss, e)
              λ a lo hi. elim (Bool-cases (a == i)) [
                | inl y ↦ let same : a ≡ i = ground (arith, y) in rw same (ground (arith, miss))
                | inr n' ↦ later a (ground (arith, n')) (omega arith)
              ]
        | inr (a, e) ↦
            let later = subst (Cached n (i + 1) inum inodes) e rest in
            rw (Cached, miss, e) (omega (arith, later.0), later.1, later.2)
      ]
    ]

abbrev pub Slot : ℕ → ℕ → (ℕ → Inode) → Option ℕ → Type 0
Slot n i inodes (some a) = (a < i + n) × ((inodes a).refcnt ≡ 0)
Slot n i inodes none = (a : ℕ) → i ≤ a → a < i + n → 0 < (inodes a).refcnt

pub find_slot-Slot : (n i : ℕ) (inodes : ℕ → Inode) → Slot n i inodes (find_slot n i inodes)
unfolding find_slot
find_slot-Slot zero i inodes = λ a lo hi. absurd (omega arith)
find_slot-Slot (suc n) i inodes =
    let rest = find_slot-Slot n (i + 1) inodes in
    elim (Bool-cases ((inodes i).refcnt == 0)) [
      | inl y ↦ rw (Slot, y) (omega arith, ground (arith, y))
      | inr miss ↦ elim (Option-cases (find_slot n (i + 1) inodes)) [
        | inl e ↦
            let later = subst (Slot n (i + 1) inodes) e rest in
            rw (Slot, miss, e)
              λ a lo hi. elim (Bool-cases (a == i)) [
                | inl y ↦ let same : a ≡ i = ground (arith, y) in rw same (ground (arith, miss))
                | inr n' ↦ later a (ground (arith, n')) (omega arith)
              ]
        | inr (a, e) ↦
            let later = subst (Slot n (i + 1) inodes) e rest in
            rw (Slot, miss, e) (omega (arith, later.0), later.1)
      ]
    ]

pub hit-IsUnique :
    (inodes : ℕ → Inode) (i n : ℕ)
    → is_active (inodes i) ≡ true
    → IsUnique inodes
    → IsUnique (update inodes i (record (inodes i) { refcnt = n }))
hit-IsUnique inodes i n active u a b ea eb same ha hb = elim (Bool-cases (a == i)) [
  | inl ya ↦
      let sa : a ≡ i = ground (arith, ya) in
      elim (Bool-cases (b == i)) [
        | inl yb ↦ ground (arith, ya, yb)
        | inr nb ↦
            sa ∙ u i b active (rw nb at eb) (ground (arith, same, ya, nb)) (ground (arith, ya)) hb
      ]
  | inr na ↦ elim (Bool-cases (b == i)) [
    | inl yb ↦
        let sb : i ≡ b = ground (arith, yb) in
        u a i (rw na at ea) active (ground (arith, same, yb, na)) ha (ground (arith, yb)) ∙ sb
    | inr nb ↦ u a b (rw na at ea) (rw nb at eb) (ground (arith, same, na, nb)) ha hb
  ]
]

pub load-IsUnique :
    (inodes : ℕ → Inode) (i : ℕ) (p : Inode)
    → ((a : ℕ)
        → 0 ≤ a
        → a < 0 + n_inode
        → (is_active (inodes a) && ((inodes a).inode_num == p.inode_num)) ≡ false)
    → IsUnique inodes
    → IsUnique (update inodes i p)
load-IsUnique inodes i p fresh u a b ea eb same ha hb = elim (Bool-cases (a == i)) [
  | inl ya ↦ elim (Bool-cases (b == i)) [
    | inl yb ↦ ground (arith, ya, yb)
    | inr nb ↦
        let f = fresh b (omega arith) (omega arith) in
        let active = rw nb at eb in
        let named = rw (ya, nb) at same in absurd (ground (arith, f, active, named))
  ]
  | inr na ↦ elim (Bool-cases (b == i)) [
    | inl yb ↦
        let f = fresh a (omega arith) (omega arith) in
        let active = rw na at ea in
        let named = rw (yb, na) at same in absurd (ground (arith, f, active, named))
    | inr nb ↦ u a b (rw na at ea) (rw nb at eb) (rw (na, nb) at same) ha hb
  ]
]

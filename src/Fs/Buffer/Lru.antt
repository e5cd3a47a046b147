-- ===== src/Fs/Buffer/Lru.antt =====
-- kernel/src/fs/buffer/lru.rs: the buffers, and two doubly linked lists of their indices. Arrays
-- are functions of the index; `BufferId` is a number below `n_buffer`.
pub mod Chain
pub mod Rep
pub mod Remove
pub mod Insert
pub mod Search
pub mod Init
use glenda.Prelude.{
  ℕ, zero, suc, ◌+◌, ◌-◌, Bool, true, false, ◌&&◌, Option, none, some, ltb, ◌==◌, if◌then◌else◌,
  is_at, update, Outcome, ok, stuck, ◌>>=◌, assert, expect, add_u32,
}

-- The bytes of a block, by their offset.
abbrev pub Block : Type 0
Block = ℕ → ℕ

abbrev pub n_buffer : ℕ
n_buffer = 32

pub record Buffer : Type 0 where
  pub content : Block
  pub block_no : ℕ
  pub dev : ℕ
  pub refcnt : ℕ
  pub valid : Bool
  pub dirty : Bool
  pub locked : Bool

abbrev pub BufferId : Type 0
BufferId = ℕ

unfoldable pub buffer_id : ℕ → Option BufferId
buffer_id idx = if ltb idx n_buffer then some idx else none

pub record ListNode : Type 0 where
  pub prev : Option BufferId
  pub next : Option BufferId

pub record LruCache : Type 0 where
  pub buffers : ℕ → Buffer
  pub nodes : ℕ → ListNode
  pub active_head : Option BufferId
  pub inactive_head : Option BufferId

abbrev pub Nodes : Type 0
Nodes = ℕ → ListNode

-- `nodes[i].prev = o` and `nodes[i].next = o`.
abbrev pub set_prev : Nodes → BufferId → Option BufferId → Nodes
set_prev n i o = update n i (record { prev = o; next = (n i).next })

abbrev pub set_next : Nodes → BufferId → Option BufferId → Nodes
set_next n i o = update n i (record { prev = (n i).prev; next = o })

-- The first two writes of `remove_node`: past the node from the left, or in the list's head.
unlink_prev : BufferId → Option BufferId → Option BufferId → LruCache → LruCache
unlink_prev id none next c =
    if is_at id c.active_head
    then record c { active_head = next }
    else if is_at id c.inactive_head
    then record c { inactive_head = next }
    else c
unlink_prev id (some p) next c = record c { nodes = set_next c.nodes p next }

unlink_next : Option BufferId → Option BufferId → LruCache → LruCache
unlink_next prev none c = c
unlink_next prev (some n) c = record c { nodes = set_prev c.nodes n prev }

unfoldable pub remove_node : LruCache → BufferId → LruCache
unfolding unlink_prev unlink_next
remove_node c id =
    let prev = (c.nodes id).prev in
    let next = (c.nodes id).next in
    let d = unlink_next prev next (unlink_prev id prev next c) in
    record d { nodes = set_next (set_prev d.nodes id none) id none }

-- The writes of `insert_active_head` and `insert_inactive_head` to the links.
link_head : Nodes → BufferId → Option BufferId → Nodes
link_head n id none = set_next (set_prev n id none) id none
link_head n id (some h) = set_prev (set_next (set_prev n id none) id (some h)) h (some id)

unfoldable pub insert_active_head : LruCache → BufferId → LruCache
unfolding link_head
insert_active_head c id =
    let d = remove_node c id in
    record d { nodes = link_head d.nodes id d.active_head; active_head = some id }

unfoldable pub insert_inactive_head : LruCache → BufferId → LruCache
unfolding link_head
insert_inactive_head c id =
    let d = remove_node c id in
    record d { nodes = link_head d.nodes id d.inactive_head; inactive_head = some id }

-- The loop of `get_lru`.
last_from : Nodes → ℕ → BufferId → Outcome (Option BufferId)
last_from n zero current = stuck
last_from n (suc fuel) current = elim ((n current).next) [
  | none ↦ ok (some current)
  | some next ↦ last_from n fuel next
]

-- The lists hold at most `n_buffer` nodes, so that a walk takes as many steps at most.
unfoldable pub get_lru : LruCache → Outcome (Option BufferId)
unfolding last_from
get_lru c = elim c.inactive_head [ none ↦ ok none | some head ↦ last_from c.nodes n_buffer head ]

abbrev pub holds : ℕ → ℕ → Buffer → Bool
holds dev blockno b = b.dev == dev && b.block_no == blockno

-- The loop of `find_active` and `find_inactive`.
find_from : LruCache → ℕ → ℕ → ℕ → BufferId → Outcome (Option BufferId)
find_from c dev blockno zero current = stuck
find_from c dev blockno (suc fuel) current = elim (holds dev blockno (c.buffers current)) [
  | true ↦ ok (some current)
  | false ↦ elim ((c.nodes current).next) [
    | none ↦ ok none
    | some next ↦ find_from c dev blockno fuel next
  ]
]

unfoldable pub find_active : LruCache → ℕ → ℕ → Outcome (Option BufferId)
unfolding find_from
find_active c dev blockno = elim c.active_head [
  | none ↦ ok none
  | some head ↦ find_from c dev blockno n_buffer head
]

unfoldable pub find_inactive : LruCache → ℕ → ℕ → Outcome (Option BufferId)
unfolding find_from
find_inactive c dev blockno = elim c.inactive_head [
  | none ↦ ok none
  | some head ↦ find_from c dev blockno n_buffer head
]

-- `*self.get_buffer_mut(id) = b`.
abbrev pub set_buffer : LruCache → BufferId → Buffer → LruCache
set_buffer c id b = record c { buffers = update c.buffers id b }

unfoldable pub promote_to_active : LruCache → BufferId → Outcome LruCache
promote_to_active c id = do
  n ← add_u32 (c.buffers id).refcnt 1
  ok (insert_active_head (set_buffer c id (record (c.buffers id) { refcnt = n })) id)

unfoldable pub demote_to_inactive : LruCache → BufferId → LruCache
demote_to_inactive c id = insert_inactive_head c id

-- What `recycle_lru` makes of the buffer that it takes.
abbrev pub recycled : ℕ → ℕ → Buffer → Buffer
recycled dev blockno b = record b {
  block_no = blockno;
  dev = dev;
  refcnt = 1;
  valid = false;
  locked = true;
}

unfoldable pub recycle_lru : LruCache → ℕ → ℕ → Outcome (LruCache × BufferId)
recycle_lru c dev blockno = do
  found ← get_lru c
  lru ← expect found
  _ ← assert ((c.buffers lru).refcnt == 0)
  ok (insert_active_head (set_buffer c lru (recycled dev blockno (c.buffers lru))) lru, lru)

abbrev pub new_buffer : Buffer
new_buffer = record {
  content = λ _. 0;
  block_no = 0;
  dev = 0;
  refcnt = 0;
  valid = false;
  dirty = false;
  locked = false;
}

abbrev pub new_cache : LruCache
new_cache = record {
  buffers = λ _. new_buffer;
  nodes = λ _. record { prev = none; next = none };
  active_head = none;
  inactive_head = none;
}

-- The rounds `0`, …, `n - 1` of the loop in `init`.
link_all : ℕ → Nodes → Nodes
unfolding buffer_id
link_all zero nodes = nodes
link_all (suc i) nodes = update (link_all i nodes) i (record {
  prev = if ltb 0 i then buffer_id (i - 1) else none;
  next = if ltb i (n_buffer - 1) then buffer_id (i + 1) else none;
})

unfoldable pub init : LruCache → LruCache
unfolding link_all
init c = record c {
  nodes = link_all n_buffer (λ _. record { prev = none; next = none });
  active_head = none;
  inactive_head = buffer_id 0;
}

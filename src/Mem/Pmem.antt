-- ===== src/Mem/Pmem.antt =====
-- kernel/src/mem/pmem.rs: two regions of physical pages, each with a free list that runs through the
-- pages themselves, and a reference count for each page. The memory is read and written by words at
-- multiples of 8; a link to no page is the word 0. The locks and atomics order the accesses of the
-- harts; here one hart runs.
pub mod FreeList
pub mod Pool
pub mod Take
pub mod Give
pub mod Init
pub mod Boot
pub mod Cycle
mod Tests
use glenda.Prelude.{
  ℕ, zero, suc, ◌+◌, ◌-◌, ◌*◌, ◌/◌, ◌%◌, Bool, true, false, not, ◌&&◌, ◌||◌, Option, none, some,
  ltb, leb, ◌==◌, if◌then◌else◌, update, is_none, Outcome, ok, panic, stuck, ◌>>=◌, assert, expect,
  add_usize,
}
use glenda.Mem.Addr.{pgsize, kern_pages, align_down, align_up}

abbrev pub phy_mem_start : ℕ
phy_mem_start = 0x8000_0000

abbrev pub total_pages : ℕ
total_pages = 128 * 1024 * 1024 / pgsize

unfoldable pub pa_to_index : ℕ → Outcome ℕ
pa_to_index pa =
    if ltb pa phy_mem_start
    then panic
    else let idx = (pa - phy_mem_start) / pgsize in if leb total_pages idx then panic else ok idx

pub record RegionBounds : Type 0 where
  pub begin : ℕ
  pub end : ℕ

-- `bounds` is set once; `head` is the address of the first free page, or 0.
pub record AllocRegion : Type 0 where
  pub bounds : Option RegionBounds
  pub head : ℕ
  pub allocable : ℕ

-- The memory, `PAGE_REF`, `KERNEL_REGION` and `USER_REGION`.
pub record Pmem : Type 0 where
  pub mem : ℕ → ℕ
  pub page_ref : ℕ → ℕ
  pub kernel_region : AllocRegion
  pub user_region : AllocRegion

unfoldable pub region : Bool → Pmem → AllocRegion
region true p = p.kernel_region
region false p = p.user_region

-- The state with one region written.
unfoldable pub set_region : Bool → AllocRegion → Pmem → Pmem
set_region true r p = record p { kernel_region = r }
set_region false r p = record p { user_region = r }

unfoldable pub contains : AllocRegion → ℕ → Bool
contains r addr = elim r.bounds [ none ↦ false | some b ↦ leb b.begin addr && ltb addr b.end ]

-- The loop of `AllocRegion::init`: the last page that is pushed is the first in the list.
init_pages : ℕ → ℕ → ℕ → ℕ → ℕ → (ℕ → ℕ) → Outcome (ℕ × ℕ × (ℕ → ℕ))
init_pages zero current end head count mem = stuck
init_pages (suc fuel) current end head count mem =
    let rest =
      init_pages fuel (current + pgsize) end current (count + 1) (update mem current head) in
    if leb (current + pgsize) end then rest else ok (head, count, mem)

-- A region has at most `end / pgsize` pages, so that the loop takes as many rounds at most.
unfoldable pub init : Bool → ℕ → ℕ → Pmem → Outcome Pmem
unfolding init_pages
init k begin end p = do
  begin_aligned ← align_up begin
  let end_aligned = align_down end
  (head, count, mem) ← init_pages (end_aligned / pgsize + 1) begin_aligned end_aligned 0 0 p.mem
  _ ← assert (is_none (region k p).bounds)
  ok (
      set_region k
        (record {
          bounds = some (record { begin = begin_aligned; end = end_aligned });
          head = head;
          allocable = count;
        })
        (record p { mem = mem }))

pub record RegionInfo : Type 0 where
  pub begin : ℕ
  pub end : ℕ
  pub allocable : ℕ

unfoldable pub info : AllocRegion → Outcome RegionInfo
info r = do
  b ← expect r.bounds
  ok (record { begin = b.begin; end = b.end; allocable = r.allocable })

-- `ptr::write_bytes(p, 0, PGSIZE)`.
abbrev pub zero_page : (ℕ → ℕ) → ℕ → ℕ → ℕ
zero_page mem p a = if leb p a && ltb a (p + pgsize) then 0 else mem a

-- `fetch_add` and `fetch_sub` on an `AtomicU8` wrap.
abbrev pub add_ref : (ℕ → ℕ) → ℕ → ℕ → ℕ
add_ref refs idx = update refs idx ((refs idx + 1) % 256)

abbrev pub sub_ref : (ℕ → ℕ) → ℕ → ℕ → ℕ
sub_ref refs idx = update refs idx ((refs idx + 255) % 256)

-- `allocate` of the free page `head`.
unfoldable pub take_head : Bool → ℕ → Pmem → Outcome (Option ℕ × Pmem)
take_head k head p = do
  let r = region k p
  let q = set_region k (record r { head = p.mem head; allocable = r.allocable - 1 }) p
  idx ← pa_to_index head
  _ ← assert (p.page_ref idx == 0)
  ok (some head, record q { mem = zero_page p.mem head; page_ref = add_ref p.page_ref idx })

unfoldable pub allocate : Bool → Pmem → Outcome (Option ℕ × Pmem)
allocate k p =
    let head = (region k p).head in if head == 0 then ok (none, p) else take_head k head p

-- The page goes to the front of the free list.
push_head : Bool → ℕ → Pmem → Pmem
push_head k addr p =
    let r = region k p in
    set_region k (record r { head = addr; allocable = r.allocable + 1 })
      (record p { mem = update p.mem addr r.head })

unfoldable pub free_in : Bool → ℕ → Pmem → Outcome Pmem
unfolding push_head
free_in k addr p = do
  b ← expect (region k p).bounds
  _ ← assert (not (ltb addr b.begin || leb b.end addr || not (addr % pgsize == 0)))
  idx ← pa_to_index addr
  let old = p.page_ref idx
  let q = record p { page_ref = sub_ref p.page_ref idx }
  if old == 0 then panic else if ltb 1 old then ok q else ok (push_head k addr q)

unfoldable pub alloc : Bool → Pmem → Outcome (ℕ × Pmem)
alloc for_kernel p = do
  (ptr, q) ← allocate for_kernel p
  elim ptr [ none ↦ panic | some a ↦ ok (a, q) ]

unfoldable pub free : ℕ → Pmem → Outcome Pmem
free addr p =
    if contains p.kernel_region addr
    then free_in true addr p
    else if contains p.user_region addr
    then free_in false addr p
    else panic

unfoldable pub get_region : ℕ → Pmem → Outcome (Option Bool)
get_region pa p = do
  kern ← info p.kernel_region
  user ← info p.user_region
  ok (
      if leb kern.begin pa && ltb pa kern.end
      then some true
      else if leb user.begin pa && ltb pa user.end
      then some false
      else none)

-- `[start, start + size)`, the physical memory.
pub record MemoryRange : Type 0 where
  pub start : ℕ
  pub size : ℕ

abbrev pub or_default : Option MemoryRange → MemoryRange
or_default (some r) = r
or_default none = record { start = 0x8000_0000; size = 128 * 1024 * 1024 }

-- The end of the kernel's region: `KERN_PAGES` pages, as far as there is memory.
unfoldable pub kernel_split : ℕ → ℕ → Outcome ℕ
kernel_split alloc_begin alloc_end = do
  s ← add_usize alloc_begin (kern_pages * pgsize)
  wanted ← align_up s
  let split = if ltb alloc_end wanted then alloc_end else wanted
  ok (if ltb split alloc_begin then alloc_begin else split)

abbrev pub page_aligned : ℕ → Bool
page_aligned a = a % pgsize == 0

-- The two symbols of the linker script, and the memory range of the device tree.
unfoldable pub initialize_regions : ℕ → ℕ → Option MemoryRange → Pmem → Outcome Pmem
initialize_regions bss_end alloc_begin memory_range p = do
  kernel_end ← align_up bss_end
  let range = or_default memory_range
  mem_end ← add_usize range.start range.size
  _ ← assert (ltb kernel_end mem_end)
  _ ← assert (leb kernel_end alloc_begin)
  _ ← assert (page_aligned alloc_begin)
  split ← kernel_split alloc_begin mem_end
  q ← init true alloc_begin split p
  r ← init false split mem_end q
  k ← info r.kernel_region
  u ← info r.user_region
  _ ← assert (page_aligned k.begin)
  _ ← assert (page_aligned k.end)
  _ ← assert (page_aligned u.begin)
  _ ← assert (page_aligned u.end)
  ok r

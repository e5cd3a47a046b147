-- ===== src/Mem/Uvm/Munmap.antt =====
-- `munmap` of kernel/src/mem/uvm.rs, on the same chain as `mmap`: the regions before `cur`, the nearest
-- first, and those from `cur` on.
pub mod Cuts
pub mod Correct
pub mod Whole
mod Tests
use glenda.Prelude.{
  ℕ, ◌+◌, ◌-◌, ◌*◌, ◌/◌, ◌≤◌, min, max, Bool, true, false, not, ◌&&◌, ◌||◌, Option, none, some,
  List, [], ◌∷◌, ◌++◌, Outcome, ok, ◌>>=◌, add_usize, sub_usize, ltb, leb, ◌==◌, if◌then◌else◌,
}
use glenda.Mem.Addr.{align_up, align_down}
use glenda.Mem.Pagetable.{unmap}
use glenda.Mem.Mmap.{MmapRegion, Warehouse, region_alloc, region_free}
use glenda.Mem.Uvm.{UvmError, no_mem, map_failed, Result, value, error}
use glenda.Mem.Uvm.Mmap.{Space, end_of, unwind, pages}

-- A region without `[s, e)`, which lies in it: what is left of it, the last part first. The part behind
-- a hole needs a node of its own.
unfoldable pub cut : ℕ → ℕ → MmapRegion → Warehouse → Option (List MmapRegion) × Warehouse
cut s e cur w =
    let cur_end = end_of cur in
    let front : MmapRegion = record cur { npages = pages (s - cur.begin) } in
    let back : MmapRegion = record cur { begin = e; npages = pages (cur_end - e) } in
    let taken = region_alloc w in
    if s == cur.begin && e == cur_end
    then (some [], region_free cur.node w)
    else if s == cur.begin
    then (some (back ∷ []), w)
    else if e == cur_end
    then (some (front ∷ []), w)
    else elim taken.0 [
      | none ↦ (none, taken.1)
      | some node ↦ (some (record back { node = node } ∷ front ∷ []), taken.1)
    ]

-- The loop that unmaps. A round that leaves two parts is the last, as `e` is `end` there.
unfoldable pub unmap_from :
    ℕ → ℕ → ℕ → List MmapRegion → List MmapRegion → Space → Outcome (Result (Unit {0}) × Space)
unmap_from root end unmap_start before [] t = ok (value tt, record t { regions = unwind before [] })
unmap_from root end unmap_start before (cur ∷ rest) t =
    let here = unwind before (cur ∷ rest) in
    let s = max unmap_start cur.begin in
    let e = min end (end_of cur) in
    elim (not (ltb unmap_start end) || leb end cur.begin) [
      | true ↦ ok (value tt, record t { regions = here })
      | false ↦ elim (ltb s e) [
        | true ↦ unmap root s (e - s) true t.pool >>= λ u. elim u.0 [
          | false ↦ ok (error map_failed, record t { regions = here; pool = u.1 })
          | true ↦ elim (cut s e cur t.warehouse).0 [
            | none ↦ ok (
              error no_mem,
              record t { regions = here; pool = u.1; warehouse = (cut s e cur t.warehouse).1 },
            )
            | some parts ↦
                unmap_from root end (s + (e - s)) (parts ++ before) rest
                  (record t { pool = u.1; warehouse = (cut s e cur t.warehouse).1 })
          ]
        ]
        | false ↦ sub_usize e s >>= λ size. unmap_from root end (s + size) (cur ∷ before) rest t
      ]
    ]

-- The walk to the first region that ends behind `start`.
pub skip : ℕ → List MmapRegion → List MmapRegion → List MmapRegion × List MmapRegion
skip start before [] = (before, [])
skip start before (cur ∷ rest) =
    let further = skip start (cur ∷ before) rest in
    if leb (end_of cur) start then further else (before, cur ∷ rest)

unfoldable pub munmap : ℕ → ℕ → ℕ → Space → Outcome (Result (Unit {0}) × Space)
unfolding skip
munmap root begin len t =
    if len == 0
    then ok (value tt, t)
    else (add_usize begin len >>= λ sum. align_up sum >>= λ end.
        let start = align_down begin in
        let z = skip start [] t.regions in
        if leb end start then ok (value tt, t) else unmap_from root end start z.0 z.1 t)

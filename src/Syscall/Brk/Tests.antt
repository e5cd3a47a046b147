-- ===== src/Syscall/Brk/Tests.antt =====
-- `sys_brk` of kernel/src/syscall/brk.rs at a concrete input.
use glenda.Prelude.{◌-◌, ◌^◌, ◌≡◌, refl, some, arith, ok, Ends}
use glenda.Syscall.Brk.{Heap, sys_brk}
use glenda.Syscall.Brk.Bounds.{IsHeap, Brks, sys_brk-Brks}

abbrev heap : Heap
heap = record {
  root_pt_pa = 0x8000_0000;
  heap_base = 0x2000;
  heap_top = 0x2000;
  pool = record {
    mem = λ a. 0;
    page_ref = λ i. 0;
    kernel_region = record {
      bounds = some (record { begin = 0x8000_0000; end = 0x8000_1000 });
      head = 0;
      allocable = 0;
    };
    user_region = record {
      bounds = some (record { begin = 0x8000_1000; end = 0x8000_1000 });
      head = 0;
      allocable = 0;
    };
  };
}

heap-IsHeap : IsHeap heap
heap-IsHeap = record { above = omega arith; below = omega arith }

sys_brk-same : sys_brk 0x1001 heap ≡ ok (2 ^ 64 - 1, heap)
unfolding sys_brk
sys_brk-same = refl

sys_brk-Brks_example : Ends (sys_brk 0x2000 heap) × Brks 0x2000 heap (sys_brk 0x2000 heap)
sys_brk-Brks_example = sys_brk-Brks 0x2000 heap heap-IsHeap

-- ===== src/Mem/Uvm/Copy/Tests.antt =====
-- `copyin` and `copyin_str` of kernel/src/mem/uvm.rs at a concrete input: one user page at 0x5000, below
-- three tables.
use glenda.Prelude.{ℕ, ◌≡◌, refl, update, ok}
use glenda.Mem.Addr.{vpn, align_down}
use glenda.Mem.Pte.{is_valid, is_leaf, get_flags, pte_to_pa}
use glenda.Mem.Pagetable.{lookup}
use glenda.Mem.Uvm.Copy.{user_page, at, copyin, copyin_str}
use glenda.Mem.Uvm.Copy.Bytewise.{bytes_at, str_at}
use glenda.Mem.Uvm.Copy.Correct.{copyin-bytes_at, copyin_str-str_at}

-- Two bytes that are not 0 stand at the start of the page.
abbrev memory : ℕ → ℕ
memory =
    update
      (update (update (update (λ a. 0) 0x8000_0000 0x2000_0401) 0x8000_1000 0x2000_0801) 0x8000_2028
        0x2000_0CD7)
      0x8000_3000 0x0000_0000_0000_4241

user_page-found : user_page 2 0x8000_0000 0x5001 memory ≡ at 0x8000_3000
unfolding user_page lookup vpn align_down is_valid is_leaf get_flags pte_to_pa
user_page-found = refl

copyin-bytes_at_example :
    copyin 0x8000_0000 0x5000 3 memory ≡ ok (bytes_at 3 0x8000_0000 0x5000 memory)
copyin-bytes_at_example = copyin-bytes_at 0x8000_0000 0x5000 3 memory

copyin_str-str_at_example :
    copyin_str 0x8000_0000 0x5000 8 memory ≡ ok (str_at 8 0x8000_0000 0x5000 memory)
copyin_str-str_at_example = copyin_str-str_at 0x8000_0000 0x5000 8 memory

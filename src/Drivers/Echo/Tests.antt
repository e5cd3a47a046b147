-- ===== src/Drivers/Echo/Tests.antt =====
-- The widths of kernel/src/drivers/uart/utf8.rs at a concrete line.
use glenda.Prelude.{◌≤◌, ◌≡◌, ◌∷◌, take, ◌==◌, if◌then◌else◌, arith, update}
use glenda.Drivers.Echo.{linebuf_cap, ConsoleEcho, push_width, pop_width}
use glenda.Drivers.Echo.Stack.{view, Pops, push_width-stack}

abbrev line : ConsoleEcho
line = record { widths = update (update (λ i. 0) 0 1) 1 2; len = 2 }

push_width-stack_example :
    ((push_width line 1).len ≤ linebuf_cap)
    × (view (push_width line 1) ≡ (if 1 == 0 then view line else take linebuf_cap (1 ∷ view line)))
    × Pops (view line) (pop_width line)
push_width-stack_example = push_width-stack line 1 (omega arith)

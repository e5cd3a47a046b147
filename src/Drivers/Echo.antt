-- ===== src/Drivers/Echo.antt =====
-- The widths of the chars on the console's line, in kernel/src/drivers/uart/utf8.rs.
pub mod Stack
mod Tests
use glenda.Prelude.{ℕ, zero, suc, ◌+◌, ◌-◌, Option, none, some, ltb, ◌==◌, if◌then◌else◌, update}

abbrev pub linebuf_cap : ℕ
linebuf_cap = 256

-- Without its decoder, which the functions below do not touch.
pub record ConsoleEcho : Type 0 where
  pub widths : ℕ → ℕ
  pub len : ℕ

abbrev pub clear_line : ConsoleEcho → ConsoleEcho
clear_line e = record e { len = 0 }

-- `widths[i - 1] = widths[i]` from `i` on.
shift : ℕ → ℕ → (ℕ → ℕ) → ℕ → ℕ
shift zero i widths = widths
shift (suc rounds) i widths = shift rounds (i + 1) (update widths (i - 1) (widths i))

unfoldable pub push_width : ConsoleEcho → ℕ → ConsoleEcho
unfolding shift
push_width e w =
    if w == 0
    then e
    else if ltb e.len linebuf_cap
    then record { widths = update e.widths e.len w; len = e.len + 1 }
    else record e { widths = update (shift (linebuf_cap - 1) 1 e.widths) (linebuf_cap - 1) w }

unfoldable pub pop_width : ConsoleEcho → Option ℕ × ConsoleEcho
pop_width e =
    if e.len == 0 then (none, e) else (some (e.widths (e.len - 1)), record e { len = e.len - 1 })

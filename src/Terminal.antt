-- ===== src/Terminal.antt =====
-- The text screen: kernel/src/vga.c, kernel/include/vga.h, kernel/src/terminal.c and
-- kernel/include/terminal.h. The screen's memory is a map from the index of a cell to the cell; writes to
-- ports are recorded in order, the last one first.
pub mod Scroll
pub mod Print
use gummy.Prelude.{
  ℕ, zero, suc, ◌+◌, ◌-◌, ◌*◌, ◌/◌, ◌%◌, ◌^◌, Bool, true, ◌==◌, ltb, leb, if◌then◌else◌, List, [],
  ◌∷◌,
}
use gummy.Queue.{update}

-- `vga_cell_t`
pub record VgaCell : Type 0 where
  pub ch : ℕ
  pub attr : ℕ

abbrev pub Cells : Type 0
Cells = ℕ → VgaCell

pub record Terminal : Type 0 where
  pub cells : Cells
  pub ports : List (ℕ × ℕ)
  pub cursor_x : ℕ
  pub cursor_y : ℕ
  pub current_color : ℕ
  pub initialized : Bool

abbrev pub terminal_width : ℕ
terminal_width = 80

abbrev pub terminal_height : ℕ
terminal_height = 25

-- `y * VGA_TEXT_MODE_WIDTH + x` in 16 bits.
abbrev pub cell_index : ℕ → ℕ → ℕ
cell_index x y = (y * terminal_width + x) % 2 ^ 16

abbrev pub vga_draw_cell : Cells → VgaCell → ℕ → ℕ → Cells
vga_draw_cell cells cell x y = update cells (cell_index x y) cell

abbrev pub vga_peek_cell : Cells → ℕ → ℕ → VgaCell
vga_peek_cell cells x y = cells (cell_index x y)

abbrev pub vga_update_cursor : List (ℕ × ℕ) → ℕ → ℕ → List (ℕ × ℕ)
vga_update_cursor ports x y =
    let pos : ℕ = cell_index x y in
    (0x3d5, pos / 2 ^ 8 % 2 ^ 8) ∷ (0x3d4, 0x0e) ∷ (0x3d5, pos % 2 ^ 8) ∷ (0x3d4, 0x0f) ∷ ports

-- The inner loop of `terminal_scroll_up`, `rounds` columns from `x` on.
unfoldable pub scroll_row : Cells → ℕ → ℕ → ℕ → Cells
scroll_row cells y zero x = cells
scroll_row cells y (suc rounds) x =
    scroll_row (vga_draw_cell cells (vga_peek_cell cells x y) x (y - 1)) y rounds (x + 1)

-- The outer loop, `rounds` rows from `y` on.
unfoldable pub scroll_rows : Cells → ℕ → ℕ → Cells
scroll_rows cells zero y = cells
scroll_rows cells (suc rounds) y = scroll_rows (scroll_row cells y terminal_width 0) rounds (y + 1)

-- The loop that draws a cell in a row, `rounds` columns from `x` on.
unfoldable pub fill_row : Cells → VgaCell → ℕ → ℕ → ℕ → Cells
fill_row cells cell y zero x = cells
fill_row cells cell y (suc rounds) x = fill_row (vga_draw_cell cells cell x y) cell y rounds (x + 1)

abbrev pub space_cell : ℕ → VgaCell
space_cell color = record { ch = 32; attr = color }

unfoldable pub terminal_scroll_up : Cells → ℕ → Cells
terminal_scroll_up cells color =
    fill_row (scroll_rows cells (terminal_height - 1) 1) (space_cell color) (terminal_height - 1)
      terminal_width 0

-- The beginning of `terminal_putchar`: the cell is drawn and the cursor moves. 10 is a line feed and 13
-- a carriage return.
unfoldable pub draw_char : Terminal → ℕ → Terminal
draw_char t c =
    if c == 10
    then record t { cursor_y = (t.cursor_y + 1) % 2 ^ 16 }
    else if c == 13
    then record t { cursor_x = 0 }
    else record t {
      cells =
          vga_draw_cell t.cells (record { ch = c; attr = t.current_color }) t.cursor_x t.cursor_y;
      cursor_x = (t.cursor_x + 1) % 2 ^ 16;
    }

unfoldable pub wrap_line : Terminal → Terminal
wrap_line t =
    if leb terminal_width t.cursor_x
    then record t { cursor_x = 0; cursor_y = (t.cursor_y + 1) % 2 ^ 16 }
    else t

unfoldable pub wrap_screen : Terminal → Terminal
wrap_screen t =
    if leb terminal_height t.cursor_y
    then record t {
      cells = terminal_scroll_up t.cells t.current_color;
      cursor_x = 0;
      cursor_y = t.cursor_y - 1;
    }
    else t

abbrev pub show_cursor : Terminal → Terminal
show_cursor t = record t { ports = vga_update_cursor t.ports t.cursor_x t.cursor_y }

unfoldable pub terminal_putchar : Terminal → ℕ → Terminal
terminal_putchar t c = show_cursor (wrap_screen (wrap_line (draw_char t c)))

abbrev pub print_chars : Terminal → List ℕ → Terminal
print_chars t [] = t
print_chars t (c ∷ cs) = print_chars (terminal_putchar t c) cs

-- A string is the list of its characters.
unfoldable pub terminal_print_string : Terminal → List ℕ → Terminal
terminal_print_string t cs = if t.initialized then print_chars t cs else t

-- The loop of `terminal_init`, `rounds` rows from `y` on.
unfoldable pub fill_rows : Cells → VgaCell → ℕ → ℕ → Cells
fill_rows cells cell zero y = cells
fill_rows cells cell (suc rounds) y =
    fill_rows (fill_row cells cell y terminal_width 0) cell rounds (y + 1)

unfoldable pub terminal_init : Terminal → Terminal
terminal_init t = show_cursor (record t {
  cells = fill_rows t.cells (space_cell t.current_color) terminal_height 0;
  cursor_x = 0;
  cursor_y = 0;
  initialized = true;
})

-- ===== src/Terminal/Print.antt =====
-- What `terminal_putchar` and `terminal_print_string` of kernel/src/terminal.c show.
use gummy.Prelude.{
  ℕ, ◌+◌, ◌*◌, ◌%◌, ◌≤◌, ◌<◌, ◌≡◌, arith, Bool, not, ltb, ◌&&◌, ◌||◌, if◌then◌else◌, ◌==◌, List, [],
  ◌∷◌,
}
use gummy.Queue.{update}
use gummy.Terminal.{
  Cells, Terminal, cell_index, space_cell, draw_char, wrap_line, wrap_screen, terminal_putchar,
  print_chars, terminal_print_string, terminal_init, vga_update_cursor,
}
use gummy.Terminal.Scroll.{shifted, terminal_scroll_up-shifted, fill_rows-reads}

abbrev pub is_printed : ℕ → Bool
is_printed c = not (c == 10) && not (c == 13)

-- The cursor goes to the next line.
abbrev pub is_last : Terminal → ℕ → Bool
is_last t c = c == 10 || is_printed c && t.cursor_x == 79

-- The cursor goes below the last line.
abbrev pub scrolls : Terminal → ℕ → Bool
scrolls t c = is_last t c && t.cursor_y == 24

-- The cells with the character at the cursor, if it is printed.
abbrev pub drawn : Terminal → ℕ → Cells
drawn t c =
    if is_printed c
    then update t.cells (t.cursor_y * 80 + t.cursor_x) (record { ch = c; attr = t.current_color })
    else t.cells

abbrev pub column_after : Terminal → ℕ → ℕ
column_after t c =
    if scrolls t c || c == 13 then 0 else if c == 10 then t.cursor_x else (t.cursor_x + 1) % 80

abbrev pub row_after : Terminal → ℕ → ℕ
row_after t c = if is_last t c && ltb t.cursor_y 24 then t.cursor_y + 1 else t.cursor_y

-- What a character does to the screen.
pub record Shows (t : Terminal) (c : ℕ) (t' : Terminal) : Type 0 where
  pub cells :
      (a : ℕ)
      → t'.cells a
        ≡ (if scrolls t c then shifted (drawn t c) (space_cell t.current_color) a else drawn t c a)
  pub column : t'.cursor_x ≡ column_after t c
  pub row : t'.cursor_y ≡ row_after t c
  pub on_screen : (t'.cursor_x < 80) × (t'.cursor_y < 25)
  pub color : t'.current_color ≡ t.current_color
  pub cursor : t'.ports ≡ vga_update_cursor t.ports (column_after t c) (row_after t c)

module _ (t : Terminal) (c : ℕ) (x : t.cursor_x < 80) (y : t.cursor_y < 25) where
  index_lem : cell_index t.cursor_x t.cursor_y ≡ t.cursor_y * 80 + t.cursor_x
  index_lem = omega (arith, x, y)

  column_lem : (terminal_putchar t c).cursor_x ≡ column_after t c
  unfolding terminal_putchar draw_char wrap_line wrap_screen
  column_lem = ground (arith, x, y)

  row_lem : (terminal_putchar t c).cursor_y ≡ row_after t c
  unfolding terminal_putchar draw_char wrap_line wrap_screen
  row_lem = ground (arith, x, y)

  cells_lem :
      (a : ℕ)
      → (terminal_putchar t c).cells a
        ≡ (if scrolls t c then shifted (drawn t c) (space_cell t.current_color) a else drawn t c a)
  unfolding terminal_putchar draw_char wrap_line wrap_screen
  cells_lem a =
      rw index_lem (ground (arith, x, y, terminal_scroll_up-shifted (drawn t c) t.current_color a))

  color_lem : (terminal_putchar t c).current_color ≡ t.current_color
  unfolding terminal_putchar draw_char wrap_line wrap_screen
  color_lem = ground arith

  ports_lem :
      (terminal_putchar t c).ports
      ≡ vga_update_cursor t.ports (terminal_putchar t c).cursor_x (terminal_putchar t c).cursor_y
  unfolding terminal_putchar draw_char wrap_line wrap_screen
  ports_lem = ground arith

-- With the cursor on the screen, `terminal_putchar` shows the character: other than a line feed or a
-- carriage return it is drawn at the cursor, which moves on and at the end of a line to the next; past
-- the last line the screen moves up by one row and the cursor goes to the start of a blank line. The
-- cursor stays on the screen and is passed to the ports of the display.
pub terminal_putchar-Shows :
    (t : Terminal) (c : ℕ) → t.cursor_x < 80 → t.cursor_y < 25 → Shows t c (terminal_putchar t c)
terminal_putchar-Shows t c x y = record {
  cells = cells_lem t c x y;
  column = column_lem t c x y;
  row = row_lem t c x y;
  on_screen = (ground (arith, column_lem t c x y, x), ground (arith, row_lem t c x y, y));
  color = color_lem t c x y;
  cursor = rw (← column_lem t c x y, ← row_lem t c x y) (ports_lem t c x y);
}

-- The cursor is on the screen, and the cells beyond it are those of `before`.
abbrev pub IsConfined : Cells → Terminal → Type 0
IsConfined before t =
    (t.cursor_x < 80) × (t.cursor_y < 25) × ((a : ℕ) → 2000 ≤ a → t.cells a ≡ before a)

print_chars-IsConfined :
    (before : Cells) (t : Terminal) (cs : List ℕ)
    → IsConfined before t
    → IsConfined before (print_chars t cs)
print_chars-IsConfined before t [] v = v
print_chars-IsConfined before t (c ∷ cs) (x, y, beyond) =
    let shown = terminal_putchar-Shows t c x y in
    print_chars-IsConfined before (terminal_putchar t c) cs (
      shown.on_screen.0,
      shown.on_screen.1,
      λ a l. ground (arith, shown.cells a, beyond a l, x, y, l),
    )

-- After `terminal_init`, which leaves blanks on the screen, printing any string leaves the cursor on
-- the screen and every cell beyond the screen as it was.
pub terminal_print_string-IsConfined :
    (t : Terminal) (cs : List ℕ)
    → ((a : ℕ) → a < 2000 → (terminal_init t).cells a ≡ space_cell t.current_color)
      × IsConfined t.cells (terminal_print_string (terminal_init t) cs)
unfolding terminal_print_string terminal_init
terminal_print_string-IsConfined t cs = (
  λ a l.
      ground (arith, l, fill_rows-reads t.cells (space_cell t.current_color) 25 0 a (omega arith)),
  print_chars-IsConfined t.cells (terminal_init t) cs (
    omega arith,
    omega arith,
    λ a l.
        ground
          (arith, l, fill_rows-reads t.cells (space_cell t.current_color) 25 0 a (omega arith)),
  ),
)

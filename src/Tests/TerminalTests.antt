-- ===== src/Tests/TerminalTests.antt =====
-- kernel/src/terminal.c on a concrete screen.
use gummy.Prelude.{ℕ, ◌<◌, ◌≡◌, arith, true, [], ◌∷◌}
use gummy.Terminal.{Terminal, terminal_putchar, terminal_print_string, terminal_init, space_cell}
use gummy.Terminal.Print.{
  Shows, terminal_putchar-Shows, IsConfined, terminal_print_string-IsConfined,
}

-- The cursor in the last cell.
abbrev pub at_end : Terminal
at_end = record {
  cells = λ a. record { ch = a; attr = 7 };
  ports = [];
  cursor_x = 79;
  cursor_y = 24;
  current_color = 7;
  initialized = true;
}

terminal_putchar-Shows_example : Shows at_end 65 (terminal_putchar at_end 65)
terminal_putchar-Shows_example = terminal_putchar-Shows at_end 65 (omega arith) (omega arith)

terminal_print_string-IsConfined_example :
    ((a : ℕ) → a < 2000 → (terminal_init at_end).cells a ≡ space_cell 7)
    × IsConfined at_end.cells (terminal_print_string (terminal_init at_end) (72 ∷ 105 ∷ 10 ∷ []))
terminal_print_string-IsConfined_example =
    terminal_print_string-IsConfined at_end (72 ∷ 105 ∷ 10 ∷ [])

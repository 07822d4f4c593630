-- ===== src/Terminal/Scroll.antt =====
-- What the loops of kernel/src/terminal.c leave in the screen's memory.
use gummy.Prelude.{ℕ, zero, suc, ◌+◌, ◌-◌, ◌*◌, ◌≤◌, ◌<◌, ◌≡◌, arith, ltb, if◌then◌else◌}
use gummy.Queue.{update}
use gummy.Memory.Copy.{within}
use gummy.Terminal.{
  VgaCell, Cells, terminal_width, cell_index, space_cell, scroll_row, scroll_rows, fill_row,
  fill_rows, terminal_scroll_up,
}

scroll_row-reads :
    (cells : Cells) (y rounds x a : ℕ)
    → y < 24
    → x + rounds ≤ 80
    → scroll_row cells (y + 1) rounds x a
      ≡ (if within (y * 80 + x) rounds a then cells (a + 80) else cells a)
unfolding scroll_row
scroll_row-reads cells y zero x a low row = ground arith
scroll_row-reads cells y (suc rounds) x a low row =
    let from : cell_index x (y + 1) ≡ y * 80 + x + 80 = omega arith in
    let to : cell_index x y ≡ y * 80 + x = omega arith in
    let back : y + 1 - 1 ≡ y = omega arith in
    rw (back, from, to)
      (ground (
        arith,
        scroll_row-reads (update cells (y * 80 + x) (cells (y * 80 + x + 80))) y rounds (x + 1) a
            low (omega arith),
      ))

scroll_rows-reads :
    (cells : Cells) (rounds y a : ℕ)
    → y + rounds ≤ 24
    → scroll_rows cells rounds (y + 1) a
      ≡ (if within (y * 80) (rounds * 80) a then cells (a + 80) else cells a)
unfolding scroll_rows
scroll_rows-reads cells zero y a l = ground arith
scroll_rows-reads cells (suc rounds) y a l = ground (
  arith,
  scroll_rows-reads (scroll_row cells (y + 1) terminal_width 0) rounds (y + 1) a (omega arith),
  scroll_row-reads cells y 80 0 a (omega arith) (omega arith),
  scroll_row-reads cells y 80 0 (a + 80) (omega arith) (omega arith),
)

fill_row-reads :
    (cells : Cells) (cell : VgaCell) (y rounds x a : ℕ)
    → y < 25
    → x + rounds ≤ 80
    → fill_row cells cell y rounds x a ≡ (if within (y * 80 + x) rounds a then cell else cells a)
unfolding fill_row
fill_row-reads cells cell y zero x a low row = ground arith
fill_row-reads cells cell y (suc rounds) x a low row =
    let to : cell_index x y ≡ y * 80 + x = omega arith in
    rw to (
      ground (
        arith,
        fill_row-reads (update cells (y * 80 + x) cell) cell y rounds (x + 1) a low (omega arith),
      ))

pub fill_rows-reads :
    (cells : Cells) (cell : VgaCell) (rounds y a : ℕ)
    → y + rounds ≤ 25
    → fill_rows cells cell rounds y a ≡ (if within (y * 80) (rounds * 80) a then cell else cells a)
unfolding fill_rows
fill_rows-reads cells cell zero y a l = ground arith
fill_rows-reads cells cell (suc rounds) y a l = ground (
  arith,
  fill_rows-reads (fill_row cells cell y terminal_width 0) cell rounds (y + 1) a (omega arith),
  fill_row-reads cells cell y 80 0 a (omega arith) (omega arith),
)

-- The cells one row higher, and a row of blanks at the bottom.
abbrev pub shifted : Cells → VgaCell → Cells
shifted cells blank a = if ltb a 1920 then cells (a + 80) else if ltb a 2000 then blank else cells a

pub terminal_scroll_up-shifted :
    (cells : Cells) (color a : ℕ)
    → terminal_scroll_up cells color a ≡ shifted cells (space_cell color) a
unfolding terminal_scroll_up
terminal_scroll_up-shifted cells color a = ground (
  arith,
  fill_row-reads (scroll_rows cells 24 1) (space_cell color) 24 80 0 a (omega arith) (omega arith),
  scroll_rows-reads cells 24 0 a (omega arith),
)

-- ===== src/Drivers/Screen/Cells.antt =====
-- The cells of drivers/screen.c as places in the video memory: how scrolling moves the bytes, and where the cell
-- behind a character is.
use lxos.Base.{
  ℕ, zero, suc, ◌+◌, ◌-◌, ◌*◌, ◌/◌, ◌%◌, ◌≡◌, ◌<◌, ◌≤◌, inl, true, false, none, some, ltb, ◌==◌,
  if◌then◌else◌, arith,
}
use lxos.Libc.Memory.{Memory, put, within, memory_copy}
use lxos.Libc.Memory.Block.{copy_up_lem}
use lxos.Drivers.Screen.{
  Place, move_row, scroll_rows, clear_line, scroll, next_offset, show_char, is_outside,
}

move_row_lem :
    (i : ℕ) (m : Memory) (a : ℕ)
    → 1 ≤ i
    → move_row i m a ≡ (if within ((i - 1) * 160) 160 a then m (a + 160) else m a)
unfolding move_row memory_copy
move_row_lem i m a pos =
    let source : within (2 * ((i - 1) * 80 + 0)) 160 a ≡ true
        → 2 * (i * 80 + 0) + (a - 2 * ((i - 1) * 80 + 0)) ≡ a + 160 =
      λ e. ground arith in
    ground (
      arith,
      copy_up_lem 160 (2 * (i * 80 + 0)) (2 * ((i - 1) * 80 + 0)) m a (inl (omega (arith, pos))),
      source,
    )

scroll_rows_lem :
    (rounds i : ℕ) (m : Memory) (a : ℕ)
    → 1 ≤ i
    → scroll_rows rounds i m a
      ≡ (if within ((i - 1) * 160) (rounds * 160) a then m (a + 160) else m a)
unfolding scroll_rows
scroll_rows_lem zero i m a pos = ground arith
scroll_rows_lem (suc rounds) i m a pos =
    let step = scroll_rows_lem rounds (i + 1) (move_row i m) a (omega arith) in
    ground (arith, step, move_row_lem i m a pos, move_row_lem i m (a + 160) pos)

clear_line_lem :
    (rounds p : ℕ) (m : Memory) (a : ℕ)
    → clear_line rounds p m a ≡ (if within p rounds a then 0 else m a)
unfolding clear_line put
clear_line_lem zero p m a = ground arith
clear_line_lem (suc rounds) p m a = ground (arith, clear_line_lem rounds (p + 1) (put m p 0) a)

-- a screen that has moved up by a row
abbrev pub moved_up : Memory → Memory
moved_up m a = if ltb a 3840 then m (a + 160) else if ltb a 4000 then 0 else m a

pub scroll_lem : (m : Memory) (a : ℕ) → scroll m a ≡ moved_up m a
unfolding scroll
scroll_lem m a =
    ground (arith, clear_line_lem 160 3840 (scroll_rows 24 1 m) a, scroll_rows_lem 24 1 m a)

-- The place is a cell of the screen.
abbrev pub IsCell : Place → Type 0
IsCell none = Unit
IsCell (some (col, row)) = (col < 80) × (row < 25)

pub next_offset_even :
    (c offset : ℕ)
    → offset < 4000
    → offset % 2 ≡ 0
    → (next_offset c offset ≤ 4000) × (next_offset c offset % 2 ≡ 0)
next_offset_even c offset lt even = ground arith

pub inside_cell :
    (c offset : ℕ) (place : Place)
    → offset < 4000
    → IsCell place
    → is_outside c offset place ≡ false
inside_cell c offset none lt cell = ground arith
inside_cell c offset (some (col, row)) lt (h1, h2) = ground arith

pub show_char-other :
    (c attr offset : ℕ) (m : Memory) (a : ℕ)
    → offset < 4000
    → offset % 2 ≡ 0
    → 4000 ≤ a
    → show_char c attr offset m a ≡ m a
unfolding put
show_char-other c attr offset m a lt even far = ground arith

pub moved_up-other : (m : Memory) (a : ℕ) → 4000 ≤ a → moved_up m a ≡ m a
moved_up-other m a far = ground arith

-- the cell behind a character, before the screen moves up, and behind that
abbrev pub next_cell : (c k : ℕ) → ℕ
next_cell c k = if c == 10 then (k / 80 + 1) * 80 else if c == 8 then k else k + 1

abbrev pub settled : ℕ → ℕ
settled k = if ltb k 2000 then k else k - 80

-- the screen with a character and its attribute in the cell `k`, before it moves up
abbrev pub written : (c attr k : ℕ) → Memory → Memory
written c attr k m a =
    if c == 10
    then m a
    else if a == 2 * k
    then (if c == 8 then 32 else c)
    else if a == 2 * k + 1
    then attr
    else m a

pub next_offset_cell :
    (c offset : ℕ) → offset % 2 ≡ 0 → next_offset c offset ≡ 2 * next_cell c (offset / 2)
next_offset_cell c offset even = ground arith

pub show_char_written :
    (c attr offset : ℕ) (m : Memory) (a : ℕ)
    → offset % 2 ≡ 0
    → show_char c attr offset m a ≡ written c attr (offset / 2) m a
unfolding put
show_char_written c attr offset m a even = ground arith

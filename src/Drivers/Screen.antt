-- ===== src/Drivers/Screen.antt =====
-- The text screen of drivers/screen.c. The video memory is the function from offsets behind
-- VIDEO_ADDRESS to bytes. The display controller is a parameter: a state with its two ports. A text is
-- the list of its characters before the terminating zero.
pub mod Controller
pub mod Cells
pub mod Bounds
pub mod Numbers
use lxos.Base.{
  ℕ, zero, suc, ◌+◌, ◌-◌, ◌*◌, ◌/◌, ◌%◌, ◌^◌, Bool, true, false, not, ◌&&◌, ◌||◌, Option, none,
  some, List, [], ◌∷◌, ◌++◌, ltb, leb, ◌==◌, if◌then◌else◌,
}
use lxos.Libc.Memory.{Memory, put, memory_copy}
use lxos.Drivers.Screen.Controller.{Crt}

abbrev pub max_rows : ℕ
max_rows = 25

abbrev pub max_cols : ℕ
max_cols = 80

abbrev pub white_on_black : ℕ
white_on_black = 0x0f

abbrev pub red_on_black : ℕ
red_on_black = 0x0c

abbrev pub get_offset : (col row : ℕ) → ℕ
get_offset col row = 2 * (row * max_cols + col)

abbrev pub get_offset_row : ℕ → ℕ
get_offset_row offset = offset / (2 * max_cols)

abbrev pub get_offset_col : ℕ → ℕ
get_offset_col offset = (offset - get_offset_row offset * 2 * max_cols) / 2

-- the bytes of the screen
abbrev pub screen_bytes : ℕ
screen_bytes = max_cols * max_rows * 2

-- the row `i` moves up by one
unfoldable pub move_row : (i : ℕ) → Memory → Memory
move_row i m = memory_copy (get_offset 0 i) (get_offset 0 (i - 1)) (max_cols * 2) m

-- the rows from `i` on move up by one
unfoldable pub scroll_rows : ℕ → (i : ℕ) → Memory → Memory
scroll_rows zero i m = m
scroll_rows (suc rounds) i m = scroll_rows rounds (i + 1) (move_row i m)

-- `for(i=0;i<MAX_COLS*2;i++) last_line[i]=0`, from `p` on
unfoldable pub clear_line : ℕ → (p : ℕ) → Memory → Memory
clear_line zero p m = m
clear_line (suc rounds) p m = clear_line rounds (p + 1) (put m p 0)

unfoldable pub scroll : Memory → Memory
scroll m = clear_line (max_cols * 2) (get_offset 0 (max_rows - 1)) (scroll_rows (max_rows - 1) 1 m)

-- the loop of clear_screen
unfoldable pub blank_cells : ℕ → (i : ℕ) → Memory → Memory
blank_cells zero i m = m
blank_cells (suc rounds) i m =
    blank_cells rounds (i + 1) (put (put m (i * 2) 32) (i * 2 + 1) white_on_black)

-- A column and a row; `none` stands for coordinates of which one is negative: the code's own calls
-- then have none that is out of range.
abbrev pub Place : Type 0
Place = Option (ℕ × ℕ)

-- the offset behind the character
abbrev pub next_offset : (c offset : ℕ) → ℕ
next_offset c offset =
    if c == 10
    then get_offset 0 (get_offset_row offset + 1)
    else if c == 8
    then offset
    else offset + 2

-- the stores of a character to its cell
abbrev pub show_char : (c attr offset : ℕ) → Memory → Memory
show_char c attr offset m =
    if c == 10 then m else put (put m offset (if c == 8 then 32 else c)) (offset + 1) attr

-- `col >= MAX_COLS || row >= MAX_ROWS`, where a new line has set `row`
abbrev pub is_outside : (c offset : ℕ) → Place → Bool
is_outside c offset none = c == 10 && leb max_rows (get_offset_row offset)
is_outside c offset (some (col, row)) =
    leb max_cols col || leb max_rows (if c == 10 then get_offset_row offset else row)

-- `get_offset(col,row)` there
abbrev pub outside_offset : (c offset : ℕ) → Place → ℕ
outside_offset c offset none = get_offset 0 (get_offset_row offset) - 2
outside_offset c offset (some (col, row)) =
    get_offset col (if c == 10 then get_offset_row offset else row)

module _ (D : Crt) where
  open D use {State, inb, outb}

  pub record Screen : Type 0 where
    pub vid : Memory
    pub crt : State

  unfoldable pub get_cursor_offset : Screen → ℕ × Screen
  get_cursor_offset s =
      let (hi, st1) = inb 0x3d5 (outb 0x3d4 14 s.crt) in
      let (lo, st2) = inb 0x3d5 (outb 0x3d4 15 st1) in ((hi * 256 + lo) * 2, record s { crt = st2 })

  unfoldable pub set_cursor_offset : (offset : ℕ) → Screen → Screen
  set_cursor_offset offset s =
      let cell = offset / 2 in
      let st1 = outb 0x3d5 (cell / 256 % 256) (outb 0x3d4 14 s.crt) in
      record s { crt = outb 0x3d5 (cell % 256) (outb 0x3d4 15 st1) }

  -- the offset of a place, read from the controller if there is none
  unfoldable pub locate : Place → Screen → ℕ × Screen
  locate none s = get_cursor_offset s
  locate (some (col, row)) s = (get_offset col row, s)

  -- the body of print_char for an offset
  unfoldable pub print_at : (c : ℕ) → Place → (attr offset : ℕ) → Screen → ℕ × Screen
  print_at c place attr offset s =
      let shown = show_char c attr offset s.vid in
      let next = next_offset c offset in
      let scrolled = if leb screen_bytes next then scroll shown else shown in
      let next' = if leb screen_bytes next then next - 2 * max_cols else next in
      let marked = put (put scrolled (screen_bytes - 2) 69) (screen_bytes - 1) red_on_black in
      if is_outside c offset place
      then (outside_offset c offset place, record s { vid = marked })
      else (next', set_cursor_offset next' (record s { vid = scrolled }))

  unfoldable pub print_char : (c : ℕ) → Place → (attr : ℕ) → Screen → ℕ × Screen
  print_char c place attr s =
      let (offset, s1) = locate place s in
      print_at c place (if attr == 0 then white_on_black else attr) offset s1

  -- the loop of kprint_at
  unfoldable pub print_text : List ℕ → (col row : ℕ) → Screen → Screen
  print_text [] col row s = s
  print_text (c ∷ cs) col row s =
      let (offset, s1) = print_char c (some (col, row)) red_on_black s in
      print_text cs (get_offset_col offset) (get_offset_row offset) s1

  unfoldable pub kprint_at : List ℕ → Place → Screen → Screen
  kprint_at message (some (col, row)) s = print_text message col row s
  kprint_at message none s =
      let (offset, s1) = get_cursor_offset s in
      print_text message (get_offset_col offset) (get_offset_row offset) s1

  abbrev pub kprint : List ℕ → Screen → Screen
  kprint message s = kprint_at message none s

  abbrev pub kputchar : ℕ → Screen → Screen
  kputchar c s = (print_char c none white_on_black s).1

  -- At the first cell the offset is -2, its column -1 and its row 0.
  unfoldable pub kprint_backspace : Screen → Screen
  kprint_backspace s =
      let (offset, s1) = get_cursor_offset s in
      let back = offset - 2 in
      let place : Place =
        if offset == 0 then none else some (get_offset_col back, get_offset_row back) in
      (print_char 8 place white_on_black s1).1

  unfoldable pub clear_screen : Screen → Screen
  clear_screen s =
      set_cursor_offset (get_offset 0 0)
        (record s { vid = blank_cells (max_cols * max_rows) 0 s.vid })

  -- kputchar of each character, in order
  unfoldable pub put_chars : List ℕ → Screen → Screen
  put_chars [] s = s
  put_chars (c ∷ cs) s = put_chars cs (kputchar c s)

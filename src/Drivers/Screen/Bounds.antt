-- ===== src/Drivers/Screen/Bounds.antt =====
-- print_char of drivers/screen.c: the cursor, and the bytes of the video memory.
use lxos.Base.{
  ℕ, ◌+◌, ◌-◌, ◌*◌, ◌/◌, ◌%◌, ◌≡◌, ◌<◌, ◌≤◌, inl, inr, refl, sym, ◌∙◌, ap, false, none, some, ltb,
  leb, ◌==◌, if◌then◌else◌, arith, Bool-cases, List, [], ◌∷◌,
}
use mathlib.Core.Path.{subst}
use lxos.Libc.Memory.{Memory}
use lxos.Drivers.Screen.Controller.{Crt, IsCrt}
use lxos.Drivers.Screen.{
  Screen, Place, scroll, next_offset, show_char, get_offset_row, get_offset_col, get_cursor_offset,
  set_cursor_offset, locate, print_at, print_char, print_text, kprint_at, white_on_black,
}
use lxos.Drivers.Screen.Cells.{
  moved_up, scroll_lem, IsCell, next_offset_even, inside_cell, show_char-other, moved_up-other,
  next_cell, settled, written, next_offset_cell, show_char_written,
}

module _ (D : Crt) (h : IsCrt D) where
  open D use {State, cursor}

  -- `r` is the offset and the screen that print_at leaves for a character that goes to `offset`.
  record Stored (c attr offset : ℕ) (s : Screen D) (r : ℕ × Screen D) : Type 0 where
    pub on_screen : r.0 < 4000
    pub even : r.0 % 2 ≡ 0
    pub cursor_there : cursor r.1.crt * 2 ≡ r.0
    pub next : r.0 ≡ (if next_offset c offset == 4000 then 3840 else next_offset c offset)
    pub bytes :
        (a : ℕ)
        → r.1.vid a ≡ (
            if next_offset c offset == 4000
            then moved_up (show_char c attr offset s.vid) a
            else show_char c attr offset s.vid a)
    pub others : (a : ℕ) → 4000 ≤ a → r.1.vid a ≡ s.vid a

  set_cursor_offset-cursor :
      (offset : ℕ) (s : Screen D)
      → offset < 131072
      → offset % 2 ≡ 0
      → cursor (set_cursor_offset D offset s).crt * 2 ≡ offset
  unfolding set_cursor_offset
  set_cursor_offset-cursor offset s lt even =
      let w =
        h.written s.crt (offset / 2 / 256 % 256) (offset / 2 % 256) (omega arith) (omega arith) in
      omega (arith, w, lt, even)

  set_cursor_offset-vid : (offset : ℕ) (s : Screen D) → (set_cursor_offset D offset s).vid ≡ s.vid
  unfolding set_cursor_offset
  set_cursor_offset-vid offset s = refl

  -- the end of print_char: the cursor at `next`, with the bytes `m`
  ended : (next : ℕ) → Memory → Screen D → ℕ × Screen D
  ended next m s = (next, set_cursor_offset D next (record s { vid = m }))

  ended-Stored :
      (c attr offset next : ℕ) (m : Memory) (s : Screen D)
      → next < 4000
      → next % 2 ≡ 0
      → next ≡ (if next_offset c offset == 4000 then 3840 else next_offset c offset)
      → ((a : ℕ)
          → m a ≡ (
              if next_offset c offset == 4000
              then moved_up (show_char c attr offset s.vid) a
              else show_char c attr offset s.vid a))
      → ((a : ℕ) → 4000 ≤ a → m a ≡ s.vid a)
      → Stored c attr offset s (ended next m s)
  unfolding ended
  ended-Stored c attr offset next m s lt even is_next bytes others = record {
    on_screen = lt;
    even = even;
    cursor_there = set_cursor_offset-cursor next _ (omega (arith, lt)) even;
    next = is_next;
    bytes = λ a. ap (λ f. f a) (set_cursor_offset-vid next (record s { vid = m })) ∙ bytes a;
    others =
        λ a far. ap (λ f. f a) (set_cursor_offset-vid next (record s { vid = m })) ∙ others a far;
  }

  print_at-Stored :
      (c : ℕ) (place : Place) (attr offset : ℕ) (s : Screen D)
      → offset < 4000
      → offset % 2 ≡ 0
      → IsCell place
      → Stored c attr offset s (print_at D c place attr offset s)
  unfolding print_at ended
  print_at-Stored c place attr offset s lt even cell =
      let inside = inside_cell c offset place lt cell in
      let next = next_offset c offset in
      let n = next_offset_even c offset lt even in
      let shown = show_char c attr offset s.vid in
      elim (Bool-cases (leb 4000 (next_offset c offset))) [
        | inl e ↦
            let full : next ≡ 4000 = ground (arith, n) in
            let run : print_at D c place attr offset s ≡ ended (next - 160) (scroll shown) s =
              rw (print_at, inside, e) refl in
            subst (Stored c attr offset s) (sym run) (
              ended-Stored c attr offset (next - 160) (scroll shown) s (omega (arith, full))
                (omega (arith, full)) (rw full refl) (λ a. scroll_lem shown a ∙ rw full refl)
                (λ a far.
                  scroll_lem shown a
                  ∙ moved_up-other shown a far
                  ∙ show_char-other c attr offset s.vid a lt even far))
        | inr e ↦
            let room : (next == 4000) ≡ false = ground (arith, n) in
            let run : print_at D c place attr offset s ≡ ended next shown s =
              rw (print_at, inside, e) refl in
            subst (Stored c attr offset s) (sym run) (
              ended-Stored c attr offset next shown s (ground arith) n.1 (rw room refl)
                (λ a. rw room refl) (λ a far. show_char-other c attr offset s.vid a lt even far))
      ]

  -- the offset that a character goes to
  abbrev pub start : Place → Screen D → ℕ
  start none s = cursor s.crt * 2
  start (some (col, row)) s = 2 * (row * 80 + col)

  start_even :
      (place : Place) (s : Screen D)
      → cursor s.crt < 2000
      → IsCell place
      → (start place s < 4000) × (start place s % 2 ≡ 0)
  start_even none s lt cell = (omega (arith, lt), omega arith)
  start_even (some (col, row)) s lt (h1, h2) = (omega (arith, h1, h2), omega arith)

  located :
      (place : Place) (s : Screen D)
      → ((locate D place s).0 ≡ start place s) × ((locate D place s).1.vid ≡ s.vid)
  unfolding locate get_cursor_offset
  located none s = (ap (λ k. k * 2) (h.read s.crt), refl)
  located (some (col, row)) s = (refl, refl)

  Stored-from :
      (c attr offset : ℕ) (s s1 : Screen D) (r : ℕ × Screen D)
      → s1.vid ≡ s.vid
      → Stored c attr offset s1 r
      → Stored c attr offset s r
  Stored-from c attr offset s s1 r same p = record {
    on_screen = p.on_screen;
    even = p.even;
    cursor_there = p.cursor_there;
    next = p.next;
    bytes = λ a.
        p.bytes a
        ∙ ap
            (λ (v : Memory).
              if next_offset c offset == 4000
              then moved_up (show_char c attr offset v) a
              else show_char c attr offset v a)
            same;
    others = λ a far. p.others a far ∙ ap (λ f. f a) same;
  }

  print_char-Stored :
      (c : ℕ) (place : Place) (attr : ℕ) (s : Screen D)
      → cursor s.crt < 2000
      → IsCell place
      → Stored c
          (if attr == 0 then white_on_black else attr)
          (start place s)
          s
          (print_char D c place attr s)
  unfolding print_char
  print_char-Stored c place attr s lt cell =
      let (offset, s1) = locate D place s in
      let (here, same) = located place s in
      let e = start_even place s lt cell in
      let a = if attr == 0 then white_on_black else attr in
      subst (λ o. Stored c a o s (print_at D c place a offset s1)) here
        (Stored-from c a offset s s1 _ same (
          print_at-Stored c place a offset s1 (omega (arith, here, e)) (omega (arith, here, e))
            cell))

  -- `r` is what print_char leaves for a character that goes to the cell `k`.
  pub record Printed (c attr k : ℕ) (s : Screen D) (r : ℕ × Screen D) : Type 0 where
    pub result : r.0 ≡ 2 * settled (next_cell c k)
    pub cursor_there : cursor r.1.crt ≡ settled (next_cell c k)
    pub on_screen : settled (next_cell c k) < 2000
    pub bytes :
        (a : ℕ)
        → r.1.vid a ≡ (
            if ltb (next_cell c k) 2000
            then written c attr k s.vid a
            else if ltb a 3840
            then written c attr k s.vid (a + 160)
            else if ltb a 4000
            then 0
            else s.vid a)

  Stored-Printed :
      (c attr offset : ℕ) (s : Screen D) (r : ℕ × Screen D)
      → offset < 4000
      → offset % 2 ≡ 0
      → Stored c attr offset s r
      → Printed c attr (offset / 2) s r
  Stored-Printed c attr offset s r lt even p =
      let n = next_offset_even c offset lt even in
      let same : next_offset c offset ≡ 2 * next_cell c (offset / 2) =
        next_offset_cell c offset even in
      record {
        result = ground (arith, p.next, same, n);
        cursor_there = ground (arith, p.next, p.cursor_there, same, n);
        on_screen = ground (arith, same, n);
        bytes = λ a.
            let here = show_char_written c attr offset s.vid a even in
            let below = show_char_written c attr offset s.vid (a + 160) even in
            ground (arith, p.bytes a, p.others a, same, n, here, below);
      }

  -- the cell that a character goes to
  abbrev pub start_cell : Place → Screen D → ℕ
  start_cell none s = cursor s.crt
  start_cell (some (col, row)) s = row * 80 + col

  start-cell : (place : Place) (s : Screen D) → start place s / 2 ≡ start_cell place s
  start-cell none s = omega arith
  start-cell (some (col, row)) s = omega arith

  -- print_char, on a controller that works, puts the character and its attribute into its cell, a space for
  -- the character 8, and nothing for a new line. The cursor and the result then are the next cell, the
  -- first one of the next row after a new line, or the same cell after the character 8. Where that cell
  -- lies behind the screen, the screen has moved up by a row, with the last one cleared, and the next cell
  -- is a row higher. No other byte changes. The place is a cell, or the cursor's, which is on the screen
  -- before.
  pub print_char-Printed :
      (c : ℕ) (place : Place) (attr : ℕ) (s : Screen D)
      → cursor s.crt < 2000
      → IsCell place
      → Printed c
          (if attr == 0 then white_on_black else attr)
          (start_cell place s)
          s
          (print_char D c place attr s)
  print_char-Printed c place attr s lt cell =
      let (low, even) = start_even place s lt cell in
      let a = if attr == 0 then white_on_black else attr in
      subst (λ k. Printed c a k s (print_char D c place attr s)) (start-cell place s)
        (Stored-Printed c a (start place s) s _ low even (print_char-Stored c place attr s lt cell))

  -- the cursor is on the screen, and behind the screen nothing has changed
  pub record Bounded (s s' : Screen D) : Type 0 where
    pub on_screen : cursor s'.crt < 2000
    pub others : (a : ℕ) → 4000 ≤ a → s'.vid a ≡ s.vid a

  print_text-Bounded :
      (cs : List ℕ) (col row : ℕ) (s : Screen D)
      → col < 80
      → row < 25
      → cursor s.crt < 2000
      → Bounded s (print_text D cs col row s)
  unfolding print_text
  print_text-Bounded [] col row s h1 h2 lt = record { on_screen = lt; others = λ a far. refl }
  print_text-Bounded (c ∷ cs) col row s h1 h2 lt =
      let p = print_char-Stored c (some (col, row)) 12 s lt (h1, h2) in
      let (offset, s1) = print_char D c (some (col, row)) 12 s in
      let rest =
        print_text-Bounded cs (get_offset_col offset) (get_offset_row offset) s1
          (omega (arith, p.on_screen)) (omega (arith, p.on_screen))
          (omega (arith, p.on_screen, p.cursor_there)) in
      record { on_screen = rest.on_screen; others = λ a far. rest.others a far ∙ p.others a far }

cursor_offset :
    (D : Crt) (h : IsCrt D) (s : Screen D) → (get_cursor_offset D s).0 ≡ D.cursor s.crt * 2
unfolding get_cursor_offset
cursor_offset D h s = ap (λ k. k * 2) (h.read s.crt)

cursor_kept :
    (D : Crt) (h : IsCrt D) (s : Screen D) → D.cursor (get_cursor_offset D s).1.crt ≡ D.cursor s.crt
unfolding get_cursor_offset
cursor_kept D h s = h.kept s.crt

-- kprint_at, for a text of any length, at a cell of the screen or at the cursor, writes no byte
-- behind the 4000 of the screen, scrolling as often as the text needs it, and leaves the cursor on
-- the screen, where it was before. The display controller works.
pub kprint_at-Bounded :
    (D : Crt) (h : IsCrt D) (cs : List ℕ) (place : Place) (s : Screen D)
    → D.cursor s.crt < 2000
    → IsCell place
    → Bounded D h s (kprint_at D cs place s)
unfolding kprint_at get_cursor_offset
kprint_at-Bounded D h cs (some (col, row)) s lt (h1, h2) =
    print_text-Bounded D h cs col row s h1 h2 lt
kprint_at-Bounded D h cs none s lt cell =
    let (o, s1) = get_cursor_offset D s in
    let here : o ≡ D.cursor s.crt * 2 = cursor_offset D h s in
    let kept : D.cursor s1.crt ≡ D.cursor s.crt = cursor_kept D h s in
    let b =
      print_text-Bounded D h cs (get_offset_col o) (get_offset_row o) s1 (omega (arith, here, lt))
        (omega (arith, here, lt)) (omega (arith, kept, lt)) in
    let same : s1.vid ≡ s.vid = refl in
    record { on_screen = b.on_screen; others = λ a far. b.others a far ∙ ap (λ f. f a) same }

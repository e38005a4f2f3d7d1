-- ===== src/Tests/Console.antt =====
-- A display controller with its two registers, and the keyboard.
use lxos.Base.{
  ℕ, zero, suc, ◌+◌, ◌*◌, ◌≡◌, ◌≢◌, ◌<◌, inr, refl, true, false, Option, some, [], ◌∷◌, ◌==◌,
  if◌then◌else◌, arith,
}
use lxos.Libc.Strings.Length.{IsString}
use lxos.Drivers.Screen.Controller.{Crt, IsCrt}
use lxos.Drivers.Screen.{Screen, print_char, kprint_at}
use lxos.Drivers.Screen.Bounds.{Printed, Bounded, print_char-Printed, kprint_at-Bounded}
use lxos.Drivers.Keyboard.{Keyboard, keyboard_callback}
use lxos.Drivers.Keyboard.Line.{Typed, keyboard_callback-Typed}

-- the register that is chosen, and the high and the low byte of the cursor's cell
abbrev registers : Crt
registers = record {
  State = ℕ × ℕ × ℕ;
  inb = (λ port st. ((if st.0 == 14 then st.1 else st.2), st));
  outb = (λ port v st.
      if port == 0x3d4
      then (v, st.1, st.2)
      else if st.0 == 14
      then (st.0, v, st.2)
      else (st.0, st.1, v));
  cursor = (λ st. st.1 * 256 + st.2);
}

registers-IsCrt : IsCrt registers
registers-IsCrt = record { read = λ st. refl; kept = λ st. refl; written = λ st hi lo h1 h2. refl }

-- the last cell of the screen
abbrev last_cell : Screen registers
last_cell = record { vid = λ a. 0; crt = (14, 7, 207) }

print_char-Printed_example :
    Printed registers registers-IsCrt 65 15 1999 last_cell
      (print_char registers 65 Option.none 0 last_cell)
print_char-Printed_example =
    print_char-Printed registers registers-IsCrt 65 Option.none 0 last_cell (omega arith) tt

kprint_at-Bounded_example :
    Bounded registers registers-IsCrt last_cell
      (kprint_at registers (72 ∷ 105 ∷ 10 ∷ []) Option.none last_cell)
kprint_at-Bounded_example =
    kprint_at-Bounded registers registers-IsCrt (72 ∷ 105 ∷ 10 ∷ []) Option.none last_cell
      (omega arith) tt

-- the line "A" at 1000
abbrev typed_a : Keyboard
typed_a = record {
  capslock = true;
  mem = λ a. if a == 1000 then 65 else 0;
  actions = [];
  stopped = false;
}

a-IsString : IsString typed_a.mem 1000 1
a-IsString = record { ends = refl; text = λ i lt. one i lt }
  where
    one : (i : ℕ) → i < 1 → typed_a.mem (1000 + i) ≢ 0
    one zero lt = omega arith
    one (suc i) lt = absurd (omega arith)

keyboard_callback-Typed_example :
    (s' : Keyboard) × (keyboard_callback 4 1000 0x30 typed_a ≡ some s')
    × Typed 1000 0x30 1 typed_a s'
keyboard_callback-Typed_example =
    keyboard_callback-Typed 4 1000 1 0x30 typed_a a-IsString (omega arith) (omega arith)
      (omega arith) (inr (omega arith)) refl

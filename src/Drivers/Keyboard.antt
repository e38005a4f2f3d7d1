-- ===== src/Drivers/Keyboard.antt =====
-- The keyboard driver of drivers/keyboard.c and the commands of kernel/sh.c. The line is a string in
-- the memory, at `key_buffer`; what the driver has other parts do is the list of its actions, the last one
-- first. A text is the list of its characters. Walks to the end of the line take fuel.
pub mod Line
use lxos.Base.{
  ℕ, zero, suc, ◌+◌, ◌-◌, ◌*◌, ◌/◌, ◌%◌, Bool, true, false, not, ◌&&◌, ◌||◌, Option, none, some,
  List, [], ◌∷◌, ◌++◌, ltb, leb, ◌==◌, if◌then◌else◌, get_elem?,
}
use Prim.Native.String.{String}
use lxos.Libc.Memory.{Ptr, Memory, put}
use lxos.Libc.Strings.{append, backspace}

pub data Action : Type 0 where
  show : List ℕ → Action
  show_backspace : Action
  show_capslock : Bool → Action
  print : String → Action
  clear : Action
  halt : Action
  write_disk : (set : List ℕ) → Action

pub record Keyboard : Type 0 where
  pub capslock : Bool
  pub mem : Memory
  pub actions : List Action
  pub stopped : Bool

abbrev pub act : Action → Keyboard → Keyboard
act a s = record s { actions = a ∷ s.actions }

-- `sc_ascii_normal`; the letters, and 63 for `?`
abbrev pub sc_ascii_normal : List ℕ
sc_ascii_normal =
    63 ∷ 63 ∷ 49 ∷ 50 ∷ 51 ∷ 52 ∷ 53 ∷ 54 ∷ 55 ∷ 56 ∷ 57 ∷ 48 ∷ 45 ∷ 61 ∷ 63 ∷ 63 ∷ 113 ∷ 119 ∷ 101
    ∷ 114 ∷ 116 ∷ 121 ∷ 117 ∷ 105 ∷ 111 ∷ 112 ∷ 91 ∷ 93 ∷ 63 ∷ 63 ∷ 97 ∷ 115 ∷ 100 ∷ 102 ∷ 103 ∷ 104
    ∷ 106 ∷ 107 ∷ 108 ∷ 59 ∷ 39 ∷ 96 ∷ 63 ∷ 92 ∷ 122 ∷ 120 ∷ 99 ∷ 118 ∷ 98 ∷ 110 ∷ 109 ∷ 44 ∷ 46
    ∷ 47 ∷ 63 ∷ 63 ∷ 63 ∷ 32 ∷ []

abbrev pub sc_ascii_caps : List ℕ
sc_ascii_caps =
    63 ∷ 63 ∷ 49 ∷ 50 ∷ 51 ∷ 52 ∷ 53 ∷ 54 ∷ 55 ∷ 56 ∷ 57 ∷ 48 ∷ 45 ∷ 61 ∷ 63 ∷ 63 ∷ 81 ∷ 87 ∷ 69
    ∷ 82 ∷ 84 ∷ 89 ∷ 85 ∷ 73 ∷ 79 ∷ 80 ∷ 91 ∷ 93 ∷ 63 ∷ 63 ∷ 65 ∷ 83 ∷ 68 ∷ 70 ∷ 71 ∷ 72 ∷ 74 ∷ 75
    ∷ 76 ∷ 59 ∷ 39 ∷ 96 ∷ 63 ∷ 92 ∷ 90 ∷ 88 ∷ 67 ∷ 86 ∷ 66 ∷ 78 ∷ 77 ∷ 44 ∷ 46 ∷ 47 ∷ 63 ∷ 63 ∷ 63
    ∷ 32 ∷ []

abbrev pub sc_max : ℕ
sc_max = 0x3a

-- the character of a scancode below 58, which is as long as the tables are
unfoldable pub letter : (capslock : Bool) → (scancode : ℕ) → ℕ
letter capslock scancode =
    elim (get_elem? (if capslock then sc_ascii_caps else sc_ascii_normal) scancode) [
      | none ↦ 0
      | some c ↦ c
    ]

-- the string at `s`
unfoldable pub chars_at : ℕ → (s : Ptr) → Memory → Option (List ℕ)
chars_at zero s m = none
chars_at (suc fuel) s m =
    let rest = chars_at fuel (s + 1) m in
    if m s == 0 then some [] else elim rest [ none ↦ none | some cs ↦ some (m s ∷ cs) ]

-- `strcmp(input, command) == 0`
unfoldable pub same_text : List ℕ → List ℕ → Bool
same_text [] [] = true
same_text [] (d ∷ ds) = false
same_text (c ∷ cs) [] = false
same_text (c ∷ cs) (d ∷ ds) = c == d && same_text cs ds

-- "CLS", "END", "PAGE", "TESTIDEW" and "TESTIDER"
abbrev pub cls : List ℕ
cls = 67 ∷ 76 ∷ 83 ∷ []

abbrev pub end_command : List ℕ
end_command = 69 ∷ 78 ∷ 68 ∷ []

abbrev pub page : List ℕ
page = 80 ∷ 65 ∷ 71 ∷ 69 ∷ []

abbrev pub test_write : List ℕ
test_write = 84 ∷ 69 ∷ 83 ∷ 84 ∷ 73 ∷ 68 ∷ 69 ∷ 87 ∷ []

abbrev pub test_read : List ℕ
test_read = 84 ∷ 69 ∷ 83 ∷ 84 ∷ 73 ∷ 68 ∷ 69 ∷ 82 ∷ []

-- the commands that the handler does not come back from: it runs with interrupts off, so that the processor
-- stays halted, and iderw waits for good for the interrupt of the disk
abbrev pub never_returns : List ℕ → Bool
never_returns input =
    same_text input end_command || same_text input test_write || same_text input test_read

-- What a command does, the last action first. Both disk commands write block 1 of disk 1, where the
-- first one sets six bytes of the data and the second one none.
unfoldable pub command_actions : List ℕ → List Action
command_actions input =
    if same_text input cls
    then clear ∷ []
    else if same_text input end_command
    then halt ∷ print "Stopping the CPU.Bye!\n" ∷ []
    else if same_text input page
    then print "\n" ∷ print "0x0" ∷ print ",physical address: " ∷ print "0x0" ∷ print "Page:" ∷ []
    else if same_text input test_write
    then write_disk (101 ∷ 101 ∷ 101 ∷ 101 ∷ 101 ∷ 101 ∷ []) ∷ []
    else if same_text input test_read
    then write_disk [] ∷ []
    else []

-- the command, and, where it comes back, "You said:" with the line and a prompt
unfoldable pub user_input : List ℕ → List Action → List Action
user_input input before =
    let done = command_actions input ++ before in
    if never_returns input then done else print "\n>" ∷ show input ∷ print "You said:" ∷ done

unfoldable pub on_capslock : Keyboard → Keyboard
on_capslock s = act (show_capslock (not s.capslock)) (record s { capslock = not s.capslock })

module _ (fuel : ℕ) (key_buffer : Ptr) where
  unfoldable pub on_backspace : Keyboard → Option Keyboard
  on_backspace s = elim (backspace fuel key_buffer s.mem) [
    | none ↦ none
    | some m ↦ some (act show_backspace (record s { mem = m }))
  ]

  unfoldable pub on_enter : Keyboard → Option Keyboard
  on_enter s = elim (chars_at fuel key_buffer s.mem) [
    | none ↦ none
    | some input ↦ some (record s {
      mem = if never_returns input then s.mem else put s.mem key_buffer 0;
      actions = user_input input (print "\n" ∷ s.actions);
      stopped = never_returns input;
    })
  ]

  unfoldable pub on_letter : (c : ℕ) → Keyboard → Option Keyboard
  on_letter c s = elim (append fuel key_buffer c s.mem) [
    | none ↦ none
    | some m ↦ some (act (show (c ∷ [])) (record s { mem = m }))
  ]

  -- the handler of IRQ1, for the scancode that port 0x60 delivers
  unfoldable pub keyboard_callback : (scancode : ℕ) → Keyboard → Option Keyboard
  keyboard_callback scancode s =
      if ltb sc_max scancode
      then some s
      else if scancode == 0x0e
      then on_backspace s
      else if scancode == 0x1c
      then on_enter s
      else if scancode == 0x3a
      then some (on_capslock s)
      else on_letter (letter s.capslock scancode) s

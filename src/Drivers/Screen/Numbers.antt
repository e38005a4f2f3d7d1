-- ===== src/Drivers/Screen/Numbers.antt =====
-- kprintint and kprintf of drivers/screen.c.
use lxos.Base.{
  ℕ, zero, suc, ◌+◌, ◌-◌, ◌*◌, ◌/◌, ◌%◌, ◌^◌, ◌≡◌, ◌≤◌, Bool, true, false, ◌&&◌, ◌||◌, Option, none,
  some, List, [], ◌∷◌, ◌++◌, ltb, ◌==◌, if◌then◌else◌, length,
}
use lxos.Kernel.Syscall.{is_negative}
use lxos.Drivers.Screen.Controller.{Crt}
use lxos.Drivers.Screen.{Screen, kprint, put_chars}

-- `digits[d]`, where the letters begin at `letter`: 'a' in the kernel and 'A' in the user's printf
abbrev pub digit : (letter d : ℕ) → ℕ
digit letter d = if ltb d 10 then 48 + d else letter + (d - 10)

-- the loop of kprintint: the digits, the last one first
unfoldable pub numeral_loop : ℕ → (letter x base : ℕ) → List ℕ
numeral_loop zero letter x base = []
numeral_loop (suc rounds) letter x base =
    let rest = numeral_loop rounds letter (x / base) base in
    digit letter (x % base) ∷ (if x / base == 0 then [] else rest)

-- `-xx` on 32 bits
abbrev pub negate : ℕ → ℕ
negate x = (4294967296 - x) % 2 ^ 32

-- `buf` before it is printed from its end: 32 rounds are as many as a number has digits
unfoldable pub int_chars : (letter xx base : ℕ) → (sign : Bool) → List ℕ
int_chars letter xx base sign =
    if sign && is_negative xx
    then numeral_loop 32 letter (negate xx) base ++ (45 ∷ [])
    else numeral_loop 32 letter xx base

unfoldable pub backwards : List ℕ → List ℕ
backwards [] = []
backwards (c ∷ cs) = backwards cs ++ (c ∷ [])

-- an argument of kprintf: a number, or a string as the list of its characters
pub data Arg : Type 0 where
  number : ℕ → Arg
  text : List ℕ → Arg

-- what a conversion prints; `none` is an argument of the other kind
unfoldable pub converted : (c : ℕ) → Arg → Option (List ℕ)
converted c (number x) =
    if c == 99
    then some (x % 256 ∷ [])
    else if c == 100
    then some (backwards (int_chars 97 x 10 true))
    else if c == 112
    then some (backwards (int_chars 97 x 10 false))
    else if c == 120
    then some (backwards (int_chars 97 x 16 false))
    else none
converted c (text cs) = if c == 115 then some cs else none

-- `c` is a conversion that takes an argument
abbrev pub takes_argument : ℕ → Bool
takes_argument c = c == 115 || c == 99 || c == 100 || c == 112 || c == 120

-- The characters that the loop of kprintf prints. It is `none` where the loop goes on behind the end of
-- the format, which is after a `%` that ends it, and where an argument is missing.
unfoldable pub format_chars : List ℕ → List Arg → Option (List ℕ)
format_chars [] args = some []
format_chars (c ∷ []) args = if c == 37 then none else some (c ∷ [])
format_chars (c ∷ d ∷ cs) [] =
    let rest = format_chars cs [] in
    let plain = format_chars (d ∷ cs) [] in
    if c == 37
    then (if takes_argument d then none else rest)
    else elim plain [ none ↦ none | some out ↦ some (c ∷ out) ]
format_chars (c ∷ d ∷ cs) (a ∷ args) =
    let rest = format_chars cs (a ∷ args) in
    let after = format_chars cs args in
    let plain = format_chars (d ∷ cs) (a ∷ args) in
    if c == 37
    then (if takes_argument d
        then elim (converted d a) [
          | none ↦ none
          | some out ↦ elim after [ none ↦ none | some more ↦ some (out ++ more) ]
        ]
        else rest)
    else elim plain [ none ↦ none | some out ↦ some (c ∷ out) ]

module _ (D : Crt) where
  unfoldable pub kprintint : (xx base : ℕ) → (sign : Bool) → Screen D → Screen D
  kprintint xx base sign s = put_chars D (backwards (int_chars 97 xx base sign)) s

  -- "kern:" and the characters of the format
  unfoldable pub kprintf : List ℕ → List Arg → Screen D → Option (Screen D)
  kprintf fmt args s = elim (format_chars fmt args) [
    | none ↦ none
    | some out ↦ some (put_chars D out (kprint D (107 ∷ 101 ∷ 114 ∷ 110 ∷ 58 ∷ []) s))
  ]

-- the number that digits stand for, the last one first
abbrev pub value : (base : ℕ) → List ℕ → (digit_value : ℕ → ℕ) → ℕ
value base [] f = 0
value base (c ∷ cs) f = f c + base * value base cs f

-- the digit that a character stands for
abbrev pub digit_value : (letter c : ℕ) → ℕ
digit_value letter c = if ltb c 58 then c - 48 else c - letter + 10

-- The digits of `x`: their value, and that they fit.
record IsNumeral (letter base x size : ℕ) (cs : List ℕ) : Type 0 where
  is_value : value base cs (digit_value letter) ≡ x
  fits : length cs ≤ size

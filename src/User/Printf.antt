-- ===== src/User/Printf.antt =====
-- printf of user/printf.c. What putc writes is the list of the characters; the strings among the arguments
-- are such lists, with `none` for a null pointer.
use lxos.Base.{
  ℕ, ◌%◌, ◌≡◌, refl, Bool, true, false, ◌||◌, Option, none, some, List, [], ◌∷◌, ◌++◌, ◌==◌,
  if◌then◌else◌, arith, Bool-cases, inl, inr,
}
use lxos.Drivers.Screen.Numbers.{int_chars, backwards}

pub data PrintfArg : Type 0 where
  number : ℕ → PrintfArg
  text : Option (List ℕ) → PrintfArg

unfoldable pub printint : (xx base : ℕ) → (sgn : Bool) → List ℕ
printint xx base sgn = backwards (int_chars 65 xx base sgn)

-- "(null)"
abbrev pub null_text : List ℕ
null_text = 40 ∷ 110 ∷ 117 ∷ 108 ∷ 108 ∷ 41 ∷ []

-- the characters of a conversion; `none` is an argument of the other kind
unfoldable pub conversion : (c : ℕ) → PrintfArg → Option (List ℕ)
conversion c (number x) =
    if c == 100
    then some (printint x 10 true)
    else if c == 120 || c == 112
    then some (printint x 16 false)
    else if c == 99
    then some (x % 256 ∷ [])
    else none
conversion c (text cs) = if c == 115 then some (elim cs [ none ↦ null_text | some s ↦ s ]) else none

abbrev pub wants_argument : ℕ → Bool
wants_argument c = c == 100 || c == 120 || c == 112 || c == 115 || c == 99

-- what is written in front of what follows
abbrev pub write_before : List ℕ → Option (List ℕ) → Option (List ℕ)
write_before out none = none
write_before out (some more) = some (out ++ more)

-- The loop of printf, where `percent` is the state '%'. A missing argument, or one of the other kind, is
-- `none`.
unfoldable pub printf_loop : (percent : Bool) → (fmt : List ℕ) → List PrintfArg → Option (List ℕ)
printf_loop percent [] args = some []
printf_loop false (c ∷ fmt) args =
    let opened = printf_loop true fmt args in
    let plain = printf_loop false fmt args in
    if c == 37 then opened else write_before (c ∷ []) plain
printf_loop true (c ∷ fmt) [] =
    let rest = printf_loop false fmt [] in
    if wants_argument c
    then none
    else if c == 37
    then write_before (37 ∷ []) rest
    else write_before (37 ∷ c ∷ []) rest
printf_loop true (c ∷ fmt) (a ∷ args) =
    let kept = printf_loop false fmt (a ∷ args) in
    let used = printf_loop false fmt args in
    if wants_argument c
    then elim (conversion c a) [ none ↦ none | some out ↦ write_before out used ]
    else if c == 37
    then write_before (37 ∷ []) kept
    else write_before (37 ∷ c ∷ []) kept

abbrev pub printf : List ℕ → List PrintfArg → Option (List ℕ)
printf fmt args = printf_loop false fmt args

-- a text with each percent sign doubled
unfoldable pub escaped : List ℕ → List ℕ
escaped [] = []
escaped (c ∷ cs) = if c == 37 then 37 ∷ 37 ∷ escaped cs else c ∷ escaped cs

-- printf writes the text that a format of it, with each percent sign doubled, stands for.
printf-escaped : (cs : List ℕ) → printf (escaped cs) [] ≡ some cs
unfolding escaped printf_loop
printf-escaped [] = refl
printf-escaped (c ∷ cs) = elim (Bool-cases (c == 37)) [
  | inl e ↦ let same : c ≡ 37 = ground (arith, e) in rw (escaped, e, printf-escaped cs, same) refl
  | inr e ↦ rw (escaped, e, printf_loop, e, printf-escaped cs) refl
]

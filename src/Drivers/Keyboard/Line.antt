-- ===== src/Drivers/Keyboard/Line.antt =====
-- The line of drivers/keyboard.c.
use lxos.Base.{
  ℕ, zero, suc, ◌+◌, ◌-◌, ◌%◌, ◌≡◌, ◌≢◌, ◌↔◌, ◌<◌, ◌⊎◌, inl, inr, refl, sym, ◌∙◌, ap, Bool, true,
  false, not, ◌&&◌, Option, none, some, List, [], ◌∷◌, ltb, ◌==◌, if◌then◌else◌, arith, Bool-cases,
  ==_iff, length, get_elem?,
}
use mathlib.Core.Path.{subst}
use lxos.Libc.Memory.{Memory, put, within}
use lxos.Libc.Strings.Length.{IsString, append-IsString, backspace_lem}
use lxos.Drivers.Keyboard.{
  show, show_backspace, print, act, user_input, Keyboard, letter, chars_at, on_backspace, on_enter,
  on_capslock, on_letter, keyboard_callback, never_returns, same_text, end_command, test_write,
  test_read, sc_ascii_caps, sc_ascii_normal,
}

-- how long the line is behind a key; `stopped` says that the command of the line has not come back
abbrev pub next_length : (scancode : ℕ) → (stopped : Bool) → (k : ℕ) → ℕ
next_length scancode stopped k =
    if ltb 0x3a scancode
    then k
    else if scancode == 0x0e
    then k - 1
    else if scancode == 0x1c
    then (if stopped then k else 0)
    else if scancode == 0x3a
    then k
    else k + 1

-- the line's characters after a key, given those before
abbrev pub Edits :
    (scancode : ℕ) → (stopped capslock : Bool) → (key_buffer k : ℕ) → (m m' : Memory) → Type 0
Edits scancode stopped capslock key_buffer k m m' =
    (i : ℕ)
    → i < next_length scancode stopped k
    → m' (key_buffer + i) ≡ (if i == k then letter capslock scancode else m (key_buffer + i))

-- the `k` characters from `s` on
unfoldable pub text_of : (k s : ℕ) → Memory → List ℕ
text_of zero s m = []
text_of (suc k) s m = m s ∷ text_of k (s + 1) m

-- END, TESTIDEW or TESTIDER
abbrev pub IsLast : List ℕ → Type 0
IsLast cs = (cs ≡ end_command) ⊎ (cs ≡ test_write) ⊎ (cs ≡ test_read)

-- `s'` is what the handler leaves for a line of `k` characters: a line in the same buffer.
pub record Typed (key_buffer scancode k : ℕ) (s s' : Keyboard) : Type 0 where
  pub stops : (s'.stopped ≡ true) ↔ ((scancode ≡ 0x1c) × IsLast (text_of k key_buffer s.mem))
  pub line : IsString s'.mem key_buffer (next_length scancode s'.stopped k)
  pub chars : Edits scancode s'.stopped s.capslock key_buffer k s.mem s'.mem
  pub inside : (a : ℕ) → within key_buffer 256 a ≡ false → s'.mem a ≡ s.mem a
  pub caps : s'.capslock ≡ (if scancode == 0x3a then not s.capslock else s.capslock)

same_text-same : (cs ds : List ℕ) → same_text cs ds ≡ true → cs ≡ ds
unfolding same_text
same_text-same [] [] h = refl
same_text-same [] (d ∷ ds) h = absurd (cc)
same_text-same (c ∷ cs) [] h = absurd (cc)
same_text-same (c ∷ cs) (d ∷ ds) h =
    let head : c ≡ d = ground (arith, h) in
    let tail : same_text cs ds ≡ true = ground (arith, h) in
    let rest = same_text-same cs ds tail in cc

never_returns-IsLast : (cs : List ℕ) → (never_returns cs ≡ true) ↔ IsLast cs
unfolding same_text
never_returns-IsLast cs = (to, from)
  where
    to : never_returns cs ≡ true → IsLast cs
    to h = elim (Bool-cases (same_text cs end_command)) [
      | inl a ↦ inl (same_text-same cs end_command a)
      | inr a ↦ elim (Bool-cases (same_text cs test_write)) [
        | inl b ↦ inr (inl (same_text-same cs test_write b))
        | inr b ↦ inr (inr (same_text-same cs test_read (ground (arith, h, a, b))))
      ]
    ]

    from : IsLast cs → never_returns cs ≡ true
    from (inl e) = ap never_returns e ∙ refl
    from (inr (inl e)) = ap never_returns e ∙ refl
    from (inr (inr e)) = ap never_returns e ∙ refl

-- every entry is a character, and none is zero
unfoldable are_chars : List ℕ → Bool
are_chars [] = true
are_chars (c ∷ cs) = ltb 0 c && ltb c 256 && are_chars cs

char_of : Option ℕ → ℕ
char_of none = 0
char_of (some c) = c

entry-char :
    (cs : List ℕ) (i : ℕ)
    → are_chars cs ≡ true
    → i < length cs
    → (0 < char_of (get_elem? cs i)) × (char_of (get_elem? cs i) < 256)
unfolding are_chars char_of
entry-char [] i all lt = absurd (omega arith)
entry-char (c ∷ cs) zero all lt = ground arith
entry-char (c ∷ cs) (suc i) all lt = entry-char cs i (ground arith) (omega arith)

letter-byte :
    (capslock : Bool) (scancode : ℕ)
    → scancode < 58
    → (0 < letter capslock scancode) × (letter capslock scancode < 256)
unfolding letter char_of are_chars
letter-byte true scancode lt = entry-char sc_ascii_caps scancode refl lt
letter-byte false scancode lt = entry-char sc_ascii_normal scancode refl lt

IsString-tail : (k s : ℕ) (m : Memory) → IsString m s (suc k) → IsString m (s + 1) k
IsString-tail k s m h = record {
  ends = let sum : s + 1 + k ≡ s + suc k = omega arith in ap m sum ∙ h.ends;
  text = λ i l e.
      let sum : s + suc i ≡ s + 1 + i = omega arith in
      h.text (suc i) (omega (arith, l)) (ap m sum ∙ e);
}

chars_at-text_of :
    (k fuel s : ℕ) (m : Memory)
    → IsString m s k
    → k < fuel
    → chars_at fuel s m ≡ some (text_of k s m)
unfolding chars_at text_of
chars_at-text_of k zero s m h lt = absurd (omega arith)
chars_at-text_of zero (suc fuel) s m h lt =
    let z : s + 0 ≡ s = omega arith in
    let e : (m s == 0) ≡ true = ground (arith, ap m z, h.ends) in rw (chars_at, e) refl
chars_at-text_of (suc k) (suc fuel) s m h lt =
    let z : s + 0 ≡ s = omega arith in
    let e : (m s == 0) ≡ false = ground (arith, ap m z, h.text 0 (omega arith)) in
    let rest = chars_at-text_of k fuel (s + 1) m (IsString-tail k s m h) (omega arith) in
    rw (chars_at, e, rest) refl

module _ (fuel kb k : ℕ) (s : Keyboard) (h : IsString s.mem kb k) (room : k < 255)
    (enough : k < fuel) (going : s.stopped ≡ false) where
  -- a key other than Enter
  goes_on :
      (scancode : ℕ)
      → scancode ≢ 0x1c
      → (s.stopped ≡ true) ↔ ((scancode ≡ 0x1c) × IsLast (text_of k kb s.mem))
  goes_on scancode other = (λ e. absurd (ground (arith, e, going)), λ (e, l). absurd (other e))

  on_backspace-Typed :
      0 < kb → 0 < k → (s' : Keyboard) × (on_backspace fuel kb s ≡ some s') × Typed kb 0x0e k s s'
  unfolding on_backspace
  on_backspace-Typed pos some_char =
      let (m', run, line, kept) = backspace_lem fuel kb s.mem pos h enough in
      (
        act show_backspace (record s { mem = m' }),
        rw (on_backspace, run) refl,
        record {
          stops = goes_on 0x0e (omega arith);
          line = line.0 some_char;
          chars = λ i lt.
              let before : (i == k) ≡ false = ground arith in
              rw before (kept (kb + i) (omega (arith, lt)));
          inside = λ a out. kept a (ground arith);
          caps = refl;
        },
      )

  on_enter-Typed : (s' : Keyboard) × (on_enter fuel kb s ≡ some s') × Typed kb 0x1c k s s'
  unfolding on_enter put
  on_enter-Typed =
      let cs = text_of k kb s.mem in
      let last = never_returns-IsLast cs in
      (
        record s {
          mem = if never_returns cs then s.mem else put s.mem kb 0;
          actions = user_input cs (print "\n" ∷ s.actions);
          stopped = never_returns cs;
        },
        rw (on_enter, chars_at-text_of k fuel kb s.mem h enough) refl,
        record {
          stops = (λ e. (refl, last.0 e), λ (e, l). last.1 l);
          line = elim (Bool-cases (never_returns cs)) [
            | inl e ↦ rw e h
            | inr e ↦
                rw e (record { ends = ground arith; text = λ i lt. absurd (omega (arith, lt)) })
          ];
          chars = λ i lt. elim (Bool-cases (never_returns cs)) [
            | inl e ↦
                let lt' : i < k = rw e at lt in
                let before : (i == k) ≡ false = ground arith in rw (e, before) refl
            | inr e ↦ absurd (ground (arith, lt, e))
          ];
          inside = λ a out. ground arith;
          caps = refl;
        },
      )

  on_letter-Typed :
      (scancode : ℕ)
      → next_length scancode s.stopped k ≡ k + 1
      → scancode ≢ 0x1c
      → (scancode == 0x3a) ≡ false
      → scancode < 58
      → (s' : Keyboard) × (on_letter fuel kb (letter s.capslock scancode) s ≡ some s')
        × Typed kb scancode k s s'
  unfolding on_letter
  on_letter-Typed scancode other ne plain low =
      let c = letter s.capslock scancode in
      let b = letter-byte s.capslock scancode low in
      let same : c % 256 ≡ c = omega (arith, b) in
      let (m', run, line, last, kept) =
        append-IsString fuel kb c s.mem h enough (omega (arith, b)) in
      (
        act (show (c ∷ [])) (record s { mem = m' }),
        rw (on_letter, run) refl,
        record {
          stops = goes_on scancode ne;
          line = subst (λ n. IsString m' kb n) (omega (arith, other)) line;
          chars = λ i lt. elim (Bool-cases (i == k)) [
            | inl e ↦ rw e (ap (λ j. m' (kb + j)) ((==_iff i k).0 e) ∙ last ∙ same)
            | inr e ↦ rw e (kept (kb + i) (ground arith) (ground (arith, other, lt)))
          ];
          inside = λ a out. kept a (ground arith) (ground arith);
          caps = rw plain refl;
        },
      )

  on_capslock-Typed : Typed kb 0x3a k s (on_capslock s)
  unfolding on_capslock
  on_capslock-Typed = record {
    stops = goes_on 0x3a (omega arith);
    line = h;
    chars = λ i lt. let before : (i == k) ≡ false = ground arith in rw before refl;
    inside = λ a out. refl;
    caps = refl;
  }

  ignored-Typed : (scancode : ℕ) → ltb 0x3a scancode ≡ true → Typed kb scancode k s s
  ignored-Typed scancode e =
      let same : next_length scancode s.stopped k ≡ k = rw e refl in
      let plain : (scancode == 0x3a) ≡ false = ground arith in
      record {
        stops = goes_on scancode (ground arith);
        line = subst (λ n. IsString s.mem kb n) (sym same) h;
        chars = λ i lt. let before : (i == k) ≡ false = ground (arith, lt, same) in rw before refl;
        inside = λ a out. refl;
        caps = rw plain refl;
      }

-- what the handler does with a key
abbrev Handled : (fuel kb k : ℕ) → Keyboard → (scancode : ℕ) → Type 0
Handled fuel kb k s scancode =
    (s' : Keyboard) × (keyboard_callback fuel kb scancode s ≡ some s') × Typed kb scancode k s s'

-- The handler of the keyboard, for any scancode and a line shorter than 255 characters, edits the line
-- in its buffer of 256 bytes and writes nothing outside it: it appends the letter that the table in
-- use has for the key, drops the last character, empties the line, or switches the table; a code above
-- the largest one changes nothing. With Enter on a line that is END, TESTIDEW or TESTIDER, and only then,
-- the handler does not come back, and the line stays. Backspace is not pressed on an empty line. With
-- more fuel than the line has characters every walk along the line ends.
pub keyboard_callback-Typed :
    (fuel kb k scancode : ℕ) (s : Keyboard)
    → IsString s.mem kb k
    → k < 255
    → k < fuel
    → 0 < kb
    → (scancode ≢ 0x0e) ⊎ (0 < k)
    → s.stopped ≡ false
    → (s' : Keyboard) × (keyboard_callback fuel kb scancode s ≡ some s') × Typed kb scancode k s s'
unfolding keyboard_callback
keyboard_callback-Typed fuel kb k scancode s h room enough pos some_char going =
    elim (Bool-cases (ltb 0x3a scancode)) [
      | inl e ↦ (
        s,
        rw (keyboard_callback, e) refl,
        ignored-Typed fuel kb k s h room enough going scancode e,
      )
      | inr e ↦ elim (Bool-cases (scancode == 0x0e)) [
        | inl e1 ↦
            subst (Handled fuel kb k s) (sym ((==_iff scancode 0x0e).0 e1)) (
              on_backspace-Typed fuel kb k s h room enough going pos
                (ground (arith, some_char, e1)))
        | inr e1 ↦ elim (Bool-cases (scancode == 0x1c)) [
          | inl e2 ↦
              subst (Handled fuel kb k s) (sym ((==_iff scancode 0x1c).0 e2))
                (on_enter-Typed fuel kb k s h room enough going)
          | inr e2 ↦ elim (Bool-cases (scancode == 0x3a)) [
            | inl e3 ↦
                subst (Handled fuel kb k s) (sym ((==_iff scancode 0x3a).0 e3))
                  (on_capslock s, refl, on_capslock-Typed fuel kb k s h room enough going)
            | inr e3 ↦
                let (s', run, t) =
                  on_letter-Typed fuel kb k s h room enough going scancode (rw (e, e1, e2, e3) refl)
                    (ground arith) e3 (ground arith) in
                (s', rw (keyboard_callback, e, e1, e2, e3) run, t)
          ]
        ]
      ]
    ]

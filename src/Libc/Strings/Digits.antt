-- ===== src/Libc/Strings/Digits.antt =====
-- int_to_ascii and the digits of hex_to_ascii of libc/string.c.
use lxos.Base.{
  ℕ, zero, suc, ◌+◌, ◌-◌, ◌*◌, ◌/◌, ◌%◌, ◌<◌, ◌≤◌, ◌≡◌, ◌≢◌, ◌↔◌, refl, ◌∙◌, some, arith, ◌==◌,
  if◌then◌else◌, Bool-cases, inl, inr, ltb,
}
use lxos.Base.Int.{ℤ, pos, negsuc}
use lxos.Libc.Memory.{Ptr, Memory, put}
use lxos.Libc.Strings.{digits_loop, int_to_ascii, magnitude, loop_nibble, last_nibble}
use lxos.Libc.Strings.Length.{IsString}
use lxos.Libc.Strings.Copy.{reverse-IsMirror}

-- the number that the first `k` characters from `s` on spell in base ten
unfoldable pub decimal : Memory → Ptr → ℕ → ℕ
decimal m s zero = 0
decimal m s (suc k) = 10 * decimal m s k + (m (s + k) - 48)

-- the same with the last digit first
backwards : Memory → Ptr → ℕ → ℕ
backwards m s zero = 0
backwards m s (suc k) = m s - 48 + 10 * backwards m (s + 1) k

decimal-mirror :
    (k : ℕ) (m m' : Memory) (s t : Ptr)
    → ((i : ℕ) → i < k → m' (s + i) ≡ m (t + (k - 1 - i)))
    → decimal m' s k ≡ backwards m t k
unfolding decimal backwards
decimal-mirror zero m m' s t h = refl
decimal-mirror (suc k) m m' s t h = ground (
  arith,
  h k (omega arith),
  decimal-mirror k m m' s (t + 1) (λ i lt. ground (arith, h i (omega arith))),
)

abbrev pub IsDigit : ℕ → Type 0
IsDigit c = (48 ≤ c) × (c ≤ 57)

-- the digits of `n` stand from place `i` up to place `e`, the last one first
record IsDigits (n str i : ℕ) (m m' : Memory) (e : ℕ) : Type 0 where
  more : i < e
  bound : e ≤ i + suc n
  value : backwards m' (str + i) (e - i) ≡ n
  digit : (j : ℕ) → i ≤ j → j < e → IsDigit (m' (str + j))
  frame : (a : ℕ) → a < str + i → m' a ≡ m a

IsDigits-last :
    (n str i : ℕ) (m : Memory)
    → n / 10 ≡ 0
    → IsDigits n str i m (put m (str + i) (n % 10 + 48)) (i + 1)
unfolding backwards put
IsDigits-last n str i m h = record {
  more = omega arith;
  bound = omega arith;
  value = let e : i + 1 - i ≡ 1 = omega arith in rw e (ground arith);
  digit = λ j lo hi. ground arith;
  frame = λ a lt. ground arith;
}

IsDigits-more :
    (n str i e : ℕ) (m m' : Memory)
    → 0 < n / 10
    → IsDigits (n / 10) str (i + 1) (put m (str + i) (n % 10 + 48)) m' e
    → IsDigits n str i m m' e
unfolding backwards put
IsDigits-more n str i e m m' lt d = record {
  more = omega (arith, d.more);
  bound = omega (arith, d.bound);
  value =
      let len : e - i ≡ suc (e - (i + 1)) = omega (arith, d.more) in
      let next : str + (i + 1) ≡ str + i + 1 = omega arith in
      let rest : backwards m' (str + i + 1) (e - (i + 1)) ≡ n / 10 = rw next at d.value in
      rw len (ground (arith, rest, d.frame (str + i) (omega arith)));
  digit = λ j lo hi. elim (Bool-cases (i == j)) [
    | inl e ↦ ground (arith, d.frame (str + j) (ground arith))
    | inr ne ↦ d.digit j (ground arith) hi
  ];
  frame = λ a al. ground (arith, d.frame a (omega arith));
}

digits_loop-IsDigits :
    (fuel n str i : ℕ) (m : Memory)
    → n < fuel
    → (e : ℕ) × (m' : Memory) × (digits_loop fuel n str i m ≡ some (e, m'))
      × IsDigits n str i m m' e
unfolding digits_loop
digits_loop-IsDigits zero n str i m h = elim h [ ]
digits_loop-IsDigits (suc fuel) n str i m h = elim (Bool-cases (ltb 0 (n / 10))) [
  | inl more ↦
      let m1 = put m (str + i) (n % 10 + 48) in
      let (e, m', run, d) = digits_loop-IsDigits fuel (n / 10) str (i + 1) m1 (ground arith) in
      (e, m', rw (more, run), IsDigits-more n str i e m m' (ground arith) d)
  | inr last ↦
      (i + 1, put m (str + i) (n % 10 + 48), rw last, IsDigits-last n str i m (ground arith))
]

-- the final zero that int_to_ascii puts behind the digits
IsDigits-IsString :
    (n str k : ℕ) (m m1 : Memory) → IsDigits n str 0 m m1 k → IsString (put m1 (str + k) 0) str k
unfolding put
IsDigits-IsString n str k m m1 d = record {
  ends = ground arith;
  text = λ i lt. ground (arith, d.digit i (omega arith) lt);
}

digits_text :
    (m : Memory) (str k : ℕ)
    → ((i : ℕ) → i < k → IsDigit (m (str + i)))
    → m (str + k) ≡ 0
    → IsString m str k
digits_text m str k digit end = record { ends = end; text = λ i lt. ground (arith, digit i lt) }

-- the mirrored digits spell the number
mirrored_decimal :
    (n str k : ℕ) (m m1 m' : Memory)
    → IsDigits n str 0 m m1 k
    → ((i : ℕ) → i < k → m' (str + i) ≡ put m1 (str + k) 0 (str + (k - 1 - i)))
    → ((i : ℕ) → i < k → IsDigit (m' (str + i))) × (decimal m' str k ≡ n)
unfolding put
mirrored_decimal n str k m m1 m' d mirror =
    let at : str + 0 ≡ str = omega arith in
    let len : k - 0 ≡ k = omega arith in
    let spelt : backwards m1 str k ≡ n = rw (at, len) at d.value in
    (
      (λ i lt. ground (arith, mirror i lt, d.digit (k - 1 - i) (omega arith) (omega arith))),
      (decimal-mirror k m1 m' str str (λ i lt. ground (arith, mirror i lt)) ∙ spelt),
    )

-- the absolute value
abbrev pub absolute : ℤ → ℕ
absolute (pos n) = n
absolute (negsuc n) = n + 1

magnitude-absolute : (n : ℤ) → absolute n < 2147483648 → magnitude n ≡ some (absolute n)
unfolding magnitude
magnitude-absolute (pos n) h = ground arith
magnitude-absolute (negsuc n) h = ground arith

-- For an `int` other than the least one, and with fuel for its value, int_to_ascii writes a string of
-- decimal digits, one or more, that spells the absolute value of `n`; the sign leaves no trace in it.
pub int_to_ascii-decimal :
    (fuel : ℕ) (n : ℤ) (str : Ptr) (m : Memory)
    → absolute n < 2147483648
    → absolute n + 1 < fuel
    → (k : ℕ) × (m' : Memory) × (int_to_ascii fuel n str m ≡ some m')
      × IsString m' str k
      × (0 < k)
      × ((i : ℕ) → i < k → IsDigit (m' (str + i)))
      × (decimal m' str k ≡ absolute n)
unfolding int_to_ascii
int_to_ascii-decimal fuel n str m small f =
    let x = absolute n in
    let (k, m1, run, d) = digits_loop-IsDigits fuel x str 0 m (omega arith) in
    let m2 = put m1 (str + k) 0 in
    let text : IsString m2 str k = IsDigits-IsString x str k m m1 d in
    let (m', turned, mirror, end) = reverse-IsMirror fuel str m2 text (omega (arith, d.bound)) in
    let (digit, value) = mirrored_decimal x str k m m1 m' d mirror in
    (
      k,
      m',
      rw (int_to_ascii, magnitude-absolute n small, run) turned,
      digits_text m' str k digit end,
      d.more,
      digit,
      value,
    )

-- the hexadecimal digit for a nibble
abbrev pub hex_digit : ℕ → ℕ
hex_digit v = if ltb v 10 then 48 + v else 97 + (v - 10)

-- The last digit of hex_to_ascii is the right one for every nibble. The digits before it are right
-- for every nibble but 10, where the test `tmp > 0xA` lets a colon through.
nibble_digits :
    (v : ℕ)
    → v < 16
    → (last_nibble v ≡ hex_digit v)
      × ((loop_nibble v ≡ hex_digit v) ↔ (v ≢ 10))
      × (loop_nibble 10 ≡ b':')
unfolding last_nibble loop_nibble
nibble_digits v h = (ground arith, ((λ e. ground arith), λ ne. ground arith), refl)

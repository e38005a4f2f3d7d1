-- ===== src/Libc/Strings.antt =====
-- libc/string.c over the flat memory. A string is a pointer to bytes that end at the first zero.
-- The loops that walk to that zero take fuel, and `none` means that it ran out: the source walks
-- on. The counted loops recur on their count; a negative count is the count 0.
pub mod Length
pub mod Compare
pub mod Copy
pub mod Digits
use lxos.Base.{
  ℕ, zero, suc, ◌+◌, ◌-◌, ◌*◌, ◌/◌, ◌%◌, ◌^◌, Bool, not, ◌&&◌, Option, none, some, ltb, ◌==◌,
  if◌then◌else◌,
}
use lxos.Base.Int.{ℤ, pos, negsuc, sub_ℕ}
use lxos.Libc.Memory.{Ptr, Memory, put}

infixl 5 ◌>>=◌
abbrev pub ◌>>=◌ {ℓ κ} : {A : Type ℓ} {B : Type κ} → Option A → (A → Option B) → Option B
none >>= f = none
some a >>= f = f a

unfoldable pub strlen_from : ℕ → Ptr → ℕ → Memory → Option ℕ
strlen_from zero s i m = none
strlen_from (suc fuel) s i m =
    let rest = strlen_from fuel s (i + 1) m in if m (s + i) == 0 then some i else rest

unfoldable pub strlen : ℕ → Ptr → Memory → Option ℕ
unfolding strlen_from
strlen fuel s m = strlen_from fuel s 0 m

unfoldable pub append : ℕ → Ptr → ℕ → Memory → Option Memory
unfolding strlen put
append fuel s n m = do len ← strlen fuel s m; some (put (put m (s + len) (n % 256)) (s + len + 1) 0)

-- `s[len-1] = 0`, which is the byte before `s` when the string is empty
unfoldable pub backspace : ℕ → Ptr → Memory → Option Memory
unfolding strlen put
backspace fuel s m = do len ← strlen fuel s m; some (put m (s + len - 1) 0)

-- `s1[i] - s2[i]`: a `char` is signed, so a byte `c` stands for `(c + 128) % 256 - 128`
unfoldable pub char_difference : ℕ → ℕ → ℤ
char_difference a b = sub_ℕ ((a + 128) % 256) ((b + 128) % 256)

unfoldable pub strcmp_from : ℕ → (s1 s2 : Ptr) → ℕ → Memory → Option ℤ
unfolding char_difference
strcmp_from zero s1 s2 i m = none
strcmp_from (suc fuel) s1 s2 i m =
    let rest = strcmp_from fuel s1 s2 (i + 1) m in
    if m (s1 + i) == m (s2 + i)
    then (if m (s1 + i) == 0 then some (pos 0) else rest)
    else some (char_difference (m (s1 + i)) (m (s2 + i)))

unfoldable pub strcmp : ℕ → (s1 s2 : Ptr) → Memory → Option ℤ
unfolding strcmp_from
strcmp fuel s1 s2 m = strcmp_from fuel s1 s2 0 m

-- the bytes are compared as `uchar`s
unfoldable pub strncmp : (p q : Ptr) → ℕ → Memory → ℤ
strncmp p q zero m = pos 0
strncmp p q (suc n) m =
    let rest = strncmp (p + 1) (q + 1) n m in
    if not (m p == 0) && m p == m q then rest else sub_ℕ (m p) (m q)

-- the second loop of strncpy
unfoldable pub pad : ℕ → Ptr → Memory → Memory
unfolding put
pad zero s m = m
pad (suc n) s m = pad n (s + 1) (put m s 0)

unfoldable pub strncpy : (s t : Ptr) → ℕ → Memory → Memory
unfolding pad
strncpy s t zero m = m
strncpy s t (suc n) m =
    let m' = put m s (m t) in
    let rest = strncpy (s + 1) (t + 1) n m' in if m t == 0 then pad n (s + 1) m' else rest

-- the loop of safestrcpy and the store behind it, for `n` rounds at most
unfoldable pub safestrcpy_loop : (s t : Ptr) → ℕ → Memory → Memory
unfolding put
safestrcpy_loop s t zero m = put m s 0
safestrcpy_loop s t (suc n) m =
    let m' = put m s (m t) in
    let rest = safestrcpy_loop (s + 1) (t + 1) n m' in if m t == 0 then put m' (s + 1) 0 else rest

unfoldable pub safestrcpy : (s t : Ptr) → ℕ → Memory → Memory
unfolding safestrcpy_loop
safestrcpy s t zero m = m
safestrcpy s t (suc n) m = safestrcpy_loop s t n m

-- The loop of reverse. An empty string has `j = -1`, where the test fails as it does at `j = 0`.
-- Each round brings `i` and `j` nearer, so that `len` rounds are enough.
unfoldable pub reverse_loop : ℕ → Ptr → (i j : ℕ) → Memory → Memory
unfolding put
reverse_loop zero s i j m = m
reverse_loop (suc fuel) s i j m =
    let rest =
      reverse_loop fuel s (i + 1) (j - 1) (put (put m (s + i) (m (s + j))) (s + j) (m (s + i))) in
    if ltb i j then rest else m

unfoldable pub reverse : ℕ → Ptr → Memory → Option Memory
unfolding strlen reverse_loop
reverse fuel s m = do len ← strlen fuel s m; some (reverse_loop len s 0 (len - 1) m)

-- The do-while loop of int_to_ascii: the count of digits, and the memory.
unfoldable pub digits_loop : ℕ → ℕ → Ptr → ℕ → Memory → Option (ℕ × Memory)
digits_loop zero n str i m = none
digits_loop (suc fuel) n str i m =
    let m' = put m (str + i) (n % 10 + 48) in
    let rest = digits_loop fuel (n / 10) str (i + 1) m' in
    if ltb 0 (n / 10) then rest else some (i + 1, m')

-- `if ((sign = n) < 0) n = -n` for an `int` of 32 bits. The `sign` that this stores is not read again. It is
-- `none` for what is no `int`, and for the least one, whose negation overflows.
unfoldable pub magnitude : ℤ → Option ℕ
magnitude (pos n) = if ltb n 2147483648 then some n else none
magnitude (negsuc n) = if ltb n 2147483647 then some (n + 1) else none

unfoldable pub int_to_ascii : ℕ → ℤ → Ptr → Memory → Option Memory
unfolding digits_loop magnitude reverse put
int_to_ascii fuel n str m = do
  x ← magnitude n
  (i, m') ← digits_loop fuel x str 0 m
  reverse fuel str (put m' (str + i) 0)

-- the character that the loop of hex_to_ascii appends for a nibble: the test is `tmp > 0xA`
unfoldable pub loop_nibble : ℕ → ℕ
loop_nibble tmp = if ltb 10 tmp then tmp - 10 + 97 else tmp + 48

-- the character that it appends for the last nibble: the test is `tmp >= 0xA`
unfoldable pub last_nibble : ℕ → ℕ
last_nibble tmp = if ltb tmp 10 then tmp + 48 else tmp - 10 + 97

-- The rounds `i = 4 * r, ..., 4`; leading zeros are skipped.
unfoldable pub hex_loop : ℕ → (fuel n : ℕ) → Ptr → Bool → Memory → Option Memory
unfolding append loop_nibble
hex_loop zero fuel n str zeros m = some m
hex_loop (suc r) fuel n str zeros m =
    let tmp = n / 2 ^ (4 * suc r) % 16 in
    let skip = hex_loop r fuel n str zeros m in
    let show = (append fuel str (loop_nibble tmp) m >>= hex_loop r fuel n str Bool.true) in
    if tmp == 0 && not zeros then skip else show

unfoldable pub hex_to_ascii : (fuel n : ℕ) → Ptr → Memory → Option Memory
unfolding hex_loop append last_nibble
hex_to_ascii fuel n str m = do
  m1 ← append fuel str 48 m
  m2 ← append fuel str 120 m1
  m3 ← hex_loop 7 fuel n str Bool.false m2
  append fuel str (last_nibble (n % 16)) m3

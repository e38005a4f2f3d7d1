-- ===== src/Libc/Strings/Length.antt =====
-- strlen, append and backspace of libc/string.c.
use lxos.Base.{ℕ, zero, suc, ◌+◌, ◌-◌, ◌%◌, ◌<◌, ◌≡◌, ◌≢◌, some, arith}
use lxos.Libc.Memory.{Ptr, Memory, put}
use lxos.Libc.Strings.{strlen_from, strlen, append, backspace}

-- the first zero from `s` on stands at `s + k`
pub record IsString (m : Memory) (s : Ptr) (k : ℕ) : Type 0 where
  pub ends : m (s + k) ≡ 0
  pub text : (i : ℕ) → i < k → m (s + i) ≢ 0

strlen_from-IsString :
    (r fuel i : ℕ) (s : Ptr) {k : ℕ} (m : Memory)
    → IsString m s k
    → i + r ≡ k
    → r < fuel
    → strlen_from fuel s i m ≡ some k
unfolding strlen_from
strlen_from-IsString r zero i s m h e f = elim f [ ]
strlen_from-IsString zero (suc fuel) i s {k} m h e f =
    let e' : i ≡ k = omega arith in rw e' (ground (arith, h.ends))
strlen_from-IsString (suc r) (suc fuel) i s m h e f = ground (
  arith,
  h.text i (omega arith),
  strlen_from-IsString r fuel (i + 1) s m h (omega arith) (omega arith),
)

-- With more fuel than bytes before the first zero, strlen returns the number of those bytes.
pub strlen-IsString :
    {k : ℕ} (fuel : ℕ) (s : Ptr) (m : Memory) → IsString m s k → k < fuel → strlen fuel s m ≡ some k
unfolding strlen
strlen-IsString {k} fuel s m h f = strlen_from-IsString k fuel 0 s m h (omega arith) f

append-IsString-put :
    {k : ℕ} (s : Ptr) (n : ℕ) (m : Memory)
    → IsString m s k
    → n % 256 ≢ 0
    → IsString (put (put m (s + k) (n % 256)) (s + k + 1) 0) s (suc k)
unfolding put
append-IsString-put {k} s n m h ne = record {
  ends = ground arith;
  text = λ i lt. ground (arith, h.text i);
}

-- append makes a string one longer: the new last byte is `n`, the bytes before it are the old ones,
-- and no byte outside the two after the old text is written.
pub append-IsString :
    {k : ℕ} (fuel : ℕ) (s : Ptr) (n : ℕ) (m : Memory)
    → IsString m s k
    → k < fuel
    → n % 256 ≢ 0
    → (m' : Memory) × (append fuel s n m ≡ some m')
      × IsString m' s (suc k)
      × (m' (s + k) ≡ n % 256)
      × ((a : ℕ) → a ≢ s + k → a ≢ s + k + 1 → m' a ≡ m a)
unfolding append put
append-IsString {k} fuel s n m h f ne = (
  put (put m (s + k) (n % 256)) (s + k + 1) 0,
  rw (strlen-IsString fuel s m h f),
  append-IsString-put s n m h ne,
  ground arith,
  λ a p q. ground arith,
)

-- backspace, with fuel for the length of the string, which does not begin at address 0, drops the last
-- character of a string that is not empty; for an empty one it writes a zero to the byte before it.
-- No other byte changes.
pub backspace_lem :
    {k : ℕ} (fuel : ℕ) (s : Ptr) (m : Memory)
    → 0 < s
    → IsString m s k
    → k < fuel
    → (m' : Memory) × (backspace fuel s m ≡ some m')
      × ((0 < k → IsString m' s (k - 1)) × (k ≡ 0 → m' (s - 1) ≡ 0))
      × ((a : ℕ) → a + 1 ≢ s + k → m' a ≡ m a)
unfolding backspace put
backspace_lem {k} fuel s m pos h f = (
  put m (s + k - 1) 0,
  rw (strlen-IsString fuel s m h f),
  (
    (λ lt. record { ends = ground arith; text = λ i il. ground (arith, h.text i) }),
    λ e. ground arith,
  ),
  λ a ne. ground arith,
)

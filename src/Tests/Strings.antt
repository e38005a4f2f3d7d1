-- ===== src/Tests/Strings.antt =====
-- The theorems about libc/string.c at short texts.
use lxos.Base.{ℕ, ◌+◌, ◌-◌, ◌<◌, ◌≡◌, ◌≢◌, refl, arith, ◌==◌, if◌then◌else◌, some}
use lxos.Base.Int.{negsuc}
use lxos.Libc.Memory.{Memory, within, memmove}
use lxos.Libc.Memory.Block.{memmove_lem}
use lxos.Libc.Strings.{backspace, int_to_ascii}
use lxos.Libc.Strings.Length.{IsString, backspace_lem}
use lxos.Libc.Strings.Digits.{decimal, IsDigit, absolute, int_to_ascii-decimal}

-- "ab" at address 4, and nothing else
abbrev text : Memory
text a = if a == 4 then b'a' else if a == 5 then b'b' else 0

text-IsString : IsString text 4 2
text-IsString = record { ends = refl; text = λ i lt. ground arith }

memmove_lem_example : memmove 5 4 2 text 6 ≡ (if within 5 2 6 then text (4 + (6 - 5)) else text 6)
memmove_lem_example = memmove_lem 5 4 2 text 6

int_to_ascii-decimal_example :
    (k : ℕ) × (m' : Memory) × (int_to_ascii 99 (negsuc 41) 4 text ≡ some m')
    × IsString m' 4 k
    × (0 < k)
    × ((i : ℕ) → i < k → IsDigit (m' (4 + i)))
    × (decimal m' 4 k ≡ absolute (negsuc 41))
int_to_ascii-decimal_example =
    int_to_ascii-decimal 99 (negsuc 41) 4 text (omega arith) (omega arith)

backspace_lem_example :
    (m' : Memory) × (backspace 99 4 text ≡ some m')
    × ((0 < 2 → IsString m' 4 (2 - 1)) × (◌≡◌ {A = ℕ} 2 0 → m' (4 - 1) ≡ 0))
    × ((a : ℕ) → a + 1 ≢ 4 + 2 → m' a ≡ text a)
backspace_lem_example = backspace_lem 99 4 text (omega arith) text-IsString (omega arith)

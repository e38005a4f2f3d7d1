-- ===== src/Base/Tables.antt =====
-- Bit masks of a byte as remainders.
use lxos.Base.{ℕ, zero, suc, ◌+◌, ◌*◌, ◌/◌, ◌%◌, ◌<◌, ◌≡◌, refl, arith, ◌==◌, if◌then◌else◌}
use Prim.Native.Nat.{bit_and}

-- how often `f` and `g` differ on the numbers from `from` on
unfoldable mismatches : (f g : ℕ → ℕ) → (from count : ℕ) → ℕ
mismatches f g from zero = 0
mismatches f g from (suc count) =
    (if f from == g from then 0 else 1) + mismatches f g (from + 1) count

agree :
    (f g : ℕ → ℕ) (from count i : ℕ)
    → i < count
    → mismatches f g from count ≡ 0
    → f (from + i) ≡ g (from + i)
unfolding mismatches
agree f g from zero i lt none_left = absurd (omega arith)
agree f g from (suc count) zero lt none_left = ground arith
agree f g from (suc count) (suc i) lt none_left =
    let split : from + suc i ≡ from + 1 + i = omega arith in
    rw (split, agree f g (from + 1) count i (omega arith) (omega (arith, none_left)))

low_nibble : mismatches (λ x. bit_and x 15) (λ x. x % 16) 0 256 ≡ 0
unfolding mismatches
low_nibble = refl

fifth_bit : mismatches (λ x. bit_and x 16) (λ x. x / 16 % 2 * 16) 0 256 ≡ 0
unfolding mismatches
fifth_bit = refl

bounded : (f g : ℕ → ℕ) (count : ℕ) → mismatches f g 0 count ≡ 0 → (i : ℕ) → i < count → f i ≡ g i
bounded f g count none_left i lt =
    let start : i ≡ 0 + i = omega arith in rw (start, agree f g 0 count i lt none_left)

pub bit_and_15 : (x : ℕ) → x < 256 → bit_and x 15 ≡ x % 16
bit_and_15 = bounded (λ x. bit_and x 15) (λ x. x % 16) 256 low_nibble

pub bit_and_16 : (x : ℕ) → x < 256 → bit_and x 16 ≡ x / 16 % 2 * 16
bit_and_16 = bounded (λ x. bit_and x 16) (λ x. x / 16 % 2 * 16) 256 fifth_bit

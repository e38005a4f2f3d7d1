-- ===== src/Base/Bits.antt =====
-- The bits of a byte, as quotients by powers of two.
use lxos.Base.{ℕ, zero, suc, ◌+◌, ◌-◌, ◌/◌, ◌%◌, ◌^◌, ◌<◌, ◌≡◌, ◌≢◌, refl, arith}

-- A property of the numbers below 8 holds when it holds of each.
below_8 {ℓ} :
    (P : ℕ → Type ℓ) → P 0 → P 1 → P 2 → P 3 → P 4 → P 5 → P 6 → P 7 → (k : ℕ) → k < 8 → P k
below_8 P a b c d e f g h zero lt = a
below_8 P a b c d e f g h (suc zero) lt = b
below_8 P a b c d e f g h (suc (suc zero)) lt = c
below_8 P a b c d e f g h (suc (suc (suc zero))) lt = d
below_8 P a b c d e f g h (suc (suc (suc (suc zero)))) lt = e
below_8 P a b c d e f g h (suc (suc (suc (suc (suc zero))))) lt = f
below_8 P a b c d e f g h (suc (suc (suc (suc (suc (suc zero)))))) lt = g
below_8 P a b c d e f g h (suc (suc (suc (suc (suc (suc (suc zero))))))) lt = h
below_8 P a b c d e f g h (suc (suc (suc (suc (suc (suc (suc (suc k)))))))) lt =
    absurd (omega arith)

module _ (x : ℕ) where
  pub bit-set : (k : ℕ) → k < 8 → x / 2 ^ k % 2 ≡ 0 → (x + 2 ^ k) / 2 ^ k % 2 ≡ 1
  bit-set =
      below_8 (λ k. x / 2 ^ k % 2 ≡ 0 → (x + 2 ^ k) / 2 ^ k % 2 ≡ 1) (λ h. omega (arith, h))
        (λ h. omega (arith, h)) (λ h. omega (arith, h)) (λ h. omega (arith, h))
        (λ h. omega (arith, h)) (λ h. omega (arith, h)) (λ h. omega (arith, h))
        (λ h. omega (arith, h))

  -- For a bit that is clear, a power of two is added to it; the others stay.
  abbrev pub Keeps : (k j : ℕ) → Type 0
  Keeps k j = x / 2 ^ k % 2 ≡ 0 → j ≢ k → (x + 2 ^ k) / 2 ^ j % 2 ≡ x / 2 ^ j % 2

  added_0 : (j : ℕ) → j < 8 → Keeps 0 j
  added_0 =
      below_8 (Keeps 0) (λ h ne. absurd (ne refl)) (λ h ne. omega (arith, h))
        (λ h ne. omega (arith, h)) (λ h ne. omega (arith, h)) (λ h ne. omega (arith, h))
        (λ h ne. omega (arith, h)) (λ h ne. omega (arith, h)) (λ h ne. omega (arith, h))

  added_1 : (j : ℕ) → j < 8 → Keeps 1 j
  added_1 =
      below_8 (Keeps 1) (λ h ne. omega (arith, h)) (λ h ne. absurd (ne refl))
        (λ h ne. omega (arith, h)) (λ h ne. omega (arith, h)) (λ h ne. omega (arith, h))
        (λ h ne. omega (arith, h)) (λ h ne. omega (arith, h)) (λ h ne. omega (arith, h))

  added_2 : (j : ℕ) → j < 8 → Keeps 2 j
  added_2 =
      below_8 (Keeps 2) (λ h ne. omega (arith, h)) (λ h ne. omega (arith, h))
        (λ h ne. absurd (ne refl)) (λ h ne. omega (arith, h)) (λ h ne. omega (arith, h))
        (λ h ne. omega (arith, h)) (λ h ne. omega (arith, h)) (λ h ne. omega (arith, h))

  added_3 : (j : ℕ) → j < 8 → Keeps 3 j
  added_3 =
      below_8 (Keeps 3) (λ h ne. omega (arith, h)) (λ h ne. omega (arith, h))
        (λ h ne. omega (arith, h)) (λ h ne. absurd (ne refl)) (λ h ne. omega (arith, h))
        (λ h ne. omega (arith, h)) (λ h ne. omega (arith, h)) (λ h ne. omega (arith, h))

  added_4 : (j : ℕ) → j < 8 → Keeps 4 j
  added_4 =
      below_8 (Keeps 4) (λ h ne. omega (arith, h)) (λ h ne. omega (arith, h))
        (λ h ne. omega (arith, h)) (λ h ne. omega (arith, h)) (λ h ne. absurd (ne refl))
        (λ h ne. omega (arith, h)) (λ h ne. omega (arith, h)) (λ h ne. omega (arith, h))

  added_5 : (j : ℕ) → j < 8 → Keeps 5 j
  added_5 =
      below_8 (Keeps 5) (λ h ne. omega (arith, h)) (λ h ne. omega (arith, h))
        (λ h ne. omega (arith, h)) (λ h ne. omega (arith, h)) (λ h ne. omega (arith, h))
        (λ h ne. absurd (ne refl)) (λ h ne. omega (arith, h)) (λ h ne. omega (arith, h))

  added_6 : (j : ℕ) → j < 8 → Keeps 6 j
  added_6 =
      below_8 (Keeps 6) (λ h ne. omega (arith, h)) (λ h ne. omega (arith, h))
        (λ h ne. omega (arith, h)) (λ h ne. omega (arith, h)) (λ h ne. omega (arith, h))
        (λ h ne. omega (arith, h)) (λ h ne. absurd (ne refl)) (λ h ne. omega (arith, h))

  added_7 : (j : ℕ) → j < 8 → Keeps 7 j
  added_7 =
      below_8 (Keeps 7) (λ h ne. omega (arith, h)) (λ h ne. omega (arith, h))
        (λ h ne. omega (arith, h)) (λ h ne. omega (arith, h)) (λ h ne. omega (arith, h))
        (λ h ne. omega (arith, h)) (λ h ne. omega (arith, h)) (λ h ne. absurd (ne refl))

  pub bit-set-other : (k : ℕ) → k < 8 → (j : ℕ) → j < 8 → Keeps k j
  bit-set-other =
      below_8 (λ k. (j : ℕ) → j < 8 → Keeps k j) added_0 added_1 added_2 added_3 added_4 added_5
        added_6 added_7

  -- a bit that is set holds a power of two, which can be taken away
  pub bit-clear :
      (k : ℕ) → k < 8 → x / 2 ^ k % 2 ≡ 1 → ((x - 2 ^ k) / 2 ^ k % 2 ≡ 0) × (x - 2 ^ k + 2 ^ k ≡ x)
  bit-clear =
      below_8 (λ k. x / 2 ^ k % 2 ≡ 1 → ((x - 2 ^ k) / 2 ^ k % 2 ≡ 0) × (x - 2 ^ k + 2 ^ k ≡ x))
        (λ h. (omega (arith, h), omega (arith, h))) (λ h. (omega (arith, h), omega (arith, h)))
        (λ h. (omega (arith, h), omega (arith, h))) (λ h. (omega (arith, h), omega (arith, h)))
        (λ h. (omega (arith, h), omega (arith, h))) (λ h. (omega (arith, h), omega (arith, h)))
        (λ h. (omega (arith, h), omega (arith, h))) (λ h. (omega (arith, h), omega (arith, h)))

-- ===== src/Libc/Strings/Compare.antt =====
-- strcmp and strncmp of libc/string.c.
use lxos.Base.{
  ℕ, zero, suc, ◌+◌, ◌<◌, ◌≤◌, ◌≡◌, ◌≢◌, ◌↔◌, refl, sym, some, arith, ◌==◌, Bool-cases, inl, inr,
  ==_iff,
}
use native.Mathlib.Decide.{dec_lt}
use mathlib.Core.Path.{subst}
use lxos.Base.Int.{ℤ, pos}
use lxos.Libc.Memory.{Ptr, Memory}
use lxos.Libc.Strings.{strcmp_from, strcmp, strncmp, char_difference}
use lxos.Libc.Strings.Length.{IsString}

-- every cell of the memory holds a byte
abbrev pub IsBytes : Memory → Type 0
IsBytes m = (a : ℕ) → m a < 256

char_difference_zero : (a b : ℕ) → a < 256 → b < 256 → (char_difference a b ≡ pos 0) → a ≡ b
unfolding char_difference
char_difference_zero a b ha hb h = ground arith

-- what a run of strcmp from `i` on tells of the rest of the two strings
record Verdict (m : Memory) (s1 s2 : Ptr) (i k : ℕ) (v : ℤ) : Type 0 where
  zero_means : v ≡ pos 0 → (j : ℕ) → i ≤ j → j ≤ k → m (s1 + j) ≡ m (s2 + j)
  means_zero : ((j : ℕ) → i ≤ j → j ≤ k → m (s1 + j) ≡ m (s2 + j)) → v ≡ pos 0

module _ (s1 s2 : Ptr) {k : ℕ} (m : Memory) (bytes : IsBytes m) (h : IsString m s1 k) where
  Verdict-differ :
      (i : ℕ)
      → i ≤ k
      → m (s1 + i) ≢ m (s2 + i)
      → Verdict m s1 s2 i k (char_difference (m (s1 + i)) (m (s2 + i)))
  Verdict-differ i le ne = record {
    zero_means =
        λ e. absurd (ne (char_difference_zero (m (s1 + i)) (m (s2 + i)) (bytes _) (bytes _) e));
    means_zero = λ same. absurd (ne (same i (omega arith) le));
  }

  Verdict-end : (i : ℕ) → i ≡ k → m (s1 + i) ≡ m (s2 + i) → Verdict m s1 s2 i k (pos 0)
  Verdict-end i e eq = record {
    zero_means =
        λ _ j lo hi. let ej : i ≡ j = omega arith in subst (λ x. m (s1 + x) ≡ m (s2 + x)) ej eq;
    means_zero = λ _. refl;
  }

  Verdict-next :
      (i : ℕ) {v : ℤ}
      → m (s1 + i) ≡ m (s2 + i)
      → Verdict m s1 s2 (i + 1) k v
      → Verdict m s1 s2 i k v
  Verdict-next i eq w = record {
    zero_means = λ e j lo hi. elim (dec_lt i j) [
      | yes p ↦ w.zero_means e j (omega arith) hi
      | no p ↦ let ej : i ≡ j = omega arith in subst (λ x. m (s1 + x) ≡ m (s2 + x)) ej eq
    ];
    means_zero = λ same. w.means_zero (λ j lo hi. same j (omega arith) hi);
  }

  strcmp_from-Verdict :
      (r fuel i : ℕ)
      → i + r ≡ k
      → r < fuel
      → (v : ℤ) × (strcmp_from fuel s1 s2 i m ≡ some v) × Verdict m s1 s2 i k v
  unfolding strcmp_from
  strcmp_from-Verdict r zero i e f = elim f [ ]
  strcmp_from-Verdict zero (suc fuel) i e f =
      let at : i ≡ k = omega arith in
      let end : m (s1 + i) ≡ 0 = subst (λ x. m (s1 + x) ≡ 0) (sym at) h.ends in
      elim (Bool-cases (m (s1 + i) == m (s2 + i))) [
        | inl eq ↦ (pos 0, rw (eq, end), Verdict-end i at ((==_iff _ _).0 eq))
        | inr ne ↦ (_, rw ne, Verdict-differ i (omega arith) (λ q. ground arith))
      ]
  strcmp_from-Verdict (suc r) (suc fuel) i e f = elim (Bool-cases (m (s1 + i) == m (s2 + i))) [
    | inl eq ↦
        let (v, run, w) = strcmp_from-Verdict r fuel (i + 1) (omega arith) (omega arith) in
        (v, ground (arith, h.text i (omega arith)), Verdict-next i ((==_iff _ _).0 eq) w)
    | inr ne ↦ (_, rw ne, Verdict-differ i (omega arith) (λ q. ground arith))
  ]

  -- With more fuel than the first string has bytes strcmp returns, and it returns 0 exactly when
  -- the second string has the same bytes, the final zero included.
  pub strcmp-decides :
      (fuel : ℕ)
      → k < fuel
      → (v : ℤ) × (strcmp fuel s1 s2 m ≡ some v)
        × ((v ≡ pos 0) ↔ ((j : ℕ) → j ≤ k → m (s1 + j) ≡ m (s2 + j)))
  unfolding strcmp
  strcmp-decides fuel f =
      let (v, run, w) = strcmp_from-Verdict k fuel 0 (omega arith) f in
      (
        v,
        run,
        (
          (λ e j le. w.zero_means e j (omega arith) le),
          (λ same. w.means_zero (λ j lo hi. same j hi)),
        ),
      )

-- the first `n` bytes agree as far as the first string goes
abbrev pub SamePrefix : Memory → (p q : Ptr) → ℕ → Type 0
SamePrefix m p q n = (i : ℕ) → i < n → ((j : ℕ) → j < i → m (p + j) ≢ 0) → m (p + i) ≡ m (q + i)

SamePrefix-head : (m : Memory) (p q : Ptr) (n : ℕ) → SamePrefix m p q (suc n) → m p ≡ m q
SamePrefix-head m p q n h = ground (arith, h 0 (omega arith) (λ j lt. absurd (omega arith)))

SamePrefix-tail :
    (m : Memory) (p q : Ptr) (n : ℕ)
    → m p ≢ 0
    → SamePrefix m p q (suc n)
    → SamePrefix m (p + 1) (q + 1) n
SamePrefix-tail m p q n ne h =
    λ i lt before. ground (arith, h (i + 1) (omega arith) (text i before))
  where
    text : (i : ℕ) → ((j : ℕ) → j < i → m (p + 1 + j) ≢ 0) → (j : ℕ) → j < i + 1 → m (p + j) ≢ 0
    text i before zero lt = ground arith
    text i before (suc j) lt = ground (arith, before j (omega arith))

SamePrefix-cons :
    (m : Memory) (p q : Ptr) (n : ℕ)
    → m p ≡ m q
    → (m p ≢ 0 → SamePrefix m (p + 1) (q + 1) n)
    → SamePrefix m p q (suc n)
SamePrefix-cons m p q n e h zero lt before = ground arith
SamePrefix-cons m p q n e h (suc i) lt before =
    let text : m p ≢ 0 = λ z. before 0 (omega arith) (ground arith) in
    ground (arith, h text i (omega arith) (λ j jl z. before (suc j) (omega arith) (ground arith)))

-- For every `n`, strncmp returns 0 exactly when the two strings agree in their first `n` bytes, or
-- up to and including the end of the first string if that comes before.
pub strncmp-decides :
    (n : ℕ) (p q : Ptr) (m : Memory) → (strncmp p q n m ≡ pos 0) ↔ SamePrefix m p q n
unfolding strncmp
strncmp-decides zero p q m = ((λ e i lt. elim lt [ ]), λ _. refl)
strncmp-decides (suc n) p q m =
    let ih = strncmp-decides n (p + 1) (q + 1) m in
    (
      (λ e. SamePrefix-cons m p q n (ground arith) (λ ne. ih.0 (ground arith))),
      λ same. elim (Bool-cases (m p == 0)) [
        | inl end ↦ ground (arith, SamePrefix-head m p q n same)
        | inr more ↦ ground (
          arith,
          SamePrefix-head m p q n same,
          ih.1 (SamePrefix-tail m p q n (λ z. ground arith) same),
        )
      ],
    )

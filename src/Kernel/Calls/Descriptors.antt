-- ===== src/Kernel/Calls/Descriptors.antt =====
-- fdalloc of kernel/calls.c.
use lxos.Base.{
  ℕ, zero, suc, ◌+◌, ◌≡◌, ◌≢◌, ◌<◌, ◌≤◌, ◌⊎◌, inl, inr, refl, sym, ◌∙◌, ap, ◌==◌, arith, Bool-cases,
  ==_iff,
}
use lxos.Libc.Memory.{Ptr}
use lxos.Fs.Volume.{minus_one}
use lxos.Kernel.Calls.{Calls, nofile, set_ofile, fdalloc_loop, fdalloc}

-- The lowest descriptor from `fd` on that is free, with the file behind it; or none is free.
abbrev pub Lowest : (fd count : ℕ) → (f : Ptr) → Calls → ℕ × Calls → Type 0
Lowest fd count f s (r, s') =
    ((fd ≤ r)
      × (r < fd + count)
      × (s.ofile r ≡ 0)
      × ((i : ℕ) → fd ≤ i → i < r → s.ofile i ≢ 0)
      × (s' ≡ set_ofile r f s))
    ⊎ ((r ≡ minus_one) × (s' ≡ s) × ((i : ℕ) → fd ≤ i → i < fd + count → s.ofile i ≢ 0))

busy_here : (g : ℕ → Ptr) (fd i : ℕ) → g fd ≢ 0 → (i ≡ fd) ⊎ (g i ≢ 0) → g i ≢ 0
busy_here g fd i ne (inl e) z = ne (ap g (sym e) ∙ z)
busy_here g fd i ne (inr h) z = h z

Lowest-next :
    (fd count : ℕ) (f : Ptr) (s : Calls) (r : ℕ × Calls)
    → s.ofile fd ≢ 0
    → Lowest (fd + 1) count f s r
    → Lowest fd (suc count) f s r
Lowest-next fd count f s (r, s') busy (inl (low, high, free, before, same)) = inl (
  omega (arith, low),
  omega (arith, high),
  free,
  (λ i h1 h2. busy_here s.ofile fd i busy (elim (Bool-cases (i == fd)) [
    | inl e ↦ inl ((==_iff i fd).0 e)
    | inr e ↦ inr (before i (ground arith) h2)
  ])),
  same,
)
Lowest-next fd count f s (r, s') busy (inr (z, same, full)) = inr (
  z,
  same,
  λ i h1 h2. busy_here s.ofile fd i busy (elim (Bool-cases (i == fd)) [
    | inl e ↦ inl ((==_iff i fd).0 e)
    | inr e ↦ inr (full i (ground arith) (omega (arith, h2)))
  ]),
)

fdalloc_loop-Lowest :
    (rounds fd : ℕ) (f : Ptr) (s : Calls) → Lowest fd rounds f s (fdalloc_loop rounds fd f s)
unfolding fdalloc_loop
fdalloc_loop-Lowest zero fd f s = inr (refl, refl, λ i h1 h2. absurd (omega (arith, h1, h2)))
fdalloc_loop-Lowest (suc rounds) fd f s = elim (Bool-cases (s.ofile fd == 0)) [
  | inl e ↦ rw e (
      inl (
        omega arith,
        omega arith,
        (==_iff _ 0).0 e,
        (λ i h1 h2. absurd (omega (arith, h1, h2))),
        refl,
      ))
  | inr e ↦
      rw e (Lowest-next fd rounds f s _ (ground arith) (fdalloc_loop-Lowest rounds (fd + 1) f s))
]

-- fdalloc gives the file the lowest descriptor of the process that is free; it returns -1, and
-- changes nothing, only if all NOFILE descriptors are in use.
pub fdalloc-Lowest : (f : Ptr) (s : Calls) → Lowest 0 nofile f s (fdalloc f s)
unfolding fdalloc
fdalloc-Lowest f s = fdalloc_loop-Lowest nofile 0 f s

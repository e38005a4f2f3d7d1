-- ===== src/Fs/OpenFiles/Table.antt =====
-- filealloc of fs/file.c and the table of open files.
use lxos.Base.{
  ℕ, zero, suc, ◌+◌, ◌≡◌, ◌≢◌, ◌<◌, ◌≤◌, ◌⊎◌, inl, inr, refl, sym, ◌∙◌, ap, ◌==◌, arith, Bool-cases,
  ==_iff,
}
use lxos.Libc.Memory.{Ptr}
use lxos.Fs.OpenFiles.{Files, nfile, set_file, filealloc_loop, filealloc}

-- The first file that nobody uses, from `f` on, is taken; or all are in use and nothing changes.
abbrev pub Opened : (f count : ℕ) → Files → Ptr × Files → Type 0
Opened f count s (p, s') =
    ((f ≤ p)
      × (p < f + count)
      × ((s.file p).ref ≡ 0)
      × ((q : ℕ) → f ≤ q → q < p → (s.file q).ref ≢ 0)
      × (s' ≡ set_file p (record (s.file p) { ref = 1 }) s))
    ⊎ ((p ≡ 0) × (s' ≡ s) × ((q : ℕ) → f ≤ q → q < f + count → (s.file q).ref ≢ 0))

Opened-next :
    (f count : ℕ) (s : Files) (r : Ptr × Files)
    → (s.file f).ref ≢ 0
    → Opened (f + 1) count s r
    → Opened f (suc count) s r
Opened-next f count s (p, s') busy (inl (low, high, free, before, same)) = inl (
  omega (arith, low),
  omega (arith, high),
  free,
  (λ q h1 h2. elim (Bool-cases (q == f)) [
    | inl here ↦ λ z. busy (ap (λ a. (s.file a).ref) (sym ((==_iff q f).0 here)) ∙ z)
    | inr far ↦ before q (ground arith) h2
  ]),
  same,
)
Opened-next f count s (p, s') busy (inr (z, same, full)) = inr (
  z,
  same,
  λ q h1 h2. elim (Bool-cases (q == f)) [
    | inl here ↦ λ z. busy (ap (λ a. (s.file a).ref) (sym ((==_iff q f).0 here)) ∙ z)
    | inr far ↦ full q (ground arith) (omega (arith, h2))
  ],
)

filealloc_loop-Opened : (rounds f : ℕ) (s : Files) → Opened f rounds s (filealloc_loop rounds f s)
unfolding filealloc_loop
filealloc_loop-Opened zero f s = inr (refl, refl, λ q h1 h2. absurd (omega (arith, h1, h2)))
filealloc_loop-Opened (suc rounds) f s = elim (Bool-cases ((s.file f).ref == 0)) [
  | inl e ↦ rw e (
      inl (
        omega arith,
        omega arith,
        (==_iff _ 0).0 e,
        (λ q h1 h2. absurd (omega (arith, h1, h2))),
        refl,
      ))
  | inr e ↦ rw e (Opened-next f rounds s _ (ground arith) (filealloc_loop-Opened rounds (f + 1) s))
]

-- filealloc takes the first file of the table that nobody uses and gives it one user; it returns
-- null, and changes nothing, only if all NFILE files are in use.
pub filealloc-Opened : (s : Files) → Opened 1 nfile s (filealloc s)
unfolding filealloc
filealloc-Opened s = filealloc_loop-Opened nfile 1 s

-- ===== src/Fs/Inodes/Search.antt =====
-- The walk of iget over the slots of the inode cache: fs/fs.c.
use lxos.Base.{
  ℕ, zero, suc, ◌+◌, ◌≡◌, ◌≢◌, ◌<◌, ◌≤◌, ◌⊎◌, inl, inr, refl, sym, ◌∙◌, ap, Bool, true, false, ◌&&◌,
  ◌==◌, if◌then◌else◌, arith, Bool-cases, ==_iff,
}
use lxos.Libc.Memory.{Ptr}
use lxos.Fs.Volume.{Inode, Volume}
use lxos.Fs.Inodes.{ninode, positive, iget_loop}

abbrev pub IsSlot : Ptr → Type 0
IsSlot p = (1 ≤ p) × (p ≤ ninode)

-- the slot is in use for the inode
abbrev pub holds : (dev inum : ℕ) → Inode → Bool
holds dev inum v = positive v.ref && v.dev == dev && v.inum == inum

-- No inode has two slots.
abbrev pub IsUnique : Volume → Type 0
IsUnique s =
    (p q : ℕ)
    → IsSlot p
    → IsSlot q
    → positive (s.inode q).ref ≡ true
    → holds (s.inode q).dev (s.inode q).inum (s.inode p) ≡ true
    → p ≡ q

module _ (dev inum : ℕ) (s : Volume) where
  -- what the walk from `ip` finds, with `empty` the empty slot seen before
  pub record IsFound (ip rounds : ℕ) (empty : Ptr) (r : Bool × Ptr) : Type 0 where
    pub hit : r.0 ≡ true → (ip ≤ r.1) × (r.1 < ip + rounds) × (holds dev inum (s.inode r.1) ≡ true)
    pub miss : r.0 ≡ false → (p : ℕ) → ip ≤ p → p < ip + rounds → holds dev inum (s.inode p) ≡ false
    pub fresh :
        r.0 ≡ false
        → r.1 ≢ 0
        → (r.1 ≡ empty) ⊎ ((ip ≤ r.1) × (r.1 < ip + rounds) × ((s.inode r.1).ref ≡ 0))
    pub full :
        r.0 ≡ false
        → r.1 ≡ 0
        → (empty ≡ 0) × ((p : ℕ) → ip ≤ p → p < ip + rounds → (s.inode p).ref ≢ 0)

  abbrev next_empty : (ip : ℕ) → Ptr → Ptr
  next_empty ip empty = if empty == 0 && (s.inode ip).ref == 0 then ip else empty

  next_empty_cases :
      (ip : ℕ) (empty : Ptr)
      → ((next_empty ip empty ≡ ip) × (empty ≡ 0) × ((s.inode ip).ref ≡ 0))
        ⊎ ((next_empty ip empty ≡ empty) × (empty ≡ 0 → (s.inode ip).ref ≢ 0))
  next_empty_cases ip empty = ground arith

  -- one round that does not find the inode
  IsFound-round :
      (ip rounds : ℕ) (empty : Ptr) (r : Bool × Ptr)
      → 1 ≤ ip
      → holds dev inum (s.inode ip) ≡ false
      → IsFound (ip + 1) rounds (next_empty ip empty) r
      → IsFound ip (suc rounds) empty r
  IsFound-round ip rounds empty (found, q) low other t = record {
    hit = λ e. let (a, b, c) = t.hit e in (omega (arith, a), omega (arith, b), c);
    miss = λ e p h1 h2. elim (Bool-cases (p == ip)) [
      | inl here ↦ rw ((==_iff p ip).0 here) other
      | inr far ↦ t.miss e p (ground arith) (omega (arith, h2))
    ];
    fresh = λ e ne. elim (t.fresh e ne) [
      | inr (a, b, c) ↦ inr (omega (arith, a), omega (arith, b), c)
      | inl same ↦ elim (next_empty_cases ip empty) [
        | inr (keep, _) ↦ inl (same ∙ keep)
        | inl (new, _, free) ↦
            let here : q ≡ ip = same ∙ new in
            inr (omega (arith, here), omega (arith, here), ap (λ p. (s.inode p).ref) here ∙ free)
      ]
    ];
    full = λ e z.
        let (none_yet, rest) = t.full e z in
        elim (next_empty_cases ip empty) [
          | inl (new, _, _) ↦ absurd (omega (arith, new, none_yet, low))
          | inr (keep, in_use) ↦
              let start : empty ≡ 0 = sym keep ∙ none_yet in
              (
                start,
                λ p h1 h2. elim (Bool-cases (p == ip)) [
                  | inl here ↦ λ z'.
                      in_use start (ap (λ a. (s.inode a).ref) (sym ((==_iff p ip).0 here)) ∙ z')
                  | inr far ↦ rest p (ground arith) (omega (arith, h2))
                ],
              )
        ];
  }

  pub iget_loop-IsFound :
      (rounds ip : ℕ) (empty : Ptr)
      → 1 ≤ ip
      → IsFound ip rounds empty (iget_loop rounds ip dev inum empty s)
  unfolding iget_loop
  iget_loop-IsFound zero ip empty low = record {
    hit = ground arith;
    miss = λ e p h1 h2. absurd (omega (arith, h1, h2));
    fresh = λ e ne. inl refl;
    full = λ e z. (z, λ p h1 h2. absurd (omega (arith, h1, h2)));
  }
  iget_loop-IsFound (suc rounds) ip empty low = elim (Bool-cases (holds dev inum (s.inode ip))) [
    | inl e ↦ rw e (record {
      hit = λ _. (omega arith, omega arith, e);
      miss = ground arith;
      fresh = ground arith;
      full = ground arith;
    })
    | inr e ↦ rw e (
        IsFound-round ip rounds empty _ low e
          (iget_loop-IsFound rounds (ip + 1) (next_empty ip empty) (omega arith)))
  ]

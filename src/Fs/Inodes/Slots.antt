-- ===== src/Fs/Inodes/Slots.antt =====
-- The slots of the inode cache: iget of fs/fs.c.
use lxos.Base.{
  ℕ, ◌+◌, ◌%◌, ◌^◌, ◌≡◌, ◌≢◌, ◌⊎◌, inl, inr, refl, sym, ◌∙◌, ap, true, false, none, some, ◌==◌,
  arith, Bool-cases, ==_iff,
}
use lxos.Fs.Volume.{Volume}
use lxos.Fs.Inodes.{ninode, set_inode, positive, idup, iget_loop, iget}
use lxos.Fs.Inodes.Search.{IsSlot, holds, IsUnique, iget_loop-IsFound}

-- What iget does with the cache: `p` is the slot that it returns.
pub record Got (dev inum p : ℕ) (s s' : Volume) : Type 0 where
  pub slot : IsSlot p
  pub named : ((s'.inode p).dev ≡ dev) × ((s'.inode p).inum ≡ inum)
  -- a slot that held the inode has one user more and keeps the rest; or no slot held it, and the
  -- slot was empty
  pub outcome :
      ((holds dev inum (s.inode p) ≡ true)
        × (s'.inode p ≡ record (s.inode p) { ref = ((s.inode p).ref + 1) % 2 ^ 32 }))
      ⊎ (((q : ℕ) → IsSlot q → holds dev inum (s.inode q) ≡ false)
          × ((s.inode p).ref ≡ 0)
          × ((s'.inode p).ref ≡ 1)
          × ((s'.inode p).valid ≡ false))
  pub others : (q : ℕ) → q ≢ p → s'.inode q ≡ s.inode q
  pub blocks : s'.block ≡ s.block
  pub unique : IsUnique s'

-- A change of one slot keeps the inodes apart if no other slot holds what that slot is for.
IsUnique-change :
    (s s' : Volume) (p : ℕ)
    → ((q : ℕ) → q ≢ p → s'.inode q ≡ s.inode q)
    → ((q : ℕ) → IsSlot q → q ≢ p → holds (s'.inode p).dev (s'.inode p).inum (s.inode q) ≡ false)
    → IsUnique s
    → IsUnique s'
IsUnique-change s s' p others apart unique a b slot_a slot_b in_use same =
    elim (Bool-cases (a == p)) [
      | inl at_a ↦ elim (Bool-cases (b == p)) [
        | inl at_b ↦ (==_iff a p).0 at_a ∙ sym ((==_iff b p).0 at_b)
        | inr off_b ↦
            let ne : b ≢ p = ground arith in
            let here : s'.inode a ≡ s'.inode p = ap s'.inode ((==_iff a p).0 at_a) in
            let h = apart b slot_b ne in
            let in_use' : positive (s.inode b).ref ≡ true = rw (← others b ne) in_use in
            let same' : holds (s.inode b).dev (s.inode b).inum (s'.inode p) ≡ true =
              rw (← others b ne, ← here) same in
            absurd (ground arith)
      ]
      | inr off_a ↦
          let ne : a ≢ p = ground arith in
          let same' : holds (s'.inode b).dev (s'.inode b).inum (s.inode a) ≡ true =
            rw (← others a ne) same in
          elim (Bool-cases (b == p)) [
            | inl at_b ↦
                let here : s'.inode b ≡ s'.inode p = ap s'.inode ((==_iff b p).0 at_b) in
                let h = apart a slot_a ne in
                let same'' : holds (s'.inode p).dev (s'.inode p).inum (s.inode a) ≡ true =
                  rw (← here) same' in
                absurd (ground arith)
            | inr off_b ↦
                let ne' : b ≢ p = ground arith in
                unique a b slot_a slot_b (rw (← others b ne') in_use) (rw (← others b ne') same')
          ]
    ]

idup-Got :
    (dev inum p : ℕ) (s : Volume)
    → IsSlot p
    → holds dev inum (s.inode p) ≡ true
    → IsUnique s
    → Got dev inum p s (idup p s)
unfolding idup
idup-Got dev inum p s slot e h = record {
  slot = slot;
  named = ground arith;
  outcome = inl (e, ground arith);
  others = ground arith;
  blocks = refl;
  unique =
      IsUnique-change s (idup p s) p (ground arith)
        (λ q slot_q ne. elim (Bool-cases (holds dev inum (s.inode q))) [
          | inl twice ↦ absurd (ne (h q p slot_q slot (ground arith) (ground arith)))
          | inr f ↦ ground arith
        ])
        h;
}

abbrev filled : (dev inum p : ℕ) → Volume → Volume
filled dev inum p s =
    set_inode p (record (s.inode p) { dev = dev; inum = inum; ref = 1; valid = false }) s

fill-Got :
    (dev inum p : ℕ) (s : Volume)
    → IsSlot p
    → (s.inode p).ref ≡ 0
    → ((q : ℕ) → IsSlot q → holds dev inum (s.inode q) ≡ false)
    → IsUnique s
    → Got dev inum p s (filled dev inum p s)
fill-Got dev inum p s slot free absent h =
    let here : (filled dev inum p s).inode p
        ≡ record (s.inode p) { dev = dev; inum = inum; ref = 1; valid = false } =
      ground arith in
    record {
      slot = slot;
      named = rw here (refl, refl);
      outcome = inr (absent, free, ap (λ v. v.ref) here, ap (λ v. v.valid) here);
      others = ground arith;
      blocks = refl;
      unique =
          IsUnique-change s (filled dev inum p s) p (ground arith)
            (λ q slot_q ne. rw here (absent q slot_q)) h;
    }

-- With one slot at most in use for each inode, iget returns the slot that holds the inode, with
-- one user more, or else fills an empty slot; no other slot and no block changes, and there is
-- one slot at most for each inode again. It fails only if all the slots are in use and none of
-- them holds the inode.
pub iget-Got :
    (dev inum : ℕ) (s : Volume)
    → IsUnique s
    → ((p : ℕ) × (s' : Volume) × (iget dev inum s ≡ some (p, s')) × Got dev inum p s s')
      ⊎ ((iget dev inum s ≡ none)
          × ((p : ℕ) → IsSlot p → ((s.inode p).ref ≢ 0) × (holds dev inum (s.inode p) ≡ false)))
unfolding iget
iget-Got dev inum s h =
    let t = iget_loop-IsFound dev inum s ninode 1 0 (omega arith) in
    let p = (iget_loop ninode 1 dev inum 0 s).1 in
    elim (Bool-cases (iget_loop ninode 1 dev inum 0 s).0) [
      | inl e ↦
          let (low, high, held) = t.hit e in
          inl (p, idup p s, rw e refl, idup-Got dev inum p s (low, omega (arith, high)) held h)
      | inr e ↦
          let absent : (q : ℕ) → IsSlot q → holds dev inum (s.inode q) ≡ false =
            λ q slot. t.miss e q slot.0 (omega (arith, slot.1)) in
          elim (Bool-cases (p == 0)) [
            | inl z ↦
                let (_, in_use) = t.full e ((==_iff p 0).0 z) in
                inr (
                  rw (e, z) refl,
                  λ q slot. (in_use q slot.0 (omega (arith, slot.1)), absent q slot),
                )
            | inr nz ↦ elim (t.fresh e (ground arith)) [
              | inl never ↦ absurd (ground arith)
              | inr (low, high, free) ↦ inl (
                p,
                filled dev inum p s,
                rw (e, nz) refl,
                fill-Got dev inum p s (low, omega (arith, high)) free absent h,
              )
            ]
          ]
    ]

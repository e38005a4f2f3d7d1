-- ===== src/Kernel/Vm/Copying.antt =====
-- copyout of kernel/vm.c, over the pages of a user.
use lxos.Base.{
  ℕ, zero, suc, ◌+◌, ◌-◌, ◌*◌, ◌/◌, ◌%◌, ◌^◌, ◌≡◌, ◌≢◌, ◌<◌, ◌≤◌, ◌⊎◌, inl, inr, true, false, some,
  ltb, ◌==◌, arith, Bool-cases, refl, ◌∙◌, sym, ap, if◌then◌else◌,
}
use mathlib.Core.Path.{subst}
use lxos.Libc.Memory.{Ptr, Memory, memmove, within}
use lxos.Libc.Memory.Block.{memmove_lem}
use lxos.Kernel.Kalloc.{pgsize, pg_round_down}
use lxos.Kernel.Vm.User.{uva2ka, copyout_loop, copyout}

-- `a` lies in none of the frames of the pages from `first` to before `last`
abbrev pub IsClear : (frame : ℕ → Ptr) → (first last : ℕ) → Ptr → Type 0
IsClear frame first last a = (j : ℕ) → first ≤ j → j < last → (a < frame j) ⊎ (frame j + 4096 ≤ a)

-- The pages from `first` to before `last` are the user's, in frames that do not overlap and that
-- hold no part of the page tables: a store to the frames does not change where the pages are.
pub record IsOpen (pgdir : Ptr) (m : Memory) (frame : ℕ → Ptr) (first last : ℕ) : Type 0 where
  pub there :
      (m' : Memory) (j : ℕ)
      → ((a : Ptr) → IsClear frame first last a → m' a ≡ m a)
      → first ≤ j
      → j < last
      → uva2ka pgdir (j * 4096) m' ≡ some (frame j)
  pub ne_null : (j : ℕ) → first ≤ j → j < last → frame j ≢ 0
  pub apart :
      (i j : ℕ)
      → first ≤ i
      → i < last
      → first ≤ j
      → j < last
      → i ≢ j
      → (frame i + 4096 ≤ frame j) ⊎ (frame j + 4096 ≤ frame i)

-- where the kernel finds the user's byte `va`
abbrev pub place : (frame : ℕ → Ptr) → (va : Ptr) → Ptr
place frame va = frame (va / 4096) + va % 4096

-- `m'` is `m0` after a copy of the bytes of `m` at `p` to the user's bytes from `va` on.
pub record Copied (frame : ℕ → Ptr) (va p len : ℕ) (m m0 m' : Memory) : Type 0 where
  pub bytes : (i : ℕ) → i < len → m' (place frame (va + i)) ≡ m (p + i)
  pub others : (a : Ptr) → ((i : ℕ) → i < len → a ≢ place frame (va + i)) → m' a ≡ m0 a

-- within a page the places follow each other
place-add :
    (frame : ℕ → Ptr) (va i : ℕ) → va % 4096 + i < 4096 → place frame (va + i) ≡ place frame va + i
place-add frame va i lt =
    let q : (va + i) / 4096 ≡ va / 4096 = omega (arith, lt) in
    let r : (va + i) % 4096 ≡ va % 4096 + i = omega (arith, lt) in rw (q, r) (omega arith)

module _ (pgdir : Ptr) (m : Memory) (frame : ℕ → Ptr) (first last : ℕ) where
  module _ (h : IsOpen pgdir m frame first last) where
    -- two bytes of the user stand at two places
    place_ne :
        (u v : ℕ) → u < v → first ≤ u / 4096 → v / 4096 < last → place frame u ≢ place frame v
    place_ne u v lt low high e = elim (Bool-cases (u / 4096 == v / 4096)) [
      | inl same ↦
          let q : u / 4096 ≡ v / 4096 = ground arith in
          let f : frame (u / 4096) ≡ frame (v / 4096) = ap frame q in omega (arith, e, f, q, lt)
      | inr diff ↦ ground (
        arith,
        h.apart (u / 4096) (v / 4096) low (omega (arith, lt, high)) (omega (arith, low, lt)) high,
      )
    ]

    -- a round of `n` bytes in the page of `va`, and the rest behind it
    Copied-step :
        (va p n len : ℕ) (m0 m' : Memory)
        → va % 4096 + n ≤ 4096
        → n ≤ len
        → first ≤ va / 4096
        → va + len ≤ last * 4096
        → ((i : ℕ) → i < len → m0 (p + i) ≡ m (p + i))
        → Copied frame (va + n) (p + n) (len - n) m (memmove (place frame va) p n m0) m'
        → Copied frame va p len m m0 m'
    Copied-step va p n len m0 m' fits le low high kept c = record {
      bytes = λ i lt. elim (Bool-cases (ltb i n)) [
        | inl near ↦
            let near' : i < n = ground arith in
            let here = place-add frame va i (omega (arith, near', fits)) in
            let there : within (place frame va) n (place frame (va + i)) ≡ true = ground arith in
            let offset : place frame (va + i) - place frame va ≡ i = omega (arith, here) in
            c.others (place frame (va + i)) (λ k ltk.
              place_ne (va + i) (va + n + k) (omega (arith, near')) (omega (arith, low))
                (omega (arith, ltk, high, le)))
            ∙ memmove_lem (place frame va) p n m0 (place frame (va + i))
            ∙ rw (there, offset) (kept i lt)
        | inr far ↦
            let sum : va + n + (i - n) ≡ va + i = ground arith in
            let source : p + n + (i - n) ≡ p + i = ground arith in
            let moved = c.bytes (i - n) (ground arith) in
            ap (λ v. m' (place frame v)) (sym sum) ∙ moved ∙ ap m source
      ];
      others = λ a far.
          let out : within (place frame va) n a ≡ false =
            elim (Bool-cases (within (place frame va) n a)) [
              | inr e ↦ e
              | inl e ↦
                  let i = a - place frame va in
                  let lt : i < n = ground arith in
                  let sum : a ≡ place frame va + i = ground arith in
                  absurd (
                    far i (omega (arith, lt, le))
                      (sum ∙ sym (place-add frame va i (omega (arith, lt, fits)))))
            ] in
          c.others a
            (λ k ltk e. far (n + k) (omega (arith, ltk, le)) (e ∙ ap (place frame) (omega arith)))
          ∙ memmove_lem (place frame va) p n m0 a
          ∙ rw out refl;
    }

    -- the memory that the copy starts from, after some rounds
    abbrev Kept : (p len : ℕ) → Memory → Type 0
    Kept p len m0 =
        ((a : Ptr) → IsClear frame first last a → m0 a ≡ m a)
        × ((i : ℕ) → i < len → IsClear frame first last (p + i))

    Kept-memmove :
        (va p n len : ℕ) (m0 : Memory)
        → va % 4096 + n ≤ 4096
        → first ≤ va / 4096
        → va / 4096 < last
        → n ≤ len
        → Kept p len m0
        → Kept (p + n) (len - n) (memmove (place frame va) p n m0)
    Kept-memmove va p n len m0 fits low high le k = (
      λ a clear.
          let outside = clear (va / 4096) low high in
          let out : within (place frame va) n a ≡ false = ground arith in
          memmove_lem (place frame va) p n m0 a ∙ rw out (k.0 a clear),
      λ i lt.
          let sum : p + (n + i) ≡ p + n + i = omega arith in
          subst (λ q. IsClear frame first last q) sum (k.1 (n + i) (omega (arith, lt, le))),
    )

    -- what a round does for a page of the user's
    round_lem :
        (rounds va p len : ℕ) (m0 : Memory)
        → len ≢ 0
        → first ≤ va / 4096
        → va + len ≤ last * 4096
        → Kept p len m0
        → copyout_loop (suc rounds) pgdir va p len m0 ≡ (
            let o = va - pg_round_down va in
            let n = if ltb len (pgsize - o) then len else pgsize - o in
            copyout_loop rounds pgdir
              ((pg_round_down va + pgsize) % 2 ^ 32)
              (p + n)
              (len - n)
              (memmove (frame (va / 4096) + o) p n m0))
    unfolding copyout_loop pg_round_down
    round_lem rounds va p len m0 ne low high k =
        let found = h.there m0 (va / 4096) k.0 low (omega (arith, high, ne)) in
        let some_byte : (len == 0) ≡ false = ground arith in
        let some_page : (frame (va / 4096) == 0) ≡ false =
          ground (arith, h.ne_null (va / 4096) low (omega (arith, high, ne))) in
        rw (copyout_loop, some_byte, found, some_page) refl

    -- a round that fills the page of `va`
    round_full :
        (rounds va p len : ℕ) (m0 : Memory)
        → 4096 - va % 4096 ≤ len
        → first ≤ va / 4096
        → va + len ≤ last * 4096
        → last * 4096 < 4294967296
        → Kept p len m0
        → copyout_loop (suc rounds) pgdir va p len m0 ≡ (
            let n = 4096 - va % 4096 in
            copyout_loop rounds pgdir (va + n) (p + n) (len - n) (memmove (place frame va) p n m0))
    unfolding pg_round_down
    round_full rounds va p len m0 full low high top k =
        let o : va - va / 4096 * 4096 ≡ va % 4096 = omega arith in
        let e : ltb len (4096 - va % 4096) ≡ false = ground arith in
        let next : (va / 4096 * 4096 + 4096) % 4294967296 ≡ va + (4096 - va % 4096) =
          ground arith in
        round_lem rounds va p len m0 (ground arith) low high k ∙ rw (o, e, next) refl

    copyout_done :
        (rounds va p : ℕ) (m0 : Memory) → copyout_loop (suc rounds) pgdir va p 0 m0 ≡ some (0, m0)
    unfolding copyout_loop
    copyout_done rounds va p m0 = refl

    copyout_ended :
        (rounds va p : ℕ) (m0 : Memory)
        → 0 < rounds
        → copyout_loop rounds pgdir va p 0 m0 ≡ some (0, m0)
    copyout_ended zero va p m0 lt = absurd (omega arith)
    copyout_ended (suc rounds) va p m0 lt = copyout_done rounds va p m0

    copyout_loop-Copied :
        (rounds va p len : ℕ) (m0 : Memory)
        → 0 < rounds
        → (va % 4096 + len + 4095) / 4096 < rounds
        → first ≤ va / 4096
        → va + len ≤ last * 4096
        → last * 4096 < 4294967296
        → Kept p len m0
        → (m' : Memory) × (copyout_loop rounds pgdir va p len m0 ≡ some (0, m'))
          × Copied frame va p len m m0 m'
    unfolding pg_round_down
    copyout_loop-Copied zero va p len m0 r1 r2 low high top k = absurd (omega arith)
    copyout_loop-Copied (suc rounds) va p zero m0 r1 r2 low high top k = (
      m0,
      copyout_done rounds va p m0,
      record { bytes = λ i lt. absurd (omega (arith, lt)); others = λ a far. refl },
    )
    copyout_loop-Copied (suc rounds) va p (suc l) m0 r1 r2 low high top k =
        let len = suc l in
        let o : va - va / 4096 * 4096 ≡ va % 4096 = omega arith in
        let step = round_lem rounds va p len m0 (λ e. cc) low high k in
        elim (Bool-cases (ltb len (4096 - va % 4096))) [
          | inl e ↦
              (let m' = memmove (place frame va) p len m0 in
                let nothing : len - len ≡ 0 = omega arith in
                let v' = (pg_round_down va + pgsize) % 2 ^ 32 in
                (
                  m',
                  step ∙ rw (o, e, nothing) (copyout_ended rounds v' (p + len) m' (ground arith)),
                  Copied-step va p len len m0 m' (ground arith) (omega arith) low high
                      (λ i lt. k.0 (p + i) (k.1 i lt))
                      (record {
                        bytes = λ i lt. absurd (omega (arith, lt));
                        others = λ a far. refl;
                      }),
                ))
          | inr e ↦
              let n = 4096 - va % 4096 in
              let (m', run, c) =
                copyout_loop-Copied rounds (va + n) (p + n) (len - n)
                  (memmove (place frame va) p n m0) (ground arith) (ground arith)
                  (omega (arith, low)) (ground arith) top
                  (Kept-memmove va p n len m0 (omega arith) low (omega (arith, high)) (ground arith)
                    k) in
              (
                m',
                round_full rounds va p len m0 (ground arith) low high top k ∙ run,
                Copied-step va p n len m0 m' (omega arith) (ground arith) low high
                    (λ i lt. k.0 (p + i) (k.1 i lt)) c,
              )
        ]

-- copyout to a range of the user's pages returns 0, behind which every byte of the range, found
-- through the page tables, is the byte that stood in the kernel's buffer before the call, and no
-- other byte of memory has changed. The range lies in pages `first` to `last` of the user, below the
-- last address; their frames do not overlap each other, the page tables or the buffer.
pub copyout-Copied :
    (pgdir : Ptr) (m : Memory) (frame : ℕ → Ptr) (first last va p len : ℕ)
    → IsOpen pgdir m frame first last
    → first ≤ va / 4096
    → va + len ≤ last * 4096
    → last * 4096 < 4294967296
    → ((i : ℕ) → i < len → IsClear frame first last (p + i))
    → (m' : Memory) × (copyout pgdir va p len m ≡ some (0, m')) × Copied frame va p len m m m'
unfolding copyout
copyout-Copied pgdir m frame first last va p len h low high top clear =
    copyout_loop-Copied pgdir m frame first last h (len / 4096 + 3) va p len m (omega arith)
      (omega arith) low high top (λ a _. refl, clear)

-- ===== src/Utils/Mkfs/Appending.antt =====
-- iappend of utils/mkfs.c: its loop, and the size of the file.
use lxos.Base.{
  ℕ, zero, suc, ◌+◌, ◌-◌, ◌*◌, ◌/◌, ◌≡◌, ◌<◌, ◌≤◌, inl, inr, refl, ◌∙◌, ap, Bool, true, false, some,
  ltb, ◌==◌, if◌then◌else◌, arith, Bool-cases,
}
use lxos.Libc.Memory.{put32, get32, within}
use lxos.Libc.Memory.Block.{get32-put32, get32-same}
use lxos.Drivers.Device.{Data}
use lxos.Fs.Volume.{bsize}
use lxos.Fs.Inodes.{iblock, dip, dinode_size, ndirect}
use lxos.Fs.Content.{min}
use lxos.Utils.Mkfs.{
  Image, xint, fill_slot, wsect, rsect, winode, rinode, indirect_slot, pick_block, iappend_loop,
  iappend, copy_to, addr_at, maxfile,
}

-- on a little-endian host the conversion changes nothing
pub xint_lem : (x : ℕ) → x < 4294967296 → xint x ≡ x
xint_lem x h = omega (arith, h)

-- the image may grow, and its layout stays
pub record Grown (s s' : Image) : Type 0 where
  pub sb : s'.sb ≡ s.sb
  pub freeblock : s.freeblock ≤ s'.freeblock

Grown-trans : (s t u : Image) → Grown s t → Grown t u → Grown s u
Grown-trans s t u g h = record {
  sb = h.sb ∙ g.sb;
  freeblock = omega (arith, g.freeblock, h.freeblock);
}

fill_slot-Grown : (x : Data) (o : ℕ) (s : Image) → Grown s (fill_slot x o s).1
unfolding fill_slot
fill_slot-Grown x o s = elim (Bool-cases (xint (get32 x o) == 0)) [
  | inl e ↦ rw e (record { sb = refl; freeblock = omega arith })
  | inr e ↦ rw e (record { sb = refl; freeblock = omega arith })
]

module _ (fails : ℕ → Bool) (works : (sec : ℕ) → fails sec ≡ false) where
  abbrev written : ℕ → Data → Image → Image
  written sec x s = record s { sector = (λ k. if k == sec then x else s.sector k) }

  wsect-works : (sec : ℕ) (x : Data) (s : Image) → wsect fails sec x s ≡ some (written sec x s)
  unfolding wsect
  wsect-works sec x s = rw (works sec) refl

  rsect-works : (sec : ℕ) (s : Image) → rsect fails sec s ≡ some (s.sector sec)
  unfolding rsect
  rsect-works sec s = rw (works sec) refl

  indirect_slot-Grown :
      (sec k : ℕ) (s : Image)
      → (x : ℕ) × (s' : Image) × (indirect_slot fails sec k s ≡ some (x, s')) × Grown s s'
  unfolding indirect_slot get32 fill_slot
  indirect_slot-Grown sec k s =
      let block = s.sector sec in
      let (y, s1) = fill_slot block (4 * k) s in
      elim (Bool-cases (get32 block (4 * k) == 0)) [
        | inr e ↦ (
          xint (get32 block (4 * k)),
          s,
          rw (indirect_slot, rsect-works sec s, e) refl,
          record { sb = refl; freeblock = omega arith },
        )
        | inl e ↦ (
          xint (get32 y (4 * k)),
          written sec y s1,
          rw (indirect_slot, rsect-works sec s, e, wsect-works sec y s1) refl,
          record {
            sb = (fill_slot-Grown block (4 * k) s).sb;
            freeblock = (fill_slot-Grown block (4 * k) s).freeblock;
          },
        )
      ]

  pick_block-Grown :
      (din : Data) (fbn : ℕ) (s : Image)
      → (x : ℕ) × (din' : Data) × (s' : Image) × (pick_block fails din fbn s ≡ some (x, din', s'))
        × Grown s s'
  unfolding pick_block
  pick_block-Grown din fbn s = elim (Bool-cases (ltb fbn ndirect)) [
    | inl e ↦
        let (din1, s1) = fill_slot din (addr_at fbn) s in
        (
          xint (get32 din1 (addr_at fbn)),
          din1,
          s1,
          rw (pick_block, e) refl,
          fill_slot-Grown din (addr_at fbn) s,
        )
    | inr e ↦
        let (din1, s1) = fill_slot din (addr_at ndirect) s in
        let (x, s2, found, g) =
          indirect_slot-Grown (xint (get32 din1 (addr_at ndirect))) (fbn - ndirect) s1 in
        (
          x,
          din1,
          s2,
          rw (pick_block, e, found) refl,
          Grown-trans s s1 s2 (fill_slot-Grown din (addr_at ndirect) s) g,
        )
  ]

  -- the number of bytes of a round
  abbrev round_size : (off n : ℕ) → ℕ
  round_size off n = min n ((off / bsize + 1) * bsize - off)

  iappend_round :
      (rounds : ℕ) (din din1 : Data) (off k : ℕ) (src : Data) (p x : ℕ) (s s1 : Image)
      → off / bsize < 140
      → pick_block fails din (off / bsize) s ≡ some (x, din1, s1)
      → iappend_loop fails (suc rounds) din off (suc k) src p s ≡ (
          let n1 = round_size off (suc k) in
          iappend_loop fails rounds din1
            (off + n1)
            (suc k - n1)
            src
            (p + n1)
            (written x (copy_to (s1.sector x) (off - off / bsize * bsize) n1 src p) s1))
  unfolding iappend_loop
  iappend_round rounds din din1 off k src p x s s1 lt picked =
      let inside : ltb (off / bsize) maxfile ≡ true = ground arith in
      let some_byte : (suc k == 0) ≡ false = ground arith in
      rw (iappend_loop, some_byte, inside, picked, rsect-works x s1, wsect-works x _ s1) refl

  iappend_loop-Grown :
      (rounds : ℕ) (din : Data) (off n : ℕ) (src : Data) (p : ℕ) (s : Image)
      → n ≤ rounds
      → off + n ≤ 71680
      → (din' : Data) × (end : ℕ) × (s' : Image) × (iappend_loop fails rounds din off n src p s
          ≡ some (din', end, s'))
        × (end ≡ off + n)
        × Grown s s'
  iappend_loop-Grown zero din off zero src p s le small = (
    din,
    off,
    s,
    unfold iappend_loop in refl,
    omega arith,
    record { sb = refl; freeblock = omega arith },
  )
  iappend_loop-Grown zero din off (suc k) src p s le small = absurd (omega arith)
  iappend_loop-Grown (suc rounds) din off zero src p s le small = (
    din,
    off,
    s,
    unfold iappend_loop in refl,
    omega arith,
    record { sb = refl; freeblock = omega arith },
  )
  iappend_loop-Grown (suc rounds) din off (suc k) src p s le small =
      let n1 = round_size off (suc k) in
      let (x, din1, s1, picked, g) = pick_block-Grown din (off / bsize) s in
      let s2 = written x (copy_to (s1.sector x) (off - off / bsize * bsize) n1 src p) s1 in
      let (din', end, s', rest, sum, h) =
        iappend_loop-Grown rounds din1 (off + n1) (suc k - n1) src (p + n1) s2 (ground arith)
          (ground arith) in
      (
        din',
        end,
        s',
        iappend_round rounds din din1 off k src p x s s1 (omega arith) picked ∙ rest,
        ground (arith, sum),
        record { sb = h.sb ∙ g.sb; freeblock = omega (arith, g.freeblock, h.freeblock) },
      )

-- the size of an inode in the image
abbrev pub size_of : (inum : ℕ) → Image → ℕ
size_of inum s = get32 (λ i. s.sector (iblock inum s.sb) (dip inum + i)) 8

-- the image of an inode that winode has written
copied_inode : (x ip : Data) (o i : ℕ) → i < 64 → copy_to x o dinode_size ip 0 (o + i) ≡ ip i
copied_inode x ip o i lt =
    let there : within o dinode_size (o + i) ≡ true = ground arith in
    let offset : 0 + (o + i - o) ≡ i = omega arith in rw (there, offset) refl

module _ (fails : ℕ → Bool) (works : (sec : ℕ) → fails sec ≡ false) (inum : ℕ) where
  -- the image behind winode
  abbrev with_inode : (ip : Data) → Image → Image
  with_inode ip s =
      written fails works (iblock inum s.sb)
        (copy_to (s.sector (iblock inum s.sb)) (dip inum) dinode_size ip 0) s

  winode-works : (ip : Data) (s : Image) → winode fails inum ip s ≡ some (with_inode ip s)
  unfolding winode
  winode-works ip s =
      rw
        (
          winode,
          rsect-works fails works (iblock inum s.sb) s,
          wsect-works fails works (iblock inum s.sb) _ s,
        )
        refl

  rinode-works :
      (s : Image) → rinode fails inum s ≡ some (λ i. s.sector (iblock inum s.sb) (dip inum + i))
  unfolding rinode
  rinode-works s = rw (rinode, rsect-works fails works (iblock inum s.sb) s) refl

  with_inode-size : (ip : Data) (s : Image) → size_of inum (with_inode ip s) ≡ get32 ip 8
  with_inode-size ip s =
      let here : (iblock inum s.sb == iblock inum s.sb) ≡ true = ground arith in
      rw here (
        get32-same _ ip 8 (λ a low high.
          copied_inode (s.sector (iblock inum s.sb)) ip (dip inum) a (omega (arith, high))))

  iappend_runs :
      (n end : ℕ) (src din din' : Data) (s s1 : Image)
      → rinode fails inum s ≡ some din
      → iappend_loop fails n din (xint (get32 din 8)) n src 0 s ≡ some (din', end, s1)
      → iappend fails inum src n s ≡ some (with_inode (put32 din' 8 (xint end)) s1)
  unfolding iappend
  iappend_runs n end src din din' s s1 found run =
      rw (iappend, found, run) (winode-works (put32 din' 8 (xint end)) s1)

-- iappend, when the host reads and writes every sector and the file stays within MAXFILE blocks,
-- ends after at most a round for each byte, without a failed assertion: the size of the inode in
-- the image grows by `n`, the first free block does not decrease, and the layout stays.
pub iappend-size :
    (fails : ℕ → Bool) (inum n : ℕ) (src : Data) (s : Image)
    → ((sec : ℕ) → fails sec ≡ false)
    → size_of inum s + n ≤ 71680
    → (s' : Image) × (iappend fails inum src n s ≡ some s')
      × (size_of inum s' ≡ size_of inum s + n)
      × Grown s s'
iappend-size fails inum n src s works small =
    let din : Data = λ i. s.sector (iblock inum s.sb) (dip inum + i) in
    let known : xint (get32 din 8) ≡ size_of inum s =
      xint_lem (get32 din 8) (omega (arith, small)) in
    let (din', end, s1, run, sum, g) =
      iappend_loop-Grown fails works n din (xint (get32 din 8)) n src 0 s (omega arith)
        (ground (arith, known)) in
    let total : end ≡ size_of inum s + n = sum ∙ ap (λ k. k + n) known in
    let word : end < 4294967296 = omega (arith, total, small) in
    (
      with_inode fails works inum (put32 din' 8 (xint end)) s1,
      iappend_runs fails works inum n end src din din' s s1 (rinode-works fails works inum s) run,
      with_inode-size fails works inum (put32 din' 8 (xint end)) s1
          ∙ get32-put32 din' 8 (xint end) (omega (arith, xint_lem end word, word))
          ∙ xint_lem end word
          ∙ total,
      record { sb = g.sb; freeblock = g.freeblock },
    )

-- ===== src/Fs/Volume/Allocation.antt =====
-- balloc and bfree of fs/fs.c and the blocks of the volume.
use lxos.Base.{
  ℕ, ◌+◌, ◌-◌, ◌/◌, ◌%◌, ◌^◌, ◌≡◌, ◌≢◌, ◌<◌, ◌⊎◌, inl, inr, refl, sym, ◌∙◌, ap, true, ◌==◌,
  if◌then◌else◌, arith, Bool-cases, ==_iff,
}
use lxos.Base.Bits.{bit-clear, bit-set-other}
use lxos.Libc.Memory.{put, memset}
use lxos.Libc.Memory.Block.{memset_lem}
use lxos.Drivers.Device.{Data}
use lxos.Fs.Volume.{
  Volume, bsize, bpb, minus_one, bblock, store, readsb, bzero, bit, set_bit, clear_bit, balloc,
  bfree,
}
use lxos.Fs.Volume.Bitmap.{used, taken, balloc_loop-IsChoice, bit-set_bit, bit-set_bit-other}

-- The blocks of the bitmap are themselves in use.
abbrev pub IsMapped : ℕ → Volume → Type 0
IsMapped dev s = (b : ℕ) → b < s.sb.size → used s dev (bblock b s.sb) ≢ 0

-- `s'` is `s` with the free block `a` taken: it is marked and cleared, and nothing else changes.
pub record Allocated (dev a : ℕ) (s s' : Volume) : Type 0 where
  pub inside : a < s.sb.size
  pub was_free : used s dev a ≡ 0
  pub first : (c : ℕ) → c < a → used s dev c ≢ 0
  pub marked : used s' dev a ≡ 1
  pub others : (c : ℕ) → c < s.sb.size → c ≢ a → used s' dev c ≡ used s dev c
  pub cleared : (i : ℕ) → i < bsize → s'.block dev a i ≡ 0
  pub blocks : (b : ℕ) → b ≢ a → b ≢ bblock a s.sb → s'.block dev b ≡ s.block dev b
  pub same_sb : s'.sb ≡ s.sb
  pub same_inode : s'.inode ≡ s.inode

store-block :
    (dev bno : ℕ) (x : Data) (s : Volume) (b : ℕ)
    → (store dev bno x s).block dev b ≡ (if b == bno then x else s.block dev b)
unfolding store
store-block dev bno x s b = ground arith

module _ (dev a : ℕ) (s : Volume) where
  taken-block :
      (b : ℕ)
      → b ≢ a
      → (taken dev a s).block dev b ≡ (
          if b == bblock a s.sb
          then set_bit (s.block dev (bblock a s.sb)) (a % bpb)
          else s.block dev b)
  unfolding bzero store
  taken-block b ne = ground arith

  taken-used :
      (c : ℕ)
      → bblock c s.sb ≢ a
      → used (taken dev a s) dev c
        ≡ bit
            (if bblock c s.sb == bblock a s.sb
              then set_bit (s.block dev (bblock a s.sb)) (a % bpb)
              else s.block dev (bblock c s.sb))
            (c % bpb)
  unfolding bzero store
  taken-used c ne = ap (λ x. bit x (c % bpb)) (taken-block (bblock c s.sb) ne)

  taken-marked : bblock a s.sb ≢ a → used s dev a ≡ 0 → used (taken dev a s) dev a ≡ 1
  taken-marked ne free =
      let here : (bblock a s.sb == bblock a s.sb) ≡ true = (==_iff _ _).1 refl in
      taken-used a ne ∙ rw here (bit-set_bit (s.block dev (bblock a s.sb)) (a % bpb) free)

  taken-others :
      (c : ℕ)
      → bblock c s.sb ≢ a
      → used s dev a ≡ 0
      → c ≢ a
      → used (taken dev a s) dev c ≡ used s dev c
  taken-others c ne free apart =
      taken-used c ne ∙ elim (Bool-cases (bblock c s.sb == bblock a s.sb)) [
        | inr far ↦ rw far refl
        | inl near ↦
            let same = (==_iff _ _).0 near in
            let other : c % bpb ≢ a % bpb = λ h. apart (omega (arith, h, same)) in
            rw near (
              bit-set_bit-other (s.block dev (bblock a s.sb)) (a % bpb) (c % bpb) free other
              ∙ ap (λ b. bit (s.block dev b) (c % bpb)) (sym same))
      ]

  abbrev marked_block : Volume
  marked_block = store dev (bblock a s.sb) (set_bit (s.block dev (bblock a s.sb)) (a % bpb)) s

  taken-cleared : (i : ℕ) → i < bsize → (taken dev a s).block dev a i ≡ 0
  unfolding bzero
  taken-cleared i lt =
      let zeroed = store-block dev a (memset 0 0 bsize (marked_block.block dev a)) marked_block a in
      let here : (a == a) ≡ true = (==_iff _ _).1 refl in
      let shown : (taken dev a s).block dev a ≡ memset 0 0 bsize (marked_block.block dev a) =
        zeroed ∙ rw here refl in
      ap (λ x. x i) shown ∙ memset_lem 0 0 bsize (marked_block.block dev a) i ∙ ground arith

  taken-sb : (taken dev a s).sb ≡ s.sb
  unfolding bzero store
  taken-sb = refl

  taken-inode : (taken dev a s).inode ≡ s.inode
  unfolding bzero store
  taken-inode = refl

  taken-Allocated :
      IsMapped dev s
      → a < s.sb.size
      → used s dev a ≡ 0
      → ((c : ℕ) → c < a → used s dev c ≢ 0)
      → Allocated dev a s (taken dev a s)
  taken-Allocated mapped below free first =
      let apart : (c : ℕ) → c < s.sb.size → bblock c s.sb ≢ a =
        λ c lt h. mapped c lt (ap (λ b. used s dev b) h ∙ free) in
      record {
        inside = below;
        was_free = free;
        first = first;
        marked = taken-marked (apart a below) free;
        others = λ c lt ne. taken-others c (apart c lt) free ne;
        cleared = taken-cleared;
        blocks = λ b ne ne'. taken-block b ne ∙ ground arith;
        same_sb = taken-sb;
        same_inode = taken-inode;
      }

-- `s'` is `s` with the block `b` given back: its bit is clear, and nothing else changes.
pub record Freed (dev b : ℕ) (s s' : Volume) : Type 0 where
  pub free : used s' dev b ≡ 0
  pub others : (c : ℕ) → c ≢ b → used s' dev c ≡ used s dev c
  pub blocks : (c : ℕ) → c ≢ bblock b s.sb → s'.block dev c ≡ s.block dev c
  pub same_sb : s'.sb ≡ s.sb

bit-clear_bit : (x : Data) (bi : ℕ) → bit (clear_bit x bi) bi ≡ 0
unfolding put
bit-clear_bit x bi = elim (Bool-cases (bit x bi == 0)) [
  | inl e ↦ ground arith
  | inr e ↦
      let h : bit x bi ≡ 1 = ground arith in
      ground (arith, bit-clear (x (bi / 8)) (bi % 8) (omega arith) h)
]

bit-clear_bit-other : (x : Data) (bi c : ℕ) → c ≢ bi → bit (clear_bit x bi) c ≡ bit x c
unfolding put
bit-clear_bit-other x bi c ne = elim (Bool-cases (bit x bi == 0)) [
  | inl e ↦ ground arith
  | inr e ↦ elim (Bool-cases (c / 8 == bi / 8)) [
    | inr far ↦ ground arith
    | inl near ↦
        let h : bit x bi ≡ 1 = ground arith in
        let same = (==_iff _ _).0 near in
        let apart : c % 8 ≢ bi % 8 = λ k. ne (omega (arith, k, same)) in
        let (clear, sum) = bit-clear (x (bi / 8)) (bi % 8) (omega arith) h in
        let keeps =
          bit-set-other (x (bi / 8) - 2 ^ (bi % 8)) (bi % 8) (omega arith) (c % 8) (omega arith)
            clear apart in
        let back : x (bi / 8) / 2 ^ (c % 8) % 2 ≡ (x (bi / 8) - 2 ^ (bi % 8)) / 2 ^ (c % 8) % 2 =
          ap (λ y. y / 2 ^ (c % 8) % 2) (sym sum) ∙ keeps in
        ground (arith, back, same, h)
  ]
]

-- With its bitmap in use, balloc takes the first free block of the volume, marks it in the bitmap,
-- where no other bit changes, and clears it; no other block changes. If there is no free block, and
-- only then, it returns -1 and the blocks stay.
pub balloc-Allocated :
    (dev : ℕ) (s : Volume)
    → IsMapped dev s
    → Allocated dev (balloc dev s).0 s (balloc dev s).1
      ⊎ (((balloc dev s).0 ≡ minus_one)
          × ((balloc dev s).1.block ≡ s.block)
          × ((c : ℕ) → c < s.sb.size → used s dev c ≢ 0))
unfolding balloc
balloc-Allocated dev s mapped =
    elim (balloc_loop-IsChoice (s.sb.size / bpb + 2) dev 0 s (omega arith) (omega arith)) [
      | inl (e, same, full) ↦ inr (e, ap (λ t. t.block) same, λ c lt. full c (omega arith) lt)
      | inr (_, below, free, first, same) ↦
          inl
            (rw same (taken-Allocated dev _ s mapped below free (λ c lt. first c (omega arith) lt)))
    ]

module _ (dev b : ℕ) (s t : Volume) (same_block : t.block ≡ s.block) (same_sb : t.sb ≡ s.sb) where
  abbrev cleared_block : Data
  cleared_block = clear_bit (s.block dev (bblock b s.sb)) (b % bpb)

  abbrev given_back : Volume
  given_back = store dev (bblock b s.sb) cleared_block t

  given_back-block :
      (c : ℕ)
      → given_back.block dev c ≡ (if c == bblock b s.sb then cleared_block else s.block dev c)
  given_back-block c =
      store-block dev (bblock b s.sb) cleared_block t c
      ∙ ap (λ y. if c == bblock b s.sb then cleared_block else y dev c) same_block

  given_back-used :
      (c : ℕ)
      → used given_back dev c
        ≡ bit
            (if bblock c s.sb == bblock b s.sb then cleared_block else s.block dev (bblock c s.sb))
            (c % bpb)
  unfolding store
  given_back-used c =
      ap (λ y. bit (given_back.block dev (bblock c y)) (c % bpb)) same_sb
      ∙ ap (λ x. bit x (c % bpb)) (given_back-block (bblock c s.sb))

  given_back-others : (c : ℕ) → c ≢ b → used given_back dev c ≡ used s dev c
  given_back-others c apart =
      given_back-used c ∙ elim (Bool-cases (bblock c s.sb == bblock b s.sb)) [
        | inr far ↦ rw far refl
        | inl near ↦
            let same = (==_iff _ _).0 near in
            let other : c % bpb ≢ b % bpb = λ h. apart (omega (arith, h, same)) in
            rw near (
              bit-clear_bit-other (s.block dev (bblock b s.sb)) (b % bpb) (c % bpb) other
              ∙ ap (λ d. bit (s.block dev d) (c % bpb)) (sym same))
      ]

  given_back-Freed : Freed dev b s given_back
  unfolding store
  given_back-Freed =
      let here : (bblock b s.sb == bblock b s.sb) ≡ true = (==_iff _ _).1 refl in
      record {
        free = given_back-used b ∙ rw here (bit-clear_bit (s.block dev (bblock b s.sb)) (b % bpb));
        others = given_back-others;
        blocks = λ c ne. given_back-block c ∙ ground arith;
        same_sb = same_sb;
      }

-- With the superblock in memory equal to that on the disk, bfree clears the block's bit and no
-- other one, and changes no block but that of the bitmap.
pub bfree-Freed : (dev b : ℕ) (s : Volume) → readsb dev s ≡ s.sb → Freed dev b s (bfree dev b s)
unfolding bfree
bfree-Freed dev b s super = elim (Bool-cases (bit (s.block dev (bblock b s.sb)) (b % bpb) == 0)) [
  | inl e ↦ rw (super, e) (given_back-Freed dev b s _ refl refl)
  | inr e ↦ rw (super, e) (given_back-Freed dev b s _ refl refl)
]

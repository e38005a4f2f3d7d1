-- ===== src/Utils/Mkfs/Marking.antt =====
-- balloc of utils/mkfs.c: the bitmap of a new image, as the bits that fs/fs.c reads.
use lxos.Base.{
  ℕ, zero, suc, ◌+◌, ◌*◌, ◌/◌, ◌%◌, ◌^◌, ◌≡◌, ◌≢◌, ◌<◌, ◌≤◌, inl, inr, refl, ◌∙◌, ap, Bool, true,
  false, some, ltb, leb, ◌==◌, ◌&&◌, if◌then◌else◌, arith, Bool-cases, ==_iff, lt→ltb,
}
use native.Mathlib.Nat.{zero-div}
use lxos.Libc.Memory.{put}
use lxos.Drivers.Device.{Data}
use lxos.Fs.Volume.{Superblock, Volume, bit, set_bit, bpb}
use lxos.Fs.Volume.Bitmap.{used, bit-set_bit, bit-set_bit-other}
use lxos.Utils.Mkfs.{Image, or_bit, mark_loop, wsect, balloc, zeroes}

-- marking a clear bit
or_bit-clear : (x : Data) (i : ℕ) → bit x i ≡ 0 → or_bit x i ≡ set_bit x i
or_bit-clear x i e = rw e (ap (λ k. put x (i / 8) (x (i / 8) + k)) one)
  where
    one : 1 * 2 ^ (i % 8) ≡ 2 ^ (i % 8)
    one = omega arith

-- the bits from `i` on are set, the others stay
mark_loop-bit :
    (rounds i b : ℕ) (x : Data)
    → ((j : ℕ) → i ≤ j → bit x j ≡ 0)
    → bit (mark_loop rounds i x) b ≡ (if leb i b && ltb b (i + rounds) then 1 else bit x b)
unfolding mark_loop
mark_loop-bit zero i b x clear = ground arith
mark_loop-bit (suc rounds) i b x clear =
    let next = set_bit x i in
    let none_set : (j : ℕ) → i + 1 ≤ j → bit next j ≡ 0 = λ j low.
      bit-set_bit-other x i j (clear i (omega arith)) (omega (arith, low))
      ∙ clear j (omega (arith, low)) in
    let rest = mark_loop-bit rounds (i + 1) b next none_set in
    rw (or_bit-clear x i (clear i (omega arith))) (elim (Bool-cases (b == i)) [
      | inl e ↦
          let same : b ≡ i = (==_iff b i).0 e in
          let set : bit next b ≡ 1 = ap (bit next) same ∙ bit-set_bit x i (clear i (omega arith)) in
          ground (arith, rest, set)
      | inr e ↦
          let kept : bit next b ≡ bit x b =
            bit-set_bit-other x i b (clear i (omega arith)) (ground arith) in
          ground (arith, rest, kept)
    ])

-- What balloc writes for the first `used` blocks: an image whose bitmap has exactly them in use, as
-- the kernel reads it, and that has changed in no other sector.
pub record Marked (used_blocks : ℕ) (s s' : Image) : Type 0 where
  pub bits :
      (vol : Volume) (dev b : ℕ)
      → vol.sb ≡ s.sb
      → vol.block dev ≡ s'.sector
      → b < bpb
      → used vol dev b ≡ (if ltb b used_blocks then 1 else 0)
  pub others : (sec : ℕ) → sec ≢ s.sb.bmapstart → s'.sector sec ≡ s.sector sec

kernel_view :
    (vol : Volume) (dev b sec : ℕ) (sb : Superblock) (f : ℕ → Data)
    → vol.sb ≡ sb
    → vol.block dev ≡ f
    → 0 + sb.bmapstart ≡ sec
    → b < bpb
    → used vol dev b ≡ bit (f sec) b
kernel_view vol dev b sec sb f same_sb same_block here lt =
    let quotient : b / bpb ≡ 0 = omega arith in
    let remainder : b % bpb ≡ b = omega arith in
    rw (quotient, remainder, same_sb, here) (ap (λ (g : ℕ → Data). bit (g sec) b) same_block)

nothing_set : (j : ℕ) → bit zeroes j ≡ 0
nothing_set j = zero_bit (2 ^ (j % 8))
  where
    zero_bit : (d : ℕ) → 0 / d % 2 ≡ 0
    zero_bit d = ap (λ q. q % 2) (zero-div d)

-- balloc of the image builder marks exactly the first `used_blocks` blocks, for fewer of them than a
-- block has bits, when the host writes the sector: the kernel's bitmap of such a volume has their
-- bits set and the bits of the block's other ones clear. No other sector changes.
pub balloc-Marked :
    (fails : ℕ → Bool) (used_blocks : ℕ) (s : Image)
    → used_blocks < bpb
    → fails s.sb.bmapstart ≡ false
    → (s' : Image) × (balloc fails used_blocks s ≡ some s') × Marked used_blocks s s'
unfolding balloc wsect
balloc-Marked fails used_blocks s lt works =
    let x = mark_loop used_blocks 0 zeroes in
    let here : (s.sb.bmapstart == s.sb.bmapstart) ≡ true = ground arith in
    let low_bits : (b : ℕ)
        → (if leb 0 b && ltb b (0 + used_blocks) then 1 else bit zeroes b)
          ≡ (if ltb b used_blocks then 1 else 0) =
      λ b. ground (arith, nothing_set b) in
    (
      record s { sector = λ k. if k == s.sb.bmapstart then x else s.sector k },
      rw (lt→ltb used_blocks bpb lt, works) refl,
      record {
        bits = λ vol dev b same_sb same_block below.
            kernel_view vol dev b s.sb.bmapstart s.sb _ same_sb same_block (omega arith) below
            ∙ rw here (mark_loop-bit used_blocks 0 b zeroes (λ j _. nothing_set j) ∙ low_bits b);
        others = λ sec ne. let far : (sec == s.sb.bmapstart) ≡ false = ground arith in rw far refl;
      },
    )

-- ===== src/Fs/Content/Mapping.antt =====
-- The blocks of a file: bmap of fs/fs.c where they are there already.
use lxos.Base.{
  ℕ, ◌+◌, ◌-◌, ◌*◌, ◌/◌, ◌%◌, ◌≡◌, ◌≢◌, ◌<◌, ◌≤◌, inl, inr, refl, ◌∙◌, ap, true, false, ltb, ◌==◌,
  if◌then◌else◌, arith, Bool-cases,
}
use lxos.Libc.Memory.{Ptr, get32}
use lxos.Fs.Volume.{Volume, bsize}
use lxos.Fs.Inodes.{ndirect, nindirect}
use lxos.Fs.Content.{bmap, bmap_slot, bmap_indirect}

-- the volume's block that holds the block `bn` of the file
abbrev pub address : Volume → Ptr → (bn : ℕ) → ℕ
address s ip bn =
    if ltb bn ndirect
    then (s.inode ip).addrs bn
    else get32 (s.block (s.inode ip).dev ((s.inode ip).addrs ndirect)) (4 * (bn - ndirect))

-- the byte `i` of the file
abbrev pub byte : Volume → Ptr → (i : ℕ) → ℕ
byte s ip i = s.block (s.inode ip).dev (address s ip (i / bsize)) (i % bsize)

-- the byte `i` of the block `bn`
abbrev pub byte_of : Volume → Ptr → (bn i : ℕ) → ℕ
byte_of s ip bn i = s.block (s.inode ip).dev (address s ip bn) i

-- within a block the bytes follow each other
pub byte-block :
    (s : Volume) (ip : Ptr) (off k : ℕ)
    → off % bsize + k < bsize
    → byte s ip (off + k) ≡ byte_of s ip (off / bsize) (off % bsize + k)
byte-block s ip off k lt =
    let quotient : (off + k) / bsize ≡ off / bsize = omega (arith, lt) in
    let remainder : (off + k) % bsize ≡ off % bsize + k = omega (arith, lt) in
    ap (λ bn. byte_of s ip bn ((off + k) % bsize)) quotient
    ∙ ap (λ i. byte_of s ip (off / bsize) i) remainder

-- The first `count` blocks of the file are there.
pub record IsMapped (s : Volume) (ip : Ptr) (count : ℕ) : Type 0 where
  pub fits : count ≤ 140
  pub blocks : (bn : ℕ) → bn < count → address s ip bn ≢ 0
  pub indirect : 12 < count → (s.inode ip).addrs ndirect ≢ 0

bmap_slot-there :
    (s : Volume) (ip : Ptr) (i : ℕ)
    → (s.inode ip).addrs i ≢ 0
    → bmap_slot ip i s ≡ ((s.inode ip).addrs i, s)
unfolding bmap_slot
bmap_slot-there s ip i there =
    let e : ((s.inode ip).addrs i == 0) ≡ false = ground arith in rw e refl

-- a block that is there is found, and nothing changes
pub bmap-address :
    (s : Volume) (ip : Ptr) (count bn : ℕ)
    → IsMapped s ip count
    → bn < count
    → bmap ip bn s ≡ (address s ip bn, s)
unfolding bmap bmap_indirect
bmap-address s ip count bn h lt = elim (Bool-cases (ltb bn ndirect)) [
  | inl e ↦
      let there : (s.inode ip).addrs bn ≢ 0 = ground (arith, h.blocks bn) in
      rw (e, bmap_slot-there s ip bn there) refl
  | inr e ↦
      let e' : ltb (bn - ndirect) nindirect ≡ true = ground (arith, h.fits) in
      let there = h.indirect (ground arith) in
      let entry : (get32 (s.block (s.inode ip).dev ((s.inode ip).addrs ndirect))
              (4 * (bn - ndirect))
            == 0)
          ≡ false =
        ground (arith, h.blocks bn) in
      rw (e, e', bmap_slot-there s ip ndirect there, entry) refl
]

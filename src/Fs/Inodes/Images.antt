-- ===== src/Fs/Inodes/Images.antt =====
-- The images of the inodes on the disk: iupdate and ilock of fs/fs.c.
use lxos.Base.{
  ℕ, ◌+◌, ◌/◌, ◌≡◌, ◌≢◌, ◌<◌, ◌≤◌, ◌⊎◌, inl, inr, refl, sym, ◌∙◌, ap, true, false, not, ◌&&◌, ◌||◌,
  ◌==◌, if◌then◌else◌, arith, Bool-cases, ==_iff,
}
use lxos.Libc.Memory.{Ptr}
use lxos.Fs.Volume.{Inode, Volume, store, kprint}
use lxos.Fs.Inodes.{
  iblock, dip, put_inode, get_inode, iupdate, ilock, load_inode, positive, ipb, dinode_size,
}
use lxos.Fs.Inodes.Fields.{
  SameFields, IsInode, put_inode-other, get_inode-put_inode, get_inode-same,
}

-- two inodes of one block do not overlap
dip_apart :
    (i j a : ℕ)
    → i ≢ j
    → i / ipb ≡ j / ipb
    → dip i ≤ a
    → a < dip i + dinode_size
    → (a < dip j) ⊎ (dip j + dinode_size ≤ a)
dip_apart i j a ne same low high = ground arith

-- the image of the inode `inum`
abbrev pub image : Volume → (dev inum : ℕ) → Inode → Inode
image s dev inum w = get_inode (s.block dev (iblock inum s.sb)) (dip inum) w

module _ (ip : Ptr) (s : Volume) where
  abbrev pub mine : Inode
  mine = s.inode ip

  pub iupdate-block :
      (dev b : ℕ)
      → (iupdate ip s).block dev b ≡ (
          if dev == mine.dev && b == iblock mine.inum s.sb
          then put_inode mine (dip mine.inum) (s.block mine.dev (iblock mine.inum s.sb))
          else s.block dev b)
  unfolding iupdate store
  iupdate-block dev b = refl

  iupdate-image :
      (w : Inode) → IsInode mine → SameFields mine (image (iupdate ip s) mine.dev mine.inum w)
  unfolding iupdate store
  iupdate-image w h =
      let here : (mine.dev == mine.dev && iblock mine.inum s.sb == iblock mine.inum s.sb) ≡ true =
        ground arith in
      rw here
        (get_inode-put_inode mine (dip mine.inum) (s.block mine.dev (iblock mine.inum s.sb)) w h)

  pub iupdate-inode : (iupdate ip s).inode ≡ s.inode
  unfolding iupdate store
  iupdate-inode = refl

  untouched :
      (dev inum : ℕ)
      → (dev ≢ mine.dev) ⊎ (inum ≢ mine.inum)
      → (a : ℕ) → dip inum ≤ a
      → a < dip inum + dinode_size
      → s.block dev (iblock inum s.sb) a ≡ (iupdate ip s).block dev (iblock inum s.sb) a
  untouched dev inum far a low high =
      rw (iupdate-block dev (iblock inum s.sb))
        (elim (Bool-cases (dev == mine.dev && iblock inum s.sb == iblock mine.inum s.sb)) [
          | inr e ↦ rw e refl
          | inl e ↦
              let old = s.block mine.dev (iblock mine.inum s.sb) in
              let same_dev : dev ≡ mine.dev = ground arith in
              let same_block : iblock inum s.sb ≡ iblock mine.inum s.sb = ground arith in
              let apart : inum ≢ mine.inum = ground arith in
              rw e (
                rw (same_dev, same_block)
                  (sym (
                    put_inode-other mine (dip mine.inum) old a
                      (dip_apart inum mine.inum a apart (omega (arith, same_block)) low high))))
        ])

  iupdate-image-other :
      (dev inum : ℕ) (w : Inode)
      → (dev ≢ mine.dev) ⊎ (inum ≢ mine.inum)
      → SameFields (image s dev inum w) (image (iupdate ip s) dev inum w)
  unfolding iupdate store
  iupdate-image-other dev inum w far =
      get_inode-same (s.block dev (iblock inum s.sb)) _ (dip inum) w (untouched dev inum far)

-- the slot as ilock fills it
abbrev loaded : Volume → Ptr → Inode
loaded s q = record (image s (s.inode q).dev (s.inode q).inum (s.inode q)) { valid = true }

load_inode-loaded : (q : Ptr) (s : Volume) → (load_inode q s).inode q ≡ loaded s q
unfolding load_inode
load_inode-loaded q s =
    let here : (q == q) ≡ true = (==_iff q q).1 refl in
    elim (Bool-cases ((loaded s q).itype == 0)) [
      | inl e ↦ rw (e, here) refl
      | inr e ↦ rw (e, here) refl
    ]

ilock-loaded : (q : Ptr) (s : Volume) → (s.inode q).valid ≡ false → (ilock q s).inode q ≡ loaded s q
unfolding ilock get_inode
ilock-loaded q s stale = elim (Bool-cases (q == 0 || not (positive (s.inode q).ref))) [
  | inl e ↦ rw (e, stale) (load_inode-loaded q (kprint "ilock\n" s))
  | inr e ↦ rw (e, stale) (load_inode-loaded q s)
]

image_named :
    (v w : Inode) (s : Volume) (d n dev inum : ℕ)
    → d ≡ dev
    → n ≡ inum
    → SameFields v (image s dev inum w)
    → SameFields v (image s d n w)
image_named v w s d n dev inum same_dev same_inum t = rw (same_dev, same_inum) t

loaded-SameFields :
    (v : Inode) (s : Volume) (q : Ptr) (dev inum : ℕ)
    → (s.inode q).dev ≡ dev
    → (s.inode q).inum ≡ inum
    → SameFields v (image s dev inum (s.inode q))
    → SameFields v (loaded s q)
loaded-SameFields v s q dev inum same_dev same_inum t =
    let here = image_named v (s.inode q) s _ _ dev inum same_dev same_inum t in
    record {
      itype = here.itype;
      major = here.major;
      minor = here.minor;
      nlink = here.nlink;
      size = here.size;
      addrs = here.addrs;
    }

-- What iupdate writes ilock reads back: another slot of the same inode that is not valid has after
-- ilock the fields that the updated slot has, for fields of their widths, and is valid. The images
-- of all other inodes stay as they were, those in the same block with them.
pub ilock-iupdate :
    (ip q : Ptr) (s : Volume)
    → IsInode (s.inode ip)
    → (s.inode q).dev ≡ (s.inode ip).dev
    → (s.inode q).inum ≡ (s.inode ip).inum
    → (s.inode q).valid ≡ false
    → SameFields (s.inode ip) ((ilock q (iupdate ip s)).inode q)
      × (((ilock q (iupdate ip s)).inode q).valid ≡ true)
      × ((dev inum : ℕ) (w : Inode)
          → (dev ≢ (s.inode ip).dev) ⊎ (inum ≢ (s.inode ip).inum)
          → SameFields (image s dev inum w) (image (iupdate ip s) dev inum w))
ilock-iupdate ip q s h same_dev same_inum stale =
    let filled =
      ilock-loaded q (iupdate ip s) (ap (λ f. (f q).valid) (iupdate-inode ip s) ∙ stale) in
    let same = ap (λ f. f q) (iupdate-inode ip s) in
    let copied =
      loaded-SameFields (s.inode ip) (iupdate ip s) q (s.inode ip).dev (s.inode ip).inum
        (ap (λ v. v.dev) same ∙ same_dev) (ap (λ v. v.inum) same ∙ same_inum)
        (iupdate-image ip s _ h) in
    (rw filled copied, ap (λ v. v.valid) filled, iupdate-image-other ip s)

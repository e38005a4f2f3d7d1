-- ===== src/Fs/Inodes.antt =====
-- The inodes of fs/fs.c: the cache of NINODE inodes in memory, their images in the inode blocks,
-- and the map from a file's blocks to the volume's.
pub mod Search
pub mod Slots
pub mod Fields
pub mod Images
use lxos.Base.{
  ℕ, zero, suc, ◌+◌, ◌-◌, ◌*◌, ◌/◌, ◌%◌, ◌^◌, Bool, true, false, not, ◌&&◌, ◌||◌, Option, none,
  some, ltb, leb, ◌==◌, if◌then◌else◌,
}
use lxos.Libc.Memory.{Ptr, put, put32, get32, memset}
use lxos.Drivers.Device.{Data}
use lxos.Fs.Volume.{Superblock, Inode, Volume, bsize, minus_one, store, kprint, balloc, bfree}

abbrev pub ninode : ℕ
ninode = 50

abbrev pub ndirect : ℕ
ndirect = 12

-- the block numbers in an indirect block
abbrev pub nindirect : ℕ
nindirect = 128

-- inodes in a block, and the bytes of one
abbrev pub ipb : ℕ
ipb = 8

abbrev pub dinode_size : ℕ
dinode_size = 64

abbrev pub iblock : ℕ → Superblock → ℕ
iblock inum sb = inum / ipb + sb.inodestart

-- the offset of `dip` in its block
abbrev pub dip : ℕ → ℕ
dip inum = inum % ipb * dinode_size

abbrev pub set_inode : Ptr → Inode → Volume → Volume
set_inode ip v s = record s { inode = (λ q. if q == ip then v else s.inode q) }

unfoldable pub put16 : Data → ℕ → ℕ → Data
put16 x p w = put (put x p (w % 256)) (p + 1) (w / 256 % 256)

unfoldable pub get16 : Data → ℕ → ℕ
get16 x p = x p + 256 * x (p + 1)

-- memmove of the last `n` of the NDIRECT + 1 block numbers to the image at `p`
unfoldable pub put_addrs : (n : ℕ) → (ℕ → ℕ) → ℕ → Data → Data
put_addrs zero addrs p x = x
put_addrs (suc n) addrs p x = put_addrs n addrs p (put32 x (p + 12 + 4 * (12 - n)) (addrs (12 - n)))

-- the stores of iupdate to `dip`
unfoldable pub put_inode : Inode → ℕ → Data → Data
put_inode v p x = put_addrs 13 v.addrs p (
    put32
      (put16 (put16 (put16 (put16 x p v.itype) (p + 2) v.major) (p + 4) v.minor) (p + 6) v.nlink)
      (p + 8) v.size)

-- the loads of ilock from `dip`
unfoldable pub get_inode : Data → ℕ → Inode → Inode
get_inode x p v = record v {
  itype = get16 x p;
  major = get16 x (p + 2);
  minor = get16 x (p + 4);
  nlink = get16 x (p + 6);
  size = get32 x (p + 8);
  addrs = (λ i. if ltb i 13 then get32 x (p + 12 + 4 * i) else v.addrs i);
}

-- `ref > 0`, for a signed number
abbrev pub positive : ℕ → Bool
positive r = ltb 0 r && ltb r 2147483648

-- `ip->ref++`, which is all that iget does to an inode that it finds
unfoldable pub idup : Ptr → Volume → Volume
idup ip s = set_inode ip (record (s.inode ip) { ref = ((s.inode ip).ref + 1) % 2 ^ 32 }) s

-- The loop of iget: the slot that holds the inode, or else the first slot that is empty, or null.
unfoldable pub iget_loop : ℕ → (ip dev inum : ℕ) → (empty : Ptr) → Volume → Bool × Ptr
iget_loop zero ip dev inum empty s = (false, empty)
iget_loop (suc rounds) ip dev inum empty s =
    let v = s.inode ip in
    let rest =
      iget_loop rounds (ip + 1) dev inum (if empty == 0 && v.ref == 0 then ip else empty) s in
    if positive v.ref && v.dev == dev && v.inum == inum then (true, ip) else rest

-- `none` is the fault of a store through the null pointer, behind `iget: no inodes`.
unfoldable pub iget : (dev inum : ℕ) → Volume → Option (Ptr × Volume)
iget dev inum s =
    let (found, ip) = iget_loop ninode 1 dev inum 0 s in
    if found
    then some (ip, idup ip s)
    else if ip == 0
    then none
    else some (
      ip,
      set_inode ip (record (s.inode ip) { dev = dev; inum = inum; ref = 1; valid = false }) s,
    )

unfoldable pub ialloc_loop : (rounds inum dev itype : ℕ) → Volume → Option (Ptr × Volume)
ialloc_loop zero inum dev itype s = some (0, kprint "ialloc: no inodes" s)
ialloc_loop (suc rounds) inum dev itype s =
    let rest = ialloc_loop rounds (inum + 1) dev itype s in
    let b = iblock inum s.sb in
    let x = s.block dev b in
    if ltb inum s.sb.ninodes
    then (if get16 x (dip inum) == 0
        then iget dev inum
            (store dev b (put16 (memset (dip inum) 0 dinode_size x) (dip inum) itype) s)
        else rest)
    else some (0, kprint "ialloc: no inodes" s)

unfoldable pub ialloc : (dev itype : ℕ) → Volume → Option (Ptr × Volume)
ialloc dev itype s = ialloc_loop s.sb.ninodes 1 dev itype s

unfoldable pub iupdate : Ptr → Volume → Volume
iupdate ip s =
    let v = s.inode ip in
    let b = iblock v.inum s.sb in store v.dev b (put_inode v (dip v.inum) (s.block v.dev b)) s

-- ilock's read of an inode that is not valid
unfoldable pub load_inode : Ptr → Volume → Volume
load_inode ip s =
    let v = s.inode ip in
    let w = get_inode (s.block v.dev (iblock v.inum s.sb)) (dip v.inum) v in
    let s1 = set_inode ip (record w { valid = true }) s in
    if w.itype == 0 then kprint "ilock: no type" s1 else s1

unfoldable pub ilock : Ptr → Volume → Volume
ilock ip s0 =
    let s = if ip == 0 || not (positive (s0.inode ip).ref) then kprint "ilock\n" s0 else s0 in
    if (s.inode ip).valid then s else load_inode ip s

unfoldable pub iunlock : Ptr → Volume → Volume
iunlock ip s = if ip == 0 || not (positive (s.inode ip).ref) then kprint "iunlock\n" s else s

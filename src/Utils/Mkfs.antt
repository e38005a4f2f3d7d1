-- ===== src/Utils/Mkfs.antt =====
-- The image builder utils/mkfs.c, which runs on a host whose numbers are little-endian. The image
-- file is the function from its sectors to their bytes. `fails` says at which sectors the host's
-- lseek, read or write fails; the program then ends with exit(1), as it ends at a false assertion:
-- `none`.
pub mod Marking
pub mod Appending
pub mod Layout
use lxos.Base.{
  ℕ, zero, suc, ◌+◌, ◌-◌, ◌*◌, ◌/◌, ◌%◌, ◌^◌, Bool, true, false, not, ◌&&◌, ◌||◌, Option, none,
  some, List, [], ◌∷◌, ltb, leb, ◌==◌, if◌then◌else◌,
}
use lxos.Libc.Memory.{put, put32, get32, within}
use lxos.Drivers.Device.{Data}
use lxos.Fs.Volume.{Superblock, bit, bsize, bpb}
use lxos.Fs.Content.{min}
use lxos.Fs.Inodes.{iblock, dip, dinode_size, ndirect, put16, get16}

pub record Image : Type 0 where
  pub sector : ℕ → Data
  pub sb : Superblock
  pub freeinode : ℕ
  pub freeblock : ℕ

-- the bytes of `y` are stored one by one, and read together
abbrev pub xshort : ℕ → ℕ
xshort x = x % 256 + 256 * (x / 256 % 256)

abbrev pub xint : ℕ → ℕ
xint x =
    x % 256 + 256 * (x / 256 % 256) + 65536 * (x / 65536 % 256) + 16777216 * (x / 16777216 % 256)

abbrev pub fssize : ℕ
fssize = 1000

abbrev pub ninodes : ℕ
ninodes = 200

abbrev pub nbitmap : ℕ
nbitmap = fssize / (bsize * 8) + 1

abbrev pub ninodeblocks : ℕ
ninodeblocks = ninodes / 8 + 1

-- `LOGSIZE`
abbrev pub nlog : ℕ
nlog = 30

abbrev pub nmeta : ℕ
nmeta = 2 + nlog + ninodeblocks + nbitmap

abbrev pub nblocks : ℕ
nblocks = fssize - nmeta

-- the superblock that main fills in
abbrev pub superblock : Superblock
superblock = record {
  size = xint fssize;
  nblocks = xint nblocks;
  ninodes = xint ninodes;
  nlog = xint nlog;
  logstart = xint 2;
  inodestart = xint (2 + nlog);
  bmapstart = xint (2 + nlog + ninodeblocks);
}

-- `memmove(buf, &sb, sizeof(sb))` into zeroes
unfoldable pub put_superblock : Superblock → Data
put_superblock sb =
    put32
      (put32
        (put32
          (put32 (put32 (put32 (put32 (λ i. 0) 0 sb.size) 4 sb.nblocks) 8 sb.ninodes) 12 sb.nlog) 16
          sb.logstart)
        20 sb.inodestart)
      24 sb.bmapstart

abbrev pub zeroes : Data
zeroes i = 0

-- `i` bytes of `src` from `p` on, at `o` of `x`: bcopy, and the assignment of a structure
abbrev pub copy_to : Data → (o n : ℕ) → (src : Data) → (p : ℕ) → Data
copy_to x o n src p i = if within o n i then src (p + (i - o)) else x i

-- `buf[i/8] = buf[i/8] | (0x1 << (i%8))`
abbrev pub or_bit : Data → ℕ → Data
or_bit x i = put x (i / 8) (x (i / 8) + (1 - bit x i) * 2 ^ (i % 8))

unfoldable pub mark_loop : ℕ → (i : ℕ) → Data → Data
mark_loop zero i x = x
mark_loop (suc rounds) i x = mark_loop rounds (i + 1) (or_bit x i)

-- MAXFILE
abbrev pub maxfile : ℕ
maxfile = 140

-- `din.addrs[i]`
abbrev pub addr_at : ℕ → ℕ
addr_at i = 12 + 4 * i

-- `if(xint(din.addrs[i]) == 0) din.addrs[i] = xint(freeblock++)`, on any array of block numbers
unfoldable pub fill_slot : (x : Data) → (o : ℕ) → Image → Data × Image
fill_slot x o s =
    if xint (get32 x o) == 0
    then (put32 x o (xint s.freeblock), record s { freeblock = s.freeblock + 1 })
    else (x, s)

module _ (fails : (sec : ℕ) → Bool) where
  unfoldable pub wsect : ℕ → Data → Image → Option Image
  wsect sec x s =
      if fails sec
      then none
      else some (record s { sector = (λ k. if k == sec then x else s.sector k) })

  unfoldable pub rsect : ℕ → Image → Option Data
  rsect sec s = if fails sec then none else some (s.sector sec)

  unfoldable pub winode : ℕ → (ip : Data) → Image → Option Image
  winode inum ip s = elim (rsect (iblock inum s.sb) s) [
    | none ↦ none
    | some x ↦ wsect (iblock inum s.sb) (copy_to x (dip inum) dinode_size ip 0) s
  ]

  unfoldable pub rinode : ℕ → Image → Option Data
  rinode inum s = elim (rsect (iblock inum s.sb) s) [
    | none ↦ none
    | some x ↦ some (λ i. x (dip inum + i))
  ]

  unfoldable pub inoalloc : (itype : ℕ) → Image → Option (ℕ × Image)
  inoalloc itype s =
      let din = put32 (put16 (put16 zeroes 0 (xshort itype)) 6 (xshort 1)) 8 (xint 0) in
      elim (winode s.freeinode din (record s { freeinode = s.freeinode + 1 })) [
        | none ↦ none
        | some s1 ↦ some (s.freeinode, s1)
      ]

  unfoldable pub balloc : (used : ℕ) → Image → Option Image
  balloc used s = if ltb used bpb then wsect s.sb.bmapstart (mark_loop used 0 zeroes) s else none

  -- the entry `k` of the indirect block, which is written back when it is new
  unfoldable pub indirect_slot : (sec k : ℕ) → Image → Option (ℕ × Image)
  indirect_slot sec k s = elim (rsect sec s) [
    | none ↦ none
    | some x ↦
        let (y, s1) = fill_slot x (4 * k) s in
        elim (get32 x (4 * k) == 0) [
          | false ↦ some (xint (get32 x (4 * k)), s)
          | true ↦ elim (wsect sec y s1) [
            | none ↦ none
            | some s2 ↦ some (xint (get32 y (4 * k)), s2)
          ]
        ]
  ]

  -- the block of the file that iappend writes to, the inode and the image
  unfoldable pub pick_block : (din : Data) → (fbn : ℕ) → Image → Option (ℕ × Data × Image)
  pick_block din fbn s = elim (ltb fbn ndirect) [
    | true ↦
        let (din1, s1) = fill_slot din (addr_at fbn) s in
        some (xint (get32 din1 (addr_at fbn)), din1, s1)
    | false ↦
        let (din1, s1) = fill_slot din (addr_at ndirect) s in
        elim (indirect_slot (xint (get32 din1 (addr_at ndirect))) (fbn - ndirect) s1) [
          | none ↦ none
          | some (x, s2) ↦ some (x, din1, s2)
        ]
  ]

  -- The loop of iappend: the inode and the offset behind it. A round writes a byte or more.
  unfoldable pub iappend_loop :
      ℕ → (din : Data) → (off n : ℕ) → (src : Data) → (p : ℕ) → Image → Option (Data × ℕ × Image)
  iappend_loop zero din off n src p s = if n == 0 then some (din, off, s) else none
  iappend_loop (suc rounds) din off n src p s =
      let fbn = off / bsize in
      let n1 = min n ((fbn + 1) * bsize - off) in
      elim (n == 0) [
        | true ↦ some (din, off, s)
        | false ↦ elim (ltb fbn maxfile) [
          | false ↦ none
          | true ↦ elim (pick_block din fbn s) [
            | none ↦ none
            | some (x, din1, s1) ↦ elim (rsect x s1) [
              | none ↦ none
              | some buf ↦ elim (wsect x (copy_to buf (off - fbn * bsize) n1 src p) s1) [
                | none ↦ none
                | some s2 ↦ iappend_loop rounds din1 (off + n1) (n - n1) src (p + n1) s2
              ]
            ]
          ]
        ]
      ]

  unfoldable pub iappend : ℕ → (src : Data) → (n : ℕ) → Image → Option Image
  iappend inum src n s = elim (rinode inum s) [
    | none ↦ none
    | some din ↦ elim (iappend_loop n din (xint (get32 din 8)) n src 0 s) [
      | none ↦ none
      | some (din1, off, s1) ↦ winode inum (put32 din1 8 (xint off)) s1
    ]
  ]

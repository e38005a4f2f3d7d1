-- ===== src/Fs/Volume.antt =====
-- The state that fs/fs.c works on, and its blocks: readsb, bzero, balloc and bfree. The state holds
-- the blocks as the buffer cache shows them: a buffer is shared by all who hold its block, so that a
-- read of `bp->data` between bread and brelse is a read of `block`, and a store that bwrite follows
-- is `store`. The fields of a block are numbers at byte offsets, least significant byte first.
pub mod Bitmap
pub mod Allocation
use lxos.Base.{
  ℕ, zero, suc, ◌+◌, ◌-◌, ◌*◌, ◌/◌, ◌%◌, ◌^◌, Bool, true, false, not, ◌&&◌, ◌||◌, Option, none,
  some, List, [], ◌∷◌, ltb, leb, ◌==◌, if◌then◌else◌,
}
use Prim.Native.String.{String}
use lxos.Libc.Memory.{Ptr, Memory, put, put32, get32, memset}
use lxos.Drivers.Device.{Data}

pub record Superblock : Type 0 where
  pub size : ℕ
  pub nblocks : ℕ
  pub ninodes : ℕ
  pub nlog : ℕ
  pub logstart : ℕ
  pub inodestart : ℕ
  pub bmapstart : ℕ

-- The inode in memory. Shorts and ints stand as numbers below 2 ^ 16 and 2 ^ 32.
pub record Inode : Type 0 where
  pub dev : ℕ
  pub inum : ℕ
  pub ref : ℕ
  pub valid : Bool
  pub itype : ℕ
  pub major : ℕ
  pub minor : ℕ
  pub nlink : ℕ
  pub size : ℕ
  pub addrs : ℕ → ℕ

-- `&icache.inode[i]` is the pointer `i + 1`; `mem` is the memory of the callers.
pub record Volume : Type 0 where
  pub block : (dev bno : ℕ) → Data
  pub sb : Superblock
  pub inode : Ptr → Inode
  pub mem : Memory
  pub log : List String

abbrev pub bsize : ℕ
bsize = 512

-- bits in a block
abbrev pub bpb : ℕ
bpb = 4096

-- the result -1 of a function that returns `uint` or `int`
abbrev pub minus_one : ℕ
minus_one = 4294967295

abbrev pub bblock : ℕ → Superblock → ℕ
bblock b sb = b / bpb + sb.bmapstart

-- bread, stores to the data, bwrite and brelse
unfoldable pub store : (dev bno : ℕ) → Data → Volume → Volume
store dev bno x s = record s { block = (λ d b. if d == dev && b == bno then x else s.block d b) }

abbrev pub kprint : String → Volume → Volume
kprint text s = record s { log = text ∷ s.log }

unfoldable pub readsb : ℕ → Volume → Superblock
readsb dev s =
    let x = s.block dev 1 in
    record {
      size = get32 x 0;
      nblocks = get32 x 4;
      ninodes = get32 x 8;
      nlog = get32 x 12;
      logstart = get32 x 16;
      inodestart = get32 x 20;
      bmapstart = get32 x 24;
    }

-- The data of a buffer are aligned to a word.
unfoldable pub bzero : (dev bno : ℕ) → Volume → Volume
bzero dev bno s = store dev bno (memset 0 0 bsize (s.block dev bno)) s

-- `bp->data[bi/8] & m`, for `m = 1 << (bi % 8)`: 1 when it is not 0
abbrev pub bit : Data → ℕ → ℕ
bit x bi = x (bi / 8) / 2 ^ (bi % 8) % 2

-- `bp->data[bi/8] |= m` where the bit is clear
abbrev pub set_bit : Data → ℕ → Data
set_bit x bi = put x (bi / 8) (x (bi / 8) + 2 ^ (bi % 8))

-- `bp->data[bi/8] &= ~m`
abbrev pub clear_bit : Data → ℕ → Data
clear_bit x bi = put x (bi / 8) (x (bi / 8) - bit x bi * 2 ^ (bi % 8))

-- the inner loop of balloc: the first clear bit of the block from `bi` on
unfoldable pub find_clear : ℕ → (b bi size : ℕ) → Data → Option ℕ
find_clear zero b bi size x = none
find_clear (suc rounds) b bi size x =
    let rest = find_clear rounds b (bi + 1) size x in
    if ltb (b + bi) size then (if bit x bi == 0 then some bi else rest) else none

-- the outer loop, from the block `b` on
unfoldable pub balloc_loop : ℕ → (dev b : ℕ) → Volume → ℕ × Volume
balloc_loop zero dev b s = (minus_one, kprint "balloc: out of blocks" s)
balloc_loop (suc rounds) dev b s =
    let rest = balloc_loop rounds dev (b + bpb) s in
    let x = s.block dev (bblock b s.sb) in
    if ltb b s.sb.size
    then elim (find_clear bpb b 0 s.sb.size x) [
      | none ↦ rest
      | some bi ↦ (b + bi, bzero dev (b + bi) (store dev (bblock b s.sb) (set_bit x bi) s))
    ]
    else (minus_one, kprint "balloc: out of blocks" s)

-- The loop takes a round for each block of the bitmap, and the test that ends it.
unfoldable pub balloc : ℕ → Volume → ℕ × Volume
balloc dev s = balloc_loop (s.sb.size / bpb + 2) dev 0 s

unfoldable pub bfree : (dev b : ℕ) → Volume → Volume
bfree dev b s0 =
    let s = record s0 { sb = readsb dev s0 } in
    let x = s.block dev (bblock b s.sb) in
    let s1 = if bit x (b % bpb) == 0 then kprint "freeing free block" s else s in
    store dev (bblock b s.sb) (clear_bit x (b % bpb)) s1

-- ===== src/Fs/Content.antt =====
-- The content of a file in fs/fs.c: bmap, itrunc, iput, stati, readi and writei.
pub mod Mapping
pub mod Reading
pub mod Ranges
pub mod Writing
pub mod Update
pub mod Frame
use lxos.Base.{
  ℕ, zero, suc, ◌+◌, ◌-◌, ◌*◌, ◌/◌, ◌%◌, ◌^◌, Bool, true, false, not, ◌&&◌, ◌||◌, Option, none,
  some, ltb, leb, ◌==◌, if◌then◌else◌,
}
use lxos.Libc.Memory.{Ptr, Memory, put32, get32, within}
use lxos.Drivers.Device.{Data}
use lxos.Fs.Volume.{Inode, Volume, bsize, minus_one, store, kprint, balloc, bfree}
use lxos.Fs.Inodes.{ndirect, nindirect, set_inode, iupdate, iunlock}

abbrev pub t_dev : ℕ
t_dev = 3

abbrev pub ndev : ℕ
ndev = 10

-- `MAXFILE*BSIZE`
abbrev pub max_bytes : ℕ
max_bytes = 71680

-- `ip->addrs[i] = a`
abbrev pub set_addr : Ptr → (i a : ℕ) → Volume → Volume
set_addr ip i a s =
    set_inode ip (record (s.inode ip) { addrs = (λ j. if j == i then a else (s.inode ip).addrs j) })
      s

-- the block at `ip->addrs[i]`, which is allocated if there is none
unfoldable pub bmap_slot : Ptr → (i : ℕ) → Volume → ℕ × Volume
bmap_slot ip i s =
    let v = s.inode ip in
    if v.addrs i == 0
    then (let (a, s1) = balloc v.dev s in (a, set_addr ip i a s1))
    else (v.addrs i, s)

-- the block at the place `k` of the indirect block `addr`
unfoldable pub bmap_indirect : (dev addr k : ℕ) → Volume → ℕ × Volume
bmap_indirect dev addr k s =
    let e = get32 (s.block dev addr) (4 * k) in
    if e == 0
    then (let (a, s1) = balloc dev s in
        (a, store dev addr (put32 (s1.block dev addr) (4 * k) a) s1))
    else (e, s)

unfoldable pub bmap : Ptr → (bn : ℕ) → Volume → ℕ × Volume
bmap ip bn s =
    if ltb bn ndirect
    then bmap_slot ip bn s
    else if ltb (bn - ndirect) nindirect
    then (let (addr, s1) = bmap_slot ip ndirect s in
        bmap_indirect (s1.inode ip).dev addr (bn - ndirect) s1)
    else (minus_one, kprint "bmap: out of range" s)

-- the first loop of itrunc
unfoldable pub free_direct : ℕ → Ptr → (i : ℕ) → Volume → Volume
free_direct zero ip i s = s
free_direct (suc rounds) ip i s =
    let v = s.inode ip in
    let s1 = if v.addrs i == 0 then s else set_addr ip i 0 (bfree v.dev (v.addrs i) s) in
    free_direct rounds ip (i + 1) s1

-- the second one, over the block numbers in the indirect block
unfoldable pub free_indirect : ℕ → (dev addr j : ℕ) → Volume → Volume
free_indirect zero dev addr j s = s
free_indirect (suc rounds) dev addr j s =
    let e = get32 (s.block dev addr) (4 * j) in
    free_indirect rounds dev addr (j + 1) (if e == 0 then s else bfree dev e s)

unfoldable pub itrunc : Ptr → Volume → Volume
itrunc ip s =
    let s1 = free_direct ndirect ip 0 s in
    let v = s1.inode ip in
    let addr = v.addrs ndirect in
    let s2 =
      if addr == 0
      then s1
      else set_addr ip ndirect 0 (bfree v.dev addr (free_indirect nindirect v.dev addr 0 s1)) in
    iupdate ip (set_inode ip (record (s2.inode ip) { size = 0 }) s2)

-- The last user of an inode without links gives its blocks back.
unfoldable pub iput : Ptr → Volume → Volume
iput ip s =
    let v = s.inode ip in
    let s1 = itrunc ip s in
    let s2 = iupdate ip (set_inode ip (record (s1.inode ip) { itype = 0 }) s1) in
    let s3 =
      if v.valid && v.nlink == 0 && v.ref == 1
      then set_inode ip (record (s2.inode ip) { valid = false }) s2
      else s in
    set_inode ip (record (s3.inode ip) { ref = ((s3.inode ip).ref + 4294967295) % 2 ^ 32 }) s3

unfoldable pub iunlockput : Ptr → Volume → Volume
iunlockput ip s = iput ip (iunlock ip s)

pub record Stat : Type 0 where
  pub dev : ℕ
  pub ino : ℕ
  pub itype : ℕ
  pub nlink : ℕ
  pub size : ℕ

unfoldable pub stati : Ptr → Volume → Stat
stati ip s =
    let v = s.inode ip in
    record { dev = v.dev; ino = v.inum; itype = v.itype; nlink = v.nlink; size = v.size }

-- memmove of `m` bytes from a block, at `o`, to the memory, at `dst`, and back
unfoldable pub copy_in : (m : ℕ) → Ptr → Data → (o : ℕ) → Memory → Memory
copy_in m dst x o mem a = if within dst m a then x (o + (a - dst)) else mem a

unfoldable pub copy_out : (m : ℕ) → (o : ℕ) → Data → Ptr → Memory → Data
copy_out m o x src mem i = if within o m i then mem (src + (i - o)) else x i

abbrev pub min : ℕ → ℕ → ℕ
min a b = if ltb a b then a else b

-- the bytes of one round: `min(n - tot, BSIZE - off%BSIZE)`
abbrev pub portion : (n tot off : ℕ) → ℕ
portion n tot off = min (n - tot) (bsize - off % bsize)

unfoldable pub readi_loop : ℕ → (tot n : ℕ) → Ptr → (dst : Ptr) → (off : ℕ) → Volume → Volume
readi_loop zero tot n ip dst off s = s
readi_loop (suc rounds) tot n ip dst off s =
    let (b, s1) = bmap ip (off / bsize) s in
    let m = portion n tot off in
    let x = s1.block (s1.inode ip).dev b in
    let s2 = record s1 { mem = copy_in m dst x (off % bsize) s1.mem } in
    let rest = readi_loop rounds (tot + m) n ip (dst + m) (off + m) s2 in
    if ltb tot n then rest else s

-- The loop of writei: a round writes a byte or more.
unfoldable pub writei_loop : ℕ → (tot n : ℕ) → Ptr → (src : Ptr) → (off : ℕ) → Volume → Volume
writei_loop zero tot n ip src off s = s
writei_loop (suc rounds) tot n ip src off s =
    let (b, s1) = bmap ip (off / bsize) s in
    let m = portion n tot off in
    let d = (s1.inode ip).dev in
    let s2 = store d b (copy_out m (off % bsize) (s1.block d b) src s1.mem) s1 in
    let rest = writei_loop rounds (tot + m) n ip (src + m) (off + m) s2 in
    if ltb tot n then rest else s

-- `devsw`: the devices' functions, which other parts of the kernel fill in
abbrev pub Operation : Type 0
Operation = (ip addr : Ptr) → (n : ℕ) → Volume → ℕ × Volume

-- A major number below 0 is, as a number of 16 bits, not below NDEV.
unfoldable pub device_call : (ℕ → Option Operation) → Ptr → (addr : Ptr) → ℕ → Volume → ℕ × Volume
device_call table ip addr n s =
    if leb ndev (s.inode ip).major
    then (minus_one, s)
    else elim (table (s.inode ip).major) [ none ↦ (minus_one, s) | some f ↦ f ip addr n s ]

unfoldable pub readi :
    (ℕ → Option Operation) → Ptr → (dst : Ptr) → (off n : ℕ) → Volume → ℕ × Volume
readi table ip dst off n s =
    let v = s.inode ip in
    let last = (off + n) % 2 ^ 32 in
    let n' = if ltb v.size last then v.size - off else n in
    if v.itype == t_dev
    then device_call table ip dst n s
    else if ltb v.size off || ltb last off
    then (minus_one, s)
    else (n', readi_loop n' 0 n' ip dst off s)

-- the end of writei, with `off` behind the bytes written
unfoldable pub grow : Ptr → (n off : ℕ) → Volume → Volume
grow ip n off s =
    if ltb 0 n && ltb (s.inode ip).size off
    then iupdate ip (set_inode ip (record (s.inode ip) { size = off }) s)
    else s

unfoldable pub writei :
    (ℕ → Option Operation) → Ptr → (src : Ptr) → (off n : ℕ) → Volume → ℕ × Volume
writei table ip src off n s =
    let v = s.inode ip in
    let last = (off + n) % 2 ^ 32 in
    if v.itype == t_dev
    then device_call table ip src n s
    else if ltb v.size off || ltb last off || ltb max_bytes last
    then (minus_one, s)
    else (n, grow ip n (off + n) (writei_loop n 0 n ip src off s))

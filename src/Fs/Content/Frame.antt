-- ===== src/Fs/Content/Frame.antt =====
-- The memory that readi of fs/fs.c may write, and the operations on inodes that write none.
use lxos.Base.{
  ◌==◌, if◌then◌else◌, ◌*◌, ℕ, zero, suc, ◌+◌, ◌-◌, ◌/◌, ◌%◌, ◌≡◌, ◌≢◌, ◌<◌, ◌≤◌, ◌⊎◌, inl, inr,
  refl, ◌∙◌, ap, Option, ltb, arith, Bool-cases,
}
use lxos.Libc.Memory.{Ptr, Memory, get32}
use lxos.Fs.Volume.{Volume, bpb, bzero, store, balloc_loop, balloc, bsize, bfree}
use lxos.Fs.Inodes.{ndirect, nindirect, iupdate, ilock, iunlock, load_inode}
use lxos.Fs.Content.{
  set_addr, free_direct, free_indirect, itrunc, iput, iunlockput, Operation, bmap_slot,
  bmap_indirect, bmap, copy_in, portion, readi_loop, readi, t_dev,
}

balloc_loop-mem : (rounds dev b : ℕ) (s : Volume) → (balloc_loop rounds dev b s).1.mem ≡ s.mem
unfolding balloc_loop bzero store
balloc_loop-mem zero dev b s = refl
balloc_loop-mem (suc rounds) dev b s = ground (arith, balloc_loop-mem rounds dev (b + bpb) s)

balloc-mem : (dev : ℕ) (s : Volume) → (balloc dev s).1.mem ≡ s.mem
unfolding balloc
balloc-mem dev s = balloc_loop-mem _ dev 0 s

bmap_slot-mem : (ip : Ptr) (i : ℕ) (s : Volume) → (bmap_slot ip i s).1.mem ≡ s.mem
unfolding bmap_slot
bmap_slot-mem ip i s = ground (arith, balloc-mem (s.inode ip).dev s)

bmap_indirect-mem : (dev addr k : ℕ) (s : Volume) → (bmap_indirect dev addr k s).1.mem ≡ s.mem
unfolding bmap_indirect store
bmap_indirect-mem dev addr k s = ground (arith, balloc-mem dev s)

-- bmap may allocate, but does not write the callers' memory
pub bmap-mem : (ip : Ptr) (bn : ℕ) (s : Volume) → (bmap ip bn s).1.mem ≡ s.mem
unfolding bmap
bmap-mem ip bn s =
    let (addr, s1) = bmap_slot ip ndirect s in
    ground (
      arith,
      bmap_slot-mem ip bn s,
      bmap_slot-mem ip ndirect s,
      bmap_indirect-mem (s1.inode ip).dev addr (bn - ndirect) s1,
    )

copy_in-other :
    (m dst : ℕ) (x : ℕ → ℕ) (o : ℕ) (mem : Memory) (a : Ptr)
    → (a < dst) ⊎ (dst + m ≤ a)
    → copy_in m dst x o mem a ≡ mem a
unfolding copy_in
copy_in-other m dst x o mem a far = ground arith

readi_loop-frame :
    (rounds tot n : ℕ) (ip dst off : ℕ) (s : Volume) (a : Ptr)
    → (a < dst) ⊎ (dst + (n - tot) ≤ a)
    → (readi_loop rounds tot n ip dst off s).mem a ≡ s.mem a
unfolding readi_loop
readi_loop-frame zero tot n ip dst off s a far = refl
readi_loop-frame (suc rounds) tot n ip dst off s a far =
    let (b, s1) = bmap ip (off / bsize) s in
    let m = portion n tot off in
    let x = s1.block (s1.inode ip).dev b in
    let s2 : Volume = record s1 { mem = copy_in m dst x (off % bsize) s1.mem } in
    let first : s2.mem a ≡ s.mem a =
      copy_in-other m dst x (off % bsize) s1.mem a (ground arith)
      ∙ ap (λ mem. mem a) (bmap-mem ip (off / bsize) s) in
    elim (Bool-cases (ltb tot n)) [
      | inr e ↦ rw e refl
      | inl e ↦
          rw e
            (readi_loop-frame rounds (tot + m) n ip (dst + m) (off + m) s2 a (ground arith) ∙ first)
    ]

-- readi of a file that is no device writes the `n` bytes at `dst` at most
pub readi-frame :
    (table : ℕ → Option Operation) (ip dst off n : ℕ) (s : Volume) (a : Ptr)
    → (s.inode ip).itype ≢ t_dev
    → (a < dst) ⊎ (dst + n ≤ a)
    → (readi table ip dst off n s).1.mem a ≡ s.mem a
unfolding readi
readi-frame table ip dst off n s a plain far = ground (
  arith,
  readi_loop-frame n 0 n ip dst off s a,
  readi_loop-frame ((s.inode ip).size - off) 0 ((s.inode ip).size - off) ip dst off s a,
)

pub ilock-mem : (ip : Ptr) (s : Volume) → (ilock ip s).mem ≡ s.mem
unfolding ilock load_inode
ilock-mem ip s = ground arith

pub iunlock-mem : (ip : Ptr) (s : Volume) → (iunlock ip s).mem ≡ s.mem
unfolding iunlock
iunlock-mem ip s = ground arith

free_direct-mem :
    (rounds : ℕ) (ip : Ptr) (i : ℕ) (s : Volume) → (free_direct rounds ip i s).mem ≡ s.mem
unfolding free_direct bfree store
free_direct-mem zero ip i s = refl
free_direct-mem (suc rounds) ip i s =
    let v = s.inode ip in
    let s1 = if v.addrs i == 0 then s else set_addr ip i 0 (bfree v.dev (v.addrs i) s) in
    ground (arith, free_direct-mem rounds ip (i + 1) s1)

free_indirect-mem :
    (rounds dev addr j : ℕ) (s : Volume) → (free_indirect rounds dev addr j s).mem ≡ s.mem
unfolding free_indirect bfree store
free_indirect-mem zero dev addr j s = refl
free_indirect-mem (suc rounds) dev addr j s =
    let e = get32 (s.block dev addr) (4 * j) in
    ground (arith, free_indirect-mem rounds dev addr (j + 1) (if e == 0 then s else bfree dev e s))

bfree-mem : (dev b : ℕ) (s : Volume) → (bfree dev b s).mem ≡ s.mem
unfolding bfree store
bfree-mem dev b s = ground arith

itrunc-mem : (ip : Ptr) (s : Volume) → (itrunc ip s).mem ≡ s.mem
unfolding itrunc store iupdate
itrunc-mem ip s =
    let s1 = free_direct ndirect ip 0 s in
    let v = s1.inode ip in
    let d = free_direct-mem ndirect ip 0 s in
    let i = free_indirect-mem nindirect v.dev (v.addrs ndirect) 0 s1 in
    elim (Bool-cases (v.addrs ndirect == 0)) [
      | inl e ↦ rw (itrunc, e) d
      | inr e ↦ rw (itrunc, e) (bfree-mem v.dev (v.addrs ndirect) _ ∙ i ∙ d)
    ]

pub iunlockput-mem : (ip : Ptr) (s : Volume) → (iunlockput ip s).mem ≡ s.mem
unfolding iunlockput iput iupdate store
iunlockput-mem ip s = ground (arith, itrunc-mem ip (iunlock ip s), iunlock-mem ip s)

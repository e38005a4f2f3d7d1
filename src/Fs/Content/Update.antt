-- ===== src/Fs/Content/Update.antt =====
-- writei of fs/fs.c, and a read of what it wrote.
use lxos.Base.{
  ℕ, ◌+◌, ◌-◌, ◌*◌, ◌/◌, ◌%◌, ◌≡◌, ◌≢◌, ◌<◌, ◌≤◌, inl, inr, refl, sym, ◌∙◌, ap, Bool, true, false,
  ◌&&◌, ◌||◌, Option, ltb, leb, ◌==◌, if◌then◌else◌, arith, Bool-cases,
}
use lxos.Libc.Memory.{Ptr, get32, within}
use lxos.Fs.Volume.{Volume, bsize, store}
use lxos.Fs.Inodes.{ndirect, iblock, set_inode, iupdate}
use lxos.Fs.Inodes.Images.{iupdate-block, iupdate-inode}
use lxos.Fs.Content.{writei_loop, writei, readi, grow, Operation, t_dev}
use lxos.Fs.Content.Mapping.{address, byte, IsMapped}
use lxos.Fs.Content.Reading.{readi-filled, delivered, filled, with_mem}
use lxos.Fs.Content.Writing.{writei_loop-Wrote}
use lxos.Fs.Content.Ranges.{IsSeparate, Wrote, Wrote-address, Wrote-IsMapped}

-- The block of the inode's image is none of the file's.
pub record IsOutside (s : Volume) (ip : Ptr) (count : ℕ) : Type 0 where
  pub blocks : (bn : ℕ) → bn < count → address s ip bn ≢ iblock (s.inode ip).inum s.sb
  pub indirect : 12 < count → (s.inode ip).addrs ndirect ≢ iblock (s.inode ip).inum s.sb

if_second_false {ℓ} :
    {A : Type ℓ} (b c : Bool) (x y : A) → c ≡ false → (if b && c then x else y) ≡ y
if_second_false true c x y e = rw e refl
if_second_false false c x y e = refl

module _ (ip : Ptr) (size count : ℕ) (s : Volume) (out : IsOutside s ip count) where
  abbrev resized : Volume
  resized = set_inode ip (record (s.inode ip) { size = size }) s

  -- another block than that of the image
  resized-block :
      (b : ℕ)
      → b ≢ iblock (s.inode ip).inum s.sb
      → (iupdate ip resized).block (s.inode ip).dev b ≡ s.block (s.inode ip).dev b
  resized-block b ne =
      let here : (resized.inode ip).inum ≡ (s.inode ip).inum = ground arith in
      let miss : (b == iblock (resized.inode ip).inum s.sb) ≡ false =
        ground (arith, ap (λ i. iblock i s.sb) here) in
      iupdate-block ip resized (s.inode ip).dev b ∙ if_second_false _ _ _ _ miss

  resized-inode : (iupdate ip resized).inode ip ≡ record (s.inode ip) { size = size }
  resized-inode =
      let here : resized.inode ip ≡ record (s.inode ip) { size = size } = ground arith in
      ap (λ f. f ip) (iupdate-inode ip resized) ∙ here

  resized-address :
      (bn : ℕ) → bn < count → count ≤ 140 → address (iupdate ip resized) ip bn ≡ address s ip bn
  resized-address bn lt fits = elim (Bool-cases (ltb bn ndirect)) [
    | inl e ↦ rw e (ap (λ v. v.addrs bn) resized-inode)
    | inr e ↦ rw e (
        ap (λ v. get32 ((iupdate ip resized).block v.dev (v.addrs ndirect)) (4 * (bn - ndirect)))
          resized-inode
        ∙ ap (λ x. get32 x (4 * (bn - ndirect)))
            (resized-block ((s.inode ip).addrs ndirect) (out.indirect (ground arith))))
  ]

  resized-byte :
      (i : ℕ) → i < count * bsize → count ≤ 140 → byte (iupdate ip resized) ip i ≡ byte s ip i
  resized-byte i lt fits =
      let at : i / bsize < count = omega (arith, lt) in
      ap
        (λ v.
          (iupdate ip resized).block v.dev (address (iupdate ip resized) ip (i / bsize))
            (i % bsize))
        resized-inode
      ∙ ap (λ b. (iupdate ip resized).block (s.inode ip).dev b (i % bsize))
          (resized-address (i / bsize) at fits)
      ∙ ap (λ x. x (i % bsize))
          (resized-block (address s ip (i / bsize)) (out.blocks (i / bsize) at))

  resized-IsMapped : IsMapped s ip count → IsMapped (iupdate ip resized) ip count
  resized-IsMapped h = record {
    fits = h.fits;
    blocks = λ bn lt z. h.blocks bn lt (sym (resized-address bn lt h.fits) ∙ z);
    indirect = λ lt z. h.indirect lt (ap (λ v. v.addrs ndirect) (sym resized-inode) ∙ z);
  }

-- What a write does to a file, seen through its bytes.
pub record Updated (s : Volume) (ip src : Ptr) (off n count : ℕ) (s' : Volume) : Type 0 where
  pub bytes :
      (i : ℕ)
      → i < count * bsize
      → byte s' ip i ≡ (if within off n i then s.mem (src + (i - off)) else byte s ip i)
  pub size :
      (s'.inode ip).size
      ≡ (if ltb 0 n && ltb (s.inode ip).size (off + n) then off + n else (s.inode ip).size)
  pub itype : (s'.inode ip).itype ≡ (s.inode ip).itype
  pub mem : s'.mem ≡ s.mem
  pub mapped : IsMapped s' ip count

Wrote-byte :
    (s : Volume) (ip src : Ptr) (off n count : ℕ) (s' : Volume)
    → IsMapped s ip count
    → IsSeparate s ip count
    → Wrote s ip src off n count s'
    → (i : ℕ) → i < count * bsize
    → byte s' ip i ≡ (if within off n i then s.mem (src + (i - off)) else byte s ip i)
Wrote-byte s ip src off n count s' h sep w i lt =
    let at : i / bsize < count = omega (arith, lt) in
    let low : i % bsize < bsize = omega arith in
    let join : i / bsize * bsize + i % bsize ≡ i = omega arith in
    ap (λ f. s'.block (f ip).dev (address s' ip (i / bsize)) (i % bsize)) w.inode
    ∙ ap (λ b. s'.block (s.inode ip).dev b (i % bsize))
        (Wrote-address s ip src off n count s' h sep w (i / bsize) at)
    ∙ w.bytes (i / bsize) (i % bsize) at low
    ∙ ap (λ k. if within off n k then s.mem (src + (k - off)) else byte s ip i) join

Wrote-IsOutside :
    (s : Volume) (ip src : Ptr) (off n count : ℕ) (s' : Volume)
    → IsMapped s ip count
    → IsSeparate s ip count
    → IsOutside s ip count
    → Wrote s ip src off n count s'
    → IsOutside s' ip count
Wrote-IsOutside s ip src off n count s' h sep out w =
    let image : iblock (s'.inode ip).inum s'.sb ≡ iblock (s.inode ip).inum s.sb =
      ap (λ f. iblock (f ip).inum s'.sb) w.inode ∙ ap (λ sb. iblock (s.inode ip).inum sb) w.sb in
    record {
      blocks = λ bn lt e.
          out.blocks bn lt (sym (Wrote-address s ip src off n count s' h sep w bn lt) ∙ e ∙ image);
      indirect = λ lt e. out.indirect lt (ap (λ f. (f ip).addrs ndirect) (sym w.inode) ∙ e ∙ image);
    }

iupdate-mem : (ip : Ptr) (s : Volume) → (iupdate ip s).mem ≡ s.mem
unfolding iupdate store
iupdate-mem ip s = refl

-- the end of writei, on the state that its loop leaves
grow-Updated :
    (s : Volume) (ip src : Ptr) (off n count : ℕ) (s1 : Volume)
    → IsMapped s ip count
    → IsSeparate s ip count
    → IsOutside s ip count
    → Wrote s ip src off n count s1
    → Updated s ip src off n count (grow ip n (off + n) s1)
unfolding grow
grow-Updated s ip src off n count s1 h sep out w =
    let v = ap (λ f. f ip) w.inode in
    let written = Wrote-byte s ip src off n count s1 h sep w in
    let mapped = Wrote-IsMapped s ip src off n count s1 h sep w in
    let out1 = Wrote-IsOutside s ip src off n count s1 h sep out w in
    let test : (ltb 0 n && ltb (s1.inode ip).size (off + n))
        ≡ (ltb 0 n && ltb (s.inode ip).size (off + n)) =
      ap (λ u. ltb 0 n && ltb u.size (off + n)) v in
    elim (Bool-cases (ltb 0 n && ltb (s.inode ip).size (off + n))) [
      | inl e ↦
          rw (test, e)
            (record {
              bytes = λ i lt. resized-byte ip (off + n) count s1 out1 i lt h.fits ∙ written i lt;
              size = ap (λ u. u.size) (resized-inode ip (off + n) count s1 out1) ∙ rw e refl;
              itype =
                  ap (λ u. u.itype) (resized-inode ip (off + n) count s1 out1)
                  ∙ ap (λ u. u.itype) v;
              mem = iupdate-mem ip _ ∙ w.mem;
              mapped = resized-IsMapped ip (off + n) count s1 out1 mapped;
            })
      | inr e ↦
          rw (test, e)
            (record {
              bytes = written;
              size = ap (λ u. u.size) v ∙ rw e refl;
              itype = ap (λ u. u.itype) v;
              mem = w.mem;
              mapped = mapped;
            })
    ]

writei_runs :
    (table : ℕ → Option Operation) (ip src : Ptr) (off n : ℕ) (s : Volume)
    → (s.inode ip).itype ≢ t_dev
    → off ≤ (s.inode ip).size
    → off + n ≤ 71680
    → writei table ip src off n s ≡ (n, grow ip n (off + n) (writei_loop n 0 n ip src off s))
unfolding writei
writei_runs table ip src off n s plain inside fits =
    let file : ((s.inode ip).itype == t_dev) ≡ false = ground arith in
    let last : (off + n) % 4294967296 ≡ off + n = omega (arith, fits) in
    let good : (ltb (s.inode ip).size off || ltb (off + n) off || ltb 71680 (off + n)) ≡ false =
      ground arith in
    rw (file, last, good) refl

-- writei of `n` bytes from `src` at `off` to a file that is no device, at most at its end and
-- in blocks that are there, returns `n`: the file's bytes from `off` on are those of `src`, all
-- other bytes of its blocks stay, the memory stays, and the size is `off + n` where that is
-- larger. The file's blocks must be different ones, and not those of its own block numbers or
-- its inode.
pub writei-Updated :
    (table : ℕ → Option Operation) (ip src : Ptr) (off n count : ℕ) (s : Volume)
    → (s.inode ip).itype ≢ t_dev
    → IsMapped s ip count
    → IsSeparate s ip count
    → IsOutside s ip count
    → off ≤ (s.inode ip).size
    → off + n ≤ count * bsize
    → ((writei table ip src off n s).0 ≡ n)
      × Updated s ip src off n count (writei table ip src off n s).1
writei-Updated table ip src off n count s plain h sep out inside fits =
    let loop =
      writei_loop-Wrote n 0 n ip src off count s h sep (omega arith) (omega arith)
        (omega (arith, fits)) in
    let all : n - 0 ≡ n = omega arith in
    rw (writei_runs table ip src off n s plain inside (omega (arith, fits, h.fits)))
      (refl, grow-Updated s ip src off n count _ h sep out (rw all at loop))

-- For a file that is no device: after a writei of `n` bytes, and not none, from `src` at `off`,
-- at most at the end of the file, readi at the same place returns `n` and leaves in the memory
-- at `dst` the bytes that the write took from `src`, and every other byte of the memory as it
-- is. The blocks written and those of the file must be there, different ones, and not those of
-- its own block numbers or its inode.
pub readi-writei :
    (table : ℕ → Option Operation) (ip src dst : Ptr) (off n count : ℕ) (s : Volume)
    → (s.inode ip).itype ≢ t_dev
    → IsMapped s ip count
    → IsSeparate s ip count
    → IsOutside s ip count
    → off ≤ (s.inode ip).size
    → (s.inode ip).size ≤ count * bsize
    → 0 < n
    → off + n ≤ count * bsize
    → ((readi table ip dst off n (writei table ip src off n s).1).0 ≡ n)
      × ((a : ℕ)
          → (readi table ip dst off n (writei table ip src off n s).1).1.mem a
            ≡ (if within dst n a then s.mem (src + (a - dst)) else s.mem a))
readi-writei table ip src dst off n count s plain h sep out inside sized more fits =
    let s' = (writei table ip src off n s).1 in
    let u = (writei-Updated table ip src off n count s plain h sep out inside fits).1 in
    let plain' : (s'.inode ip).itype ≢ t_dev = λ e. plain (sym u.itype ∙ e) in
    let sized' : (s'.inode ip).size ≤ count * bsize = rw u.size (ground (arith, sized, fits)) in
    let read =
      readi-filled table ip dst off n count s' plain' u.mapped sized' (omega (arith, fits, h.fits))
        (omega (arith, fits, h.fits)) in
    let good : (ltb (s'.inode ip).size off || leb 4294967296 (off + n)) ≡ false =
      rw u.size (ground (arith, fits, h.fits)) in
    let all : delivered s' ip off n ≡ n = rw u.size (ground arith) in
    let result : readi table ip dst off n s' ≡ (n, with_mem (filled s' ip dst off n s'.mem) s') =
      read ∙ rw good (ap (λ k. (k, with_mem (filled s' ip dst off k s'.mem) s')) all) in
    (
      ap (λ r. r.0) result,
      λ a. ap (λ r. r.1.mem a) result ∙ elim (Bool-cases (within dst n a)) [
        | inr e ↦ rw e (ap (λ mem. mem a) u.mem)
        | inl e ↦
            let inner : within off n (off + (a - dst)) ≡ true = ground arith in
            let place : src + (off + (a - dst) - off) ≡ src + (a - dst) = omega arith in
            rw e (u.bytes (off + (a - dst)) (ground (arith, fits)) ∙ rw inner (ap s.mem place))
      ],
    )

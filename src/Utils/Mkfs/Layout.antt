-- ===== src/Utils/Mkfs/Layout.antt =====
-- The main program of utils/mkfs.c: the layout of the image, the root directory and the files.
use lxos.Base.{
  ℕ, zero, suc, ◌+◌, ◌-◌, ◌*◌, ◌/◌, ◌≡◌, ◌≢◌, ◌<◌, refl, Bool, true, false, not, ◌&&◌, ◌||◌, Option,
  none, some, List, [], ◌∷◌, ltb, leb, ◌==◌, if◌then◌else◌, arith, get_elem?,
}
use lxos.Libc.Memory.{put, put32, get32}
use lxos.Drivers.Device.{Data}
use lxos.Fs.Volume.{Volume, readsb}
use lxos.Fs.Inodes.{put16}
use lxos.Fs.Directories.{t_dir, t_file, rootino, dirsiz, dirent_size}
use lxos.Utils.Mkfs.{
  Image, xshort, xint, fssize, nmeta, superblock, put_superblock, zeroes, wsect, inoalloc, iappend,
  rinode, winode, balloc,
}

-- An argument of the program: its name before the terminating zero, whether it can be opened, and
-- what each read delivers, up to BSIZE bytes, until the one that delivers none.
pub record HostFile : Type 0 where
  pub name : List ℕ
  pub opens : Bool
  pub reads : List (Data × ℕ)

-- `index(argv[i], '/') != 0`
unfoldable pub has_slash : List ℕ → Bool
has_slash [] = false
has_slash (c ∷ cs) = c == 47 || has_slash cs

-- `if(argv[i][0] == '_') ++argv[i]`
unfoldable pub without_underscore : List ℕ → List ℕ
without_underscore [] = []
without_underscore (c ∷ cs) = if c == 95 then cs else c ∷ cs

-- a character of a name, or a zero behind its end
abbrev pub char_at : List ℕ → ℕ → ℕ
char_at cs i = elim (get_elem? cs i) [ none ↦ 0 | some c ↦ c ]

-- strncpy into `de.name` and the number of `de`, in zeroes
unfoldable pub new_entry : (inum : ℕ) → (name : List ℕ) → Data
new_entry inum name =
    put16 (λ i. if leb 2 i && ltb i (2 + dirsiz) then char_at name (i - 2) else 0) 0 (xshort inum)

module _ (fails : (sec : ℕ) → Bool) where
  -- `for(i = 0; i < FSSIZE; i++) wsect(i, zeroes)`
  unfoldable pub clear_image : ℕ → (i : ℕ) → Image → Option Image
  clear_image zero i s = some s
  clear_image (suc rounds) i s = elim (wsect fails i zeroes s) [
    | none ↦ none
    | some s1 ↦ clear_image rounds (i + 1) s1
  ]

  -- main up to the superblock
  unfoldable pub format : Image → Option Image
  format s = elim (clear_image fssize 0 (record s { sb = superblock; freeblock = nmeta })) [
    | none ↦ none
    | some s1 ↦ wsect fails 1 (put_superblock s1.sb) s1
  ]

  -- the root directory with its two entries; the assertion is that it is inode ROOTINO
  unfoldable pub make_root : Image → Option Image
  make_root s = elim (inoalloc fails t_dir s) [
    | none ↦ none
    | some (root, s1) ↦ elim (root == rootino) [
      | false ↦ none
      | true ↦ elim (iappend fails root (new_entry root (46 ∷ [])) dirent_size s1) [
        | none ↦ none
        | some s2 ↦ iappend fails root (new_entry root (46 ∷ 46 ∷ [])) dirent_size s2
      ]
    ]
  ]

  -- `while((cc = read(fd, buf, sizeof(buf))) > 0) iappend(inum, buf, cc)`
  unfoldable pub append_reads : (inum : ℕ) → List (Data × ℕ) → Image → Option Image
  append_reads inum [] s = some s
  append_reads inum (r ∷ rs) s = elim (iappend fails inum r.0 r.1 s) [
    | none ↦ none
    | some s1 ↦ append_reads inum rs s1
  ]

  -- a file of the host, and its entry in the root directory
  unfoldable pub add_file : HostFile → Image → Option Image
  add_file f s = elim (has_slash f.name || not f.opens) [
    | true ↦ none
    | false ↦ elim (inoalloc fails t_file s) [
      | none ↦ none
      | some (inum, s1) ↦
          elim (iappend fails rootino (new_entry inum (without_underscore f.name)) dirent_size s1) [
            | none ↦ none
            | some s2 ↦ append_reads inum f.reads s2
          ]
    ]
  ]

  unfoldable pub add_files : List HostFile → Image → Option Image
  add_files [] s = some s
  add_files (f ∷ fs) s = elim (add_file f s) [ none ↦ none | some s1 ↦ add_files fs s1 ]

  -- the size of the root directory becomes a number of whole blocks
  unfoldable pub round_root : Image → Option Image
  round_root s = elim (rinode fails rootino s) [
    | none ↦ none
    | some din ↦
        let off = (xint (get32 din 8) / 512 + 1) * 512 in
        winode fails rootino (put32 din 8 (xint off)) s
  ]

  -- main, for the arguments behind the image's name
  unfoldable pub make_image : List HostFile → Image → Option Image
  make_image files s = elim (format s) [
    | none ↦ none
    | some s1 ↦ elim (make_root s1) [
      | none ↦ none
      | some s2 ↦ elim (add_files files s2) [
        | none ↦ none
        | some s3 ↦ elim (round_root s3) [ none ↦ none | some s4 ↦ balloc fails s4.freeblock s4 ]
      ]
    ]
  ]

-- the sectors from `i` on are cleared, the rest of the image stays
clear_image-Cleared :
    (fails : ℕ → Bool) (rounds i : ℕ) (s : Image)
    → ((sec : ℕ) → fails sec ≡ false)
    → (f : ℕ → Data) × (clear_image fails rounds i s ≡ some (record s { sector = f }))
      × ((sec : ℕ) → f sec ≡ (if leb i sec && ltb sec (i + rounds) then zeroes else s.sector sec))
unfolding clear_image wsect
clear_image-Cleared fails zero i s works = (s.sector, refl, λ sec. ground arith)
clear_image-Cleared fails (suc rounds) i s works =
    let s1 : Image = record s { sector = λ k. if k == i then zeroes else s.sector k } in
    let (f, e, cleared) = clear_image-Cleared fails rounds (i + 1) s1 works in
    (f, rw (clear_image, works i) e, λ sec. ground (arith, cleared sec))

-- The image behind the first part of main: what the kernel's readsb finds there is the layout.
pub record Formatted (s' : Image) : Type 0 where
  pub layout :
      (vol : Volume) (dev : ℕ)
      → vol.block dev ≡ s'.sector
      → readsb dev vol ≡ record {
        size = 1000;
        nblocks = 941;
        ninodes = 200;
        nlog = 30;
        logstart = 2;
        inodestart = 32;
        bmapstart = 58;
      }
  pub first_free : s'.freeblock ≡ 59
  pub cleared : (sec : ℕ) → sec < 1000 → sec ≢ 1 → s'.sector sec ≡ zeroes

readsb-put_superblock :
    (vol : Volume) (dev : ℕ) (f : ℕ → Data)
    → vol.block dev ≡ f
    → f 1 ≡ put_superblock superblock
    → readsb dev vol ≡ superblock
unfolding readsb
readsb-put_superblock vol dev f same here = rw (readsb, same, here) computed
  where
    computed :
        record {
          size = get32 (put_superblock superblock) 0;
          nblocks = get32 (put_superblock superblock) 4;
          ninodes = get32 (put_superblock superblock) 8;
          nlog = get32 (put_superblock superblock) 12;
          logstart = get32 (put_superblock superblock) 16;
          inodestart = get32 (put_superblock superblock) 20;
          bmapstart = get32 (put_superblock superblock) 24;
        }
        ≡ superblock
    computed = unfold put_superblock get32 put32 put in refl

-- The first part of the image builder's main, when the host writes every sector, leaves an image
-- whose superblock the kernel reads as 1000 blocks with 941 of data and 200 inodes, the inodes from
-- block 32 on and the bitmap in block 58; the first free block is the 59th, behind all of them, and
-- every other sector is cleared.
pub format-Formatted :
    (fails : ℕ → Bool) (s : Image)
    → ((sec : ℕ) → fails sec ≡ false)
    → (s' : Image) × (format fails s ≡ some s') × Formatted s'
unfolding format wsect
format-Formatted fails s works =
    let start : Image = record s { sb = superblock; freeblock = nmeta } in
    let (f, e, cleared) = clear_image-Cleared fails fssize 0 start works in
    (
      record start { sector = λ k. if k == 1 then put_superblock superblock else f k },
      rw (format, e, works 1) refl,
      record {
        layout = λ vol dev same. readsb-put_superblock vol dev _ same refl;
        first_free = refl;
        cleared = λ sec lt ne. ground (arith, cleared sec);
      },
    )

-- ===== src/Tests/Files.antt =====
-- A volume of ten blocks: the superblock in block 1, the bitmap in block 2, the inodes in block 3, a
-- file in block 4 and a directory with one entry, "a", in block 5.
use lxos.Base.{
  ℕ, ◌+◌, ◌-◌, ◌≡◌, ◌≢◌, ◌<◌, ◌⊎◌, inl, inr, refl, ap, Bool, true, false, Option, none, some, [],
  ◌==◌, if◌then◌else◌, arith,
}
use lxos.Libc.Memory.{Memory, within, get32}
use lxos.Drivers.Device.{Data}
use lxos.Fs.Volume.{Superblock, Inode, Volume, minus_one, bblock, readsb, balloc, bfree}
use lxos.Fs.Volume.Bitmap.{used}
use lxos.Fs.Volume.Allocation
use lxos.Fs.Inodes.{iget, iupdate, ilock}
use lxos.Fs.Inodes.Slots.{Got, iget-Got}
use lxos.Fs.Inodes.Search.{IsSlot, IsUnique, holds}
use lxos.Fs.Inodes.Images.{image, ilock-iupdate}
use lxos.Fs.Inodes.Fields.{IsInode, SameFields}
use lxos.Fs.Content.{Operation, readi, writei}
use lxos.Fs.Content.Mapping.{IsMapped}
use lxos.Fs.Content.Reading.{filled, with_mem, readi-filled}
use lxos.Fs.Content.Ranges.{IsSeparate}
use lxos.Fs.Content.Update.{IsOutside, Updated, writei-Updated, readi-writei}
use lxos.Fs.Directories.{dirlookup, skipelem}
use lxos.Fs.Directories.Lookup.{IsDirectory, Looked, first_entry, dirlookup-Looked}
use lxos.Fs.Directories.Elements.{IsPath, with_name, skipelem-IsPath}

abbrev small_superblock : Superblock
small_superblock = record {
  size = 10;
  nblocks = 4;
  ninodes = 8;
  nlog = 0;
  logstart = 0;
  inodestart = 3;
  bmapstart = 2;
}

abbrev bytes : ℕ → Data
bytes b i =
    if b == 1
    then (if i == 0
        then 10
        else if i == 4
        then 4
        else if i == 8
        then 8
        else if i == 20
        then 3
        else if i == 24
        then 2
        else 0)
    else if b == 2
    then (if i == 0 then 63 else 0)
    else if b == 4
    then i + 65
    else if b == 5
    then (if i == 0 then 2 else if i == 2 then 97 else 0)
    else 0

abbrev slot : (inum ref : ℕ) → Bool → (itype size addr : ℕ) → Inode
slot inum ref valid itype size addr = record {
  dev = 1;
  inum = inum;
  ref = ref;
  valid = valid;
  itype = itype;
  major = 0;
  minor = 0;
  nlink = 1;
  size = size;
  addrs = (λ i. if i == 0 then addr else 0);
}

-- the path "/a" at 100, and the name "a" at 300
abbrev pub memory : Memory
memory a = if a == 100 then 47 else if a == 101 then 97 else if a == 300 then 97 else 0

-- the root in slot 1, the file in slot 2, and slot 3 for the file, too, but not valid
abbrev pub volume : Volume
volume = record {
  block = (λ d b. bytes b);
  sb = small_superblock;
  inode = (λ p.
      if p == 1
      then slot 1 1 true 1 16 5
      else if p == 2
      then slot 2 1 true 2 3 4
      else if p == 3
      then slot 2 0 false 0 0 0
      else slot 0 0 false 0 0 0);
  mem = memory;
  log = [];
}

abbrev pub no_devices : ℕ → Option Operation
no_devices n = none

bitmap_in_use : (b : ℕ) → b < 10 → used volume 1 (bblock b small_superblock) ≢ 0
bitmap_in_use b lt =
    let here : bblock b small_superblock ≡ 2 = omega arith in
    λ z. absurd (omega (arith, ap (λ c. used volume 1 c) here, z))

balloc-Allocated_example :
    Allocation.Allocated 1 (balloc 1 volume).0 volume (balloc 1 volume).1
    ⊎ (((balloc 1 volume).0 ≡ minus_one)
        × ((balloc 1 volume).1.block ≡ volume.block)
        × ((c : ℕ) → c < 10 → used volume 1 c ≢ 0))
balloc-Allocated_example = Allocation.balloc-Allocated 1 volume bitmap_in_use

same_superblock : readsb 1 volume ≡ small_superblock
unfolding readsb get32
same_superblock = refl

bfree-Freed_example : Allocation.Freed 1 5 volume (bfree 1 5 volume)
bfree-Freed_example = Allocation.bfree-Freed 1 5 volume same_superblock

volume-IsUnique : IsUnique volume
volume-IsUnique p q slot_p slot_q in_use same = ground arith

iget-Got_example :
    ((p : ℕ) × (s' : Volume) × (iget 1 2 volume ≡ some (p, s')) × Got 1 2 p volume s')
    ⊎ ((iget 1 2 volume ≡ none)
        × ((p : ℕ) → IsSlot p → ((volume.inode p).ref ≢ 0) × (holds 1 2 (volume.inode p) ≡ false)))
iget-Got_example = iget-Got 1 2 volume volume-IsUnique

file-IsInode : IsInode (slot 2 1 true 2 3 4)
file-IsInode = record {
  itype = omega arith;
  major = omega arith;
  minor = omega arith;
  nlink = omega arith;
  size = omega arith;
  addrs = λ i lt. ground arith;
}

ilock-iupdate_example :
    SameFields (volume.inode 2) ((ilock 3 (iupdate 2 volume)).inode 3)
    × (((ilock 3 (iupdate 2 volume)).inode 3).valid ≡ true)
    × ((dev inum : ℕ) (w : Inode)
        → (dev ≢ 1) ⊎ (inum ≢ 2)
        → SameFields (image volume dev inum w) (image (iupdate 2 volume) dev inum w))
ilock-iupdate_example = ilock-iupdate 2 3 volume file-IsInode refl refl refl

pub file-IsMapped : IsMapped volume 2 1
file-IsMapped = record {
  fits = omega arith;
  blocks = λ bn lt. ground arith;
  indirect = λ lt. absurd (omega arith);
}

file-IsSeparate : IsSeparate volume 2 1
file-IsSeparate = record {
  distinct = λ a b lt lt' e. omega (arith, lt, lt');
  apart = λ lt. absurd (omega arith);
}

file-IsOutside : IsOutside volume 2 1
file-IsOutside = record { blocks = λ bn lt. ground arith; indirect = λ lt. absurd (omega arith) }

readi-filled_example :
    readi no_devices 2 1000 1 5 volume ≡ (2, with_mem (filled volume 2 1000 1 2 memory) volume)
readi-filled_example =
    readi-filled no_devices 2 1000 1 5 1 volume (omega arith) file-IsMapped (omega arith)
      (omega arith) (omega arith)

writei-Updated_example :
    ((writei no_devices 2 100 2 3 volume).0 ≡ 3)
    × Updated volume 2 100 2 3 1 (writei no_devices 2 100 2 3 volume).1
writei-Updated_example =
    writei-Updated no_devices 2 100 2 3 1 volume (omega arith) file-IsMapped file-IsSeparate
      file-IsOutside (omega arith) (omega arith)

readi-writei_example :
    ((readi no_devices 2 1000 2 3 (writei no_devices 2 100 2 3 volume).1).0 ≡ 3)
    × ((a : ℕ)
        → (readi no_devices 2 1000 2 3 (writei no_devices 2 100 2 3 volume).1).1.mem a
          ≡ (if within 1000 3 a then memory (100 + (a - 1000)) else memory a))
readi-writei_example =
    readi-writei no_devices 2 100 1000 2 3 1 volume (omega arith) file-IsMapped file-IsSeparate
      file-IsOutside (omega arith) (omega arith) (omega arith) (omega arith)

root-IsDirectory : IsDirectory volume 1 300 400 1
root-IsDirectory = record {
  dir = refl;
  mapped = record {
    fits = omega arith;
    blocks = λ bn lt. ground arith;
    indirect = λ lt. absurd (omega arith);
  };
  sized = omega arith;
  whole = refl;
  apart = inl (omega arith);
}

dirlookup-Looked_example :
    Looked volume 1 0 400 (first_entry 3 volume 1 300 0) (dirlookup no_devices 1 300 0 400 volume)
dirlookup-Looked_example = dirlookup-Looked no_devices volume 1 300 0 400 1 root-IsDirectory

sample-IsPath : IsPath memory 100 1 1 0
sample-IsPath = record {
  slashes = λ i lt. ground arith;
  some_byte = omega arith;
  element = λ i lt. (ground arith, ground arith);
  stop = inr refl;
  trailing = λ i lt. absurd (omega (arith, lt));
  rest = omega arith;
}

skipelem-IsPath_example :
    (m' : Memory) × (skipelem 10 100 200 memory ≡ some (102, m'))
    × ((a : ℕ) → m' a ≡ with_name memory 200 101 1 a)
skipelem-IsPath_example =
    skipelem-IsPath 10 100 200 memory 1 1 0 sample-IsPath (omega arith) (inr (omega arith))

-- ===== src/Fs/Directories.antt =====
-- Directories and paths in fs/fs.c: dirlookup and dirlink over the entries of a directory's file,
-- skipelem and namex over a path. The local variable `de` stands at an address that the caller of
-- the model names, and `name` of namei does too.
pub mod Lookup
pub mod Elements
use lxos.Base.{
  ℕ, zero, suc, ◌+◌, ◌-◌, ◌*◌, ◌/◌, ◌%◌, Bool, true, false, not, ◌&&◌, ◌||◌, Option, none, some,
  ltb, leb, ◌==◌, if◌then◌else◌,
}
use Prim.Native.String.{String}
use lxos.Base.Int.{ℤ, pos, negsuc}
use lxos.Libc.Memory.{Ptr, Memory, put, put32, memmove}
use lxos.Libc.Strings.{strncmp, strncpy}
use lxos.Fs.Volume.{Volume, minus_one, kprint}
use lxos.Fs.Inodes.{put16, get16, iget, idup, ilock, iunlock}
use lxos.Fs.Content.{Operation, readi, writei, iput, iunlockput}

abbrev pub t_dir : ℕ
t_dir = 1

abbrev pub t_file : ℕ
t_file = 2

abbrev pub dirsiz : ℕ
dirsiz = 14

-- `sizeof(struct dirent)`
abbrev pub dirent_size : ℕ
dirent_size = 16

abbrev pub rootdev : ℕ
rootdev = 1

abbrev pub rootino : ℕ
rootino = 1

abbrev pub is_zero : ℤ → Bool
is_zero (pos n) = n == 0
is_zero (negsuc n) = false

abbrev pub namecmp : (s t : Ptr) → Memory → ℤ
namecmp s t m = strncmp s t dirsiz m

abbrev pub warn : Bool → String → Volume → Volume
warn test text s = if test then kprint text s else s

-- `*poff = off`, unless `poff` is null
abbrev pub put_offset : (poff : Ptr) → (off : ℕ) → Volume → Volume
put_offset poff off s = if poff == 0 then s else record s { mem = put32 s.mem poff off }

module _ (table : ℕ → Option Operation) where
  -- `readi(dp, (char*)&de, off, sizeof(de))`, with the complaint about a short read
  unfoldable pub read_entry : Ptr → (de off : ℕ) → String → Volume → Volume
  read_entry dp de off text s =
      let (k, s1) = readi table dp de off dirent_size s in warn (not (k == dirent_size)) text s1

  unfoldable pub dirlookup_loop :
      ℕ → (off : ℕ) → Ptr → (name poff de : Ptr) → Volume → Option (Ptr × Volume)
  dirlookup_loop zero off dp name poff de s = some (0, s)
  dirlookup_loop (suc rounds) off dp name poff de s =
      let s1 = read_entry dp de off "dirlookup read" s in
      let rest = dirlookup_loop rounds (off + dirent_size) dp name poff de s1 in
      let inum = get16 s1.mem de in
      let found = iget (s1.inode dp).dev inum (put_offset poff off s1) in
      if ltb off (s.inode dp).size
      then (if not (inum == 0) && is_zero (namecmp name (de + 2) s1.mem) then found else rest)
      else some (0, s)

  -- A round for each entry, and the test that ends the loop.
  unfoldable pub dirlookup : Ptr → (name poff de : Ptr) → Volume → Option (Ptr × Volume)
  dirlookup dp name poff de s =
      dirlookup_loop ((s.inode dp).size / dirent_size + 2) 0 dp name poff de
        (warn (not ((s.inode dp).itype == t_dir)) "dirlookup not DIR" s)

  -- the loop of dirlink: the offset of the first entry that is free, or the end
  unfoldable pub free_entry : ℕ → (off : ℕ) → Ptr → (de : Ptr) → Volume → ℕ × Volume
  free_entry zero off dp de s = (off, s)
  free_entry (suc rounds) off dp de s =
      let s1 = read_entry dp de off "dirlink read" s in
      let rest = free_entry rounds (off + dirent_size) dp de s1 in
      if ltb off (s.inode dp).size
      then (if get16 s1.mem de == 0 then (off, s1) else rest)
      else (off, s)

  unfoldable pub dirlink :
      Ptr → (name : Ptr) → (inum : ℕ) → (de : Ptr) → Volume → Option (ℕ × Volume)
  dirlink dp name inum de s = elim (dirlookup dp name 0 de s) [
    | none ↦ none
    | some (ip, s1) ↦
        let (off, s2) = free_entry ((s1.inode dp).size / dirent_size + 2) 0 dp de s1 in
        let s3 = record s2 {
          mem = put16 (strncpy (de + 2) name dirsiz s2.mem) de (inum % 65536);
        } in
        let (k, s4) = writei table dp de off dirent_size s3 in
        if ip == 0
        then some (0, warn (not (k == dirent_size)) "dirlink" s4)
        else some (minus_one, iput ip s1)
  ]

-- `while(*path == '/') path++`
unfoldable pub skip_slashes : ℕ → Ptr → Memory → Option Ptr
skip_slashes zero path m = none
skip_slashes (suc fuel) path m =
    let rest = skip_slashes fuel (path + 1) m in if m path == 47 then rest else some path

-- `while(*path != '/' && *path != 0) path++`
unfoldable pub skip_name : ℕ → Ptr → Memory → Option Ptr
skip_name zero path m = none
skip_name (suc fuel) path m =
    let rest = skip_name fuel (path + 1) m in
    if m path == 47 || m path == 0 then some path else rest

-- the element's name, cut at DIRSIZ bytes; a shorter one is ended by a zero
unfoldable pub copy_name : (name s : Ptr) → (len : ℕ) → Memory → Memory
copy_name name s len m =
    if leb dirsiz len then memmove name s dirsiz m else put (memmove name s len m) (name + len) 0

-- the rest of the path behind its first element, or null when there is none
unfoldable pub skipelem : ℕ → (path name : Ptr) → Memory → Option (Ptr × Memory)
skipelem fuel path name m = elim (skip_slashes fuel path m) [
  | none ↦ none
  | some s ↦ if m s == 0 then some (0, m) else elim (skip_name fuel s m) [
    | none ↦ none
    | some e ↦
        let m' = copy_name name s (e - s) m in
        elim (skip_slashes fuel e m') [ none ↦ none | some rest ↦ some (rest, m') ]
  ]
]

module _ (table : ℕ → Option Operation) (fuel : ℕ) (parent : Bool) (name de : Ptr) where
  -- the loop of namex, from the inode `ip` on
  unfoldable pub namex_loop : ℕ → (ip path : Ptr) → Volume → Option (Ptr × Volume)
  namex_loop zero ip path s = none
  namex_loop (suc rounds) ip path s = elim (skipelem fuel path name s.mem) [
    | none ↦ none
    | some (rest, m) ↦
        let s0 = record s { mem = m } in
        let s1 = ilock ip s0 in
        let deeper : Option (Ptr × Volume) = elim (dirlookup table ip name 0 de s1) [
          | none ↦ none
          | some (next, s2) ↦ elim (next == 0) [
            | true ↦ some (0, iunlockput ip s2)
            | false ↦ namex_loop rounds next rest (iunlockput ip s2)
          ]
        ] in
        if rest == 0
        then (if parent then some (0, iput ip s0) else some (ip, s0))
        else if not ((s1.inode ip).itype == t_dir)
        then some (0, iunlockput ip s1)
        else if parent && m rest == 0
        then some (ip, iunlock ip s1)
        else deeper
  ]

  -- `cwd` is the directory of the current process
  unfoldable pub namex : (cwd path : Ptr) → Volume → Option (Ptr × Volume)
  namex cwd path s =
      if s.mem path == 47
      then elim (iget rootdev rootino s) [
        | none ↦ none
        | some (ip, s1) ↦ namex_loop fuel ip path s1
      ]
      else namex_loop fuel cwd path (idup cwd s)

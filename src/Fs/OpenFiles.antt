-- ===== src/Fs/OpenFiles.antt =====
-- The table of open files of fs/file.c. `&ftable.file[i]` is the pointer `i + 1`.
pub mod Table
pub mod Transfer
use lxos.Base.{
  ℕ, zero, suc, ◌+◌, ◌-◌, ◌*◌, ◌%◌, ◌^◌, Bool, true, false, not, ◌&&◌, ◌||◌, Option, none, some,
  ltb, leb, ◌==◌, if◌then◌else◌,
}
use lxos.Libc.Memory.{Ptr}
use lxos.Fs.Volume.{Volume, minus_one, kprint}
use lxos.Fs.Inodes.{positive, ilock, iunlock}
use lxos.Fs.Content.{Operation, Stat, stati, readi, writei, iput, min}

pub data FileType : Type 0 where
  fd_none : FileType
  fd_pipe : FileType
  fd_inode : FileType

pub record File : Type 0 where
  pub ftype : FileType
  pub ref : ℕ
  pub readable : Bool
  pub writable : Bool
  pub ip : Ptr
  pub off : ℕ

pub record Files : Type 0 where
  pub file : Ptr → File
  pub vol : Volume

abbrev pub nfile : ℕ
nfile = 100

abbrev pub is_inode : FileType → Bool
is_inode fd_none = false
is_inode fd_pipe = false
is_inode fd_inode = true

abbrev pub set_file : Ptr → File → Files → Files
set_file f v s = record s { file = (λ q. if q == f then v else s.file q) }

abbrev pub set_vol : Volume → Files → Files
set_vol vol s = record s { vol = vol }

unfoldable pub filealloc_loop : ℕ → (f : Ptr) → Files → Ptr × Files
filealloc_loop zero f s = (0, s)
filealloc_loop (suc rounds) f s =
    let rest = filealloc_loop rounds (f + 1) s in
    if (s.file f).ref == 0 then (f, set_file f (record (s.file f) { ref = 1 }) s) else rest

-- the file, or null when all are in use
unfoldable pub filealloc : Files → Ptr × Files
filealloc s = filealloc_loop nfile 1 s

unfoldable pub filedup : Ptr → Files → Files
filedup f s = set_file f (record (s.file f) { ref = ((s.file f).ref + 1) % 2 ^ 32 }) s

unfoldable pub fileclose : Ptr → Files → Files
fileclose f s =
    let v = s.file f in
    let ref = (v.ref + 4294967295) % 2 ^ 32 in
    let closed = set_file f (record v { ref = 0; ftype = fd_none }) s in
    if positive ref
    then set_file f (record v { ref = ref }) s
    else if is_inode v.ftype
    then set_vol (iput v.ip s.vol) closed
    else closed

-- the result 0 with the status, or -1
unfoldable pub filestat : Ptr → Files → Option Stat × Files
filestat f s =
    let v = s.file f in
    let s1 = ilock v.ip s.vol in
    if is_inode v.ftype then (some (stati v.ip s1), set_vol (iunlock v.ip s1) s) else (none, s)

-- `if(r > 0) f->off += r`
abbrev pub advance : Ptr → (r : ℕ) → Files → Files
advance f r s =
    set_file f
      (record (s.file f) {
        off = (if positive r then ((s.file f).off + r) % 2 ^ 32 else (s.file f).off);
      })
      s

module _ (table : ℕ → Option Operation) where
  unfoldable pub fileread : Ptr → (addr : Ptr) → (n : ℕ) → Files → ℕ × Files
  fileread f addr n s =
      let v = s.file f in
      let (r, vol) = readi table v.ip addr v.off n (ilock v.ip s.vol) in
      if not v.readable
      then (minus_one, s)
      else if is_inode v.ftype
      then (r, set_vol (iunlock v.ip vol) (advance f r s))
      else (minus_one, set_vol (kprint "fileread" s.vol) s)

  -- `((MAXOPBLOCKS-1-1-2) / 2) * 512`
  abbrev pub max_write : ℕ
  max_write = 1536

  -- one round of filewrite: the result of writei, and the state
  unfoldable pub write_round : Ptr → (addr : Ptr) → (n1 : ℕ) → Files → ℕ × Files
  write_round f addr n1 s =
      let v = s.file f in
      let (r, vol) = writei table v.ip addr v.off n1 (ilock v.ip s.vol) in
      (r, set_vol (iunlock v.ip vol) (advance f r s))

  -- The loop of filewrite: the last `i`. A negative `n` ends it at once. A round writes a byte or more,
  -- or ends the loop; only a device can write none.
  unfoldable pub filewrite_loop : ℕ → (i n : ℕ) → Ptr → (addr : Ptr) → Files → Option (ℕ × Files)
  filewrite_loop zero i n f addr s = none
  filewrite_loop (suc rounds) i n f addr s =
      let n1 = if ltb max_write (n - i) then max_write else n - i in
      let (r, s1) = write_round f (addr + i) n1 s in
      let s2 = if r == n1 then s1 else set_vol (kprint "short filewrite" s1.vol) s1 in
      let rest = filewrite_loop rounds (i + r) n f addr s2 in
      if ltb i n && ltb n 2147483648
      then (if leb 2147483648 r then some (i, s1) else rest)
      else some (i, s)

  unfoldable pub filewrite : ℕ → Ptr → (addr : Ptr) → (n : ℕ) → Files → Option (ℕ × Files)
  filewrite fuel f addr n s =
      let v = s.file f in
      if not v.writable
      then some (minus_one, s)
      else if is_inode v.ftype
      then elim (filewrite_loop fuel 0 n f addr s) [
        | none ↦ none
        | some (i, s1) ↦ some (if i == n then n else minus_one, s1)
      ]
      else some (minus_one, set_vol (kprint "filewrite" s.vol) s)

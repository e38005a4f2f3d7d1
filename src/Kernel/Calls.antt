-- ===== src/Kernel/Calls.antt =====
-- The system calls of kernel/calls.c on files. The state is the table of open files with the file
-- system and the memory behind it, and the fields of the current process that the calls use. A
-- result -1 is the number `minus_one`. A call that goes through a null pointer, or whose path does not
-- end within the fuel, is `none`.
pub mod Descriptors
pub mod Opening
pub mod Safety
use lxos.Base.{
  ℕ, zero, suc, ◌+◌, ◌-◌, ◌*◌, ◌/◌, ◌%◌, ◌^◌, Bool, true, false, not, ◌&&◌, ◌||◌, Option, none,
  some, List, [], ◌∷◌, ltb, leb, ◌==◌, if◌then◌else◌,
}
use lxos.Libc.Memory.{Ptr, Memory, put32}
use lxos.Fs.Volume.{Inode, Volume, minus_one, kprint}
use lxos.Fs.Inodes.{set_inode, ialloc, iupdate, ilock, iunlock, put16}
use lxos.Fs.Content.{t_dev, Operation, Stat, iunlockput}
use lxos.Fs.Directories.{dirlookup, dirlink, namex, t_dir, t_file}
use lxos.Fs.OpenFiles.{
  File, Files, fd_inode, set_file, set_vol, filealloc, fileclose, fileread, filewrite, filestat,
}
use lxos.Kernel.Syscall.{Task, argint, argptr, argstr, getint, getstr, is_negative}

pub record Calls : Type 0 where
  pub files : Files
  pub sz : ℕ
  pub esp : ℕ
  pub ofile : ℕ → Ptr
  pub cwd : Ptr

abbrev pub nofile : ℕ
nofile = 16

-- the process as the fetch of its arguments sees it
abbrev pub task : Calls → Task
task s = record { mem = s.files.vol.mem; sz = s.sz; esp = s.esp }

abbrev pub with_files : Files → Calls → Calls
with_files files s = record s { files = files }

abbrev pub with_vol : Volume → Calls → Calls
with_vol vol s = with_files (set_vol vol s.files) s

abbrev pub set_ofile : ℕ → Ptr → Calls → Calls
set_ofile fd f s = record s { ofile = (λ i. if i == fd then f else s.ofile i) }

unfoldable pub fdalloc_loop : ℕ → (fd : ℕ) → Ptr → Calls → ℕ × Calls
fdalloc_loop zero fd f s = (minus_one, s)
fdalloc_loop (suc rounds) fd f s =
    let rest = fdalloc_loop rounds (fd + 1) f s in
    if s.ofile fd == 0 then (fd, set_ofile fd f s) else rest

unfoldable pub fdalloc : Ptr → Calls → ℕ × Calls
fdalloc f s = fdalloc_loop nofile 0 f s

-- the descriptor and its file, or `none` for the result -1
unfoldable pub argfd : ℕ → Calls → Option (ℕ × Ptr)
argfd n s = elim (argint n (task s)) [
  | none ↦ none
  | some fd ↦
      if is_negative fd || leb nofile fd
      then none
      else if s.ofile fd == 0
      then none
      else some (fd, s.ofile fd)
]

-- the bits of `omode`
abbrev pub is_wronly : ℕ → Bool
is_wronly omode = omode % 2 == 1

abbrev pub is_rdwr : ℕ → Bool
is_rdwr omode = omode / 2 % 2 == 1

abbrev pub is_create : ℕ → Bool
is_create omode = omode / 512 % 2 == 1

-- `r < 0`
abbrev pub failed : ℕ → Bool
failed r = leb 2147483648 r

-- `dp->nlink++` on the short, and iupdate
unfoldable pub raise_nlink : Ptr → Volume → Volume
raise_nlink dp s =
    iupdate dp (set_inode dp (record (s.inode dp) { nlink = ((s.inode dp).nlink + 1) % 65536 }) s)

-- the fields of a new inode
unfoldable pub init_inode : Ptr → (major minor : ℕ) → Volume → Volume
init_inode ip major minor s = iupdate ip (
    set_inode ip (record (s.inode ip) { major = major % 65536; minor = minor % 65536; nlink = 1 })
      s)

-- create where the name is there: the file, locked, or null
unfoldable pub reuse_inode : (dp ip : Ptr) → (itype : ℕ) → Volume → Ptr × Volume
reuse_inode dp ip itype s =
    let s1 = ilock ip (iunlockput dp s) in
    if itype == t_file && (s1.inode ip).itype == t_file then (ip, s1) else (0, iunlockput ip s1)

-- the second part of sys_open: the file and the descriptor
unfoldable pub open_file : (ip : Ptr) → (omode : ℕ) → Calls → ℕ × Calls
open_file ip omode s =
    let (f, files) = filealloc s.files in
    let s1 = with_files files s in
    let (fd, s2) = fdalloc f s1 in
    let closed = with_files (fileclose f s1.files) s1 in
    let v : File = record (s2.files.file f) {
      ftype = fd_inode;
      ip = ip;
      off = 0;
      readable = not (is_wronly omode);
      writable = is_wronly omode || is_rdwr omode;
    } in
    if f == 0
    then (minus_one, with_vol (iunlockput ip s1.files.vol) s1)
    else if failed fd
    then (minus_one, with_vol (iunlockput ip closed.files.vol) closed)
    else (fd, with_files (set_file f v (set_vol (iunlock ip s2.files.vol) s2.files)) s2)

-- `table` is devsw. The local variables of the calls and the strings "." and ".." stand at addresses
-- that the compiler chooses.
module _ (table : ℕ → Option Operation) (fuel : ℕ) (name de off dot dotdot : Ptr) where
  unfoldable pub namei : (path : Ptr) → Calls → Option (Ptr × Volume)
  namei path s = namex table fuel false name de s.cwd path s.files.vol

  unfoldable pub nameiparent : (path : Ptr) → Calls → Option (Ptr × Volume)
  nameiparent path s = namex table fuel true name de s.cwd path s.files.vol

  -- create's entries of a new directory; the second one is not tried when the first one fails
  unfoldable pub link_dots : (dp ip : Ptr) → Volume → Option Volume
  link_dots dp ip s = elim (dirlink table ip dot (s.inode ip).inum de s) [
    | none ↦ none
    | some (r, s1) ↦ elim (failed r) [
      | true ↦ some (kprint "create dots" s1)
      | false ↦ elim (dirlink table ip dotdot (s1.inode dp).inum de s1) [
        | none ↦ none
        | some (r2, s2) ↦ some (if failed r2 then kprint "create dots" s2 else s2)
      ]
    ]
  ]

  -- create's last part: the entry in the parent
  unfoldable pub link_parent : (dp ip : Ptr) → Volume → Option (Ptr × Volume)
  link_parent dp ip s = elim (dirlink table dp name (s.inode ip).inum de s) [
    | none ↦ none
    | some (r, s1) ↦ some (ip, iunlockput dp (if failed r then kprint "create: dirlink" s1 else s1))
  ]

  -- create where the name is not there yet
  unfoldable pub make_inode : (dp : Ptr) → (itype major minor : ℕ) → Volume → Option (Ptr × Volume)
  make_inode dp itype major minor s = elim (ialloc (s.inode dp).dev itype s) [
    | none ↦ none
    | some (ip, s1) ↦ elim (ip == 0) [
      | true ↦ none
      | false ↦
          let s2 = init_inode ip major minor (ilock ip s1) in
          elim (itype == t_dir) [
            | false ↦ link_parent dp ip s2
            | true ↦ elim (link_dots dp ip (raise_nlink dp s2)) [
              | none ↦ none
              | some s3 ↦ link_parent dp ip s3
            ]
          ]
    ]
  ]

  unfoldable pub create : (path : Ptr) → (itype major minor : ℕ) → Calls → Option (Ptr × Volume)
  create path itype major minor s = elim (nameiparent path s) [
    | none ↦ none
    | some (dp, s1) ↦ elim (dp == 0) [
      | true ↦ some (0, s1)
      | false ↦ elim (dirlookup table dp name off de (ilock dp s1)) [
        | none ↦ none
        | some (ip, s2) ↦ elim (ip == 0) [
          | false ↦ some (reuse_inode dp ip itype s2)
          | true ↦ make_inode dp itype major minor s2
        ]
      ]
    ]
  ]

  -- the first part of sys_open: the inode, locked, or null
  unfoldable pub open_inode : (path : Ptr) → (omode : ℕ) → Calls → Option (Ptr × Volume)
  open_inode path omode s = elim (is_create omode) [
    | true ↦ create path t_file 0 0 s
    | false ↦ elim (namei path s) [
      | none ↦ none
      | some (ip, s1) ↦ elim (ip == 0) [
        | true ↦ some (0, s1)
        | false ↦
            let s2 = ilock ip s1 in
            some (
              if (s2.inode ip).itype == t_dir && not (omode == 0)
              then (0, iunlockput ip s2)
              else (ip, s2))
      ]
    ]
  ]

  unfoldable pub sys_open : Calls → Option (ℕ × Calls)
  sys_open s = elim (argstr 0 (task s)) [
    | none ↦ some (minus_one, s)
    | some (_, path) ↦ elim (argint 1 (task s)) [
      | none ↦ some (minus_one, s)
      | some omode ↦ elim (open_inode path omode s) [
        | none ↦ none
        | some (ip, vol) ↦
            some
              (if ip == 0 then (minus_one, with_vol vol s) else open_file ip omode (with_vol vol s))
      ]
    ]
  ]

  -- the last two steps of sys_mknod
  unfoldable pub make_node : (path : Ptr) → (major minor : ℕ) → Calls → Option (ℕ × Calls)
  make_node path major minor s = elim (create path t_dev (major % 65536) (minor % 65536) s) [
    | none ↦ none
    | some (ip, vol) ↦
        some (if ip == 0 then (minus_one, with_vol vol s) else (0, with_vol (iunlockput ip vol) s))
  ]

  unfoldable pub sys_mknod : Calls → Option (ℕ × Calls)
  sys_mknod s = elim (argstr 0 (task s)) [
    | none ↦ some (minus_one, s)
    | some (_, path) ↦ elim (argint 1 (task s)) [
      | none ↦ some (minus_one, s)
      | some major ↦ elim (argint 2 (task s)) [
        | none ↦ some (minus_one, s)
        | some minor ↦ make_node path major minor s
      ]
    ]
  ]

-- the three arguments of sys_read and sys_write: the file, the buffer and the count
unfoldable pub transfer_args : Calls → Option (Ptr × Ptr × ℕ)
transfer_args s = elim (argfd 0 s) [
  | none ↦ none
  | some (_, f) ↦ elim (argint 2 (task s)) [
    | none ↦ none
    | some n ↦ elim (argptr 1 n (task s)) [ none ↦ none | some p ↦ some (f, p, n) ]
  ]
]

unfoldable pub sys_write : (ℕ → Option Operation) → (fuel : ℕ) → Calls → Option (ℕ × Calls)
sys_write table fuel s = elim (transfer_args s) [
  | none ↦ some (minus_one, s)
  | some (f, p, n) ↦ elim (filewrite table fuel f p n s.files) [
    | none ↦ none
    | some (r, files) ↦ some (r, with_files files s)
  ]
]

unfoldable pub sys_read : (ℕ → Option Operation) → Calls → ℕ × Calls
sys_read table s = elim (transfer_args s) [
  | none ↦ (minus_one, s)
  | some (f, p, n) ↦ let (r, files) = fileread table f p n s.files in (r, with_files files s)
]

unfoldable pub sys_close : Calls → ℕ × Calls
sys_close s = elim (argfd 0 s) [
  | none ↦ (minus_one, s)
  | some (fd, f) ↦ let s1 = set_ofile fd 0 s in (0, with_files (fileclose f s1.files) s1)
]

-- `sizeof(struct stat)`, and the stores of stati
abbrev pub stat_size : ℕ
stat_size = 20

-- the stores of stati to the structure at `st`
unfoldable pub put_stat : Ptr → Stat → Memory → Memory
put_stat st v m =
    put32
      (put16 (put16 (put32 (put32 m (st + 4) v.dev) (st + 8) v.ino) st v.itype) (st + 12) v.nlink)
      (st + 16) v.size

unfoldable pub sys_fstat : Calls → ℕ × Calls
sys_fstat s = elim (argfd 0 s) [
  | none ↦ (minus_one, s)
  | some (_, f) ↦ elim (argptr 1 stat_size (task s)) [
    | none ↦ (minus_one, s)
    | some st ↦
        let (o, files) = filestat f s.files in
        elim o [
          | none ↦ (minus_one, with_files files s)
          | some v ↦ (
            0,
            with_files (set_vol (record files.vol { mem = put_stat st v files.vol.mem }) files) s,
          )
        ]
  ]
]

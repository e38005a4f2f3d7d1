-- ===== src/Kernel/Calls/Safety.antt =====
-- sys_read of kernel/calls.c and the bounds of the process.
use lxos.Base.{
  ℕ, ◌+◌, ◌*◌, ◌%◌, ◌≡◌, ◌≢◌, ◌<◌, ◌≤◌, ◌⊎◌, inl, inr, refl, ◌∙◌, ap, Option, some, arith,
  Option-cases,
}
use lxos.Libc.Memory.{Ptr, get32}
use lxos.Fs.Inodes.{ilock, iunlock}
use lxos.Fs.Content.{Operation, readi, t_dev}
use lxos.Fs.Content.Frame.{readi-frame, ilock-mem, iunlock-mem}
use lxos.Fs.OpenFiles.{Files, fileread}
use lxos.Kernel.Syscall.{Task, getint, argint, argptr}
use lxos.Kernel.Syscall.Arguments.{argptr-Checked}
use lxos.Kernel.Calls.{Calls, task, argfd, transfer_args, sys_read}

-- fileread writes inside the buffer alone
fileread-frame :
    (table : ℕ → Option Operation) (f addr n : ℕ) (s : Files) (a : Ptr)
    → ((ilock (s.file f).ip s.vol).inode (s.file f).ip).itype ≢ t_dev
    → (a < addr) ⊎ (addr + n ≤ a)
    → (fileread table f addr n s).1.vol.mem a ≡ s.vol.mem a
unfolding fileread
fileread-frame table f addr n s a plain far =
    let v = s.file f in
    let s1 = ilock v.ip s.vol in
    let (r, vol) = readi table v.ip addr v.off n s1 in
    let read : (iunlock v.ip vol).mem a ≡ s.vol.mem a =
      ap (λ m. m a) (iunlock-mem v.ip vol)
      ∙ readi-frame table v.ip addr v.off n s1 a plain far
      ∙ ap (λ m. m a) (ilock-mem v.ip s.vol) in
    ground (arith, read)

-- the three fetches behind the arguments of a transfer
record Fetched (s : Calls) (f p n : ℕ) : Type 0 where
  fd : ℕ
  file : argfd 0 s ≡ some (fd, f)
  count : argint 2 (task s) ≡ some n
  buffer : argptr 1 n (task s) ≡ some p

transfer_args-Fetched : (s : Calls) (f p n : ℕ) → transfer_args s ≡ some (f, p, n) → Fetched s f p n
unfolding transfer_args
transfer_args-Fetched s f p n e = elim (Option-cases (argfd 0 s)) [
  | inl e1 ↦ ground (arith, e, e1)
  | inr ((fd, g), e1) ↦ elim (Option-cases (argint 2 (task s))) [
    | inl e2 ↦ ground (arith, e, e1, e2)
    | inr (k, e2) ↦ elim (Option-cases (argptr 1 k (task s))) [
      | inl e3 ↦ ground (arith, e, e1, e2, e3)
      | inr (q, e3) ↦
          let all : transfer_args s ≡ some (g, q, k) = rw (transfer_args, e1, e2, e3) refl in
          let same : (f ≡ g) × (p ≡ q) × (n ≡ k) = ground (arith, all, e) in
          record {
            fd = fd;
            file = rw (same.0) e1;
            count = rw (same.2) e2;
            buffer = rw (same.1, same.2) e3;
          }
    ]
  ]
]

-- a word of bytes
argint-word :
    (k n : ℕ) (t : Task) → ((a : Ptr) → t.mem a < 256) → argint k t ≡ some n → n < 4294967296
unfolding argint getint get32
argint-word k n t bytes e =
    let q = (t.esp + 4 + 4 * k) % 4294967296 in
    ground (arith, bytes q, bytes (q + 1), bytes (q + 2), bytes (q + 3), e)

-- the buffer of a transfer lies inside the process
transfer_args-inside :
    (s : Calls) (f p n : ℕ)
    → s.sz ≤ 2147483648
    → ((a : Ptr) → s.files.vol.mem a < 256)
    → transfer_args s ≡ some (f, p, n)
    → p + n ≤ s.sz
transfer_args-inside s f p n small bytes e =
    let t = transfer_args-Fetched s f p n e in
    let word = argint-word 2 n (task s) bytes t.count in
    ((argptr-Checked 1 n (task s) small word).accepted p t.buffer).3

-- sys_read writes no byte at or above the size of the process, whatever its arguments and whatever
-- the state of the file system are: no byte of the kernel, for a process below it. The file that the
-- descriptor names is no device.
pub sys_read-safe :
    (table : ℕ → Option Operation) (s : Calls) (a : Ptr)
    → s.sz ≤ 2147483648
    → ((a : Ptr) → s.files.vol.mem a < 256)
    → ((fd f : ℕ)
        → argfd 0 s ≡ some (fd, f)
        → ((ilock (s.files.file f).ip s.files.vol).inode (s.files.file f).ip).itype ≢ t_dev)
    → s.sz ≤ a
    → (sys_read table s).1.files.vol.mem a ≡ s.files.vol.mem a
unfolding sys_read
sys_read-safe table s a small bytes plain high = elim (Option-cases (transfer_args s)) [
  | inl e ↦ rw (sys_read, e) refl
  | inr ((f, p, n), e) ↦
      rw (sys_read, e)
        (fileread-frame table f p n s.files a
          (plain (transfer_args-Fetched s f p n e).fd f (transfer_args-Fetched s f p n e).file)
          (inr (omega (arith, high, transfer_args-inside s f p n small bytes e))))
]

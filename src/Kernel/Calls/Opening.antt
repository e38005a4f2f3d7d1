-- ===== src/Kernel/Calls/Opening.antt =====
-- sys_open and sys_close of kernel/calls.c: the file and the descriptor.
use lxos.Base.{
  ℕ, ◌≡◌, ◌≢◌, ◌<◌, ◌≤◌, ◌⊎◌, inl, inr, refl, sym, ◌∙◌, ap, true, false, ◌==◌, fun_ext, arith,
  Bool-cases, ==_iff, not, ◌||◌,
}
use mathlib.Core.Path.{subst}
use lxos.Libc.Memory.{Ptr}
use lxos.Fs.Volume.{minus_one}
use lxos.Fs.Inodes.{iunlock}
use lxos.Fs.Content.{iunlockput}
use lxos.Fs.OpenFiles.{
  File, Files, fd_none, fd_inode, nfile, set_file, set_vol, filealloc, fileclose,
}
use lxos.Fs.OpenFiles.Table.{Opened, filealloc-Opened}
use lxos.Kernel.Calls.{
  Calls, nofile, with_files, with_vol, set_ofile, failed, is_wronly, is_rdwr, fdalloc, open_file,
}
use lxos.Kernel.Calls.Descriptors.{Lowest, fdalloc-Lowest}

-- A file that nobody uses has the type FD_NONE, which fileclose leaves there.
abbrev pub IsTidy : Files → Type 0
IsTidy s = (f : Ptr) → (s.file f).ref ≡ 0 → (s.file f).ftype ≡ fd_none

-- the file that sys_open makes
abbrev pub opened : (ip : Ptr) → (omode : ℕ) → File → File
opened ip omode v = record v {
  ref = 1;
  ftype = fd_inode;
  ip = ip;
  off = 0;
  readable = not (is_wronly omode);
  writable = is_wronly omode || is_rdwr omode;
}

-- What sys_open does for an inode: the lowest descriptor and the first file that were free, or nothing
-- but the release of the inode, where all files or all descriptors are in use.
abbrev pub OpenedFile : (ip : Ptr) → (omode : ℕ) → Calls → ℕ × Calls → Type 0
OpenedFile ip omode s (r, s') =
    ((f : Ptr) × (r < nofile)
      × (s.ofile r ≡ 0)
      × ((i : ℕ) → i < r → s.ofile i ≢ 0)
      × ((s.files.file f).ref ≡ 0)
      × (1 ≤ f)
      × (f ≤ nfile)
      × ((q : ℕ) → 1 ≤ q → q < f → (s.files.file q).ref ≢ 0)
      × (s'.ofile ≡ (set_ofile r f s).ofile)
      × (s'.files.file ≡ (set_file f (opened ip omode (s.files.file f)) s.files).file)
      × (s'.files.vol ≡ iunlock ip s.files.vol))
    ⊎ ((r ≡ minus_one)
        × (((q : ℕ) → 1 ≤ q → q ≤ nfile → (s.files.file q).ref ≢ 0)
            ⊎ ((i : ℕ) → i < nofile → s.ofile i ≢ 0))
        × (s'.ofile ≡ s.ofile)
        × ((f : Ptr) → (s'.files.file f).ref ≡ (s.files.file f).ref)
        × (s'.files.vol ≡ iunlockput ip s.files.vol))

open_file_full :
    (ip : Ptr) (omode : ℕ) (s : Calls)
    → filealloc s.files ≡ (0, s.files)
    → ((q : ℕ) → 1 ≤ q → q ≤ nfile → (s.files.file q).ref ≢ 0)
    → OpenedFile ip omode s (open_file ip omode s)
unfolding open_file
open_file_full ip omode s e full = rw (open_file, e) (inr (refl, inl full, refl, (λ f. refl), refl))

module _ (ip : Ptr) (omode : ℕ) (s : Calls) (p : Ptr) where
  abbrev taken : Calls
  taken = with_files (set_file p (record (s.files.file p) { ref = 1 }) s.files) s

  module _ (e : filealloc s.files ≡ (p, taken.files)) (some_file : (p == 0) ≡ false) where
    open_file_done :
        (r : ℕ)
        → fdalloc p taken ≡ (r, set_ofile r p taken)
        → r < nofile
        → open_file ip omode s ≡ (
          r,
          with_files
              (set_file p
                (opened ip omode (s.files.file p))
                (set_vol (iunlock ip s.files.vol) taken.files))
              (set_ofile r p taken),
        )
    unfolding open_file iunlock
    open_file_done r e' lt =
        let fine : failed r ≡ false = ground arith in
        let here : (p == p) ≡ true = ground arith in
        rw (open_file, e, some_file, e', fine, here) refl

    open_file_no_descriptor :
        fdalloc p taken ≡ (minus_one, taken)
        → open_file ip omode s ≡ (
          minus_one,
          with_vol
              (iunlockput ip (fileclose p taken.files).vol)
              (with_files (fileclose p taken.files) taken),
        )
    unfolding open_file fileclose iunlockput
    open_file_no_descriptor e' = rw (open_file, e, some_file, e') refl

    fileclose_taken :
        (s.files.file p).ref ≡ 0
        → (s.files.file p).ftype ≡ fd_none
        → fileclose p taken.files
          ≡ set_file p (record (s.files.file p) { ref = 0; ftype = fd_none }) taken.files
    unfolding fileclose
    fileclose_taken unused plain =
        let here : (p == p) ≡ true = ground arith in rw (fileclose, here, plain) refl

  taken_twice : (v : File) → (set_file p v taken.files).file ≡ (set_file p v s.files).file
  taken_twice v =
      fun_ext (λ q. elim (Bool-cases (q == p)) [ inl e ↦ rw e refl | inr e ↦ rw e refl ])

  closed_refs :
      (f : Ptr)
      → (s.files.file p).ref ≡ 0
      → ((set_file p (record (s.files.file p) { ref = 0; ftype = fd_none }) taken.files).file f).ref
        ≡ (s.files.file f).ref
  closed_refs f unused = elim (Bool-cases (f == p)) [
    | inl e ↦ rw e (sym unused ∙ ap (λ q. (s.files.file q).ref) (sym ((==_iff f p).0 e)))
    | inr e ↦ rw e refl
  ]

  open_file_taken :
      filealloc s.files ≡ (p, taken.files)
      → 1 ≤ p
      → p ≤ nfile
      → ((q : ℕ) → 1 ≤ q → q < p → (s.files.file q).ref ≢ 0)
      → (s.files.file p).ref ≡ 0
      → IsTidy s.files
      → OpenedFile ip omode s (open_file ip omode s)
  open_file_taken e pos last first unused tidy =
      let some_file : (p == 0) ≡ false = ground arith in
      given_descriptor (fdalloc p taken) refl (fdalloc-Lowest p taken) some_file
    where
      given_descriptor :
          (r : ℕ × Calls)
          → fdalloc p taken ≡ r
          → Lowest 0 nofile p taken r
          → (p == 0) ≡ false
          → OpenedFile ip omode s (open_file ip omode s)
      given_descriptor (r, s') e' (inl (low, lt, free, before, same)) some_file =
          subst (OpenedFile ip omode s)
            (sym (open_file_done e some_file r (e' ∙ ap (λ t. (r, t)) same) lt))
            (inl (
              p,
              lt,
              free,
              (λ i lt'. before i (omega arith) lt'),
              unused,
              pos,
              last,
              first,
              refl,
              taken_twice _,
              refl,
            ))
      given_descriptor (r, s') e' (inr (none_left, same, full)) some_file =
          subst (OpenedFile ip omode s)
            (sym (
              open_file_no_descriptor e some_file
                (e' ∙ ap (λ i. (i, s')) none_left ∙ ap (λ t. (minus_one, t)) same)
              ∙ ap
                  (λ files.
                    (minus_one, with_vol (iunlockput ip files.vol) (with_files files taken)))
                  (fileclose_taken e some_file unused (tidy p unused))))
            (inr (
              refl,
              inr (λ i lt. full i (omega arith) lt),
              refl,
              (λ f. closed_refs f unused),
              refl,
            ))

-- The second part of sys_open, for an inode, takes the first file and the lowest descriptor that are
-- free, opens the file on the inode at offset 0, for reading, writing or both as `omode` says, and
-- unlocks the inode. It returns -1 only if all NFILE files or all NOFILE descriptors are in use; then no
-- descriptor and no count of users has changed, and the inode is unlocked and put back. Files that
-- nobody uses have the type that fileclose leaves.
pub open_file-OpenedFile :
    (ip : Ptr) (omode : ℕ) (s : Calls)
    → IsTidy s.files
    → OpenedFile ip omode s (open_file ip omode s)
open_file-OpenedFile ip omode s tidy =
    given_file (filealloc s.files) refl (filealloc-Opened s.files)
  where
    given_file :
        (r : Ptr × Files)
        → filealloc s.files ≡ r
        → Opened 1 nfile s.files r
        → OpenedFile ip omode s (open_file ip omode s)
    given_file (p, files) e (inl (pos, lt, unused, before, same)) =
        open_file_taken ip omode s p (e ∙ ap (λ t. (p, t)) same) pos (omega (arith, lt)) before
          unused tidy
    given_file (p, files) e (inr (z, same, full)) =
        open_file_full ip omode s (e ∙ ap (λ t. (p, t)) same ∙ ap (λ q. (q, s.files)) z)
          (λ q h1 h2. full q h1 (omega (arith, h2)))

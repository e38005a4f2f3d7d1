-- ===== src/Kernel/Process/Exit.antt =====
-- exit of kernel/proc.c: the files and the children of the process that ends.
use lxos.Base.{
  ℕ, zero, suc, ◌+◌, ◌≡◌, ◌≢◌, ◌<◌, ◌≤◌, refl, ap, ◌==◌, if◌then◌else◌, arith, ◌&&◌, leb, ltb,
}
use lxos.Libc.Memory.{Ptr}
use lxos.Fs.Volume.{kprint}
use lxos.Fs.Content.{iput}
use lxos.Fs.OpenFiles.{fileclose}
use lxos.Kernel.Process.{Table, nproc, set_proc}
use lxos.Kernel.Calls.{Calls, nofile, set_ofile, with_files, with_vol}

-- the current process, as the system calls see it, and the table of all
pub record Exiting : Type 0 where
  pub calls : Calls
  pub table : Table

unfoldable pub close_files : ℕ → (fd : ℕ) → Calls → Calls
close_files zero fd s = s
close_files (suc rounds) fd s =
    let closed = set_ofile fd 0 (with_files (fileclose (s.ofile fd) s.files) s) in
    close_files rounds (fd + 1) (if s.ofile fd == 0 then s else closed)

-- the children of `curproc`, from `p` on, become the children of `initproc`
unfoldable pub reparent : ℕ → (p : Ptr) → (curproc initproc : Ptr) → Table → Table
reparent zero p curproc initproc t = t
reparent (suc rounds) p curproc initproc t =
    let moved = set_proc p (record (t.proc p) { parent = initproc }) t in
    reparent rounds (p + 1) curproc initproc (if (t.proc p).parent == curproc then moved else t)

unfoldable pub exit : (curproc initproc : Ptr) → Exiting → Exiting
exit curproc initproc e =
    let s0 =
      if curproc == initproc
      then with_vol (kprint "init exiting\n" e.calls.files.vol) e.calls
      else e.calls in
    let s1 = close_files nofile 0 s0 in
    let s2 : Calls = record (with_vol (iput s1.cwd s1.files.vol) s1) { cwd = 0 } in
    record { calls = s2; table = reparent nproc 1 curproc initproc e.table }

close_files-ofile :
    (rounds fd i : ℕ) (s : Calls)
    → (close_files rounds fd s).ofile i ≡ (if leb fd i && ltb i (fd + rounds) then 0 else s.ofile i)
unfolding close_files
close_files-ofile zero fd i s = ground arith
close_files-ofile (suc rounds) fd i s =
    let closed : Calls = set_ofile fd 0 (with_files (fileclose (s.ofile fd) s.files) s) in
    let here : i ≡ fd → s.ofile i ≡ s.ofile fd = λ e. ap s.ofile e in
    ground (
      arith,
      here,
      close_files-ofile rounds (fd + 1) i s,
      close_files-ofile rounds (fd + 1) i closed,
    )

reparent-parent :
    (rounds p q curproc initproc : ℕ) (t : Table)
    → ((reparent rounds p curproc initproc t).proc q).parent ≡ (
        if leb p q && ltb q (p + rounds) && (t.proc q).parent == curproc
        then initproc
        else (t.proc q).parent)
unfolding reparent
reparent-parent zero p q curproc initproc t = ground arith
reparent-parent (suc rounds) p q curproc initproc t =
    let moved : Table = set_proc p (record (t.proc p) { parent = initproc }) t in
    let here : q ≡ p → (t.proc q).parent ≡ (t.proc p).parent = λ e. ap (λ j. (t.proc j).parent) e in
    ground (
      arith,
      here,
      reparent-parent rounds (p + 1) q curproc initproc t,
      reparent-parent rounds (p + 1) q curproc initproc moved,
    )

-- what exit leaves of the process: nothing open, no directory, and no children
pub record Released (curproc initproc : Ptr) (e e' : Exiting) : Type 0 where
  pub files : (fd : ℕ) → fd < nofile → e'.calls.ofile fd ≡ 0
  pub directory : e'.calls.cwd ≡ 0
  pub children : (q : Ptr) → 1 ≤ q → q ≤ nproc → (e'.table.proc q).parent ≢ curproc
  pub given :
      (q : Ptr)
      → 1 ≤ q
      → q ≤ nproc
      → (e.table.proc q).parent ≡ curproc
      → (e'.table.proc q).parent ≡ initproc
  pub others :
      (q : Ptr)
      → (e.table.proc q).parent ≢ curproc
      → (e'.table.proc q).parent ≡ (e.table.proc q).parent

-- exit leaves the process without a descriptor and without a directory, and gives all its children,
-- and no other process, to the first process, if it is not the first process itself.
pub exit-Released :
    (curproc initproc : Ptr) (e : Exiting)
    → curproc ≢ initproc
    → Released curproc initproc e (exit curproc initproc e)
unfolding exit
exit-Released curproc initproc e ne = record {
  files = λ fd lt. ground (arith, close_files-ofile nofile 0 fd e.calls);
  directory = refl;
  children = λ q low high. ground (arith, reparent-parent nproc 1 q curproc initproc e.table);
  given = λ q low high same. ground (arith, reparent-parent nproc 1 q curproc initproc e.table);
  others = λ q far. ground (arith, reparent-parent nproc 1 q curproc initproc e.table);
}

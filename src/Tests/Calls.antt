-- ===== src/Tests/Calls.antt =====
-- A process with two arguments on its stack, the table of open files, and the first process.
use lxos.Base.{ℕ, ◌<◌, [], some, ◌≡◌, ◌≢◌, refl, true, false, ◌==◌, if◌then◌else◌, arith}
use lxos.Libc.Memory.{Memory}
use lxos.Kernel.Kalloc.{kalloc}
use lxos.Kernel.Syscall.{Task, argptr, argstr}
use lxos.Kernel.Syscall.Arguments.{Checked, StringArgument, argptr-Checked, argstr-StringArgument}
use lxos.Kernel.Process.{Table, ProcState, unused, runnable, running, allocproc}
use lxos.Kernel.Process.Allocation.{Started, allocproc-Started, allocproc-busy}
use lxos.Fs.OpenFiles.{Files, fd_none, fd_inode, fileread, set_file, set_vol}
use lxos.Fs.OpenFiles.Transfer.{IsLoaded, ilock-loaded, fileread-delivered}
use lxos.Fs.Content.Reading.{filled, with_mem}
use lxos.Fs.Inodes.{ilock}
use lxos.Fs.Content.{t_dev}
use lxos.Kernel.Calls.{Calls, argfd, open_file, sys_read}
use lxos.Kernel.Calls.Safety.{sys_read-safe}
use lxos.Kernel.Calls.Opening.{OpenedFile, open_file-OpenedFile}
use lxos.Kernel.Process.Scheduler.{Cpu, Scheduled, schedule, schedule-Scheduled}
use lxos.Cpu.Segments.{seg}
use lxos.Kernel.Process.Exit.{Exiting, Released, exit, exit-Released}
use lxos.Tests.Files.{volume, memory, no_devices, file-IsMapped}

-- the words 3000 and 5 above the return address at 2000; the string "hi" at 3000
abbrev stack : Memory
stack a =
    if a == 2004
    then 184
    else if a == 2005
    then 11
    else if a == 2008
    then 5
    else if a == 3000
    then 104
    else if a == 3001
    then 105
    else 0

abbrev two_arguments : Task
two_arguments = record { mem = stack; sz = 4096; esp = 2000 }

argptr-Checked_example : Checked two_arguments 2004 5 (argptr 0 5 two_arguments)
argptr-Checked_example = argptr-Checked 0 5 two_arguments (omega arith) (omega arith)

argstr-StringArgument_example : StringArgument two_arguments 2004 (argstr 0 two_arguments)
argstr-StringArgument_example = argstr-StringArgument 0 two_arguments (omega arith)

abbrev stack_of_read : Memory
stack_of_read a = if a == 2008 then 5 else if a == 2012 then 9 else 0

abbrev open_files : Files
open_files = record {
  file = (λ f. record {
    ftype = fd_inode;
    ref = (if f == 1 then 1 else 0);
    readable = true;
    writable = false;
    ip = 2;
    off = 1;
  });
  vol = volume;
}

inode-IsLoaded : IsLoaded volume 2
inode-IsLoaded = record { not_null = omega arith; in_use = refl; loaded = refl }

fileread-delivered_example : fileread no_devices 1 1000 9 open_files ≡ (
  2,
  set_vol
      (with_mem (filled volume 2 1000 1 2 memory) volume)
      (set_file 1 (record (open_files.file 1) { off = 3 }) open_files),
)
fileread-delivered_example =
    fileread-delivered no_devices 1 1000 9 1 open_files refl refl inode-IsLoaded (omega arith)
      file-IsMapped (omega arith) (omega arith) (omega arith)

abbrev processes : ProcState → Table
processes first = record {
  proc = (λ p. record {
    sz = 0;
    pgdir = 0;
    kstack = 0;
    state = (if p == 1 then first else unused);
    pid = 0;
    parent = 0;
    tf = 0;
    context = 0;
    ofile = (λ fd. 0);
    cwd = 0;
  });
  nextpid = 1;
  kmem = record { mem = (λ a. 0); freelist = 8192 };
}

page_left : (kalloc (processes unused).kmem).0 ≢ 0
unfolding kalloc
page_left = omega arith

allocproc-Started_example :
    ((allocproc 100 200 (processes unused)).0 ≡ 1)
    × Started 100 200 (processes unused) (allocproc 100 200 (processes unused)).1
allocproc-Started_example =
    allocproc-Started 100 200 (processes unused) (omega arith) (omega arith) refl page_left

allocproc-busy_example : allocproc 100 200 (processes running) ≡ (0, processes running)
allocproc-busy_example = allocproc-busy 100 200 (processes running) refl

-- a process with the descriptor 0 on the first file, and the arguments 0, 5 and 9 of a read
abbrev reader : Calls
reader = record {
  files = set_vol (record volume { mem = stack_of_read }) open_files;
  sz = 4096;
  esp = 2000;
  ofile = (λ fd. if fd == 0 then 1 else 0);
  cwd = 1;
}

stack-bytes : (a : ℕ) → stack_of_read a < 256
stack-bytes a = ground arith

no_device :
    (fd f : ℕ)
    → argfd 0 reader ≡ some (fd, f)
    → ((ilock (reader.files.file f).ip reader.files.vol).inode (reader.files.file f).ip).itype
      ≢ t_dev
no_device fd f e = rw (ilock-loaded reader.files.vol 2 loaded) (omega arith)
  where
    loaded : IsLoaded reader.files.vol 2
    loaded = record { not_null = omega arith; in_use = refl; loaded = refl }

sys_read-safe_example :
    (sys_read no_devices reader).1.files.vol.mem 5000 ≡ reader.files.vol.mem 5000
sys_read-safe_example =
    sys_read-safe no_devices reader 5000 (omega arith) stack-bytes no_device (omega arith)

abbrev closed_files : Files
closed_files = record open_files {
  file = (λ f. record {
    ftype = fd_none;
    ref = 0;
    readable = false;
    writable = false;
    ip = 0;
    off = 0;
  });
}

abbrev opener : Calls
opener = record { files = closed_files; sz = 4096; esp = 2000; ofile = λ fd. 0; cwd = 1 }

open_file-OpenedFile_example : OpenedFile 2 0 opener (open_file 2 0 opener)
open_file-OpenedFile_example = open_file-OpenedFile 2 0 opener (λ f e. refl)

abbrev waiting : Cpu
waiting = record {
  table = processes runnable;
  curproc = 0;
  esp = 4000;
  loaded = record {
    gdt = λ n. seg 0 0 0 0;
    gdt_limit = 0;
    ss0 = 16;
    esp0 = 0;
    iomb = 0;
    tr = 40;
    cr3 = 0;
    interrupts_on = true;
    log = [];
  };
}

schedule-Scheduled_example : Scheduled 3980 1 64 waiting (schedule 3980 100 waiting)
schedule-Scheduled_example = schedule-Scheduled 3980 100 waiting

abbrev exiting : Exiting
exiting = record { calls = reader; table = processes running }

exit-Released_example : Released 2 1 exiting (exit 2 1 exiting)
exit-Released_example = exit-Released 2 1 exiting (omega arith)

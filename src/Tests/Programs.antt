-- ===== src/Tests/Programs.antt =====
-- exec of the path "/", whose file is a directory.
use lxos.Base.{
  zero, suc, ◌<◌, ◌≢◌, arith, ℕ, ◌≡◌, refl, inl, true, false, Option, none, some, [], ◌==◌,
  if◌then◌else◌,
}
use lxos.Libc.Memory.{Memory, within}
use lxos.Fs.Volume.{Volume, minus_one, kprint}
use lxos.Fs.Inodes.{iget}
use lxos.Fs.Content.{Operation}
use lxos.Fs.Directories.{namex}
use lxos.Kernel.Process.{Proc, ProcState}
use lxos.Cpu.Segments.{seg}
use lxos.Kernel.Loader.{Addresses, Exec, exec}
use lxos.Kernel.Loader.Format.{Kept, locked, exec-NotElf}
use lxos.Fs.Content.Mapping.{IsMapped, address}
use lxos.Tests.Files.{volume}

abbrev no_device : ℕ → Option Operation
no_device major = none

abbrev root_path : Memory
root_path a = if a == 100 then 47 else 0

abbrev addresses : Addresses
addresses = record {
  name = 1000;
  de = 1020;
  ph = 1040;
  elf = 1080;
  ustack = 1140;
  data_at = 0x80110000;
  curproc = 1;
  curproc_name = 1200;
  ts = 1300;
}

abbrev init : Proc
init = record {
  sz = 4096;
  pgdir = 0x80400000;
  kstack = 0x80500000;
  state = ProcState.running;
  pid = 1;
  parent = 0;
  tf = 0x80500f00;
  context = 0;
  ofile = λ fd. 0;
  cwd = 1;
}

abbrev before : Exec
before = record {
  vol = record volume { mem = root_path };
  freelist = 0;
  proc = init;
  cpu = record {
    gdt = λ n. seg 0 0 0 0;
    gdt_limit = 0;
    ss0 = 16;
    esp0 = 0;
    iomb = 0;
    tr = 40;
    cr3 = 0;
    interrupts_on = true;
    log = [];
  };
}

-- the volume with the root's inode
abbrev looked_up : Volume
looked_up = elim (iget 1 1 (kprint "real exec: \n" before.vol)) [
  | none ↦ before.vol
  | some (_, v) ↦ v
]

root_found :
    namex no_device 20 false 1000 1020 1 100 (kprint "real exec: \n" before.vol)
    ≡ some (1, looked_up)
unfolding namex iget lxos.Fs.Inodes.iget_loop lxos.Fs.Directories.namex_loop
    lxos.Fs.Directories.skipelem lxos.Fs.Directories.skip_slashes lxos.Fs.Inodes.idup
root_found = refl

-- The root has 16 bytes in one block.
root-IsMapped : IsMapped (locked 1 looked_up) 1 1
unfolding lxos.Fs.Inodes.ilock iget lxos.Fs.Inodes.iget_loop lxos.Fs.Inodes.idup
root-IsMapped = record {
  fits = omega arith;
  blocks = λ bn lt. first_block bn lt;
  indirect = λ lt. absurd (omega (arith, lt));
}
  where
    first_block : (bn : ℕ) → bn < 1 → address (locked 1 looked_up) 1 bn ≢ 0
    first_block zero lt = omega arith
    first_block (suc bn) lt = absurd (omega (arith, lt))

exec-NotElf_example :
    (s' : Exec) × (exec no_device 20 addresses 100 0 before ≡ some (minus_one, s'))
    × Kept before s'
    × (s'.freelist ≡ 0)
    × ((a : ℕ) → within 1080 52 a ≡ false → s'.vol.mem a ≡ looked_up.mem a)
unfolding lxos.Fs.Inodes.ilock iget lxos.Fs.Inodes.iget_loop lxos.Fs.Inodes.idup
exec-NotElf_example =
    exec-NotElf no_device 20 addresses 100 0 1 looked_up before 1 root_found (omega arith)
      (omega arith) root-IsMapped (omega arith) (inl (omega arith))

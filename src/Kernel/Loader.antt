-- ===== src/Kernel/Loader.antt =====
-- The program loader of kernel/exec.c. The file system and the address spaces share the memory. A stage
-- of exec ends with a result or, at `goto bad`, with `none` inside the pair; `none` outside is a step
-- through a null pointer, or fuel that a walk along a string or a path has used up.
pub mod Format
pub mod SystemCall
use lxos.Base.{
  ℕ, zero, suc, ◌+◌, ◌-◌, ◌*◌, ◌/◌, ◌%◌, ◌^◌, Bool, true, false, not, ◌&&◌, ◌||◌, Option, none,
  some, ltb, leb, ◌==◌, if◌then◌else◌,
}
use lxos.Libc.Memory.{Ptr, Memory, put32, get32}
use lxos.Libc.Strings.{strlen, safestrcpy}
use lxos.Kernel.Kalloc.{Kmem, pgsize, pg_round_up}
use lxos.Kernel.Process.{Proc}
use lxos.Kernel.Vm.{Space, set_mem, setupkvm, freevm}
use lxos.Kernel.Vm.User.{allocuvm, loaduvm, clearpteu, copyout}
use lxos.Kernel.Calls.{failed}
use lxos.Fs.Volume.{Volume, minus_one, kprint}
use lxos.Fs.Inodes.{ilock, get16}
use lxos.Fs.Content.{Operation, readi, iunlockput}
use lxos.Fs.Directories.{namex}
use lxos.Cpu.Segments.{Loaded, switchuvm}

pub record Exec : Type 0 where
  pub vol : Volume
  pub freelist : Ptr
  pub proc : Proc
  pub cpu : Loaded

-- the state as the address spaces see it
abbrev pub space : Exec → Space
space s = record { kmem = record { mem = s.vol.mem; freelist = s.freelist }; log = s.vol.log }

abbrev pub with_space : Space → Exec → Exec
with_space p s = record s {
  vol = record s.vol { mem = p.kmem.mem; log = p.log };
  freelist = p.kmem.freelist;
}

abbrev pub with_volume : Volume → Exec → Exec
with_volume vol s = record s { vol = vol }

abbrev pub with_memory : Memory → Exec → Exec
with_memory m s = record s { vol = record s.vol { mem = m } }

abbrev pub Stage : Type 0 → Type 0
Stage A = Option (Option A × Exec)

-- a stage behind another one, which `goto bad` skips
unfoldable pub then_stage : {A B : Type 0} → Stage A → (A → Exec → Stage B) → Stage B
then_stage none next = none
then_stage (some (none, s)) next = some (none, s)
then_stage (some (some a, s)) next = next a s

abbrev pub elf_magic : ℕ
elf_magic = 0x464C457F

abbrev pub elfhdr_size : ℕ
elfhdr_size = 52

abbrev pub proghdr_size : ℕ
proghdr_size = 32

abbrev pub maxarg : ℕ
maxarg = 5

-- `a - b` on 32 bits
abbrev pub minus32 : ℕ → ℕ → ℕ
minus32 a b = (a + 4294967296 - b % 4294967296) % 4294967296

-- `if(ip) iunlockput(ip)`
abbrev pub release_inode : Ptr → Exec → Exec
release_inode ip s = if ip == 0 then s else with_volume (iunlockput ip s.vol) s

-- the code at `bad`
unfoldable pub give_up_image : (pgdir ip : Ptr) → Exec → Option (ℕ × Exec)
give_up_image pgdir ip s = elim (pgdir == 0) [
  | true ↦ some (minus_one, release_inode ip s)
  | false ↦ elim (freevm pgdir (space s)) [
    | none ↦ none
    | some p ↦ some (minus_one, release_inode ip (with_space p s))
  ]
]

-- `for(last=s=path; *s; s++) if(*s == '/') last = s+1`
unfoldable pub last_element : ℕ → (s last : Ptr) → Memory → Option Ptr
last_element zero s last m = none
last_element (suc fuel) s last m =
    let rest = last_element fuel (s + 1) (if m s == 47 then s + 1 else last) m in
    if m s == 0 then some last else rest

-- The addresses that the compiler and the linker choose: of the local variables of exec and namex, of the
-- linker's `data`, of the current process with its name, and of the task state.
pub record Addresses : Type 0 where
  pub name : Ptr
  pub de : Ptr
  pub ph : Ptr
  pub elf : Ptr
  pub ustack : Ptr
  pub data_at : Ptr
  pub curproc : Ptr
  pub curproc_name : Ptr
  pub ts : Ptr

-- the field at the offset `o` of the program header
abbrev pub phdr : (ph : Ptr) → (o : ℕ) → Exec → ℕ
phdr ph o s = get32 s.vol.mem (ph + o)

module _ (table : ℕ → Option Operation) (fuel : ℕ) (addresses : Addresses) where
  open addresses use {name, de, ph, elf, ustack, data_at, curproc, curproc_name, ts}

  -- one segment, whose header has been read: the new size
  unfoldable pub load_segment : (pgdir ip : Ptr) → (sz : ℕ) → Exec → Stage ℕ
  load_segment pgdir ip sz s =
      let top = (phdr ph 8 s + phdr ph 20 s) % 4294967296 in
      elim (ltb (phdr ph 20 s) (phdr ph 16 s) || ltb top (phdr ph 8 s)) [
        | true ↦ some (none, s)
        | false ↦ elim (allocuvm pgdir sz top (space s)) [
          | none ↦ none
          | some (sz', q) ↦
              let s1 = with_space q s in
              elim (sz' == 0 || not (phdr ph 8 s1 % pgsize == 0)) [
                | true ↦ some (none, s1)
                | false ↦
                    elim (loaduvm table pgdir (phdr ph 8 s1) ip (phdr ph 4 s1) (phdr ph 16 s1)
                      s1.vol) [
                        | none ↦ none
                        | some (r, v) ↦ some (if failed r then none else some sz', with_volume v s1)
                      ]
              ]
        ]
      ]

  -- the loop over the program headers
  unfoldable pub load_loop : ℕ → (off : ℕ) → (pgdir ip : Ptr) → (sz : ℕ) → Exec → Stage ℕ
  load_loop zero off pgdir ip sz s = some (some sz, s)
  load_loop (suc rounds) off pgdir ip sz s =
      let (r, v) = readi table ip ph off proghdr_size s.vol in
      let s1 = with_volume v s in
      let next = (off + proghdr_size) % 4294967296 in
      elim (r == proghdr_size) [
        | false ↦ some (none, s1)
        | true ↦ elim (phdr ph 0 s1 == 1) [
          | false ↦ load_loop rounds next pgdir ip sz s1
          | true ↦
              then_stage (load_segment pgdir ip sz s1)
                (λ sz' s2. load_loop rounds next pgdir ip sz' s2)
        ]
      ]

  -- one argument, at `arg`: the stack pointer
  unfoldable pub push_arg : (argc sp : ℕ) → (pgdir arg : Ptr) → Exec → Stage ℕ
  push_arg argc sp pgdir arg s = elim (strlen fuel arg s.vol.mem) [
    | none ↦ none
    | some len ↦
        let sp' = minus32 sp (len + 1) / 4 * 4 in
        elim (copyout pgdir sp' arg (len + 1) s.vol.mem) [
          | none ↦ none
          | some (r, m) ↦ some (
              if failed r
              then (none, with_memory m s)
              else (some sp', with_memory (put32 m (ustack + 4 * (3 + argc)) sp') s))
        ]
  ]

  -- The loop over the arguments: their number and the stack pointer. The test of MAXARG ends it within
  -- `maxarg + 1` rounds.
  unfoldable pub push_args : ℕ → (argc sp : ℕ) → (pgdir argv : Ptr) → Exec → Stage (ℕ × ℕ)
  push_args zero argc sp pgdir argv s = none
  push_args (suc rounds) argc sp pgdir argv s =
      let arg = get32 s.vol.mem (argv + 4 * argc) in
      elim (arg == 0) [
        | true ↦ some (some (argc, sp), s)
        | false ↦ elim (leb maxarg argc) [
          | true ↦ some (none, s)
          | false ↦
              then_stage (push_arg argc sp pgdir arg s)
                (λ sp' s1. push_args rounds (argc + 1) sp' pgdir argv s1)
        ]
      ]

  -- the words below the arguments: the stack pointer
  unfoldable pub push_ustack : (pgdir : Ptr) → (argc sp : ℕ) → Exec → Stage ℕ
  push_ustack pgdir argc sp s =
      let m0 = put32 s.vol.mem (ustack + 4 * (3 + argc)) 0 in
      let m1 = put32 (put32 m0 ustack 0xffffffff) (ustack + 4) argc in
      let m2 = put32 m1 (ustack + 8) (minus32 sp ((argc + 1) * 4)) in
      let sp' = minus32 sp ((3 + argc + 1) * 4) in
      elim (copyout pgdir sp' ustack ((3 + argc + 1) * 4) m2) [
        | none ↦ none
        | some (r, m) ↦ some (if failed r then none else some sp', with_memory m s)
      ]

  -- the stack's content from the top `sz` on: the stack pointer
  unfoldable pub fill_stack : (pgdir argv : Ptr) → (sz : ℕ) → Exec → Stage ℕ
  fill_stack pgdir argv sz s =
      then_stage (push_args (maxarg + 1) 0 sz pgdir argv s) (λ x s1. push_ustack pgdir x.0 x.1 s1)

  -- the guard page, the stack page and what is on it, from a size at a page's end: the size and the
  -- stack pointer
  unfoldable pub make_stack : (pgdir argv : Ptr) → (sz : ℕ) → Exec → Stage (ℕ × ℕ)
  make_stack pgdir argv sz s = elim (allocuvm pgdir sz ((sz + 2 * pgsize) % 4294967296) (space s)) [
    | none ↦ none
    | some (sz', q) ↦ elim (sz' == 0) [
      | true ↦ some (none, with_space q s)
      | false ↦ elim (clearpteu pgdir (minus32 sz' (2 * pgsize)) q) [
        | none ↦ none
        | some q' ↦
            then_stage (fill_stack pgdir argv sz' (with_space q' s))
              (λ sp s1. some (some (sz', sp), s1))
      ]
    ]
  ]

  -- the name, the new address space and the entry point; `eip` and `esp` are at 56 and 68 in the trap frame
  unfoldable pub commit : (path pgdir : Ptr) → (sz sp : ℕ) → Exec → Option (ℕ × Exec)
  commit path pgdir sz sp s = elim (last_element fuel path path s.vol.mem) [
    | none ↦ none
    | some last ↦
        let m1 = safestrcpy curproc_name last 16 s.vol.mem in
        let m2 = put32 m1 (s.proc.tf + 56) (get32 m1 (elf + 24)) in
        let m3 = put32 m2 (s.proc.tf + 68) sp in
        let proc = record (s.proc) { pgdir = pgdir; sz = sz } in
        let s1 = record (with_volume (kprint "load elf proc:" s.vol) s) {
          proc = proc;
          cpu = switchuvm ts curproc proc s.cpu;
        } in
        elim (freevm s.proc.pgdir (space (with_memory m3 s1))) [
          | none ↦ none
          | some q ↦ some (0, with_space q s1)
        ]
  ]

  -- from the new directory on
  unfoldable pub build_image : (pgdir ip path argv : Ptr) → Exec → Option (ℕ × Exec)
  build_image pgdir ip path argv s =
      elim (load_loop (get16 s.vol.mem (elf + 44)) (get32 s.vol.mem (elf + 28)) pgdir ip 0 s) [
        | none ↦ none
        | some (none, s1) ↦ give_up_image pgdir ip s1
        | some (some sz, s1) ↦
            elim (make_stack pgdir argv (pg_round_up sz) (with_volume (iunlockput ip s1.vol) s1)) [
              | none ↦ none
              | some (none, s2) ↦ give_up_image pgdir 0 s2
              | some (some (sz', sp), s2) ↦ commit path pgdir sz' sp s2
            ]
      ]

  -- from the inode on, which is not null
  unfoldable pub exec_file : (ip path argv : Ptr) → Exec → Option (ℕ × Exec)
  exec_file ip path argv s =
      let (r, v) =
        readi table ip elf 0 elfhdr_size (kprint "ready check elf header\n" (ilock ip s.vol)) in
      let s1 = with_volume v s in
      elim (r == elfhdr_size && get32 v.mem elf == elf_magic) [
        | false ↦ give_up_image 0 ip s1
        | true ↦ elim (setupkvm data_at (space s1)) [
          | none ↦ none
          | some (pgdir, q) ↦
              let s2 = with_space q s1 in
              elim (pgdir == 0) [
                | true ↦ give_up_image 0 ip s2
                | false ↦
                    build_image pgdir ip path argv
                      (with_volume (kprint "check elf header:OK\n" s2.vol) s2)
              ]
        ]
      ]

  unfoldable pub exec : (path argv : Ptr) → Exec → Option (ℕ × Exec)
  exec path argv s =
      elim (namex table fuel false name de s.proc.cwd path (kprint "real exec: \n" s.vol)) [
        | none ↦ none
        | some (ip, v) ↦ elim (ip == 0) [
          | true ↦ some (minus_one, with_volume (kprint "exec: fail\n" v) s)
          | false ↦ exec_file ip path argv (with_volume v s)
        ]
      ]

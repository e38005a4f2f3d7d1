-- ===== src/Kernel/Process.antt =====
-- The process table of kernel/proc.c. `&ptable.proc[i]` is the pointer `i + 1`; `trapret` and
-- `forkret` are the addresses of the code that a new process runs first.
pub mod Allocation
pub mod Scheduler
pub mod Exit
use lxos.Base.{ℕ, zero, suc, ◌+◌, ◌-◌, ◌*◌, ◌%◌, ◌^◌, Bool, true, false, ◌==◌, if◌then◌else◌}
use lxos.Libc.Memory.{Ptr, Memory, put32, memset}
use lxos.Kernel.Kalloc.{Kmem, kalloc}

pub data ProcState : Type 0 where
  unused : ProcState
  embryo : ProcState
  sleeping : ProcState
  runnable : ProcState
  running : ProcState

abbrev pub is_unused : ProcState → Bool
is_unused unused = true
is_unused embryo = false
is_unused sleeping = false
is_unused runnable = false
is_unused running = false

pub record Proc : Type 0 where
  pub sz : ℕ
  pub pgdir : Ptr
  pub kstack : Ptr
  pub state : ProcState
  pub pid : ℕ
  pub parent : Ptr
  pub tf : Ptr
  pub context : Ptr
  pub ofile : ℕ → Ptr
  pub cwd : Ptr

pub record Table : Type 0 where
  pub proc : Ptr → Proc
  pub nextpid : ℕ
  pub kmem : Kmem

abbrev pub nproc : ℕ
nproc = 64

abbrev pub kstacksize : ℕ
kstacksize = 4096

-- `sizeof(registers_t)` and `sizeof(struct context)`; `eip` is the last of the context's words
abbrev pub registers_size : ℕ
registers_size = 76

abbrev pub context_size : ℕ
context_size = 20

abbrev pub set_proc : Ptr → Proc → Table → Table
set_proc p v t = record t { proc = (λ q. if q == p then v else t.proc q) }

-- the context's address on the stack at `kstack`
abbrev pub context_at : Ptr → Ptr
context_at kstack = kstack + kstacksize - registers_size - 4 - context_size

module _ (trapret forkret : ℕ) where
  -- the stores to a new kernel stack
  unfoldable pub build_stack : Ptr → Memory → Memory
  build_stack kstack m =
      let m1 = put32 m (kstack + kstacksize - registers_size - 4) trapret in
      let m2 = memset (context_at kstack) 0 context_size m1 in
      put32 m2 (context_at kstack + 16) forkret

  -- the body for a process that is UNUSED
  unfoldable pub start_proc : Ptr → Table → Ptr × Table
  start_proc p t =
      let t1 = record t { nextpid = t.nextpid + 1 } in
      let v = record (t.proc p) { state = embryo; pid = t.nextpid } in
      let (page, kmem) = kalloc t.kmem in
      let built = record kmem { mem = build_stack page kmem.mem } in
      if page == 0
      then (0, set_proc p (record v { state = unused; kstack = 0 }) (record t1 { kmem = kmem }))
      else (
        p,
        set_proc p
            (record v {
              kstack = page;
              tf = page + kstacksize - registers_size;
              context = context_at page;
            })
            (record t1 { kmem = built }),
      )

  -- The loop counts `i` up, but `p` stays at the first process.
  unfoldable pub allocproc_loop : ℕ → Ptr → Table → Ptr × Table
  allocproc_loop zero p t = (0, t)
  allocproc_loop (suc rounds) p t =
      let rest = allocproc_loop rounds p t in
      if is_unused (t.proc p).state then start_proc p t else rest

  unfoldable pub allocproc : Table → Ptr × Table
  allocproc t = allocproc_loop nproc 1 t

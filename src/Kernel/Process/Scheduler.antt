-- ===== src/Kernel/Process/Scheduler.antt =====
-- The scheduler of kernel/proc.c: a pass over the process table, up to the switch to a process. swtch leaves
-- the scheduler's stack, and nothing in the kernel switches back to it: the pass ends there.
use lxos.Base.{
  ℕ, zero, suc, ◌+◌, ◌%◌, ◌≡◌, ◌≢◌, ◌<◌, ◌≤◌, inl, inr, refl, ◌∙◌, ap, Bool, true, false, Option,
  none, some, ◌==◌, arith, Bool-cases, ==_iff,
}
use lxos.Libc.Memory.{Ptr}
use lxos.Kernel.Vm.{v2p}
use lxos.Kernel.Process.{
  ProcState, unused, embryo, sleeping, runnable, running, Table, nproc, set_proc,
}
use lxos.Cpu.Segments.{Loaded, switchuvm}

abbrev pub is_runnable : ProcState → Bool
is_runnable unused = false
is_runnable embryo = false
is_runnable sleeping = false
is_runnable runnable = true
is_runnable running = false

-- the table, the current process, the stack pointer, and what the processor has loaded
pub record Cpu : Type 0 where
  pub table : Table
  pub curproc : Ptr
  pub esp : ℕ
  pub loaded : Loaded

abbrev pub state_of : Ptr → Cpu → ProcState
state_of p c = (c.table.proc p).state

-- swtch, for the addresses of the two contexts: `curproc->context`, where the stack pointer is stored, and
-- `p->context`, which was read before. `saved` is the stack pointer behind the four registers and the
-- return address, which stand on the scheduler's stack.
unfoldable pub swtch : (saved : ℕ) → (p : Ptr) → (new : Ptr) → Cpu → Cpu
swtch saved p new c = record c {
  table = set_proc p (record (c.table.proc p) { context = saved }) c.table;
  esp = new;
}

-- the body for a process that is RUNNABLE
unfoldable pub run_process : (saved ts : ℕ) → Ptr → Cpu → Cpu
run_process saved ts p c =
    let v = c.table.proc p in
    swtch saved p v.context (record c {
      table = set_proc p (record v { state = running }) c.table;
      curproc = p;
      loaded = switchuvm ts p v c.loaded;
    })

-- the inner loop: the process that it switches to, if there is one
unfoldable pub schedule_loop : ℕ → (saved ts : ℕ) → (p : Ptr) → Cpu → Option Ptr × Cpu
schedule_loop zero saved ts p c = (none, c)
schedule_loop (suc rounds) saved ts p c = elim (is_runnable (state_of p c)) [
  | true ↦ (some p, run_process saved ts p c)
  | false ↦ schedule_loop rounds saved ts (p + 1) c
]

-- one round of the scheduler's endless loop
unfoldable pub schedule : (saved ts : ℕ) → Cpu → Option Ptr × Cpu
schedule saved ts c = schedule_loop nproc saved ts 1 c

-- The scheduler has switched to `p`: on its stack, with its kernel stack for interrupts and its directory. Its
-- own context now is the scheduler's, and no other process has changed.
pub record Switched (saved : ℕ) (p : Ptr) (c c' : Cpu) : Type 0 where
  pub current : c'.curproc ≡ p
  pub on_stack : c'.esp ≡ (c.table.proc p).context
  pub directory : c'.loaded.cr3 ≡ v2p (c.table.proc p).pgdir
  pub kernel_stack : c'.loaded.esp0 ≡ ((c.table.proc p).kstack + 4096) % 4294967296
  pub itself : c'.table.proc p ≡ record (c.table.proc p) { state = running; context = saved }
  pub others : (q : Ptr) → q ≢ p → c'.table.proc q ≡ c.table.proc q

-- The first process from `from` on that is runnable is switched to; or there is none, and nothing changes.
abbrev pub Scheduled : (saved from count : ℕ) → Cpu → Option Ptr × Cpu → Type 0
Scheduled saved from count c (some p, c') =
    (from ≤ p)
    × (p < from + count)
    × (is_runnable (state_of p c) ≡ true)
    × ((q : Ptr) → from ≤ q → q < p → is_runnable (state_of q c) ≡ false)
    × Switched saved p c c'
Scheduled saved from count c (none, c') =
    (c' ≡ c) × ((q : Ptr) → from ≤ q → q < from + count → is_runnable (state_of q c) ≡ false)

run_process-Switched :
    (saved ts : ℕ) (p : Ptr) (c : Cpu) → Switched saved p c (run_process saved ts p c)
unfolding run_process swtch switchuvm
run_process-Switched saved ts p c =
    let here : (p == p) ≡ true = ground arith in
    record {
      current = refl;
      on_stack = refl;
      directory = refl;
      kernel_stack = refl;
      itself = rw here refl;
      others = λ q ne. let other : (q == p) ≡ false = ground arith in rw other refl;
    }

Scheduled-next :
    (saved from count : ℕ) (c : Cpu) (r : Option Ptr × Cpu)
    → is_runnable (state_of from c) ≡ false
    → Scheduled saved (from + 1) count c r
    → Scheduled saved from (suc count) c r
Scheduled-next saved from count c (some p, c') idle (low, high, e, before, s) = (
  omega (arith, low),
  omega (arith, high),
  e,
  (λ q h1 h2. elim (Bool-cases (q == from)) [
    | inl same ↦ ap (λ i. is_runnable (state_of i c)) ((==_iff q from).0 same) ∙ idle
    | inr other ↦ before q (ground arith) h2
  ]),
  s,
)
Scheduled-next saved from count c (none, c') idle (same, all) = (
  same,
  λ q h1 h2. elim (Bool-cases (q == from)) [
    | inl e ↦ ap (λ i. is_runnable (state_of i c)) ((==_iff q from).0 e) ∙ idle
    | inr other ↦ all q (ground arith) (omega (arith, h2))
  ],
)

schedule_loop-Scheduled :
    (rounds saved ts from : ℕ) (c : Cpu)
    → Scheduled saved from rounds c (schedule_loop rounds saved ts from c)
unfolding schedule_loop
schedule_loop-Scheduled zero saved ts from c = (refl, λ q h1 h2. absurd (omega (arith, h1, h2)))
schedule_loop-Scheduled (suc rounds) saved ts from c =
    elim (Bool-cases (is_runnable (state_of from c))) [
      | inl e ↦
          rw (schedule_loop, e)
            (
              omega arith,
              omega arith,
              e,
              (λ q h1 h2. absurd (omega (arith, h1, h2))),
              run_process-Switched saved ts from c,
            )
      | inr e ↦
          rw (schedule_loop, e)
            (Scheduled-next saved from rounds c _ e
              (schedule_loop-Scheduled rounds saved ts (from + 1) c))
    ]

-- A pass of the scheduler switches to the first process of the table that is runnable, whatever the other ones
-- are: the process is the current one and RUNNING, the processor has its page directory and its kernel
-- stack and goes on with its saved context, and no other process changes; what the process's record then
-- has as its context is the scheduler's. Only if none of the NPROC processes is runnable does the pass end
-- without a switch, and nothing changes.
pub schedule-Scheduled : (saved ts : ℕ) (c : Cpu) → Scheduled saved 1 nproc c (schedule saved ts c)
unfolding schedule
schedule-Scheduled saved ts c = schedule_loop-Scheduled nproc saved ts 1 c

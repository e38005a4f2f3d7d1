-- ===== src/Kernel/Syscall.antt =====
-- The arguments of a system call in kernel/syscall.c, and the dispatcher. A process is its size
-- `sz`, its stack pointer `esp` and the memory; `none` is the result -1.
pub mod Arguments
use lxos.Base.{
  ℕ, zero, suc, ◌+◌, ◌-◌, ◌*◌, ◌%◌, ◌^◌, Bool, true, false, not, ◌&&◌, ◌||◌, Option, none, some,
  List, ◌∷◌, ltb, leb, ◌==◌, if◌then◌else◌,
}
use Prim.Native.String.{String}
use lxos.Libc.Memory.{Ptr, Memory, get32}

pub record Task : Type 0 where
  pub mem : Memory
  pub sz : ℕ
  pub esp : ℕ

unfoldable pub getint : Task → (addr : ℕ) → Option ℕ
getint t addr =
    if leb t.sz addr || ltb t.sz ((addr + 4) % 2 ^ 32) then none else some (get32 t.mem addr)

-- the loop of getstr, from `s` on
unfoldable pub getstr_loop : ℕ → Task → (addr s : ℕ) → Option ℕ
getstr_loop zero t addr s = none
getstr_loop (suc rounds) t addr s =
    let rest = getstr_loop rounds t addr (s + 1) in
    if ltb s t.sz then (if t.mem s == 0 then some (s - addr) else rest) else none

-- the length, and `*pp`, which is `addr`
unfoldable pub getstr : Task → (addr : ℕ) → Option (ℕ × Ptr)
getstr t addr =
    if leb t.sz addr
    then none
    else elim (getstr_loop (t.sz - addr) t addr addr) [ none ↦ none | some n ↦ some (n, addr) ]

unfoldable pub argint : ℕ → Task → Option ℕ
argint n t = getint t ((t.esp + 4 + 4 * n) % 2 ^ 32)

-- `size < 0`, for a number of 32 bits
abbrev pub is_negative : ℕ → Bool
is_negative w = leb 2147483648 w

unfoldable pub argptr : ℕ → (size : ℕ) → Task → Option Ptr
argptr n size t = elim (argint n t) [
  | none ↦ none
  | some i ↦
      if is_negative size || leb t.sz i || ltb t.sz ((i + size) % 2 ^ 32) then none else some i
]

unfoldable pub argstr : ℕ → Task → Option (ℕ × Ptr)
argstr n t = elim (argint n t) [ none ↦ none | some addr ↦ getstr t addr ]

-- NELEM(syscalls): SYS_fstat is the last one
abbrev pub nsyscalls : ℕ
nsyscalls = 9

-- What the dispatcher does with the kernel's state `K`: the result for eax, and the state. The table
-- has the functions of kernel/calls.c.
unfoldable pub dispatcher {ℓ} :
    {K : Type ℓ} → (ℕ → Option (K → ℕ × K)) → (unknown : K → K) → (num : ℕ) → K → ℕ × K
dispatcher table unknown num k =
    if ltb 0 num && not (is_negative num) && ltb num nsyscalls
    then elim (table num) [ none ↦ (4294967295, unknown k) | some f ↦ f k ]
    else (4294967295, unknown k)

-- ===== src/Kernel/Loader/SystemCall.antt =====
-- sys_exec of kernel/calls.c, which copies the pointers to the arguments and calls exec.
use lxos.Base.{ℕ, zero, suc, ◌+◌, ◌*◌, ◌%◌, Bool, true, false, Option, none, some, ◌==◌}
use lxos.Libc.Memory.{Ptr, put32, get32, memset}
use lxos.Kernel.Syscall.{Task, argint, argstr, getint, getstr}
use lxos.Fs.Volume.{minus_one, kprint}
use lxos.Fs.Content.{Operation}
use lxos.Kernel.Loader.{Addresses, Exec, with_volume, with_memory, exec}

abbrev pub argv_count : ℕ
argv_count = 5

-- the process as the fetch of its arguments sees it; `esp` is at 68 in the trap frame
abbrev pub caller : Exec → Task
caller s = record { mem = s.vol.mem; sz = s.proc.sz; esp = get32 s.vol.mem (s.proc.tf + 68) }

-- The loop over the arguments: whether it ends with all of them, and the memory. `argv` is the array.
unfoldable pub fetch_args : ℕ → (i : ℕ) → (argv : Ptr) → (uargv : ℕ) → Exec → Bool × Exec
fetch_args zero i argv uargv s = (false, s)
fetch_args (suc rounds) i argv uargv s = elim (getint (caller s) ((uargv + 4 * i) % 4294967296)) [
  | none ↦ (false, s)
  | some uarg ↦ elim (uarg == 0) [
    | true ↦ (true, with_memory (put32 s.vol.mem (argv + 4 * i) 0) s)
    | false ↦ elim (getstr (caller s) uarg) [
      | none ↦ (false, s)
      | some (_, arg) ↦
          fetch_args rounds (i + 1) argv uargv (with_memory (put32 s.vol.mem (argv + 4 * i) arg) s)
    ]
  ]
]

-- what sys_exec prints; no command of user_input is "test IDE"
abbrev pub announce : Exec → Exec
announce s =
    with_volume (kprint "\n>" (kprint "test IDE" (kprint "You said:" (kprint "exec:" s.vol)))) s

unfoldable pub sys_exec :
    (ℕ → Option Operation) → (fuel : ℕ) → Addresses → (argv : Ptr) → Exec → Option (ℕ × Exec)
sys_exec table fuel addresses argv s = elim (argstr 0 (caller s)) [
  | none ↦ some (minus_one, s)
  | some (_, path) ↦ elim (argint 1 (caller s)) [
    | none ↦ some (minus_one, s)
    | some uargv ↦
        let (ready, s1) =
          fetch_args argv_count 0 argv uargv
            (with_memory (memset argv 0 (4 * argv_count) s.vol.mem) s) in
        elim ready [
          | false ↦ some (minus_one, s1)
          | true ↦ exec table fuel addresses path argv (announce s1)
        ]
  ]
]

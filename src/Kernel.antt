-- ===== src/Kernel.antt =====
-- The kernel: kernel/kalloc.c, kernel/syscall.c and kernel/proc.c.
pub mod Kalloc
pub mod Syscall
pub mod Process
pub mod Vm
pub mod Calls
pub mod Loader

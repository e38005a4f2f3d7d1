-- ===== src/Libc.antt =====
-- libc/string.c and libc/mem.c over a flat byte memory.
pub mod Memory
pub mod Strings

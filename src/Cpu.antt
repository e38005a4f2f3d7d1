-- ===== src/Cpu.antt =====
-- The tables of the processor: cpu/ and the descriptors of include/mmu.h.
pub mod Segments
pub mod Interrupts

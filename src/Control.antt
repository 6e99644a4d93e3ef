-- ===== src/Control.antt =====
-- The run-time of DO loops (arch/x86_64/cs.c, arch/riscv/cs.c).
pub mod Stacks
pub mod RiscV
pub mod X86
pub mod Loop

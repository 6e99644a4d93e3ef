-- ===== src/RiscV.antt =====
-- The RISC-V port, arch/riscv: its assembler, and the C words that compile with it.
pub mod Format
pub mod Names
pub mod Registers
pub mod Isa
pub mod Constant
pub mod Decoded
pub mod Steps
pub mod Leaves
pub mod Shifts
pub mod Narrow
pub mod Wide
pub mod Loads
pub mod Branches
pub mod Flow
pub mod Lands
pub mod Compile
pub mod Tables
pub mod Forward
pub mod Then

-- ===== src/Amd64.antt =====
-- The x86-64 port, arch/x86_64: its assembler, and the C words that compile with it.
pub mod Assembler
pub mod Words
pub mod Compile
pub mod Targets

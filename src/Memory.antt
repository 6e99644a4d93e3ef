-- ===== src/Memory.antt =====
-- The memory that the C code shares with the Forth words: bytes at addresses, and the cells that
-- `*(cell*)p` reads and writes, low byte first (RV64 and x86-64 are little-endian).
mod Defs
mod Laws
unfoldable pub use Defs.*
pub use Laws.*

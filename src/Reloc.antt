-- ===== src/Reloc.antt =====
-- reloc/obj.cpp, which turns the relocation records that the compiler prints into an ELF object:
-- the maps that it keeps, the reading of a record line, the names of word lists, and the object.
pub mod Texts
pub mod Map
pub mod Tables
pub mod Records
pub mod Recorded
pub mod Names
pub mod OutHeader
pub mod Object
pub mod Entries
pub mod Headers
pub mod Layout
pub mod Words
pub mod Keeps
pub mod Rounds
pub mod ObjectLoops
pub mod Offsets
pub mod SymbolTable
pub mod Refers
pub mod Binding
pub mod Main
pub mod Placed
pub mod Parts
pub mod File
pub mod Chain
pub mod Lines

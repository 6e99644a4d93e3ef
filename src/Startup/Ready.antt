-- ===== src/Startup/Ready.antt =====
-- main of either port, from the counting of the words to the end of the code area.
use smolforth.Compiler.{Compiler}
use smolforth.RiscV.Compile as RiscVTables
use smolforth.Amd64.Compile as Amd64Tables
use mathlib.Core.Option

-- ===== src/Startup/Main.antt =====
-- main.c of each port up to the arguments: the first values of `sf_header`, the tables, and the word
-- lists.
use smolforth.Base.{ℕ, List, Option}
use mathlib.Core.Option
use smolforth.Compiler.{Compiler}
use smolforth.RiscV.Compile as RiscVTables
use smolforth.Amd64.Compile as Amd64Tables
use smolforth.Startup.{Mmap, main_tables, riscv_main_tables}
use smolforth.Startup.Session.{first_header, first_lists}

-- `sf_header.code` lies at `code`, the word FORTH at `forth`, and `last` is `&sf_FORTH_end`.
unfoldable pub x86_start : Mmap → ℕ → ℕ → ℕ → ℕ → Compiler → Option (Compiler × Amd64Tables.Tables)
unfolding first_header main_tables first_lists
x86_start mmap fuel code forth last c =
    Option.map (λ (r : Compiler × Amd64Tables.Tables). (first_lists forth last r.0, r.1))
      (main_tables mmap fuel last (first_header code c).0)

-- The word lists are set up before the area is mapped, and once more behind.
unfoldable pub riscv_start :
    Mmap → ℕ → List ℕ → ℕ → ℕ → ℕ → Compiler → Option (Compiler × RiscVTables.Tables)
unfolding first_header riscv_main_tables first_lists
riscv_start mmap fuel lists code forth last c =
    Option.map (λ (r : Compiler × RiscVTables.Tables). (first_lists forth last r.0, r.1))
      (riscv_main_tables mmap fuel lists (first_lists forth last (first_header code c).0))

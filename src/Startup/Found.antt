-- ===== src/Startup/Found.antt =====
-- The search of the table that start-up has filled.
use smolforth.Base.{ℕ, ◌+◌, ◌*◌, ◌<◌, ◌≡◌}
use smolforth.Memory.{load}
use smolforth.Compiler.{Compiler}
use smolforth.RiscV.Compile as RiscVTables
use smolforth.Startup.Built.{Ready}

-- The search answers an entry of the table of `n` cells at `p`, and that entry holds the address.
abbrev pub FoundIn : ℕ → ℕ → ℕ → Compiler × RiscVTables.Tables → Type 0
FoundIn p n v r =
    (j : ℕ) × (j < n)
    × (RiscVTables.find_got r.1 r.0.machine.mem v ≡ p + 8 * j)
    × (load 8 r.0.machine.mem (p + 8 * j) ≡ v)

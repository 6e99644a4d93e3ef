-- ===== src/Examples/Machines.antt =====
-- Concrete machines: three cells on the data stack at 1000, a return stack at 2000.
use smolforth.Base.{ℕ, ◌+◌}
use smolforth.Memory.{Mem, store}
use smolforth.Machine.{Machine, Header}

abbrev pub no_memory : Mem
no_memory x = 0

abbrev pub idle : Header
idle = record {
  state = 0;
  errno = 0;
  compiler_status = 0;
  base = 16;
  csri = 0;
  line_ptr = 3000;
  line_size = 6;
  pao = 0;
}

-- Cells stored upwards from an address, the last of the list at the lowest.
abbrev pub cells_up : Mem → ℕ → ℕ → ℕ → ℕ → Mem
cells_up mem p a b c = store 8 (store 8 (store 8 mem p c) (p + 8) b) (p + 16) a

-- The data stack holds `a b c`, top first; the return stack, which grows upwards, `x y z`.
abbrev pub two_up : (a b c x y z : ℕ) → Machine
two_up a b c x y z = record {
  mem = cells_up (cells_up no_memory 1000 a b c) 2000 x y z;
  st = 1024;
  rst = 2024;
  header = idle;
}

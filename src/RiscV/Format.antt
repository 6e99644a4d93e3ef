-- ===== src/RiscV/Format.antt =====
-- arch/riscv/asmgen_riscv.h: the instruction formats. A `struct` of bit-fields whose widths add up
-- to 32 is the word with its first field in the lowest bits, as gcc lays them out on a
-- little-endian machine. An `assert` that fails is `none`.
use smolforth.Base.{◌-◌}
use smolforth.Base.{ℕ, ◌+◌, ◌*◌, ◌/◌, ◌%◌, ◌^◌, Bool, ◌||◌, ◌==◌}
use smolforth.Base.{bit_and, bit_or}

-- `struct r_type`, from `opcode` to `funct7`.
unfoldable pub r_type : ℕ → ℕ → ℕ → ℕ → ℕ → ℕ → ℕ
r_type opcode rd funct3 rs1 rs2 funct7 =
    opcode % 2 ^ 7
    + rd % 2 ^ 5 * 2 ^ 7
    + funct3 % 2 ^ 3 * 2 ^ 12
    + rs1 % 2 ^ 5 * 2 ^ 15
    + rs2 % 2 ^ 5 * 2 ^ 20
    + funct7 % 2 ^ 7 * 2 ^ 25

-- `struct i_type` with the field that `i_type_imm` sets.
unfoldable pub i_type : ℕ → ℕ → ℕ → ℕ → ℕ → ℕ
i_type opcode rd funct3 rs1 imm =
    opcode % 2 ^ 7
    + rd % 2 ^ 5 * 2 ^ 7
    + funct3 % 2 ^ 3 * 2 ^ 12
    + rs1 % 2 ^ 5 * 2 ^ 15
    + bit_and imm 0xfff % 2 ^ 12 * 2 ^ 20

-- `imm1` of `struct s_type`, set by `s_type_imm`; `imm` is a `uint32_t`.
unfoldable pub s_imm1 : ℕ → ℕ
s_imm1 imm = bit_or (imm / 2 ^ 31 * 2 ^ 6) (bit_and (imm / 2 ^ 5) 0x3f)

unfoldable pub s_type : ℕ → ℕ → ℕ → ℕ → ℕ → ℕ
unfolding s_imm1
s_type opcode funct3 rs1 rs2 imm =
    opcode % 2 ^ 7
    + bit_and imm 0x1f % 2 ^ 5 * 2 ^ 7
    + funct3 % 2 ^ 3 * 2 ^ 12
    + rs1 % 2 ^ 5 * 2 ^ 15
    + rs2 % 2 ^ 5 * 2 ^ 20
    + s_imm1 imm % 2 ^ 7 * 2 ^ 25

-- `(-1 == (int32_t)imm >> 12) || (0 == (int32_t)imm >> 12)`
unfoldable pub b_in_range : ℕ → Bool
b_in_range imm = (imm / 2 ^ 12 == 2 ^ 20 - 1) || (imm / 2 ^ 12 == 0)

unfoldable pub b_type : ℕ → ℕ → ℕ → ℕ → ℕ → ℕ
b_type opcode funct3 rs1 rs2 imm =
    opcode % 2 ^ 7
    + bit_and (imm / 2 ^ 11) 1 * 2 ^ 7
    + bit_and (imm / 2) 0xf * 2 ^ 8
    + funct3 % 2 ^ 3 * 2 ^ 12
    + rs1 % 2 ^ 5 * 2 ^ 15
    + rs2 % 2 ^ 5 * 2 ^ 20
    + bit_and (imm / 2 ^ 5) 0x3f * 2 ^ 25
    + bit_and (imm / 2 ^ 31) 1 * 2 ^ 31

unfoldable pub u_type : ℕ → ℕ → ℕ → ℕ
u_type opcode rd imm = opcode % 2 ^ 7 + rd % 2 ^ 5 * 2 ^ 7 + imm % 2 ^ 20 * 2 ^ 12

unfoldable pub j_type : ℕ → ℕ → ℕ → ℕ
j_type opcode rd imm =
    opcode % 2 ^ 7
    + rd % 2 ^ 5 * 2 ^ 7
    + bit_and (imm / 2 ^ 12) 0xff * 2 ^ 12
    + bit_and (imm / 2 ^ 11) 1 * 2 ^ 20
    + bit_and (imm / 2) 0x3ff * 2 ^ 21
    + bit_and (imm / 2 ^ 20) 1 * 2 ^ 31

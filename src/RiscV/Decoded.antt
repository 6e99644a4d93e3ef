-- ===== src/RiscV/Decoded.antt =====
-- The words that the assembler makes, taken apart by the fields of the manual.
use smolforth.Base.{ℕ, ◌+◌, ◌-◌, ◌*◌, ◌/◌, ◌%◌, ◌^◌, ◌<◌, ◌≡◌, arith, ◌⊎◌}
use smolforth.Base.{bit_and}
use smolforth.Base.Bits.{bit_and_mask}
use smolforth.RiscV.Format.{r_type, i_type, u_type, j_type}
use smolforth.RiscV.Names.{asmgen_jal, j_instr}
use smolforth.RiscV.Isa.{
  opcode_of, rd_of, funct3_of, rs1_of, rs2_of, funct7_of, i_imm_of, jump_offset, sign_extend,
}

pub u_type_fields :
    (op rd imm : ℕ)
    → op < 128
    → rd < 32
    → (opcode_of (u_type op rd imm) ≡ op)
      × (rd_of (u_type op rd imm) ≡ rd)
      × (u_type op rd imm / 4096 ≡ imm % 2 ^ 20)
unfolding u_type
u_type_fields op rd imm h k = (omega arith, omega arith, omega arith)

pub i_type_fields :
    (op rd f3 rs1 imm : ℕ)
    → op < 128
    → rd < 32
    → f3 < 8
    → rs1 < 32
    → (opcode_of (i_type op rd f3 rs1 imm) ≡ op)
      × (rd_of (i_type op rd f3 rs1 imm) ≡ rd)
      × (funct3_of (i_type op rd f3 rs1 imm) ≡ f3)
      × (rs1_of (i_type op rd f3 rs1 imm) ≡ rs1)
      × (i_imm_of (i_type op rd f3 rs1 imm) ≡ imm % 2 ^ 12)
unfolding i_type
i_type_fields op rd f3 rs1 imm h k l n =
    let e : bit_and imm 0xfff ≡ imm % 2 ^ 12 = bit_and_mask 12 imm in
    (omega arith, omega arith, omega arith, omega arith, omega arith)

pub r_type_fields :
    (op rd f3 rs1 rs2 f7 : ℕ)
    → op < 128
    → rd < 32
    → f3 < 8
    → rs1 < 32
    → rs2 < 32
    → f7 < 128
    → (opcode_of (r_type op rd f3 rs1 rs2 f7) ≡ op)
      × (rd_of (r_type op rd f3 rs1 rs2 f7) ≡ rd)
      × (funct3_of (r_type op rd f3 rs1 rs2 f7) ≡ f3)
      × (rs1_of (r_type op rd f3 rs1 rs2 f7) ≡ rs1)
      × (rs2_of (r_type op rd f3 rs1 rs2 f7) ≡ rs2)
      × (funct7_of (r_type op rd f3 rs1 rs2 f7) ≡ f7)
unfolding r_type
r_type_fields op rd f3 rs1 rs2 f7 h k l n o q =
    (omega arith, omega arith, omega arith, omega arith, omega arith, omega arith)

-- The four fields of a jump, as remainders.
j_type_split :
    (rd imm : ℕ)
    → j_instr asmgen_jal rd imm
      ≡ 0x6f
        + rd % 2 ^ 5 * 2 ^ 7
        + imm / 2 ^ 12 % 2 ^ 8 * 2 ^ 12
        + imm / 2 ^ 11 % 2 * 2 ^ 20
        + imm / 2 % 2 ^ 10 * 2 ^ 21
        + imm / 2 ^ 20 % 2 * 2 ^ 31
unfolding j_instr j_type
j_type_split rd imm = omega (
  arith,
  bit_and_mask 8 (imm / 2 ^ 12),
  bit_and_mask 1 (imm / 2 ^ 11),
  bit_and_mask 10 (imm / 2),
  bit_and_mask 1 (imm / 2 ^ 20),
)

-- JAL at an even 32-bit offset from -2^20 up to but not including 2^20: the processor, which puts
-- the four scattered fields of the word together and extends the sign, jumps by that offset.
pub jump_offset-j_instr :
    (rd imm : ℕ)
    → imm % 2 ≡ 0
    → (imm < 2 ^ 20) ⊎ ((2 ^ 32 - 2 ^ 20 < imm + 1) × (imm < 2 ^ 32))
    → jump_offset (j_instr asmgen_jal rd imm) ≡ sign_extend (2 ^ 31) imm
unfolding jump_offset sign_extend
jump_offset-j_instr rd imm even range = rw (j_type_split rd imm) (ground arith)

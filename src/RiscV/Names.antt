-- ===== src/RiscV/Names.antt =====
-- arch/riscv/asmgen_riscv.h: the instructions with immediates. A function
-- `asmgen_ADDI` of the source is the clause of the format's function at the constructor
-- `asmgen_addi`, and its value is the word that it stores at `*p`.
use smolforth.Base.{ℕ, ◌/◌, ◌^◌, if◌then◌else◌, ◌==◌, Option, none, some, bit_and, bit_or}
use smolforth.RiscV.Format.{r_type, i_type, s_type, b_type, b_in_range, u_type, j_type}

pub data UName : Type 0 where
  asmgen_lui asmgen_auipc : UName

unfoldable pub u_instr : UName → ℕ → ℕ → ℕ
unfolding u_type
u_instr asmgen_lui rd imm = u_type 0x37 rd imm
u_instr asmgen_auipc rd imm = u_type 0x17 rd imm

pub data JName : Type 0 where
  asmgen_jal : JName

unfoldable pub j_instr : JName → ℕ → ℕ → ℕ
unfolding j_type
j_instr asmgen_jal rd imm = j_type 0x6f rd imm

pub data IName : Type 0 where
  asmgen_jalr asmgen_lb asmgen_lh asmgen_lw asmgen_lbu asmgen_lhu asmgen_addi asmgen_slti : IName
  asmgen_sltiu asmgen_xori asmgen_ori asmgen_andi asmgen_lwu asmgen_ld asmgen_addiw : IName

unfoldable pub i_instr : IName → ℕ → ℕ → ℕ → ℕ
unfolding i_type
i_instr asmgen_jalr rd rs1 imm = i_type 0x67 rd 0 rs1 imm
i_instr asmgen_lb rd rs1 imm = i_type 0x3 rd 0 rs1 imm
i_instr asmgen_lh rd rs1 imm = i_type 0x3 rd 1 rs1 imm
i_instr asmgen_lw rd rs1 imm = i_type 0x3 rd 2 rs1 imm
i_instr asmgen_lbu rd rs1 imm = i_type 0x3 rd 4 rs1 imm
i_instr asmgen_lhu rd rs1 imm = i_type 0x3 rd 5 rs1 imm
i_instr asmgen_addi rd rs1 imm = i_type 0x13 rd 0 rs1 imm
i_instr asmgen_slti rd rs1 imm = i_type 0x13 rd 2 rs1 imm
i_instr asmgen_sltiu rd rs1 imm = i_type 0x13 rd 3 rs1 imm
i_instr asmgen_xori rd rs1 imm = i_type 0x13 rd 4 rs1 imm
i_instr asmgen_ori rd rs1 imm = i_type 0x13 rd 6 rs1 imm
i_instr asmgen_andi rd rs1 imm = i_type 0x13 rd 7 rs1 imm
i_instr asmgen_lwu rd rs1 imm = i_type 0x3 rd 6 rs1 imm
i_instr asmgen_ld rd rs1 imm = i_type 0x3 rd 3 rs1 imm
i_instr asmgen_addiw rd rs1 imm = i_type 0x1b rd 0 rs1 imm

pub data SName : Type 0 where
  asmgen_sb asmgen_sh asmgen_sw asmgen_sd : SName

unfoldable pub s_instr : SName → ℕ → ℕ → ℕ → ℕ
unfolding s_type
s_instr asmgen_sb rs2 rs1 imm = s_type 0x23 0 rs1 rs2 imm
s_instr asmgen_sh rs2 rs1 imm = s_type 0x23 1 rs1 rs2 imm
s_instr asmgen_sw rs2 rs1 imm = s_type 0x23 2 rs1 rs2 imm
s_instr asmgen_sd rs2 rs1 imm = s_type 0x23 3 rs1 rs2 imm

pub data BName : Type 0 where
  asmgen_beq asmgen_bne asmgen_blt asmgen_bge asmgen_bltu asmgen_bgeu : BName

-- The two asserts: of the macro on the lowest bit, of `b_type_imm` on the range.
unfoldable pub b_checked : ℕ → ℕ → ℕ → ℕ → Option ℕ
unfolding b_type b_in_range
b_checked funct3 rs1 rs2 imm =
    if bit_and imm 1 == 0
    then (if b_in_range imm then some (b_type 0x63 funct3 rs1 rs2 imm) else none)
    else none

unfoldable pub b_instr : BName → ℕ → ℕ → ℕ → Option ℕ
unfolding b_checked
b_instr asmgen_beq rs1 rs2 imm = b_checked 0 rs1 rs2 imm
b_instr asmgen_bne rs1 rs2 imm = b_checked 1 rs1 rs2 imm
b_instr asmgen_blt rs1 rs2 imm = b_checked 4 rs1 rs2 imm
b_instr asmgen_bge rs1 rs2 imm = b_checked 5 rs1 rs2 imm
b_instr asmgen_bltu rs1 rs2 imm = b_checked 6 rs1 rs2 imm
b_instr asmgen_bgeu rs1 rs2 imm = b_checked 7 rs1 rs2 imm

pub data ShiftName : Type 0 where
  asmgen_slli asmgen_srli asmgen_srai : ShiftName

unfoldable pub sr_instr : ShiftName → ℕ → ℕ → ℕ → ℕ
unfolding r_type
sr_instr asmgen_slli rd rs1 rs2 = r_type 0x13 rd 1 rs1 rs2 (bit_or (bit_and (rs2 / 2 ^ 5) 1) 0x0)
sr_instr asmgen_srli rd rs1 rs2 = r_type 0x13 rd 5 rs1 rs2 (bit_or (bit_and (rs2 / 2 ^ 5) 1) 0x0)
sr_instr asmgen_srai rd rs1 rs2 = r_type 0x13 rd 5 rs1 rs2 (bit_or (bit_and (rs2 / 2 ^ 5) 1) 0x20)

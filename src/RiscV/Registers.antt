-- ===== src/RiscV/Registers.antt =====
-- arch/riscv/asmgen_riscv.h: the instructions on registers. A function
-- `asmgen_ADDI` of the source is the clause of the format's function at the constructor
-- `asmgen_addi`, and its value is the word that it stores at `*p`.
use smolforth.Base.{ℕ, ◌*◌, ◌^◌, bit_and, bit_or}
use smolforth.RiscV.Format.{r_type, i_type}

pub data RName : Type 0 where
  asmgen_add asmgen_sub asmgen_sll asmgen_slt asmgen_sltu asmgen_xor asmgen_srl : RName
  asmgen_sra asmgen_or asmgen_and asmgen_slliw asmgen_srliw asmgen_sraiw asmgen_addw : RName
  asmgen_subw asmgen_sllw asmgen_srlw asmgen_sraw asmgen_mul asmgen_mulh asmgen_mulhsu : RName
  asmgen_mulhu asmgen_div asmgen_divu asmgen_rem asmgen_remu asmgen_mulw asmgen_divw : RName
  asmgen_divuw asmgen_remw asmgen_remuw : RName

unfoldable pub r_instr : RName → ℕ → ℕ → ℕ → ℕ
unfolding r_type
r_instr asmgen_add rd rs1 rs2 = r_type 0x33 rd 0 rs1 rs2 0x0
r_instr asmgen_sub rd rs1 rs2 = r_type 0x33 rd 0 rs1 rs2 0x20
r_instr asmgen_sll rd rs1 rs2 = r_type 0x33 rd 1 rs1 rs2 0x0
r_instr asmgen_slt rd rs1 rs2 = r_type 0x33 rd 2 rs1 rs2 0x0
r_instr asmgen_sltu rd rs1 rs2 = r_type 0x33 rd 3 rs1 rs2 0x0
r_instr asmgen_xor rd rs1 rs2 = r_type 0x33 rd 4 rs1 rs2 0x0
r_instr asmgen_srl rd rs1 rs2 = r_type 0x33 rd 5 rs1 rs2 0x0
r_instr asmgen_sra rd rs1 rs2 = r_type 0x33 rd 5 rs1 rs2 0x20
r_instr asmgen_or rd rs1 rs2 = r_type 0x33 rd 6 rs1 rs2 0x0
r_instr asmgen_and rd rs1 rs2 = r_type 0x33 rd 7 rs1 rs2 0x0
r_instr asmgen_slliw rd rs1 rs2 = r_type 0x1b rd 1 rs1 rs2 0x0
r_instr asmgen_srliw rd rs1 rs2 = r_type 0x1b rd 5 rs1 rs2 0x0
r_instr asmgen_sraiw rd rs1 rs2 = r_type 0x1b rd 5 rs1 rs2 0x20
r_instr asmgen_addw rd rs1 rs2 = r_type 0x3b rd 0 rs1 rs2 0x0
r_instr asmgen_subw rd rs1 rs2 = r_type 0x3b rd 0 rs1 rs2 0x20
r_instr asmgen_sllw rd rs1 rs2 = r_type 0x3b rd 1 rs1 rs2 0x0
r_instr asmgen_srlw rd rs1 rs2 = r_type 0x3b rd 5 rs1 rs2 0x0
r_instr asmgen_sraw rd rs1 rs2 = r_type 0x3b rd 5 rs1 rs2 0x20
r_instr asmgen_mul rd rs1 rs2 = r_type 0x33 rd 0 rs1 rs2 0x1
r_instr asmgen_mulh rd rs1 rs2 = r_type 0x33 rd 1 rs1 rs2 0x1
r_instr asmgen_mulhsu rd rs1 rs2 = r_type 0x33 rd 2 rs1 rs2 0x1
r_instr asmgen_mulhu rd rs1 rs2 = r_type 0x33 rd 3 rs1 rs2 0x1
r_instr asmgen_div rd rs1 rs2 = r_type 0x33 rd 4 rs1 rs2 0x1
r_instr asmgen_divu rd rs1 rs2 = r_type 0x33 rd 5 rs1 rs2 0x1
r_instr asmgen_rem rd rs1 rs2 = r_type 0x33 rd 6 rs1 rs2 0x1
r_instr asmgen_remu rd rs1 rs2 = r_type 0x33 rd 7 rs1 rs2 0x1
r_instr asmgen_mulw rd rs1 rs2 = r_type 0x3b rd 0 rs1 rs2 0x1
r_instr asmgen_divw rd rs1 rs2 = r_type 0x3b rd 4 rs1 rs2 0x1
r_instr asmgen_divuw rd rs1 rs2 = r_type 0x3b rd 5 rs1 rs2 0x1
r_instr asmgen_remw rd rs1 rs2 = r_type 0x3b rd 6 rs1 rs2 0x1
r_instr asmgen_remuw rd rs1 rs2 = r_type 0x3b rd 7 rs1 rs2 0x1

pub data AName : Type 0 where
  asmgen_amoadd_w asmgen_amoswap_w asmgen_amoadd_d asmgen_amoswap_d : AName

unfoldable pub a_instr : AName → ℕ → ℕ → ℕ → ℕ → ℕ
unfolding r_type
a_instr asmgen_amoadd_w rd rs2 rs1 flag = r_type 0x2f rd 2 rs1 rs2 (bit_or (0x0 * 2 ^ 2) flag)
a_instr asmgen_amoswap_w rd rs2 rs1 flag = r_type 0x2f rd 2 rs1 rs2 (bit_or (0x1 * 2 ^ 2) flag)
a_instr asmgen_amoadd_d rd rs2 rs1 flag = r_type 0x2f rd 3 rs1 rs2 (bit_or (0x0 * 2 ^ 2) flag)
a_instr asmgen_amoswap_d rd rs2 rs1 flag = r_type 0x2f rd 3 rs1 rs2 (bit_or (0x1 * 2 ^ 2) flag)

pub data CsrName : Type 0 where
  asmgen_csrrw asmgen_csrrs asmgen_csrrc asmgen_csrrwi asmgen_csrrsi asmgen_csrrci : CsrName

unfoldable pub csr_instr : CsrName → ℕ → ℕ → ℕ → ℕ
unfolding i_type
csr_instr asmgen_csrrw csr rd rs1 = i_type 0x73 rd 1 rs1 csr
csr_instr asmgen_csrrs csr rd rs1 = i_type 0x73 rd 2 rs1 csr
csr_instr asmgen_csrrc csr rd rs1 = i_type 0x73 rd 3 rs1 csr
csr_instr asmgen_csrrwi csr rd rs1 = i_type 0x73 rd 5 rs1 csr
csr_instr asmgen_csrrsi csr rd rs1 = i_type 0x73 rd 6 rs1 csr
csr_instr asmgen_csrrci csr rd rs1 = i_type 0x73 rd 7 rs1 csr

pub data PName : Type 0 where
  asmgen_sret asmgen_ecall : PName

unfoldable pub p_instr : PName → ℕ
unfolding i_type
p_instr asmgen_sret = i_type 0x73 0 0 0 (bit_or (0x8 * 2 ^ 5) (bit_and 0x2 0x1f))
p_instr asmgen_ecall = i_type 0x73 0 0 0 (bit_or (0x0 * 2 ^ 5) (bit_and 0x0 0x1f))

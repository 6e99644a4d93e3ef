-- ===== src/RiscV/Flow.antt =====
-- Where the branches that the compiler makes lead to.
use smolforth.Base.{ℕ, ◌+◌, ◌*◌, ◌/◌, ◌%◌, ◌^◌, ◌<◌, ◌≡◌, arith}
use smolforth.Base.{List, [], ◌∷◌, if◌then◌else◌, ◌==◌}
use smolforth.Base.{true}
use smolforth.Base.Bits.{bit_and_mask}
use smolforth.RiscV.Format.{b_type, b_in_range}
use smolforth.RiscV.Isa.{
  Registers, read, sign_extend, branch_offset, jump_offset, opcode_of, funct3_of, rs1_of, rs2_of,
}

-- The address after an instruction: BEQ, BNE and JAL may go elsewhere than to the next one.
unfoldable pub next_pc : ℕ → Registers → ℕ → ℕ
unfolding read branch_offset jump_offset
next_pc w regs pc =
    let equal = read (rs1_of w) regs == read (rs2_of w) regs in
    let target = (pc + branch_offset w) % 2 ^ 64 in
    if opcode_of w == 0x6f
    then (pc + jump_offset w) % 2 ^ 64
    else if opcode_of w + 128 * funct3_of w == 0x63
    then (if equal then target else pc + 4)
    else if opcode_of w + 128 * funct3_of w == 0x63 + 128
    then (if equal then pc + 4 else target)
    else pc + 4

-- The address at which control leaves a run of instructions that starts at `pc`: each goes on to
-- the next, or out of the run for good.
unfoldable pub flow : List ℕ → Registers → ℕ → ℕ
unfolding next_pc
flow [] regs pc = pc
flow (w ∷ ws) regs pc =
    let onward = flow ws regs (pc + 4) in
    if next_pc w regs pc == pc + 4 then onward else next_pc w regs pc

b_type_split :
    (f3 rs1 rs2 imm : ℕ)
    → f3 < 8
    → rs1 < 32
    → rs2 < 32
    → b_type 0x63 f3 rs1 rs2 imm
      ≡ 0x63
        + imm / 2 ^ 11 % 2 * 2 ^ 7
        + imm / 2 % 2 ^ 4 * 2 ^ 8
        + f3 * 2 ^ 12
        + rs1 * 2 ^ 15
        + rs2 * 2 ^ 20
        + imm / 2 ^ 5 % 2 ^ 6 * 2 ^ 25
        + imm / 2 ^ 31 % 2 * 2 ^ 31
unfolding b_type
b_type_split f3 rs1 rs2 imm h k l = omega (
  arith,
  bit_and_mask 1 (imm / 2 ^ 11),
  bit_and_mask 4 (imm / 2),
  bit_and_mask 6 (imm / 2 ^ 5),
  bit_and_mask 1 (imm / 2 ^ 31),
)

pub b_type_fields :
    (f3 rs1 rs2 imm : ℕ)
    → f3 < 8
    → rs1 < 32
    → rs2 < 32
    → (opcode_of (b_type 0x63 f3 rs1 rs2 imm) ≡ 0x63)
      × (funct3_of (b_type 0x63 f3 rs1 rs2 imm) ≡ f3)
      × (rs1_of (b_type 0x63 f3 rs1 rs2 imm) ≡ rs1)
      × (rs2_of (b_type 0x63 f3 rs1 rs2 imm) ≡ rs2)
b_type_fields f3 rs1 rs2 imm h k l =
    let e = b_type_split f3 rs1 rs2 imm h k l in
    (omega arith, omega arith, omega arith, omega arith)

-- The range that `b_type_imm` asserts is what a branch can reach.
pub branch_offset-b_type :
    (f3 rs1 rs2 imm : ℕ)
    → f3 < 8
    → rs1 < 32
    → rs2 < 32
    → imm < 2 ^ 32
    → imm % 2 ≡ 0
    → b_in_range imm ≡ true
    → branch_offset (b_type 0x63 f3 rs1 rs2 imm) ≡ sign_extend (2 ^ 31) imm
unfolding branch_offset sign_extend b_in_range
branch_offset-b_type f3 rs1 rs2 imm h k l fits even range =
    rw (b_type_split f3 rs1 rs2 imm h k l) (ground arith)

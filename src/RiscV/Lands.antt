-- ===== src/RiscV/Lands.antt =====
-- A conditional branch, near or far, leads where it should.
use smolforth.Base.{ℕ, ◌+◌, ◌-◌, ◌*◌, ◌/◌, ◌%◌, ◌^◌, ◌≤◌, ◌<◌, ◌≡◌, ◌⊎◌, refl, arith}
use smolforth.Base.{some, List, [], ◌∷◌, ◌∙◌, ap, inl, inr, if◌then◌else◌, ◌==◌}
use smolforth.Base.{Bool, true, false, Bool-cases}
use smolforth.Base.Bits.{bit_and_mask}
use smolforth.Compiler.{count_words}
use smolforth.RiscV.Format.{b_type, b_in_range, j_type}
use smolforth.RiscV.Names.{asmgen_jal, b_instr, b_checked, j_instr}
use smolforth.RiscV.Isa.{Registers, read, sign_extend, opcode_of}
use smolforth.RiscV.Decoded.{jump_offset-j_instr}
use smolforth.RiscV.Branches.{asmgen_beq_or_jal, bne_jal, followed_by}
use smolforth.RiscV.Flow.{next_pc, flow, b_type_fields, branch_offset-b_type}

near_words :
    (rs1 rs2 imm : ℕ)
    → imm % 2 ≡ 0
    → b_in_range imm ≡ true
    → asmgen_beq_or_jal rs1 rs2 imm ≡ some (b_type 0x63 0 rs1 rs2 imm ∷ [])
unfolding asmgen_beq_or_jal b_instr b_checked followed_by
near_words rs1 rs2 imm even range = rw (range, bit_and_mask 1 imm, even) refl

far_words :
    (rs1 rs2 imm : ℕ)
    → b_in_range imm ≡ false
    → asmgen_beq_or_jal rs1 rs2 imm
      ≡ some (b_type 0x63 1 rs1 rs2 8 ∷ j_instr asmgen_jal 0 ((imm + (2 ^ 32 - 4)) % 2 ^ 32) ∷ [])
unfolding asmgen_beq_or_jal bne_jal followed_by b_instr b_checked
far_words rs1 rs2 imm range = rw range refl

next_beq :
    (rs1 rs2 imm pc : ℕ) (regs : Registers)
    → rs1 < 32
    → rs2 < 32
    → imm < 2 ^ 32
    → imm % 2 ≡ 0
    → b_in_range imm ≡ true
    → next_pc (b_type 0x63 0 rs1 rs2 imm) regs pc ≡ (
        if read rs1 regs == read rs2 regs then (pc + sign_extend (2 ^ 31) imm) % 2 ^ 64 else pc + 4)
unfolding next_pc
next_beq rs1 rs2 imm pc regs k l fits even range =
    let f = b_type_fields 0 rs1 rs2 imm (omega arith) k l in
    rw (f.0, f.1, f.2, f.3, branch_offset-b_type 0 rs1 rs2 imm (omega arith) k l fits even range)
      refl

next_bne :
    (rs1 rs2 pc : ℕ) (regs : Registers)
    → rs1 < 32
    → rs2 < 32
    → pc + 8 < 2 ^ 64
    → next_pc (b_type 0x63 1 rs1 rs2 8) regs pc
      ≡ (if read rs1 regs == read rs2 regs then pc + 4 else pc + 8)
unfolding next_pc sign_extend b_in_range
next_bne rs1 rs2 pc regs k l room =
    let f = b_type_fields 1 rs1 rs2 8 (omega arith) k l in
    let e : (pc + 8) % 2 ^ 64 ≡ pc + 8 = omega arith in
    rw
      (
        f.0,
        f.1,
        f.2,
        f.3,
        branch_offset-b_type 1 rs1 rs2 8 (omega arith) k l (omega arith) refl refl,
      )
      (rw e refl)

j_type_opcode : (rd imm : ℕ) → opcode_of (j_type 0x6f rd imm) ≡ 0x6f
unfolding j_type
j_type_opcode rd imm = omega (
  arith,
  bit_and_mask 8 (imm / 2 ^ 12),
  bit_and_mask 1 (imm / 2 ^ 11),
  bit_and_mask 10 (imm / 2),
  bit_and_mask 1 (imm / 2 ^ 20),
)

next_jal :
    (rd imm pc : ℕ) (regs : Registers)
    → imm % 2 ≡ 0
    → (imm < 2 ^ 20) ⊎ ((2 ^ 32 - 2 ^ 20 < imm + 1) × (imm < 2 ^ 32))
    → next_pc (j_instr asmgen_jal rd imm) regs pc ≡ (pc + sign_extend (2 ^ 31) imm) % 2 ^ 64
unfolding next_pc j_instr
next_jal rd imm pc regs even range =
    rw (j_type_opcode rd imm)
      (ap (λ (t : ℕ). (pc + t) % 2 ^ 64) (jump_offset-j_instr rd imm even range))

-- JAL stands four bytes after the branch, so its offset is less by four.
far_target :
    (imm pc : ℕ)
    → imm < 2 ^ 32
    → pc < 2 ^ 64
    → (imm < 2 ^ 31) ⊎ (2 ^ 31 + 4 ≤ imm)
    → (pc + 4 + sign_extend (2 ^ 31) ((imm + (2 ^ 32 - 4)) % 2 ^ 32)) % 2 ^ 64
      ≡ (pc + sign_extend (2 ^ 31) imm) % 2 ^ 64
unfolding sign_extend
far_target imm pc fits room half = ground arith

flow_one : (w pc : ℕ) (regs : Registers) → flow (w ∷ []) regs pc ≡ next_pc w regs pc
unfolding flow
flow_one w pc regs = ground arith

flow_stay :
    (w v pc : ℕ) (regs : Registers)
    → next_pc w regs pc ≡ pc + 4
    → flow (w ∷ v ∷ []) regs pc ≡ flow (v ∷ []) regs (pc + 4)
unfolding flow
flow_stay w v pc regs h = rw h (test_same _ (pc + 4))
  where
    test_same : {x : ℕ} (y n : ℕ) → (if n == n then x else y) ≡ x
    test_same y n = ground arith

flow_leave :
    (w v pc : ℕ) (regs : Registers)
    → next_pc w regs pc ≡ pc + 8
    → flow (w ∷ v ∷ []) regs pc ≡ pc + 8
unfolding flow
flow_leave w v pc regs h = rw h (test_ne _ pc)
  where
    test_ne : (x n : ℕ) → (if n + 8 == n + 4 then x else n + 8) ≡ n + 8
    test_ne x n = ground arith

flow_two :
    (w v pc : ℕ) (same : Bool) (regs : Registers)
    → next_pc w regs pc ≡ (if same then pc + 4 else pc + 8)
    → flow (w ∷ v ∷ []) regs pc ≡ (if same then next_pc v regs (pc + 4) else pc + 8)
flow_two w v pc true regs h = flow_stay w v pc regs h ∙ flow_one v (pc + 4) regs
flow_two w v pc false regs h = flow_leave w v pc regs h

less_four :
    (imm : ℕ)
    → (imm < 2 ^ 20) ⊎ ((2 ^ 32 - 2 ^ 20 + 4 ≤ imm) × (imm < 2 ^ 32))
    → b_in_range imm ≡ false
    → ((imm + (2 ^ 32 - 4)) % 2 ^ 32 < 2 ^ 20)
      ⊎ ((2 ^ 32 - 2 ^ 20 < (imm + (2 ^ 32 - 4)) % 2 ^ 32 + 1)
          × ((imm + (2 ^ 32 - 4)) % 2 ^ 32 < 2 ^ 32))
unfolding b_in_range
less_four imm range far = ground arith

-- BEQ_OR_JAL assembles for every even offset from -2^20 + 4 up to but not including 2^20, and its
-- one or two instructions lead by that offset from where they start if the two registers are
-- equal, and on to what follows them if not.
pub asmgen_beq_or_jal-flow :
    (rs1 rs2 imm pc : ℕ) (regs : Registers)
    → rs1 < 32
    → rs2 < 32
    → pc + 8 < 2 ^ 64
    → imm % 2 ≡ 0
    → (imm < 2 ^ 20) ⊎ ((2 ^ 32 - 2 ^ 20 + 4 ≤ imm) × (imm < 2 ^ 32))
    → (ws : List ℕ) × (asmgen_beq_or_jal rs1 rs2 imm ≡ some ws)
      × (count_words ws ≤ 2)
      × (flow ws regs pc ≡ (
          if read rs1 regs == read rs2 regs
          then (pc + sign_extend (2 ^ 31) imm) % 2 ^ 64
          else pc + 4 * count_words ws))
unfolding count_words
asmgen_beq_or_jal-flow rs1 rs2 imm pc regs k l room even range =
    elim (Bool-cases (b_in_range imm)) [
      | inl near ↦ (
        b_type 0x63 0 rs1 rs2 imm ∷ [],
        near_words rs1 rs2 imm even near,
        omega arith,
        flow_one _ pc regs ∙ next_beq rs1 rs2 imm pc regs k l (omega arith) even near,
      )
      | inr far ↦ (
        b_type 0x63 1 rs1 rs2 8 ∷ j_instr asmgen_jal 0 ((imm + (2 ^ 32 - 4)) % 2 ^ 32) ∷ [],
        far_words rs1 rs2 imm far,
        omega arith,
        flow_two _ _ pc (read rs1 regs == read rs2 regs) regs (next_bne rs1 rs2 pc regs k l room)
            ∙ ap (λ (t : ℕ). if read rs1 regs == read rs2 regs then t else pc + 8)
                (next_jal 0 _ (pc + 4) regs (omega arith) (less_four imm range far)
                  ∙ far_target imm pc (omega arith) (omega arith) (omega arith)),
      )
    ]

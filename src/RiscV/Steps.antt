-- ===== src/RiscV/Steps.antt =====
-- What the processor does with each instruction that `c_store` makes.
use smolforth.Base.{ℕ, ◌+◌, ◌*◌, ◌/◌, ◌%◌, ◌^◌, ◌<◌, ◌≡◌, refl, arith}
use smolforth.Base.{Option-cases, inl, inr, sym}
use smolforth.Base.{some, bit_or, List, [], ◌∷◌, ◌++◌, ◌∙◌}
use smolforth.RiscV.Names.{asmgen_lui, asmgen_addi, asmgen_addiw, u_instr, i_instr}
use smolforth.RiscV.Registers.{asmgen_sll, asmgen_srl, asmgen_or, r_instr}
use smolforth.RiscV.Isa.{Registers, read, write, result, exec, exec_all, sign_extend}
use smolforth.RiscV.Decoded.{u_type_fields, i_type_fields, r_type_fields}

pub exec_lui :
    (rd imm : ℕ) (regs : Registers)
    → rd < 32
    → exec (u_instr asmgen_lui rd imm) regs
      ≡ some (write rd (sign_extend (2 ^ 31) (imm % 2 ^ 20 * 4096)) regs)
unfolding u_instr exec result
exec_lui rd imm regs h =
    let f = u_type_fields 0x37 rd imm (omega arith) h in rw (exec, result, f.0, f.1, f.2) refl

pub exec_addi :
    (rd rs1 imm : ℕ) (regs : Registers)
    → rd < 32
    → rs1 < 32
    → exec (i_instr asmgen_addi rd rs1 imm) regs
      ≡ some (write rd ((read rs1 regs + sign_extend (2 ^ 11) (imm % 2 ^ 12)) % 2 ^ 64) regs)
unfolding i_instr exec result
exec_addi rd rs1 imm regs h k =
    let f = i_type_fields 0x13 rd 0 rs1 imm (omega arith) h (omega arith) k in
    rw (exec, result, f.0, f.2, f.3, f.4, f.1) refl

pub exec_addiw :
    (rd rs1 imm : ℕ) (regs : Registers)
    → rd < 32
    → rs1 < 32
    → exec (i_instr asmgen_addiw rd rs1 imm) regs
      ≡ some (
          write rd
            (sign_extend (2 ^ 31) ((read rs1 regs + sign_extend (2 ^ 11) (imm % 2 ^ 12)) % 2 ^ 32))
            regs)
unfolding i_instr exec result
exec_addiw rd rs1 imm regs h k =
    let f = i_type_fields 0x1b rd 0 rs1 imm (omega arith) h (omega arith) k in
    rw (exec, result, f.0, f.2, f.3, f.4, f.1) refl

pub exec_sll :
    (rd rs1 rs2 : ℕ) (regs : Registers)
    → rd < 32
    → rs1 < 32
    → rs2 < 32
    → exec (r_instr asmgen_sll rd rs1 rs2) regs
      ≡ some (write rd (read rs1 regs * 2 ^ (read rs2 regs % 64) % 2 ^ 64) regs)
unfolding r_instr exec result
exec_sll rd rs1 rs2 regs h k l =
    let f = r_type_fields 0x33 rd 1 rs1 rs2 0 (omega arith) h (omega arith) k l (omega arith) in
    rw (exec, result, f.0, f.2, f.3, f.4, f.5, f.1) refl

pub exec_srl :
    (rd rs1 rs2 : ℕ) (regs : Registers)
    → rd < 32
    → rs1 < 32
    → rs2 < 32
    → exec (r_instr asmgen_srl rd rs1 rs2) regs
      ≡ some (write rd (read rs1 regs / 2 ^ (read rs2 regs % 64)) regs)
unfolding r_instr exec result
exec_srl rd rs1 rs2 regs h k l =
    let f = r_type_fields 0x33 rd 5 rs1 rs2 0 (omega arith) h (omega arith) k l (omega arith) in
    rw (exec, result, f.0, f.2, f.3, f.4, f.5, f.1) refl

pub exec_or :
    (rd rs1 rs2 : ℕ) (regs : Registers)
    → rd < 32
    → rs1 < 32
    → rs2 < 32
    → exec (r_instr asmgen_or rd rs1 rs2) regs
      ≡ some (write rd (bit_or (read rs1 regs) (read rs2 regs)) regs)
unfolding r_instr exec result
exec_or rd rs1 rs2 regs h k l =
    let f = r_type_fields 0x33 rd 6 rs1 rs2 0 (omega arith) h (omega arith) k l (omega arith) in
    rw (exec, result, f.0, f.2, f.3, f.4, f.5, f.1) refl

-- Code that starts with an instruction that succeeds, and code in two parts.
pub exec_all-cons :
    (w : ℕ) (ws : List ℕ) (regs regs' : Registers)
    → exec w regs ≡ some regs'
    → exec_all (w ∷ ws) regs ≡ exec_all ws regs'
unfolding exec_all
exec_all-cons w ws regs regs' h = rw (exec_all, h) refl

pub exec_all-append :
    (ws vs : List ℕ) (regs regs' : Registers)
    → exec_all ws regs ≡ some regs'
    → exec_all (ws ++ vs) regs ≡ exec_all vs regs'
unfolding exec_all
exec_all-append [] vs regs regs' h = ground arith
exec_all-append (w ∷ ws) vs regs regs' h = elim (Option-cases (exec w regs)) [
  | inl e ↦ ground arith
  | inr (r, e) ↦
      exec_all-cons w (ws ++ vs) regs r e
      ∙ exec_all-append ws vs r regs' (sym (exec_all-cons w ws regs r e) ∙ h)
]

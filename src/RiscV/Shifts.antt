-- ===== src/RiscV/Shifts.antt =====
-- The shifts by the 32 that T0 holds.
use smolforth.Base.{ℕ, ◌*◌, ◌/◌, ◌%◌, ◌^◌, ◌<◌, ◌≡◌, ◌≢◌, inl, refl, arith, sym, ◌∙◌}
use smolforth.Base.{some, List, ◌∷◌}
use smolforth.RiscV.Names.{asmgen_addi, i_instr}
use smolforth.RiscV.Registers.{asmgen_sll, asmgen_srl, r_instr}
use smolforth.RiscV.Isa.{Registers, write, exec, sign_extend}
use smolforth.RiscV.Leaves.{Leaves, write_same, write_other, read_nonzero, read_zero, step_then}
use smolforth.RiscV.Steps.{exec_addi, exec_sll, exec_srl}

pub load_width :
    (regs : Registers) → exec (i_instr asmgen_addi 5 0 32) regs ≡ some (write 5 32 regs)
unfolding sign_extend
load_width regs = rw (read_zero regs) at (exec_addi 5 0 32 regs (omega arith) (omega arith))

pub shift_left :
    (reg x : ℕ) (regs : Registers)
    → reg < 32
    → reg ≢ 0
    → regs reg ≡ x
    → regs 5 ≡ 32
    → exec (r_instr asmgen_sll reg reg 5) regs ≡ some (write reg (x * 2 ^ 32 % 2 ^ 64) regs)
shift_left reg x regs h k e t =
    rw (read_nonzero reg regs k, read_nonzero 5 regs (λ q. omega arith), e, t) at
      (exec_sll reg reg 5 regs h h (omega arith))

pub shift_right :
    (reg x : ℕ) (regs : Registers)
    → reg < 32
    → reg ≢ 0
    → regs reg ≡ x
    → regs 5 ≡ 32
    → exec (r_instr asmgen_srl reg reg 5) regs ≡ some (write reg (x / 2 ^ 32) regs)
shift_right reg x regs h k e t =
    rw (read_nonzero reg regs k, read_nonzero 5 regs (λ q. omega arith), e, t) at
      (exec_srl reg reg 5 regs h h (omega arith))

-- The pair clears the high half, whatever code comes next.
pub shift_pair-Leaves :
    (ws : List ℕ) (reg x v t : ℕ) (regs : Registers)
    → reg < 32
    → reg ≢ 0
    → reg ≢ 5
    → regs reg ≡ x
    → regs 5 ≡ 32
    → ((regs' : Registers)
        → regs' reg ≡ x * 2 ^ 32 % 2 ^ 64 / 2 ^ 32
        → regs' 5 ≡ 32
        → ((y : ℕ) → y ≢ reg → y ≢ 5 → regs' y ≡ regs y)
        → Leaves ws reg v t regs')
    → Leaves (r_instr asmgen_sll reg reg 5 ∷ r_instr asmgen_srl reg reg 5 ∷ ws) reg v t regs
shift_pair-Leaves ws reg x v t regs h k l e w rest =
    let one : Registers = write reg (x * 2 ^ 32 % 2 ^ 64) regs in
    let w1 : one 5 ≡ 32 = write_other reg _ 5 regs (λ q. l (sym q)) ∙ w in
    step_then _ _ reg reg _ v t regs (inl refl) (shift_left reg x regs h k e w) (
      step_then _ ws reg reg _ v t one (inl refl)
        (shift_right reg _ one h k (write_same reg _ regs) w1)
        (rest _ (write_same reg _ one) (write_other reg _ 5 one (λ q. l (sym q)) ∙ w1)
          (λ y p q. write_other reg _ y one p ∙ write_other reg _ y regs p)))

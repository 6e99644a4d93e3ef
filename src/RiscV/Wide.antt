-- ===== src/RiscV/Wide.antt =====
-- `c_store` of every constant: the processor that runs its code ends with the constant in the
-- register.
use smolforth.Base.{ℕ, ◌+◌, ◌*◌, ◌/◌, ◌%◌, ◌^◌, ◌<◌, ◌≡◌, ◌≢◌, refl, arith}
use smolforth.Base.{[], ◌∷◌, ◌∙◌, bit_or, inr}
use smolforth.Base.Bits.{bit_or_sum_right}
use smolforth.RiscV.Names.{asmgen_addi, i_instr}
use smolforth.RiscV.Registers.{asmgen_sll, asmgen_srl, asmgen_or, r_instr}
use smolforth.RiscV.Isa.{Registers}
use smolforth.RiscV.Steps.{exec_or}
use smolforth.RiscV.Leaves.{Leaves, write_same, write_other, read_nonzero, step_then, one_step}
use smolforth.RiscV.Shifts.{load_width, shift_left, shift_pair-Leaves}
use mathlib.Core.Path.{subst}

-- A half that is shifted up by the 32 just put in T0.
pub shift_up-Leaves :
    (reg x : ℕ) (regs : Registers)
    → reg < 32
    → reg ≢ 0
    → reg ≢ 5
    → regs reg ≡ x
    → Leaves
        (i_instr asmgen_addi 5 0 32 ∷ r_instr asmgen_sll reg reg 5 ∷ [])
        reg
        (x * 2 ^ 32 % 2 ^ 64)
        32
        regs
shift_up-Leaves reg x regs h k l e = step_then _ _ 5 reg 32 _ 32 regs (inr refl) (load_width regs) (
    one_step _ reg _ _ 32 _ l
      (shift_left reg x _ h k (write_other 5 32 reg regs l ∙ e) (write_same 5 32 regs)) refl
      (write_same 5 32 regs))

-- The low half is cleared above, and the high half, in the next register, is put on top.
pub combine-Leaves :
    (reg hi lo : ℕ) (regs : Registers)
    → reg + 1 < 32
    → reg ≢ 0
    → reg ≢ 5
    → reg + 1 ≢ 5
    → hi < 2 ^ 32
    → lo < 2 ^ 32
    → regs reg ≡ lo
    → regs 5 ≡ 32
    → regs (reg + 1) ≡ hi * 2 ^ 32
    → Leaves
        (r_instr asmgen_sll reg reg 5
          ∷ r_instr asmgen_srl reg reg 5
          ∷ r_instr asmgen_or reg reg (reg + 1)
          ∷ [])
        reg
        (hi * 2 ^ 32 + lo)
        32
        regs
combine-Leaves reg hi lo regs h k l n hf lf e w up =
    shift_pair-Leaves _ reg lo _ 32 regs (omega arith) k l e w (λ r e' w' same.
      one_step _ reg _ _ 32 r l (exec_or reg reg (reg + 1) r (omega arith) (omega arith) h)
        (rw (read_nonzero reg r k, read_nonzero (reg + 1) r (λ q. omega arith), e')
          (rw (same (reg + 1) (λ q. omega arith) n, up)
            (subst (λ x. bit_or x (hi * 2 ^ 32) ≡ hi * 2 ^ 32 + lo) (low lo lf)
              (bit_or_sum_right 32 hi lo lf))))
        w')
  where
    low : (lo : ℕ) → lo < 2 ^ 32 → lo ≡ lo * 2 ^ 32 % 2 ^ 64 / 2 ^ 32
    low lo lf = omega arith

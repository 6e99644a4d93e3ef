-- ===== src/RiscV/Narrow.antt =====
-- `c_store` of a constant whose high half is all zeros or all ones.
use smolforth.Base.{ℕ, ◌+◌, ◌*◌, ◌/◌, ◌%◌, ◌^◌, ◌<◌, ◌≡◌, ◌≢◌, refl, arith}
use smolforth.Base.{[], ◌∷◌, ◌∙◌, if◌then◌else◌, ◌==◌, not}
use smolforth.Base.{zero-cases, false, inl, inr}
use smolforth.RiscV.Names.{asmgen_lui, asmgen_addi, asmgen_addiw, u_instr, i_instr}
use smolforth.RiscV.Registers.{asmgen_sll, asmgen_srl, r_instr}
use smolforth.RiscV.Isa.{Registers, sign_extend}
use smolforth.RiscV.Constant.{load_low, clear_high, lower_bits, upper_bits, c_store_narrow}
use smolforth.RiscV.Leaves.{
  Leaves, write_same, write_other, read_nonzero, read_zero, no_step, step_then, one_step,
  both_pieces,
}
use mathlib.Core.Path.{subst}
use smolforth.Base.{sym}
use smolforth.RiscV.Steps.{exec_lui, exec_addiw}
use smolforth.RiscV.Shifts.{load_width, shift_pair-Leaves}

abbrev pub sext : ℕ → ℕ
sext x = sign_extend (2 ^ 31) x

-- LUI gives the number, but for its lowest twelve bits and their borrow.
pub lui_alone :
    (x : ℕ) → x < 2 ^ 32 → lower_bits x ≡ 0 → sext (upper_bits x % 2 ^ 20 * 4096) ≡ sext x
unfolding lower_bits upper_bits sign_extend
lui_alone x h e = ground arith

pub lui_addiw :
    (x : ℕ)
    → x < 2 ^ 32
    → sext (
        (sext (upper_bits x % 2 ^ 20 * 4096) + sign_extend (2 ^ 11) (lower_bits x % 2 ^ 12))
        % 2 ^ 32)
      ≡ sext x
unfolding lower_bits upper_bits sign_extend
lui_addiw x h = ground arith

pub addiw_alone :
    (x : ℕ)
    → x < 2 ^ 32
    → upper_bits x ≡ 0
    → sext ((0 + sign_extend (2 ^ 11) (lower_bits x % 2 ^ 12)) % 2 ^ 32) ≡ sext x
unfolding lower_bits upper_bits sign_extend
addiw_alone x h e = ground arith

-- A shift to the left and back clears the high half.
pub shifts_clear : (x : ℕ) → x < 2 ^ 32 → sext x * 2 ^ 32 % 2 ^ 64 / 2 ^ 32 ≡ x
unfolding sign_extend
shifts_clear x h = ground arith

upper_bound : (x : ℕ) → upper_bits x < 2 ^ 20
unfolding upper_bits
upper_bound x = omega arith

addiw_words :
    (reg x : ℕ) → upper_bits x ≡ 0 → load_low reg x ≡ i_instr asmgen_addiw reg 0 (lower_bits x) ∷ []
unfolding load_low
addiw_words reg x up = ground arith

lui_words :
    (reg x : ℕ)
    → (upper_bits x == 0) ≡ false
    → load_low reg x
      ≡ u_instr asmgen_lui reg (upper_bits x)
        ∷ (if not (lower_bits x == 0) then i_instr asmgen_addiw reg reg (lower_bits x) ∷ [] else [])
unfolding load_low
lui_words reg x up = let e = upper_bound x in ground arith

-- What follows the LUI.
after_lui :
    (reg x t : ℕ) (regs : Registers)
    → reg < 32
    → reg ≢ 0
    → reg ≢ 5
    → x < 2 ^ 32
    → regs reg ≡ sext (upper_bits x % 2 ^ 20 * 4096)
    → regs 5 ≡ t
    → Leaves
        (if not (lower_bits x == 0) then i_instr asmgen_addiw reg reg (lower_bits x) ∷ [] else [])
        reg
        (sext x)
        t
        regs
after_lui reg x t regs h k l fits loaded kept = elim (zero-cases (lower_bits x)) [
  | inl low ↦ rw low (no_step reg (sext x) t regs (loaded ∙ lui_alone x fits low) kept)
  | inr low ↦ rw low (
      one_step _ reg _ (sext x) t regs l (exec_addiw reg reg (lower_bits x) regs h h)
        (rw (read_nonzero reg regs k, loaded) (lui_addiw x fits)) kept)
]

pub load_low-Leaves :
    (reg x : ℕ) (regs : Registers)
    → reg < 32
    → reg ≢ 0
    → reg ≢ 5
    → x < 2 ^ 32
    → Leaves (load_low reg x) reg (sext x) (regs 5) regs
load_low-Leaves reg x regs h k l fits = elim (zero-cases (upper_bits x)) [
  | inl up ↦
      subst (λ ws. Leaves ws reg (sext x) (regs 5) regs) (sym (addiw_words reg x up))
        (one_step _ reg _ (sext x) _ regs l (exec_addiw reg 0 (lower_bits x) regs h (omega arith))
          (rw (read_zero regs) (addiw_alone x fits up)) refl)
  | inr up ↦
      subst (λ ws. Leaves ws reg (sext x) (regs 5) regs) (sym (lui_words reg x up))
        (step_then _ _ reg reg _ (sext x) _ regs (inl refl) (exec_lui reg (upper_bits x) regs h) (
          after_lui reg x _ _ h k l fits (write_same reg _ regs)
            (write_other reg _ 5 regs (λ e. l (sym e)))))
]

clear_words :
    (reg v : ℕ)
    → v < 2 ^ 32
    → clear_high reg v
      ≡ i_instr asmgen_addi 5 0 32
        ∷ r_instr asmgen_sll reg reg 5
        ∷ r_instr asmgen_srl reg reg 5
        ∷ []
unfolding clear_high
clear_words reg v fits = ground arith

no_words : (reg v : ℕ) → 2 ^ 32 < v + 1 → clear_high reg v ≡ []
unfolding clear_high
no_words reg v high = ground arith

-- A high half of zeros is cleared, and T0 is left at 32.
pub c_store_narrow-Leaves :
    (reg v : ℕ) (regs : Registers)
    → reg < 32
    → reg ≢ 0
    → reg ≢ 5
    → v < 2 ^ 32
    → Leaves (c_store_narrow reg v) reg v 32 regs
unfolding c_store_narrow
c_store_narrow-Leaves reg v regs h k l fits =
    both_pieces (load_low reg (v % 2 ^ 32)) (clear_high reg v) reg _ _ v 32 regs
      (load_low-Leaves reg (v % 2 ^ 32) regs h k l (omega arith))
      (λ r e w same.
        subst (λ ws. Leaves ws reg v 32 r) (sym (clear_words reg v fits))
          (step_then _ _ 5 reg 32 v 32 r (inr refl) (load_width r) (
            shift_pair-Leaves [] reg (sext (v % 2 ^ 32)) v 32 _ h k l (write_other 5 32 reg r l ∙ e)
              (write_same 5 32 r)
              (λ r' e' w' same'.
                no_step reg v 32 r' (e' ∙ shifts_clear (v % 2 ^ 32) (omega arith) ∙ omega arith)
                  w'))))

-- A high half that is not zero is what the sign of the low half makes it.
pub c_store_narrow-Leaves_sign :
    (reg v : ℕ) (regs : Registers)
    → reg < 32
    → reg ≢ 0
    → reg ≢ 5
    → 2 ^ 32 < v + 1
    → Leaves (c_store_narrow reg v) reg (sext (v % 2 ^ 32)) (regs 5) regs
unfolding c_store_narrow
c_store_narrow-Leaves_sign reg v regs h k l high =
    both_pieces (load_low reg (v % 2 ^ 32)) (clear_high reg v) reg _ _ _ _ regs
      (load_low-Leaves reg (v % 2 ^ 32) regs h k l (omega arith))
      (λ r e w same.
        subst (λ ws. Leaves ws reg (sext (v % 2 ^ 32)) (regs 5) r) (sym (no_words reg v high))
          (no_step reg _ _ r e w))

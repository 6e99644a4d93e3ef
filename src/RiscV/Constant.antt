-- ===== src/RiscV/Constant.antt =====
-- arch/riscv/compile.c: `c_store`, which compiles the loading of a constant. Every instruction is
-- appended at `cdata->here`, so the model gives the list of words; `emit` of RiscV/Code puts a
-- list there.
use smolforth.Base.{◌-◌}
use smolforth.Base.{
  ℕ, zero, suc, ◌+◌, ◌*◌, ◌/◌, ◌%◌, ◌^◌, Bool, ◌&&◌, not, if◌then◌else◌, ◌==◌, leb,
}
use smolforth.Base.{bit_and, List, [], ◌∷◌, ◌++◌}
use smolforth.RiscV.Names.{asmgen_lui, asmgen_addi, asmgen_addiw, u_instr, i_instr}
use smolforth.RiscV.Registers.{asmgen_sll, asmgen_srl, asmgen_or, r_instr}

abbrev pub t0 : ℕ
t0 = 5

-- `dtest = ((cell)v) >> 32` is neither 0 nor -1.
unfoldable pub is_wide : ℕ → Bool
is_wide v = not (v / 2 ^ 32 == 0) && not (v / 2 ^ 32 == 2 ^ 32 - 1)

-- `(x << 20) >> 20` of an `int32_t`, as the `uint32_t` that it is assigned to.
unfoldable pub lower_bits : ℕ → ℕ
lower_bits x =
    let low = x * 2 ^ 20 % 2 ^ 32 in
    if leb (2 ^ 31) low then low / 2 ^ 20 + (2 ^ 32 - 2 ^ 12) else low / 2 ^ 20

-- `(x - lower) >> 12` on `uint32_t`.
unfoldable pub upper_bits : ℕ → ℕ
unfolding lower_bits
upper_bits x = (x + (2 ^ 32 - lower_bits x)) % 2 ^ 32 / 2 ^ 12

-- The part after the first `#endif`: LUI and ADDIW, either of which may be left out.
unfoldable pub load_low : ℕ → ℕ → List ℕ
unfolding lower_bits upper_bits u_instr i_instr
load_low reg x =
    let lower = lower_bits x in
    let upper = upper_bits x in
    if not (upper == 0) && not (upper == 2 ^ 32 - 1)
    then u_instr asmgen_lui reg upper
      ∷ (if not (lower == 0) then i_instr asmgen_addiw reg reg lower ∷ [] else [])
    else i_instr asmgen_addiw reg 0 lower ∷ []

-- The last part: the two shifts that clear the high half.
unfoldable pub clear_high : ℕ → ℕ → List ℕ
unfolding i_instr r_instr
clear_high reg v =
    if v / 2 ^ 32 == 0
    then i_instr asmgen_addi t0 0 32
      ∷ r_instr asmgen_sll reg reg t0
      ∷ r_instr asmgen_srl reg reg t0
      ∷ []
    else []

unfoldable pub c_store_narrow : ℕ → ℕ → List ℕ
unfolding load_low clear_high
c_store_narrow reg v = load_low reg (v % 2 ^ 32) ++ clear_high reg v

-- `c_store` calls itself, on 32-bit halves only, which are not wide: one call deep is enough.
unfoldable pub c_store_rounds : ℕ → ℕ → ℕ → List ℕ
unfolding is_wide c_store_narrow i_instr r_instr
c_store_rounds zero reg v = c_store_narrow reg v
c_store_rounds (suc fuel) reg v =
    let high = c_store_rounds fuel (reg + 1) (v / 2 ^ 32) in
    let low = c_store_rounds fuel reg (bit_and v 0xffffffff) in
    let shifted = c_store_rounds fuel reg (v / 2 ^ 32) in
    if is_wide v
    then (if not (bit_and v 0xffffffff == 0)
        then high
          ++ (i_instr asmgen_addi t0 0 32 ∷ r_instr asmgen_sll (reg + 1) (reg + 1) t0 ∷ [])
          ++ low
          ++ (r_instr asmgen_sll reg reg t0
              ∷ r_instr asmgen_srl reg reg t0
              ∷ r_instr asmgen_or reg reg (reg + 1)
              ∷ [])
        else shifted ++ (i_instr asmgen_addi t0 0 32 ∷ r_instr asmgen_sll reg reg t0 ∷ []))
    else c_store_narrow reg v

unfoldable pub c_store : ℕ → ℕ → List ℕ
unfolding c_store_rounds
c_store reg v = c_store_rounds 1 reg v

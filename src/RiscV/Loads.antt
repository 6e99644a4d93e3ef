-- ===== src/RiscV/Loads.antt =====
-- `c_store` of every constant: what the processor that runs its code ends with.
use smolforth.Base.{ℕ, ◌+◌, ◌-◌, ◌/◌, ◌%◌, ◌^◌, ◌≤◌, ◌<◌, ◌≡◌, ◌≢◌, ◌⊎◌, refl, arith}
use smolforth.Base.{some, List, [], ◌∷◌, ◌++◌, ◌∙◌, sym, bit_and, inl, inr, ◌==◌}
use smolforth.Base.{zero-cases, true, false, Bool-cases}
use smolforth.Base.Bits.{bit_and_mask}
use smolforth.RiscV.Names.{asmgen_addi, i_instr}
use smolforth.RiscV.Registers.{asmgen_sll, asmgen_srl, asmgen_or, r_instr}
use smolforth.RiscV.Isa.{Registers, exec_all, sign_extend}
use smolforth.RiscV.Constant.{c_store, c_store_rounds, c_store_narrow, is_wide}
use smolforth.RiscV.Steps.{exec_all-append}
use smolforth.RiscV.Leaves.{Leaves, both_pieces}
use smolforth.RiscV.Narrow.{sext, c_store_narrow-Leaves, c_store_narrow-Leaves_sign}
use smolforth.RiscV.Wide.{shift_up-Leaves, combine-Leaves}
use mathlib.Core.Path.{subst}

-- The code runs through, leaves `v` in `reg`, and changes no register but T0, `reg` and the next.
abbrev pub Loads : List ℕ → ℕ → ℕ → Registers → Type 0
Loads ws reg v regs =
    (regs' : Registers) × (exec_all ws regs ≡ some regs')
    × (regs' reg ≡ v)
    × ((x : ℕ) → x ≢ reg → x ≢ reg + 1 → x ≢ 5 → regs' x ≡ regs x)

Loads-Leaves :
    (ws : List ℕ) (reg v t : ℕ) (regs : Registers) → Leaves ws reg v t regs → Loads ws reg v regs
Loads-Leaves ws reg v t regs l = (l.0, l.1, l.2, λ x p q r. l.4 x p r)

low_half : (v : ℕ) → bit_and v 0xffffffff ≡ v % 2 ^ 32
low_half v = bit_and_mask 32 v

narrow_words : (reg v : ℕ) → is_wide v ≡ false → c_store reg v ≡ c_store_narrow reg v
unfolding c_store c_store_rounds
narrow_words reg v h = rw h refl

half_words :
    (reg v : ℕ)
    → is_wide v ≡ true
    → v % 2 ^ 32 ≡ 0
    → c_store reg v
      ≡ c_store_narrow reg (v / 2 ^ 32)
        ++ (i_instr asmgen_addi 5 0 32 ∷ r_instr asmgen_sll reg reg 5 ∷ [])
unfolding c_store c_store_rounds
half_words reg v h e = rw (h, low_half v, e) refl

full_words :
    (reg v : ℕ)
    → is_wide v ≡ true
    → ((v % 2 ^ 32) == 0) ≡ false
    → c_store reg v
      ≡ c_store_narrow (reg + 1) (v / 2 ^ 32)
        ++ (i_instr asmgen_addi 5 0 32 ∷ r_instr asmgen_sll (reg + 1) (reg + 1) 5 ∷ [])
        ++ c_store_narrow reg (v % 2 ^ 32)
        ++ (r_instr asmgen_sll reg reg 5
            ∷ r_instr asmgen_srl reg reg 5
            ∷ r_instr asmgen_or reg reg (reg + 1)
            ∷ [])
unfolding c_store c_store_rounds
full_words reg v h e = rw (h, low_half v, e) refl

-- A cell from -2^31 up to -1 is the sign extension of its low half.
sext_top : (v : ℕ) → (2 ^ 64 - 2 ^ 31 ≤ v) × (v < 2 ^ 64) → sext (v % 2 ^ 32) ≡ v
unfolding sign_extend
sext_top v h = ground arith

negative_cell :
    (v : ℕ)
    → is_wide v ≡ false
    → ((v / 2 ^ 32) == 0) ≡ false
    → (v < 2 ^ 64 - 2 ^ 32) ⊎ ((2 ^ 64 - 2 ^ 31 ≤ v) × (v < 2 ^ 64))
    → (2 ^ 64 - 2 ^ 31 ≤ v) × (v < 2 ^ 64)
unfolding is_wide
negative_cell v h z range = ground arith

full-Loads :
    (reg v : ℕ) (regs : Registers)
    → reg + 1 < 32
    → reg ≢ 0
    → reg ≢ 5
    → reg ≢ 4
    → v < 2 ^ 64
    → Loads
        (c_store_narrow (reg + 1) (v / 2 ^ 32)
          ++ (i_instr asmgen_addi 5 0 32 ∷ r_instr asmgen_sll (reg + 1) (reg + 1) 5 ∷ [])
          ++ c_store_narrow reg (v % 2 ^ 32)
          ++ (r_instr asmgen_sll reg reg 5
              ∷ r_instr asmgen_srl reg reg 5
              ∷ r_instr asmgen_or reg reg (reg + 1)
              ∷ []))
        reg
        v
        regs
full-Loads reg v regs h k l n fits =
    let hi = v / 2 ^ 32 in
    let lo = v % 2 ^ 32 in
    let a =
      c_store_narrow-Leaves (reg + 1) hi regs h (λ q. omega arith) (λ q. omega arith)
        (omega arith) in
    let b = shift_up-Leaves (reg + 1) hi a.0 h (λ q. omega arith) (λ q. omega arith) a.2 in
    let c = c_store_narrow-Leaves reg lo b.0 (omega arith) k l (omega arith) in
    let d =
      combine-Leaves reg hi lo c.0 h k l (λ q. omega arith) (omega arith) (omega arith) c.2 c.3
        (c.4 (reg + 1) (λ q. omega arith) (λ q. omega arith) ∙ b.2 ∙ omega arith) in
    (
      d.0,
      exec_all-append _ _ regs c.0
            (exec_all-append _ _ regs b.0 (exec_all-append _ _ regs a.0 a.1 ∙ b.1) ∙ c.1)
          ∙ d.1,
      d.2 ∙ omega arith,
      λ x p q r. d.4 x p r ∙ c.4 x p r ∙ b.4 x q r ∙ a.4 x q r,
    )

-- The code that `c_store` compiles for a cell `v` runs through from any registers, ends with `v`
-- in the register named, and changes no other register but T0 and the one that follows. The
-- register is none of the zero register, TP, T0 and the last, and `v` is not among the cells from
-- -2^32 up to but not including -2^31.
pub c_store-Loads :
    (reg v : ℕ) (regs : Registers)
    → reg + 1 < 32
    → reg ≢ 0
    → reg ≢ 5
    → reg ≢ 4
    → (v < 2 ^ 64 - 2 ^ 32) ⊎ ((2 ^ 64 - 2 ^ 31 ≤ v) × (v < 2 ^ 64))
    → Loads (c_store reg v) reg v regs
c_store-Loads reg v regs h k l n range = elim (Bool-cases (is_wide v)) [
  | inl wide ↦ elim (zero-cases (v % 2 ^ 32)) [
    | inl low ↦
        subst (λ ws. Loads ws reg v regs) (sym (half_words reg v wide low))
          (Loads-Leaves _ reg v 32 regs (
            both_pieces _ (i_instr asmgen_addi 5 0 32 ∷ r_instr asmgen_sll reg reg 5 ∷ []) reg
              (v / 2 ^ 32) 32 v 32 regs
              (c_store_narrow-Leaves reg (v / 2 ^ 32) regs (omega arith) k l (omega arith))
              (λ r e w same.
                subst
                  (λ x.
                    Leaves (i_instr asmgen_addi 5 0 32 ∷ r_instr asmgen_sll reg reg 5 ∷ []) reg x 32
                      r)
                  (omega arith) (shift_up-Leaves reg (v / 2 ^ 32) r (omega arith) k l e))))
    | inr low ↦
        subst (λ ws. Loads ws reg v regs) (sym (full_words reg v wide low))
          (full-Loads reg v regs h k l n (omega arith))
  ]
  | inr narrow ↦
      subst (λ ws. Loads ws reg v regs) (sym (narrow_words reg v narrow))
        (elim (zero-cases (v / 2 ^ 32)) [
          | inl z ↦
              Loads-Leaves _ reg v 32 regs
                (c_store_narrow-Leaves reg v regs (omega arith) k l (omega arith))
          | inr z ↦
              let top = negative_cell v narrow z range in
              subst (λ x. Loads (c_store_narrow reg v) reg x regs) (sext_top v top)
                (Loads-Leaves _ reg _ _ regs
                  (c_store_narrow-Leaves_sign reg v regs (omega arith) k l (omega arith)))
        ])
]

sext_low :
    (v : ℕ) → 2 ^ 64 - 2 ^ 32 ≤ v → v < 2 ^ 64 - 2 ^ 31 → sext (v % 2 ^ 32) ≡ v - (2 ^ 64 - 2 ^ 32)
unfolding sign_extend
sext_low v h k = ground arith

not_wide : (v : ℕ) → 2 ^ 64 - 2 ^ 32 ≤ v → v < 2 ^ 64 - 2 ^ 31 → is_wide v ≡ false
unfolding is_wide
not_wide v h k = ground arith

-- For a cell from -2^32 up to but not including -2^31 the code that `c_store` compiles leaves a
-- number in the register that is greater by 2^32. The register is none of the zero register and
-- T0.
pub c_store-Leaves_more :
    (reg v : ℕ) (regs : Registers)
    → reg < 32
    → reg ≢ 0
    → reg ≢ 5
    → 2 ^ 64 - 2 ^ 32 ≤ v
    → v < 2 ^ 64 - 2 ^ 31
    → Leaves (c_store reg v) reg (v - (2 ^ 64 - 2 ^ 32)) (regs 5) regs
c_store-Leaves_more reg v regs h k l low high =
    subst (λ ws. Leaves ws reg (v - (2 ^ 64 - 2 ^ 32)) (regs 5) regs)
      (sym (narrow_words reg v (not_wide v low high)))
      (subst (λ x. Leaves (c_store_narrow reg v) reg x (regs 5) regs) (sext_low v low high)
        (c_store_narrow-Leaves_sign reg v regs h k l (omega arith)))

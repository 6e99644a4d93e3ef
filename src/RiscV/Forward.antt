-- ===== src/RiscV/Forward.antt =====
-- A branch forward, compiled again by THEN.
use smolforth.Base.{ℕ, ◌+◌, ◌-◌, ◌*◌, ◌%◌, ◌^◌, ◌≤◌, ◌<◌, ◌≡◌, ◌≢◌, refl, arith, inl, ◌∙◌, ap}
use smolforth.Base.{true, false, some, List, if◌then◌else◌, ◌==◌}
use smolforth.Compiler.{count_words}
use smolforth.RiscV.Isa.{Registers, read, sign_extend}
use smolforth.RiscV.Branches.{distance, resolve, asmgen_beq_or_jal}
use smolforth.RiscV.Flow.{flow}
use smolforth.RiscV.Lands.{asmgen_beq_or_jal-flow}

forward_distance : (p q : ℕ) → p ≤ q → q < p + 2 ^ 20 → distance q p ≡ q - p
unfolding distance
forward_distance p q h k = ground arith

forward_target :
    (p q : ℕ)
    → p ≤ q
    → q < p + 2 ^ 20
    → q < 2 ^ 64
    → (p + sign_extend (2 ^ 31) (q - p)) % 2 ^ 64 ≡ q
unfolding sign_extend
forward_target p q h k fits = ground arith

resolve_branch :
    (beq_or_jal reg0 reg1 imm : ℕ)
    → beq_or_jal ≢ 0
    → resolve beq_or_jal beq_or_jal reg0 reg1 imm ≡ asmgen_beq_or_jal reg0 reg1 imm
unfolding resolve
resolve_branch beq_or_jal reg0 reg1 imm h = rw (not_zero beq_or_jal h, same beq_or_jal) refl
  where
    not_zero : (n : ℕ) → n ≢ 0 → (n == 0) ≡ false
    not_zero n h = ground arith

    same : (n : ℕ) → (n == n) ≡ true
    same n = ground arith

-- What THEN compiles at `p` from the cells that IF left, when the code has reached `q`, less than
-- 2^20 bytes on and an even number of them: one or two instructions, which fit the eight bytes
-- that IF left free, and which lead to `q` if the two registers named are equal and on to what
-- follows them if not.
pub resolve-flow :
    (beq_or_jal reg0 reg1 p q : ℕ) (regs : Registers)
    → beq_or_jal ≢ 0
    → reg0 < 32
    → reg1 < 32
    → p + 8 < 2 ^ 64
    → p ≤ q
    → q < p + 2 ^ 20
    → q < 2 ^ 64
    → (q - p) % 2 ≡ 0
    → (ws : List ℕ) × (resolve beq_or_jal beq_or_jal reg0 reg1 (distance q p) ≡ some ws)
      × (4 * count_words ws ≤ 8)
      × (flow ws regs p ≡ (if read reg0 regs == read reg1 regs then q else p + 4 * count_words ws))
resolve-flow beq_or_jal reg0 reg1 p q regs nz k l room h near fits even =
    let f = asmgen_beq_or_jal-flow reg0 reg1 (q - p) p regs k l room even (inl (omega arith)) in
    (
      f.0,
      resolve_branch beq_or_jal reg0 reg1 (distance q p) nz
          ∙ ap (asmgen_beq_or_jal reg0 reg1) (forward_distance p q h near)
          ∙ f.1,
      omega (arith, f.2),
      f.3
          ∙ ap (λ (t : ℕ). if read reg0 regs == read reg1 regs then t else p + 4 * count_words f.0)
              (forward_target p q h near fits),
    )

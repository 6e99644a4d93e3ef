-- ===== src/RiscV/Leaves.antt =====
-- Code that runs through and leaves a value in a register.
use smolforth.Base.{ℕ, ◌≡◌, ◌≢◌, ◌⊎◌, inl, refl, arith}
use smolforth.Base.{some, List, [], ◌∷◌, ◌++◌, ◌∙◌, sym}
use smolforth.RiscV.Isa.{Registers, read, write, exec, exec_all}
use smolforth.RiscV.Steps.{exec_all-cons, exec_all-append}

-- The code runs through, leaves `v` in `reg` and `t` in T0, and changes no register but `reg` and T0.
abbrev pub Leaves : List ℕ → ℕ → ℕ → ℕ → Registers → Type 0
Leaves ws reg v t regs =
    (regs' : Registers) × (exec_all ws regs ≡ some regs')
    × (regs' reg ≡ v)
    × (regs' 5 ≡ t)
    × ((x : ℕ) → x ≢ reg → x ≢ 5 → regs' x ≡ regs x)

pub write_same : (r v : ℕ) (regs : Registers) → write r v regs r ≡ v
unfolding write
write_same r v regs = ground arith

pub write_other : (r v x : ℕ) (regs : Registers) → x ≢ r → write r v regs x ≡ regs x
unfolding write
write_other r v x regs h = ground arith

pub read_nonzero : (r : ℕ) (regs : Registers) → r ≢ 0 → read r regs ≡ regs r
unfolding read
read_nonzero r regs h = ground arith

pub read_zero : (regs : Registers) → read 0 regs ≡ 0
unfolding read
read_zero regs = refl

pub no_step : (reg v t : ℕ) (regs : Registers) → regs reg ≡ v → regs 5 ≡ t → Leaves [] reg v t regs
unfolding exec_all
no_step reg v t regs h k = (regs, refl, h, k, λ x p q. refl)

-- One instruction that writes the register or T0, then the rest.
pub step_then :
    (w : ℕ) (ws : List ℕ) (r reg u v t : ℕ) (regs : Registers)
    → (r ≡ reg) ⊎ (r ≡ 5)
    → exec w regs ≡ some (write r u regs)
    → Leaves ws reg v t (write r u regs)
    → Leaves (w ∷ ws) reg v t regs
step_then w ws r reg u v t regs which ran rest = (
  rest.0,
  exec_all-cons w ws regs (write r u regs) ran ∙ rest.1,
  rest.2,
  rest.3,
  λ x p q. rest.4 x p q ∙ write_other r u x regs (λ e. which_not x p q e),
)
  where
    which_not : (x : ℕ) → x ≢ reg → x ≢ 5 → x ≢ r
    which_not x p q e = ground arith

-- The last instruction, which writes the register.
pub one_step :
    (w reg u v t : ℕ) (regs : Registers)
    → reg ≢ 5
    → exec w regs ≡ some (write reg u regs)
    → u ≡ v
    → regs 5 ≡ t
    → Leaves (w ∷ []) reg v t regs
one_step w reg u v t regs h ran e k = step_then w [] reg reg u v t regs (inl refl) ran (
    no_step reg v t (write reg u regs) (write_same reg u regs ∙ e)
      (write_other reg u 5 regs (λ q. h (sym q)) ∙ k))

-- Two pieces of code, the second from whatever registers the first leaves.
pub both_pieces :
    (ws vs : List ℕ) (reg u t v t' : ℕ) (regs : Registers)
    → Leaves ws reg u t regs
    → ((regs' : Registers)
        → regs' reg ≡ u
        → regs' 5 ≡ t
        → ((x : ℕ) → x ≢ reg → x ≢ 5 → regs' x ≡ regs x)
        → Leaves vs reg v t' regs')
    → Leaves (ws ++ vs) reg v t' regs
both_pieces ws vs reg u t v t' regs first rest =
    let r = rest first.0 first.2 first.3 first.4 in
    (
      r.0,
      exec_all-append ws vs regs first.0 first.1 ∙ r.1,
      r.2,
      r.3,
      λ x p q. r.4 x p q ∙ first.4 x p q,
    )

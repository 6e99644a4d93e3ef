-- ===== src/RiscV/Then.antt =====
-- THEN of the RISC-V port, over the cells that IF left for it.
use smolforth.Base.{
  ℕ, ◌+◌, ◌-◌, ◌*◌, ◌%◌, ◌^◌, ◌≤◌, ◌<◌, ◌≡◌, ◌≢◌, refl, ◌∙◌, some, Option, List, ◌∷◌, if◌then◌else◌,
  ◌==◌,
}
use smolforth.Stack.{on_st, upop}
use smolforth.Stack.Laws.{Holds, upop-Holds}
use smolforth.Compiler.{Compiler, count_words, store_words, here_of, set_mem, bump_csri}
use smolforth.RiscV.Isa.{Registers, read}
use smolforth.RiscV.Branches.{distance, resolve, patch, then_word}
use smolforth.RiscV.Flow.{flow}
use smolforth.RiscV.Forward.{resolve-flow}

-- THEN has changed `c` into `d`: the words `ws` stand at `p`, the four cells on top of the stack are
-- taken off, `xs` was under them, and the sections are as they were.
abbrev pub Compiled : List ℕ → ℕ → List ℕ → Compiler → Compiler → Type 0
Compiled ws p xs c d =
    (d.machine.mem ≡ store_words 4 ws p c.machine.mem)
    × Holds on_st (record d.machine { mem = c.machine.mem }) xs
    × (d.active_section ≡ c.active_section)
    × (d.section_at ≡ c.section_at)

patched :
    (resolved : Option (List ℕ)) (ws : List ℕ) (addr p : ℕ) (d : Compiler)
    → resolved ≡ some ws
    → addr ≡ p
    → patch resolved addr d ≡ some (set_mem (store_words 4 ws p d.machine.mem) d)
unfolding patch
patched resolved ws addr p d e f = rw (e, f) refl

-- THEN finds on the stack, from the top down, the function for a conditional branch, two registers
-- and the address `p` where IF left eight bytes free. With the code less than 2^20 bytes and an even
-- number of them behind `p`, it takes the cells and stores one or two instructions at `p`, no more
-- than fit there, and nothing else. They lead to the end of the code compiled so far if the two
-- registers are equal, and on to what follows them if not. The numbers of the registers are below 32,
-- and no address wraps around.
pub then_word-flow :
    (beq_or_jal reg0 reg1 p : ℕ) (xs : List ℕ) (c : Compiler) (regs : Registers)
    → Holds on_st c.machine (beq_or_jal ∷ reg0 ∷ reg1 ∷ p ∷ xs)
    → beq_or_jal ≢ 0
    → reg0 < 32
    → reg1 < 32
    → p + 8 < 2 ^ 64
    → p ≤ here_of c.active_section c
    → here_of c.active_section c < p + 2 ^ 20
    → here_of c.active_section c < 2 ^ 64
    → (here_of c.active_section c - p) % 2 ≡ 0
    → (ws : List ℕ) × (d : Compiler) × (then_word beq_or_jal c ≡ some d)
      × Compiled ws p xs c d
      × (4 * count_words ws ≤ 8)
      × (flow ws regs p ≡ (
          if read reg0 regs == read reg1 regs
          then here_of c.active_section c
          else p + 4 * count_words ws))
unfolding then_word upop
then_word-flow beq_or_jal reg0 reg1 p xs c regs h nz k l room low near fits even =
    let here = here_of c.active_section c in
    let m = (bump_csri c).machine in
    let p0 = upop-Holds on_st m beq_or_jal (reg0 ∷ reg1 ∷ p ∷ xs) h in
    let m1 = (upop on_st m).1 in
    let p1 = upop-Holds on_st m1 reg0 (reg1 ∷ p ∷ xs) p0.1 in
    let m2 = (upop on_st m1).1 in
    let p2 = upop-Holds on_st m2 reg1 (p ∷ xs) p1.1 in
    let m3 = (upop on_st m2).1 in
    let p3 = upop-Holds on_st m3 p xs p2.1 in
    let popped : Compiler = record (bump_csri c) { machine = (upop on_st m3).1 } in
    let r = resolve-flow beq_or_jal reg0 reg1 p here regs nz k l room low near fits even in
    (
      r.0,
      set_mem (store_words 4 r.0 p c.machine.mem) popped,
      patched _ r.0 (upop on_st m3).0 p popped
          (cells (upop on_st m).0 (upop on_st m1).0 (upop on_st m2).0 (upop on_st m3).0 p0.0 p1.0
              p2.0 p3.0
            ∙ r.1)
          p3.0,
      (refl, p3.1, refl, refl),
      r.2,
      r.3,
    )
  where
    cells :
        (a b e f : ℕ)
        → a ≡ beq_or_jal
        → b ≡ reg0
        → e ≡ reg1
        → f ≡ p
        → resolve beq_or_jal a b e (distance (here_of c.active_section c) f)
          ≡ resolve beq_or_jal beq_or_jal reg0 reg1 (distance (here_of c.active_section c) p)
    cells a b e f ha hb he hf = rw (ha, hb, he, hf) refl

-- ===== src/Examples/Loops.antt =====
use smolforth.Base.{ℕ, suc, ◌+◌, ◌-◌, ◌≤◌, ◌<◌, ◌≡◌, ◌%◌, ◌^◌, refl, arith, [], ◌∷◌}
use smolforth.Base.{if◌then◌else◌, ◌==◌}
use smolforth.Base.Int.{signed}
use smolforth.Memory.{load, store, get_byte, set_byte}
use smolforth.Machine.{Machine}
use smolforth.Control.RiscV.{riscv_stacks, RiscVBoth}
use smolforth.Control.Loop.{sys_loop, sys_plus_loop, plus_loop_ends}
use smolforth.Control.Loop.Once.{Ended, Continues, sys_loop-Both, sys_plus_loop-Both}
use smolforth.Control.Loop.Crossing.{crosses, plus_loop_ends-crosses}
use smolforth.Control.Loop.Rounds.{rounds, gap, loop_rounds}
use smolforth.Examples.Machines.{two_up}

-- Increment 5 on the data stack; return address 77, limit 10 and index 8 on the return stack.
abbrev looping : Machine
looping = two_up 5 2 3 77 10 8

looping-Both : RiscVBoth 1 0 looping (5 ∷ 2 ∷ 3 ∷ []) (77 ∷ 10 ∷ 8 ∷ [])
unfolding load store get_byte set_byte
looping-Both = (
  (omega arith, refl, (omega arith, refl, (omega arith, refl, tt))),
  (omega arith, refl, (omega arith, refl, (omega arith, refl, tt))),
  omega arith,
)

sys_loop-Both_example :
    if (8 + 1) % 2 ^ 64 == 10
    then Ended riscv_stacks 0 0 (sys_loop riscv_stacks looping).1 (5 ∷ 2 ∷ 3 ∷ []) [] 77
    else Continues riscv_stacks 0 0
        (sys_loop riscv_stacks looping).1
        (5 ∷ 2 ∷ 3 ∷ [])
        []
        77
        ((8 + 1) % 2 ^ 64)
        10
sys_loop-Both_example =
    sys_loop-Both riscv_stacks 0 0 77 10 8 looping (5 ∷ 2 ∷ 3 ∷ []) [] (omega arith) (omega arith)
      looping-Both

sys_plus_loop-Both_example :
    if plus_loop_ends ((8 + 2 ^ 64 - 10) % 2 ^ 64) 5
    then Ended riscv_stacks 1 0 (sys_plus_loop riscv_stacks looping).1 (2 ∷ 3 ∷ []) [] 77
    else Continues riscv_stacks 1 0
        (sys_plus_loop riscv_stacks looping).1
        (2 ∷ 3 ∷ [])
        []
        77
        ((8 + 5) % 2 ^ 64)
        10
sys_plus_loop-Both_example =
    sys_plus_loop-Both riscv_stacks 1 0 77 10 8 5 looping (2 ∷ 3 ∷ []) [] (omega arith)
      (omega arith) looping-Both

loop_rounds_example :
    ((n : ℕ)
      → n ≤ gap riscv_stacks 8 10
      → RiscVBoth 1 0
          (rounds riscv_stacks n looping).1
          (5 ∷ 2 ∷ 3 ∷ [])
          (77 ∷ 10 ∷ (8 + n) % 2 ^ 64 ∷ []))
    × ((n : ℕ)
        → n < gap riscv_stacks 8 10
        → Continues riscv_stacks 0 0
            (sys_loop riscv_stacks (rounds riscv_stacks n looping).1).1
            (5 ∷ 2 ∷ 3 ∷ [])
            []
            77
            ((8 + suc n) % 2 ^ 64)
            10)
    × Ended riscv_stacks 0 0
        (sys_loop riscv_stacks (rounds riscv_stacks (gap riscv_stacks 8 10) looping).1).1
        (5 ∷ 2 ∷ 3 ∷ [])
        []
        77
loop_rounds_example =
    loop_rounds riscv_stacks 0 0 77 10 8 looping (5 ∷ 2 ∷ 3 ∷ []) [] (omega arith) (omega arith)
      (omega arith) looping-Both

-- From two below the limit, a step of five crosses it.
plus_loop_ends-crosses_example :
    plus_loop_ends (2 ^ 64 - 2) 5 ≡ crosses (signed 64 (2 ^ 64 - 2)) (signed 64 5)
plus_loop_ends-crosses_example = plus_loop_ends-crosses (2 ^ 64 - 2) 5 (omega arith) (omega arith)

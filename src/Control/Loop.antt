-- ===== src/Control/Loop.antt =====
-- `SYS_LOOP`, `SYS_+LOOP` and `SYS_LEAVE` of arch/x86_64/cs.c and arch/riscv/cs.c: the run-time of
-- LOOP, +LOOP and LEAVE. On the return stack lie, from the top, the address to return to, the
-- limit (`final`) and the index (`initial`); the flag pushed on the data stack ends the loop.
pub mod Once
pub mod Crossing
pub mod Rounds
use smolforth.Base.{ℕ, ◌+◌, ◌-◌, ◌*◌, ◌/◌, ◌%◌, ◌^◌, ◌==◌, leb, bit_and, bit_xor, Bool, true, false}
use smolforth.Machine.{M, ◌>>=◌, ◌>>◌}
use smolforth.Stack.{on_st, pop, push, cell_mod}
use smolforth.Control.Stacks.{Stacks}
use smolforth.Control.RiscV.{riscv_stacks}
use smolforth.Control.X86.{x86_stacks}

-- The test of +LOOP on cells, `((old ^ (old + increment)) & (old ^ increment)) < 0`: a cell is
-- negative when its top bit is set.
unfoldable pub plus_loop_ends : ℕ → ℕ → Bool
plus_loop_ends old increment =
    leb (2 ^ 63) (bit_and (bit_xor old ((old + increment) % cell_mod)) (bit_xor old increment))

module _ (k : Stacks) where
  -- The two branches that LOOP and +LOOP share: the flag, and the loop parameters put back.
  unfoldable pub loop_outcome : Bool → ℕ → ℕ → M (Unit {0})
  loop_outcome true initial final = push (cell_mod - 1) on_st
  loop_outcome false initial final = do push 0 on_st; k.rpush initial; k.rpush final

  unfoldable pub sys_loop : M (Unit {0})
  unfolding loop_outcome
  sys_loop = do
    a ← k.rpop
    final ← k.rpop
    initial ← k.rpop
    let initial' = (initial + 1) % cell_mod
    loop_outcome (initial' == final) initial' final
    k.rpush a

  unfoldable pub sys_plus_loop : M (Unit {0})
  unfolding loop_outcome
  sys_plus_loop = do
    a ← k.rpop
    increment ← pop on_st
    final ← k.rpop
    initial ← k.rpop
    let initial' = (initial + increment) % cell_mod
    let old = (initial + cell_mod - final) % cell_mod
    loop_outcome (plus_loop_ends old increment) initial' final
    k.rpush a

  unfoldable pub sys_leave : M (Unit {0})
  sys_leave = do a ← k.rpop; k.rdrop; k.rpush a

-- arch/riscv/cs.c
unfoldable pub riscv_sys_loop : M (Unit {0})
unfolding sys_loop
riscv_sys_loop = sys_loop riscv_stacks

unfoldable pub riscv_sys_plus_loop : M (Unit {0})
unfolding sys_plus_loop
riscv_sys_plus_loop = sys_plus_loop riscv_stacks

unfoldable pub riscv_sys_leave : M (Unit {0})
unfolding sys_leave
riscv_sys_leave = sys_leave riscv_stacks

-- arch/x86_64/cs.c
unfoldable pub x86_sys_loop : M (Unit {0})
unfolding sys_loop
x86_sys_loop = sys_loop x86_stacks

unfoldable pub x86_sys_plus_loop : M (Unit {0})
unfolding sys_plus_loop
x86_sys_plus_loop = sys_plus_loop x86_stacks

unfoldable pub x86_sys_leave : M (Unit {0})
unfolding sys_leave
x86_sys_leave = sys_leave x86_stacks

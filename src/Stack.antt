-- ===== src/Stack.antt =====
-- arch/x86_64/stack.c and arch/riscv/stack.c: cells pushed to and popped from the stack that a
-- pointer `char **st` names. `push` and its kin grow upwards; the `b` forms, of x86-64 only, grow
-- downwards. `cell` and `ucell` are the same bit patterns, so `upop` is `pop` on patterns.
pub mod Laws
pub mod Down
pub mod View
use smolforth.Base.{ℕ, ◌+◌, ◌-◌, ◌*◌, ◌/◌, ◌%◌, ◌^◌, ◌<◌, bit_or, bit_and}
use smolforth.Memory.{load, store}
use smolforth.Machine.{Machine, M, pure, ◌>>=◌, ◌>>◌}

-- Which of the two pointers a call is given: `&st` or `&rst`.
pub data StackRef : Type 0 where
  on_st on_rst : StackRef

abbrev pub get_ptr : StackRef → Machine → ℕ
get_ptr on_st m = m.st
get_ptr on_rst m = m.rst

abbrev pub set_ptr : StackRef → ℕ → Machine → Machine
set_ptr on_st p m = record m { st = p }
set_ptr on_rst p m = record m { rst = p }

abbrev pub cell_bytes : ℕ
cell_bytes = 8

abbrev pub cell_mod : ℕ
cell_mod = 2 ^ 64

abbrev pub dcell_mod : ℕ
dcell_mod = 2 ^ 128

unfoldable pub pop : StackRef → M ℕ
pop s m = let p = get_ptr s m - cell_bytes in (load cell_bytes m.mem p, set_ptr s p m)

unfoldable pub push : ℕ → StackRef → M (Unit {0})
push v s m =
    let p = get_ptr s m in
    (tt, set_ptr s (p + cell_bytes) (record m { mem = store cell_bytes m.mem p v }))

unfoldable pub upop : StackRef → M ℕ
upop s m = let p = get_ptr s m - cell_bytes in (load cell_bytes m.mem p, set_ptr s p m)

unfoldable pub upush : ℕ → StackRef → M (Unit {0})
upush v s m =
    let p = get_ptr s m in
    (tt, set_ptr s (p + cell_bytes) (record m { mem = store cell_bytes m.mem p v }))

-- `((udcell) nh << 64) | (udcell) nl`
unfoldable pub dpop : StackRef → M ℕ
unfolding upop
dpop s = do nh ← upop s; nl ← upop s; pure (bit_or (nh * 2 ^ 64 % dcell_mod) nl)

-- The low cell goes first, so the high cell is on top.
unfoldable pub dpush : ℕ → StackRef → M (Unit {0})
unfolding push
dpush v s = do push (bit_and v (2 ^ 64 - 1) % cell_mod) s; push (v / 2 ^ 64 % cell_mod) s

unfoldable pub udpop : StackRef → M ℕ
unfolding upop
udpop s = do nh ← upop s; nl ← upop s; pure (bit_or (nh * 2 ^ 64 % dcell_mod) nl)

unfoldable pub udpush : ℕ → StackRef → M (Unit {0})
unfolding upush
udpush v s = do upush (bit_and v (2 ^ 64 - 1) % cell_mod) s; upush (v / 2 ^ 64 % cell_mod) s

unfoldable pub bpop : StackRef → M ℕ
bpop s m =
    let p = get_ptr s m + cell_bytes in (load cell_bytes m.mem (p - cell_bytes), set_ptr s p m)

unfoldable pub bpush : ℕ → StackRef → M (Unit {0})
bpush v s m =
    let p = get_ptr s m - cell_bytes in
    (tt, set_ptr s p (record m { mem = store cell_bytes m.mem p v }))

unfoldable pub bupop : StackRef → M ℕ
bupop s m =
    let p = get_ptr s m + cell_bytes in (load cell_bytes m.mem (p - cell_bytes), set_ptr s p m)

unfoldable pub bupush : ℕ → StackRef → M (Unit {0})
bupush v s m =
    let p = get_ptr s m - cell_bytes in
    (tt, set_ptr s p (record m { mem = store cell_bytes m.mem p v }))

unfoldable pub bdpop : StackRef → M ℕ
unfolding bupop
bdpop s = do nh ← bupop s; nl ← bupop s; pure (bit_or (nh * 2 ^ 64 % dcell_mod) nl)

unfoldable pub bdpush : ℕ → StackRef → M (Unit {0})
unfolding bpush
bdpush v s = do bpush (bit_and v (2 ^ 64 - 1) % cell_mod) s; bpush (v / 2 ^ 64 % cell_mod) s

unfoldable pub budpop : StackRef → M ℕ
unfolding bupop
budpop s = do nh ← bupop s; nl ← bupop s; pure (bit_or (nh * 2 ^ 64 % dcell_mod) nl)

unfoldable pub budpush : ℕ → StackRef → M (Unit {0})
unfolding bupush
budpush v s = do bupush (bit_and v (2 ^ 64 - 1) % cell_mod) s; bupush (v / 2 ^ 64 % cell_mod) s

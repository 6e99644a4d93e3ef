-- ===== src/Examples/Stacks.antt =====
use smolforth.Base.{ℕ, ◌+◌, ◌*◌, ◌^◌, ◌≡◌, refl}
use smolforth.Memory.{load, store, get_byte, set_byte}
use smolforth.Stack
use smolforth.Stack.{on_st, on_rst, dpop, dpush, bdpop, bdpush, get_ptr}
use smolforth.Examples.Machines.{two_up}

abbrev wide : ℕ
wide = 0x0123_4567_89ab_cdef_fedc_ba98_7654_3210

-- The high cell of a double cell is on top.
dpush_order : (Stack.pop on_st (dpush (2 ^ 64 * 7 + 9) on_st (two_up 1 2 3 4 5 6)).1).0 ≡ 7
unfolding dpush Stack.pop load store get_byte set_byte
dpush_order = refl

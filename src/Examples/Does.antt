-- ===== src/Examples/Does.antt =====
-- DOES> on x86-64: the call returns to 300, where NOP and RET stand; the latest word is at 200.
use smolforth.Base.{ℕ, ◌+◌, ◌*◌, ◌≤◌, ◌<◌, ◌≡◌, ◌⊎◌, refl, arith, some}
use smolforth.Memory.{Mem, get_byte, set_byte, load, store}
use smolforth.Dictionary.Does
use smolforth.Dictionary.Does.{does_do, IsFirst, does_do-enters}
use smolforth.Examples.Machines.{no_memory}

abbrev code_at_300 : Mem
code_at_300 = set_byte (set_byte (store 8 no_memory 100 200) 300 0x90) 301 0xC3

nop_then_ret : IsFirst 1 0xC3 code_at_300 300 1
unfolding load get_byte set_byte
nop_then_ret = ((λ e. omega arith), refl)

does_do-enters_example :
    (mem' : Mem) × (does_do Does.x86_64 2 100 300 code_at_300 ≡ some mem')
    × (load 8 mem' (load 8 code_at_300 100 + 8) ≡ 300 + 1 * 1 + 1)
    × ((x : ℕ)
        → (x < load 8 code_at_300 100 + 8) ⊎ (load 8 code_at_300 100 + 8 + 8 ≤ x)
        → get_byte mem' x ≡ get_byte code_at_300 x)
does_do-enters_example =
    does_do-enters Does.x86_64 2 100 300 1 code_at_300 nop_then_ret (omega arith) (omega arith)

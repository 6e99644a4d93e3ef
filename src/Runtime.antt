-- ===== src/Runtime.antt =====
-- example/os2/stl.c: the memory routines of a freestanding build; and the words that move records
-- of four cells with them: core/CS_PICK.c, core/CS_ROLL.c and `cs_leave_impl` of
-- arch/riscv/cs.c, which arch/x86_64/cs.c has too.
pub mod Moves
use smolforth.Base.{
  ℕ, zero, suc, ◌+◌, ◌-◌, ◌*◌, ◌/◌, ◌%◌, ◌^◌, Bool, if◌then◌else◌, ◌==◌, ◌&&◌, ◌||◌, not, ltb,
}
use smolforth.Base.{Option, none, some}
use smolforth.Memory.{Mem, get_byte, set_byte, load}
use smolforth.Machine.{Machine}
use smolforth.Stack.{on_st, pop}
use smolforth.Compiler.{Compiler, bump_csri}

-- `((char*)dest)[i] = ((char*)src)[i]` for `i` from 0 up.
unfoldable pub memcpy : ℕ → ℕ → ℕ → Mem → Mem
memcpy dest src zero mem = mem
memcpy dest src (suc n) mem = memcpy (dest + 1) (src + 1) n (set_byte mem dest (get_byte mem src))

-- The same from `size - 1` down.
unfoldable pub memcpy_r : ℕ → ℕ → ℕ → Mem → Mem
memcpy_r dest src zero mem = mem
memcpy_r dest src (suc n) mem =
    memcpy_r dest src n (set_byte mem (dest + n) (get_byte mem (src + n)))

unfoldable pub memmove : ℕ → ℕ → ℕ → Mem → Mem
unfolding memcpy memcpy_r
memmove dest src size mem =
    if ltb dest src then memcpy dest src size mem else memcpy_r dest src size mem

-- The first difference of two bytes, as the pair of them.
unfoldable pub memcmp : ℕ → ℕ → ℕ → Mem → Option (ℕ × ℕ)
memcmp lhs rhs zero mem = none
memcmp lhs rhs (suc n) mem =
    let rest = memcmp (lhs + 1) (rhs + 1) n mem in
    if get_byte mem lhs == get_byte mem rhs then rest else some (get_byte mem lhs, get_byte mem rhs)

unfoldable pub memset : ℕ → ℕ → ℕ → Mem → Mem
memset s c zero mem = mem
memset s c (suc n) mem = memset (s + 1) c n (set_byte mem s c)

-- `4 * sizeof(ucell)`
abbrev pub record_bytes : ℕ
record_bytes = 32

unfoldable pub cs_pick : Compiler → Compiler
unfolding pop memcpy
cs_pick c =
    let d = pop on_st (bump_csri c).machine in
    let st = d.1.st in
    record c {
      machine = record d.1 {
        mem = memcpy st (st - (d.0 + 1) * record_bytes) record_bytes d.1.mem;
        st = st + record_bytes;
      };
    }

-- `top` is copied out, the records above it come down by one, and it goes on top; `scratch` is the
-- address of the array `top`.
unfoldable pub cs_roll : ℕ → Compiler → Compiler
unfolding pop memcpy memmove
cs_roll scratch c =
    let d = pop on_st (bump_csri c).machine in
    let st = d.1.st in
    let from = st - (d.0 + 1) * record_bytes in
    let saved = memcpy scratch from record_bytes d.1.mem in
    let moved = memmove from (st - d.0 * record_bytes) (d.0 * record_bytes) saved in
    record c {
      machine = record d.1 { mem = memcpy (st - record_bytes) scratch record_bytes moved };
    }

-- `while(s[-4] != 2 && s[-4] != 3) s -= 4` on fuel.
unfoldable pub find_loop : ℕ → Mem → ℕ → ℕ
find_loop zero mem s = s
find_loop (suc fuel) mem s =
    let rest = find_loop fuel mem (s - record_bytes) in
    let kind = load 8 mem (s - record_bytes) in if (kind == 2) || (kind == 3) then s else rest

-- The record on top goes under those above the loop that it leaves; `scratch` is `save`.
unfoldable pub cs_leave : ℕ → ℕ → Machine → Machine
unfolding memcpy memmove find_loop
cs_leave scratch fuel m =
    let s = find_loop fuel m.mem m.st in
    let saved = memcpy scratch (m.st - record_bytes) record_bytes m.mem in
    let moved = memmove (s + record_bytes) s (m.st - s) saved in
    record m { mem = memcpy s scratch record_bytes moved }

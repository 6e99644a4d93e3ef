-- ===== src/Amd64/Assembler.antt =====
-- arch/x86_64/asmgen_x86_64.h: each function as the bytes that it stores at `*h`, in order. A
-- number is stored byte by byte, so a register field is masked where the source masks it, and the
-- rest is cut to a byte by the store. Immediates are the patterns of their C types.
use smolforth.Base.{ℕ, zero, suc, ◌+◌, ◌-◌, ◌*◌, ◌/◌, ◌%◌, ◌^◌, if◌then◌else◌, leb}
use smolforth.Base.{bit_and, bit_or, List, [], ◌∷◌}

abbrev pub rbx : ℕ
rbx = 3

abbrev pub r15 : ℕ
r15 = 15

-- `REX | REX_W`, and the bits that widen a register field.
abbrev pub rex_w : ℕ
rex_w = 0x48

abbrev pub rex_r : ℕ
rex_r = 0x04

abbrev pub rex_x : ℕ
rex_x = 0x02

abbrev pub rex_b : ℕ
rex_b = 0x01

-- `if(r >= 8) x |= bit`
unfoldable pub widen : ℕ → ℕ → ℕ → ℕ
widen r bit x = if leb 8 r then bit_or x bit else x

-- The bytes of a number of `n` bytes, the lowest first.
unfoldable pub bytes_of : ℕ → ℕ → List ℕ
bytes_of zero v = []
bytes_of (suc n) v = v % 256 ∷ bytes_of n (v / 256)

unfoldable pub asmgen_pushq_r64 : ℕ → List ℕ
asmgen_pushq_r64 r = (0x50 + r) ∷ []

unfoldable pub asmgen_popq_r64 : ℕ → List ℕ
asmgen_popq_r64 r = (0x58 + r) ∷ []

unfoldable pub asmgen_ret : List ℕ
asmgen_ret = 0xc3 ∷ []

unfoldable pub asmgen_shl_imm : ℕ → ℕ → List ℕ
unfolding widen
asmgen_shl_imm r imm = widen r rex_b rex_w ∷ 0xc1 ∷ bit_or 0xe0 (bit_and r 7) ∷ imm % 256 ∷ []

unfoldable pub asmgen_shr_imm : ℕ → ℕ → List ℕ
unfolding widen
asmgen_shr_imm r imm = widen r rex_b rex_w ∷ 0xc1 ∷ bit_or 0xe8 (bit_and r 7) ∷ imm % 256 ∷ []

unfoldable pub asmgen_or : ℕ → ℕ → List ℕ
unfolding widen
asmgen_or dest src =
    widen src rex_r (widen dest rex_b rex_w)
    ∷ 0x09
    ∷ bit_or (bit_and dest 7 * 2 ^ 3) (bit_and src 7)
    ∷ []

unfoldable pub asmgen_add_imm : ℕ → ℕ → List ℕ
unfolding widen
asmgen_add_imm r imm = widen r rex_b rex_w ∷ 0x83 ∷ bit_or 0xc0 (bit_and r 7) ∷ imm % 256 ∷ []

-- `r - 5` of an `int`, as a pattern of 32 bits.
unfoldable pub asmgen_call_rel32 : ℕ → List ℕ
unfolding bytes_of
asmgen_call_rel32 r = 0xe8 ∷ bytes_of 4 ((r + (2 ^ 32 - 5)) % 2 ^ 32)

unfoldable pub asmgen_call : ℕ → List ℕ
asmgen_call r = 0xff ∷ bit_or 0xd0 (bit_and r 7) ∷ []

unfoldable pub asmgen_jmp_rel32 : ℕ → List ℕ
unfolding bytes_of
asmgen_jmp_rel32 r = 0xe9 ∷ bytes_of 4 ((r + (2 ^ 32 - 5)) % 2 ^ 32)

unfoldable pub asmgen_jmp : ℕ → List ℕ
asmgen_jmp r = 0xff ∷ bit_or 0xe0 (bit_and r 7) ∷ []

-- `(int32_t)(a - b)` of pointers.
unfoldable pub relative : ℕ → ℕ → ℕ
relative a b = (a % 2 ^ 32 + (2 ^ 32 - b % 2 ^ 32)) % 2 ^ 32

-- The functions that read `*h` are given it.
unfoldable pub asmgen_lea_rel32 : ℕ → ℕ → ℕ → List ℕ
unfolding widen bytes_of relative
asmgen_lea_rel32 reg r h =
    widen reg rex_b rex_w
    ∷ 0x8d
    ∷ bit_or (bit_and reg 7 * 2 ^ 3) 0x5
    ∷ bytes_of 4 ((relative r h + (2 ^ 32 - 7)) % 2 ^ 32)

unfoldable pub asmgen_mov_take_rel32 : ℕ → ℕ → ℕ → List ℕ
unfolding widen bytes_of relative
asmgen_mov_take_rel32 reg r h =
    widen reg rex_b rex_w
    ∷ 0x8b
    ∷ bit_or (bit_and reg 7 * 2 ^ 3) 0x5
    ∷ bytes_of 4 ((relative r h + (2 ^ 32 - 7)) % 2 ^ 32)

unfoldable pub asmgen_mov_imm32 : ℕ → ℕ → List ℕ
unfolding widen bytes_of
asmgen_mov_imm32 reg imm =
    widen reg rex_b rex_w ∷ 0xc7 ∷ bit_or 0xc0 (bit_and reg 7) ∷ bytes_of 4 imm

-- The opcode does not depend on `reg`: it is that of RBX.
unfoldable pub asmgen_mov_imm64 : ℕ → ℕ → List ℕ
unfolding widen bytes_of
asmgen_mov_imm64 reg imm = widen reg rex_b rex_w ∷ 0xbb ∷ bytes_of 8 imm

unfoldable pub asmgen_movq_r64_xmm : ℕ → ℕ → List ℕ
unfolding widen
asmgen_movq_r64_xmm from to =
    0x66
    ∷ widen from rex_b (widen to rex_x rex_w)
    ∷ 0x0f
    ∷ 0x6e
    ∷ bit_or (bit_or 0xc0 (bit_and to 7 * 2 ^ 3)) (bit_and from 7)
    ∷ []

unfoldable pub asmgen_movq_put : ℕ → ℕ → List ℕ
unfolding widen
asmgen_movq_put dest src =
    widen src rex_b (widen dest rex_x rex_w)
    ∷ 0x89
    ∷ bit_or (bit_and dest 7 * 2 ^ 3) (bit_and src 7)
    ∷ []

unfoldable pub asmgen_movq_put_xmm : ℕ → ℕ → List ℕ
unfolding widen
asmgen_movq_put_xmm src dest =
    0x66
    ∷ widen dest rex_b (widen src rex_x rex_w)
    ∷ 0x0f
    ∷ 0x7e
    ∷ bit_or (bit_and src 7 * 2 ^ 3) (bit_and dest 7)
    ∷ []

unfoldable pub asmgen_movq_take : ℕ → ℕ → List ℕ
unfolding widen
asmgen_movq_take src dest =
    widen src rex_b (widen dest rex_x rex_w)
    ∷ 0x8b
    ∷ bit_or (bit_and dest 7 * 2 ^ 3) (bit_and src 7)
    ∷ []

unfoldable pub asmgen_beq_imm : ℕ → ℕ → ℕ → List ℕ
unfolding widen bytes_of
asmgen_beq_imm reg imm offset =
    widen reg rex_b rex_w
    ∷ 0x83
    ∷ bit_or (bit_or 0xc0 (7 * 2 ^ 3)) (bit_and reg 7)
    ∷ imm % 256
    ∷ 0x0f
    ∷ 0x84
    ∷ bytes_of 4 ((offset + (2 ^ 32 - 10)) % 2 ^ 32)

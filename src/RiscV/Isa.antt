-- ===== src/RiscV/Isa.antt =====
-- What a RISC-V processor does with a word, from the encoding tables of its manual: the fields of
-- a word, and the integer instructions that the compiled code of a constant is made of. It is
-- written apart from the assembler, which it judges.
use smolforth.Base.{◌-◌}
use smolforth.Base.{ℕ, ◌+◌, ◌*◌, ◌/◌, ◌%◌, ◌^◌, ◌&&◌, if◌then◌else◌, ◌==◌, ltb}
use smolforth.Base.{Option, none, some, bit_or, List, [], ◌∷◌}

abbrev pub opcode_of : ℕ → ℕ
opcode_of w = w % 128

abbrev pub rd_of : ℕ → ℕ
rd_of w = w / 128 % 32

abbrev pub funct3_of : ℕ → ℕ
funct3_of w = w / 4096 % 8

abbrev pub rs1_of : ℕ → ℕ
rs1_of w = w / 32768 % 32

abbrev pub rs2_of : ℕ → ℕ
rs2_of w = w / 1048576 % 32

abbrev pub funct7_of : ℕ → ℕ
funct7_of w = w / 33554432

abbrev pub i_imm_of : ℕ → ℕ
i_imm_of w = w / 1048576

-- A number of `2 * half` values taken as signed, as a cell.
unfoldable pub sign_extend : ℕ → ℕ → ℕ
sign_extend half x = if ltb x half then x else (x + (2 ^ 64 - 2 * half))

-- The offset of a jump: bits 20, 10 to 1, 11 and 19 to 12, from the top of the word down.
unfoldable pub jump_offset : ℕ → ℕ
unfolding sign_extend
jump_offset w = sign_extend (2 ^ 20) (
    w / 2 ^ 31 * 2 ^ 20
    + w / 2 ^ 12 % 2 ^ 8 * 2 ^ 12
    + w / 2 ^ 20 % 2 * 2 ^ 11
    + w / 2 ^ 21 % 2 ^ 10 * 2)

-- The offset of a branch: bits 12, 10 to 5, 4 to 1 and 11.
unfoldable pub branch_offset : ℕ → ℕ
unfolding sign_extend
branch_offset w = sign_extend (2 ^ 12) (
    w / 2 ^ 31 * 2 ^ 12
    + w / 2 ^ 7 % 2 * 2 ^ 11
    + w / 2 ^ 25 % 2 ^ 6 * 2 ^ 5
    + w / 2 ^ 8 % 2 ^ 4 * 2)

abbrev pub Registers : Type 0
Registers = ℕ → ℕ

-- Register 0 reads as 0, whatever was written to it.
unfoldable pub read : ℕ → Registers → ℕ
read r regs = if r == 0 then 0 else regs r

unfoldable pub write : ℕ → ℕ → Registers → Registers
write r v regs x = if x == r then v else regs x

-- What the instruction writes to its register, if it is one of these; else the word is refused.
unfoldable pub result : ℕ → Registers → Option ℕ
unfolding read sign_extend
result w regs =
    let a = read (rs1_of w) regs in
    let b = read (rs2_of w) regs in
    let imm = sign_extend (2 ^ 11) (i_imm_of w) in
    let row = opcode_of w + 128 * funct3_of w in
    if opcode_of w == 0x37
    then some (sign_extend (2 ^ 31) (w / 4096 * 4096))
    else if row == 0x13
    then some ((a + imm) % 2 ^ 64)
    else if row == 0x1b
    then some (sign_extend (2 ^ 31) ((a + imm) % 2 ^ 32))
    else if (row == 0x33 + 128 * 1) && (funct7_of w == 0)
    then some (a * 2 ^ (b % 64) % 2 ^ 64)
    else if (row == 0x33 + 128 * 5) && (funct7_of w == 0)
    then some (a / 2 ^ (b % 64))
    else if (row == 0x33 + 128 * 6) && (funct7_of w == 0)
    then some (bit_or a b)
    else none

unfoldable pub exec : ℕ → Registers → Option Registers
unfolding result write
exec w regs = elim (result w regs) [ none ↦ none | some v ↦ some (write (rd_of w) v regs) ]

-- Straight-line code, one word after the other.
unfoldable pub exec_all : List ℕ → Registers → Option Registers
unfolding exec
exec_all [] regs = some regs
exec_all (w ∷ ws) regs = elim (exec w regs) [ none ↦ none | some regs' ↦ exec_all ws regs' ]

-- ===== src/RiscV/Branches.antt =====
-- arch/riscv/core: the words of structured control flow, and those that begin and end a
-- definition (colon.c, DOES_to.c, EXIT.c). A branch forward leaves four cells on the stack, from
-- which THEN compiles it again once its target is known.
use smolforth.Base.{ℕ, ◌+◌, ◌-◌, ◌%◌, ◌^◌, if◌then◌else◌, ◌==◌}
use smolforth.Base.{Option, none, some, List, [], ◌∷◌}
use smolforth.Stack.{on_st, upop}
use smolforth.Compiler.{
  Compiler, emit, here_of, bump_csri, set_mem, set_header, store_words, push_four, pop_target,
}
use smolforth.RiscV.Format.{b_in_range}
use smolforth.RiscV.Names.{
  asmgen_beq, asmgen_bne, asmgen_jal, asmgen_jalr, asmgen_addi, asmgen_ld, asmgen_sd, b_instr,
  j_instr, i_instr, s_instr,
}

abbrev pub x0 : ℕ
x0 = 0

abbrev pub ra : ℕ
ra = 1

abbrev pub s0 : ℕ
s0 = 8

abbrev pub s1 : ℕ
s1 = 9

abbrev pub a2 : ℕ
a2 = 12

-- `-sizeof(cell)` as an `intptr_t`.
abbrev pub minus_cell : ℕ
minus_cell = 2 ^ 64 - 8

abbrev pub nop : ℕ
nop = i_instr asmgen_addi x0 x0 0

-- `a - b` of pointers, passed as a `uint32_t`.
unfoldable pub distance : ℕ → ℕ → ℕ
distance a b = (a % 2 ^ 32 + (2 ^ 32 - b % 2 ^ 32)) % 2 ^ 32

-- A checked instruction, and those after it.
unfoldable pub followed_by : Option ℕ → List ℕ → Option (List ℕ)
followed_by none ws = none
followed_by (some w) ws = some (w ∷ ws)

-- BNE is stored with offset 0, and again with 8 after JAL is stored: the second store remains.
unfoldable pub bne_jal : ℕ → ℕ → ℕ → Option (List ℕ)
unfolding b_instr j_instr followed_by
bne_jal rs1 rs2 imm =
    followed_by (b_instr asmgen_bne rs1 rs2 8)
      (j_instr asmgen_jal x0 ((imm + (2 ^ 32 - 4)) % 2 ^ 32) ∷ [])

unfoldable pub asmgen_beq_or_jal_nop : ℕ → ℕ → ℕ → Option (List ℕ)
unfolding b_in_range b_instr i_instr bne_jal followed_by
asmgen_beq_or_jal_nop rs1 rs2 imm =
    if b_in_range imm
    then followed_by (b_instr asmgen_beq rs1 rs2 imm) (nop ∷ [])
    else bne_jal rs1 rs2 imm

unfoldable pub asmgen_beq_or_jal : ℕ → ℕ → ℕ → Option (List ℕ)
unfolding b_in_range b_instr bne_jal followed_by
asmgen_beq_or_jal rs1 rs2 imm =
    if b_in_range imm then followed_by (b_instr asmgen_beq rs1 rs2 imm) [] else bne_jal rs1 rs2 imm

-- Words appended to the active section, when no assert has failed.
unfoldable pub append_active : Option (List ℕ) → Compiler → Option Compiler
unfolding emit
append_active none c = none
append_active (some ws) c = some (emit 4 ws c.active_section c)

-- The top of the data stack is taken into A2.
abbrev pub take_flag : List ℕ
take_flag = i_instr asmgen_addi s0 s0 minus_cell ∷ i_instr asmgen_ld a2 s0 0 ∷ []

-- `beq_or_jal` is the address of `asmgen_BEQ_OR_JAL`, which the linker chooses.
unfoldable pub if_word : ℕ → Compiler → Option Compiler
unfolding emit push_four append_active asmgen_beq_or_jal_nop
if_word beq_or_jal c =
    let taken = emit 4 take_flag c.active_section (bump_csri c) in
    append_active (asmgen_beq_or_jal_nop a2 x0 0)
      (push_four (here_of c.active_section taken) a2 x0 beq_or_jal taken)

unfoldable pub ahead_word : Compiler → Compiler
unfolding emit push_four j_instr
ahead_word c =
    let d = bump_csri c in
    emit 4 (j_instr asmgen_jal x0 0 ∷ []) c.active_section
      (push_four (here_of c.active_section d) 0 0 0 d)

unfoldable pub begin_word : Compiler → Compiler
unfolding push_four
begin_word c = let d = bump_csri c in push_four (here_of c.active_section d) 0 0 0 d

-- What THEN makes of the cells that were left for it; a `cond` that is another function's address
-- is `none`, for that function is not of this file.
unfoldable pub resolve : ℕ → ℕ → ℕ → ℕ → ℕ → Option (List ℕ)
unfolding asmgen_beq_or_jal j_instr
resolve beq_or_jal cond reg0 reg1 imm =
    if cond == 0
    then some (j_instr asmgen_jal x0 imm ∷ [])
    else (if cond == beq_or_jal then asmgen_beq_or_jal reg0 reg1 imm else none)

-- The words go to `addr`, in the past of the section, whose `here` stays.
unfoldable pub patch : Option (List ℕ) → ℕ → Compiler → Option Compiler
unfolding store_words
patch none addr c = none
patch (some ws) addr c = some (set_mem (store_words 4 ws addr c.machine.mem) c)

unfoldable pub then_word : ℕ → Compiler → Option Compiler
unfolding upop resolve distance patch
then_word beq_or_jal c =
    let d = bump_csri c in
    let cond = upop on_st d.machine in
    let reg0 = upop on_st cond.1 in
    let reg1 = upop on_st reg0.1 in
    let addr = upop on_st reg1.1 in
    patch (resolve beq_or_jal cond.0 reg0.0 reg1.0 (distance (here_of c.active_section c) addr.0))
      addr.0 (record d { machine = addr.1 })

unfoldable pub until_word : Compiler → Option Compiler
unfolding pop_target emit append_active distance asmgen_beq_or_jal
until_word c =
    let d = bump_csri c in
    let addr = pop_target d.machine in
    let taken = emit 4 take_flag c.active_section (record d { machine = addr.1 }) in
    append_active (asmgen_beq_or_jal a2 x0 (distance addr.0 (here_of c.active_section taken))) taken

unfoldable pub again_word : Compiler → Compiler
unfolding pop_target emit distance j_instr
again_word c =
    let d = bump_csri c in
    let addr = pop_target d.machine in
    emit 4 (j_instr asmgen_jal x0 (distance addr.0 (here_of c.active_section d)) ∷ [])
      c.active_section (record d { machine = addr.1 })

-- The three instructions that return from a word: RA is taken off the return stack.
abbrev pub leave_words : List ℕ
leave_words =
    i_instr asmgen_addi s1 s1 minus_cell
    ∷ i_instr asmgen_ld ra s1 0
    ∷ i_instr asmgen_jalr x0 ra 0
    ∷ []

-- The two that enter one.
abbrev pub enter_words : List ℕ
enter_words = s_instr asmgen_sd ra s1 0 ∷ i_instr asmgen_addi s1 s1 8 ∷ []

unfoldable pub exit_word : Compiler → Compiler
unfolding emit i_instr
exit_word c = emit 4 leave_words c.active_section c

unfoldable pub colon_enter : Compiler → Compiler
unfolding emit i_instr s_instr
colon_enter c = emit 4 enter_words c.cdata (set_header (record c.machine.header { state = 1 }) c)

-- `colon_exit`, up to the call of `forward_word`.
unfoldable pub colon_exit : Compiler → Compiler
unfolding emit i_instr
colon_exit c =
    let d = emit 4 leave_words c.cdata c in set_header (record d.machine.header { state = 0 }) d

unfoldable pub does_to_word : Compiler → Compiler
unfolding emit i_instr s_instr
does_to_word c =
    let d = emit 4 leave_words c.cdata c in
    emit 4 enter_words c.cdata
      (set_header (record d.machine.header { compiler_status = here_of c.cdata d }) d)

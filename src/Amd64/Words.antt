-- ===== src/Amd64/Words.antt =====
-- arch/x86_64/core: the words of structured control flow, and those that end a definition
-- (colon.c, DOES_to.c, EXIT.c). A branch forward leaves four cells on the stack for THEN.
use smolforth.Base.{ℕ, ◌-◌, ◌^◌, if◌then◌else◌, ◌==◌}
use smolforth.Base.{Option, none, some, List, ◌++◌}
use smolforth.Stack.{on_st, upop}
use smolforth.Compiler.{Compiler, emit, here_of, bump_csri, set_mem, set_header, store_words}
use smolforth.Compiler.{push_four, pop_target}
use smolforth.Amd64.Assembler.{
  rbx, r15, relative, asmgen_ret, asmgen_add_imm, asmgen_jmp_rel32, asmgen_movq_take,
  asmgen_beq_imm,
}

-- The top of the data stack is taken into RBX; `-8` as a pattern.
abbrev pub take_flag : List ℕ
take_flag = asmgen_add_imm r15 (2 ^ 32 - 8) ++ asmgen_movq_take r15 rbx

-- `beq_imm` is the address of `asmgen_BEQ_IMM`, which the linker chooses.
unfoldable pub if_word : ℕ → Compiler → Compiler
unfolding emit push_four asmgen_add_imm asmgen_movq_take asmgen_beq_imm
if_word beq_imm c =
    let s = c.active_section in
    let taken = emit 1 take_flag s (bump_csri c) in
    emit 1 (asmgen_beq_imm rbx 0 0) s (push_four (here_of s taken) 0 rbx beq_imm taken)

unfoldable pub ahead_word : Compiler → Compiler
unfolding emit push_four asmgen_jmp_rel32
ahead_word c =
    let d = bump_csri c in
    emit 1 (asmgen_jmp_rel32 0) c.active_section (push_four (here_of c.active_section d) 0 0 0 d)

-- What THEN makes of the cells left for it; `cond` at another address than that of
-- `asmgen_BEQ_IMM` is a function not of this file, and gives `none`.
unfoldable pub resolve : ℕ → ℕ → ℕ → ℕ → ℕ → Option (List ℕ)
unfolding asmgen_jmp_rel32 asmgen_beq_imm
resolve beq_imm cond reg0 reg1 offset =
    if cond == 0
    then some (asmgen_jmp_rel32 offset)
    else (if cond == beq_imm then some (asmgen_beq_imm reg0 reg1 offset) else none)

unfoldable pub patch : Option (List ℕ) → ℕ → Compiler → Option Compiler
unfolding store_words
patch none addr c = none
patch (some bs) addr c = some (set_mem (store_words 1 bs addr c.machine.mem) c)

unfoldable pub then_word : ℕ → Compiler → Option Compiler
unfolding upop resolve relative patch
then_word beq_imm c =
    let d = bump_csri c in
    let cond = upop on_st d.machine in
    let reg0 = upop on_st cond.1 in
    let reg1 = upop on_st reg0.1 in
    let addr = upop on_st reg1.1 in
    patch (resolve beq_imm cond.0 reg0.0 reg1.0 (relative (here_of c.active_section c) addr.0))
      addr.0 (record d { machine = addr.1 })

unfoldable pub until_word : Compiler → Compiler
unfolding pop_target emit relative asmgen_add_imm asmgen_movq_take asmgen_beq_imm
until_word c =
    let d = bump_csri c in
    let s = c.active_section in
    let addr = pop_target d.machine in
    let taken = emit 1 take_flag s (record d { machine = addr.1 }) in
    emit 1 (asmgen_beq_imm rbx 0 (relative addr.0 (here_of s taken))) s taken

unfoldable pub again_word : Compiler → Compiler
unfolding pop_target emit relative asmgen_jmp_rel32
again_word c =
    let d = bump_csri c in
    let s = c.active_section in
    let addr = pop_target d.machine in
    emit 1 (asmgen_jmp_rel32 (relative addr.0 (here_of s d))) s (record d { machine = addr.1 })

unfoldable pub exit_word : Compiler → Compiler
unfolding emit asmgen_ret
exit_word c = emit 1 asmgen_ret c.active_section c

unfoldable pub colon_enter : Compiler → Compiler
colon_enter c = set_header (record c.machine.header { state = 1 }) c

-- `colon_exit`, up to the call of `forward_word`.
unfoldable pub colon_exit : Compiler → Compiler
unfolding emit asmgen_ret
colon_exit c =
    let d = emit 1 asmgen_ret c.cdata c in set_header (record d.machine.header { state = 0 }) d

unfoldable pub does_to_word : Compiler → Compiler
unfolding emit asmgen_ret
does_to_word c =
    let d = emit 1 asmgen_ret c.cdata c in
    set_header (record d.machine.header { compiler_status = here_of c.cdata d }) d

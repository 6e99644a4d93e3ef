-- ===== src/Examples/Code.antt =====
-- Compiled code at concrete constants, registers and addresses.
use smolforth.Base.{ℕ, ◌+◌, ◌*◌, ◌%◌, ◌^◌, ◌≤◌, ◌≡◌, refl, arith, inl, inr, some, List, [], ◌∷◌}
use smolforth.Base.{if◌then◌else◌, ◌==◌}
use smolforth.RiscV.Isa.{Registers, read, sign_extend, jump_offset}
use smolforth.RiscV.Names.{asmgen_jal, j_instr}
use smolforth.RiscV.Constant.{c_store}
use smolforth.RiscV.Loads.{Loads, c_store-Loads}
use smolforth.RiscV.Decoded.{jump_offset-j_instr}
use smolforth.RiscV.Then.{Compiled, then_word-flow}
use smolforth.RiscV.Branches.{asmgen_beq_or_jal, then_word}
use smolforth.RiscV.Flow.{flow}
use smolforth.RiscV.Lands.{asmgen_beq_or_jal-flow}
use smolforth.RiscV.Compile.{Tables}
use smolforth.Compiler.{Compiler, Section, count_words}
use smolforth.Memory.{load, store, get_byte, set_byte}
use smolforth.Machine.{Machine}
use smolforth.Stack.{on_st}
use smolforth.Stack.Laws.{Holds}
use smolforth.Examples.Machines.{two_up}
use smolforth.Amd64.Assembler.{relative, asmgen_call_rel32, asmgen_jmp_rel32}
use smolforth.Amd64.Targets.{rel32_target, rel32_target-asmgen}

abbrev cleared : Registers
cleared x = 0

-- A cell of which both halves are in use.
c_store-Loads_example : Loads (c_store 12 0x123456789abcdef0) 12 0x123456789abcdef0 cleared
c_store-Loads_example =
    c_store-Loads 12 0x123456789abcdef0 cleared (omega arith) (λ e. omega arith) (λ e. omega arith)
      (λ e. omega arith) (inl (omega arith))

jump_offset-j_instr_example : jump_offset (j_instr asmgen_jal 1 1234) ≡ sign_extend (2 ^ 31) 1234
jump_offset-j_instr_example = jump_offset-j_instr 1 1234 refl (inl (omega arith))

asmgen_beq_or_jal-flow_example :
    (ws : List ℕ) × (asmgen_beq_or_jal 12 0 0x10000 ≡ some ws)
    × (count_words ws ≤ 2)
    × (flow ws cleared 0x4000 ≡ (
        if read 12 cleared == read 0 cleared
        then (0x4000 + sign_extend (2 ^ 31) 0x10000) % 2 ^ 64
        else 0x4000 + 4 * count_words ws))
asmgen_beq_or_jal-flow_example =
    asmgen_beq_or_jal-flow 12 0 0x10000 0x4000 cleared (omega arith) (omega arith) (omega arith)
      refl (inl (omega arith))

abbrev three_entries : Tables
three_entries = record {
  code_got_start = 100;
  code_got_count = 3;
  code_plt_count = 1;
  code_plt_start = 124;
}

rel32_target-asmgen_example :
    (rel32_target 0xe8 (asmgen_call_rel32 (relative 0x1000 0x4000)) 0x4000 ≡ some 0x1000)
    × (rel32_target 0xe9 (asmgen_jmp_rel32 (relative 0x1000 0x4000)) 0x4000 ≡ some 0x1000)
rel32_target-asmgen_example =
    rel32_target-asmgen 0x1000 0x4000 (omega arith) (omega arith) (inr (omega arith, omega arith))

-- The four cells that IF leaves are on the stack, in a section that goes on at 0x8000.
abbrev between : Machine
between = let m = two_up 0 12 0x4000 4 5 6 in record m { mem = store 8 m.mem 1024 900; st = 1032 }

abbrev code_section : Section
code_section = record { start = 0x4000; gate = 0x4000; here = 0x8000; end_ = 0x9000; flags = 7 }

abbrev compiling : Compiler
compiling = record {
  machine = between;
  section_at = λ a. code_section;
  active_section = 1;
  cdata = 1;
  idata = 1;
  wdata = 0;
  wl_search_order = 700;
  next_word = 0;
}

between-Holds : Holds on_st between (900 ∷ 0 ∷ 12 ∷ 0x4000 ∷ [])
unfolding load store get_byte set_byte
between-Holds =
    (omega arith, refl, (omega arith, refl, (omega arith, refl, (omega arith, refl, tt))))

then_word-flow_example :
    (ws : List ℕ) × (d : Compiler) × (then_word 900 compiling ≡ some d)
    × Compiled ws 0x4000 [] compiling d
    × (4 * count_words ws ≤ 8)
    × (flow ws cleared 0x4000
        ≡ (if read 0 cleared == read 12 cleared then 0x8000 else 0x4000 + 4 * count_words ws))
then_word-flow_example =
    then_word-flow 900 0 12 0x4000 [] compiling cleared between-Holds (λ e. omega arith)
      (omega arith) (omega arith) (omega arith) (omega arith) (omega arith) (omega arith) refl

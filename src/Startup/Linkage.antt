-- ===== src/Startup/Linkage.antt =====
-- The entries of the linkage table are written behind the other table and nowhere else.
use smolforth.Base.{ℕ, zero, suc, ◌+◌, ◌*◌, refl, ◌∙◌, arith, ◌++◌}
use smolforth.Memory.{Mem}
use smolforth.Startup.Stored.{SameOutside, get_byte-store_words}
use smolforth.RiscV.Compile as RiscVTables
use smolforth.Amd64.Compile as Amd64Tables
use smolforth.Amd64.Assembler.{rbx, asmgen_mov_take_rel32, asmgen_jmp, bytes_of}

pub riscv_fill_plt-SameOutside :
    (n plt got : ℕ) (mem : Mem)
    → SameOutside plt (plt + n * 16) (RiscVTables.fill_plt n plt got mem) mem
unfolding RiscVTables.fill_plt RiscVTables.plt_words
riscv_fill_plt-SameOutside zero plt got mem x o = refl
riscv_fill_plt-SameOutside (suc n) plt got mem x o =
    riscv_fill_plt-SameOutside n (plt + 16) (got + 8) _ x (omega arith)
    ∙ get_byte-store_words 4 (RiscVTables.plt_words got plt) plt mem x (omega arith)

pub x86_fill_plt-SameOutside :
    (n plt got : ℕ) (mem : Mem)
    → SameOutside plt (plt + n * 9) (Amd64Tables.fill_plt n plt got mem) mem
unfolding Amd64Tables.fill_plt asmgen_mov_take_rel32 asmgen_jmp bytes_of
x86_fill_plt-SameOutside zero plt got mem x o = refl
x86_fill_plt-SameOutside (suc n) plt got mem x o =
    x86_fill_plt-SameOutside n (plt + 9) (got + 8) _ x (omega arith)
    ∙ get_byte-store_words 1 (asmgen_mov_take_rel32 rbx got plt ++ asmgen_jmp rbx) plt mem x
        (omega arith)

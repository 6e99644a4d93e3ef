-- ===== src/Startup/Area.antt =====
-- What start-up of each port does in the mapped area, and what the mapping keeps.
use smolforth.Base.{ℕ, ◌+◌, ◌-◌, ◌*◌, ◌^◌, ◌<◌, ◌≡◌, sym, ◌∙◌, ap, arith, List, length, some}
use smolforth.Memory.{Mem}
use smolforth.Compiler.{Compiler}
use smolforth.Dictionary.Search.{Linked, count}
use smolforth.RiscV.Compile as RiscVTables
use smolforth.RiscV.Compile.{count_got, count_words_of}
use smolforth.Amd64.Compile as Amd64Tables
use smolforth.Startup.{Mmap, first_code, import_into, main_into, set_end, import_lists, fill_main}
use smolforth.Startup.Stored.{SameOutside, AreCells}
use smolforth.Startup.Walk.{WordsOutside, gather}
use smolforth.Startup.Loops.{the_code}
use smolforth.Startup.Lists.{LinkedAll, AllShorter, joined, entries}
use smolforth.Startup.Filled.{length-entries, import_lists-entries, fill_main-entries}
use smolforth.Startup.Linkage.{riscv_fill_plt-SameOutside, x86_fill_plt-SameOutside}
use smolforth.Startup.Built.{Ready, size_for, entries_same, count_of, set_end-Ready}
use mathlib.Core.Path.{subst}

abbrev pub x86_numbers : Amd64Tables.Tables → ℕ × ℕ × ℕ × ℕ
x86_numbers t = (t.code_got_start, t.code_got_count, t.code_plt_count, t.code_plt_start)

abbrev pub riscv_numbers : RiscVTables.Tables → ℕ × ℕ × ℕ × ℕ
riscv_numbers t = (t.code_got_start, t.code_got_count, t.code_plt_count, t.code_plt_start)

-- What `import_plt` does in the area at `p`.
pub import_into-Ready :
    (p fuel : ℕ) (c : Compiler) (mapped : Mem) (fs : List ℕ) (wss : List (List ℕ))
    (words code size : ℕ)
    → words ≡ length (joined wss)
    → code ≡ length (gather (the_code mapped) (joined wss))
    → size ≡ size_for 16 (entries mapped (joined wss)) words
    → LinkedAll mapped fs wss
    → AllShorter wss fuel
    → AreCells (entries mapped (joined wss))
    → WordsOutside p (p + size) (joined wss)
    → p + size < 2 ^ 64
    → Ready 16 p
        (entries mapped (joined wss))
        words
        mapped
        (set_end size (import_into fuel fs words code p mapped c).0)
        (riscv_numbers (import_into fuel fs words code p mapped c).1)
unfolding import_into first_code RiscVTables.init_plt
import_into-Ready p fuel c mapped fs wss words code size w k s linked enough cells out fits =
    let n = count_of mapped (joined wss) words code w k in
    set_end-Ready 16 p words size (code + 2 * words) (code + words) (entries mapped (joined wss))
      mapped (import_lists fuel fs words p mapped)
      (RiscVTables.fill_plt (code + words) (p + 8 * (code + 2 * words))
        (p + 8 * (code + 2 * words - (code + words))) (import_lists fuel fs words p mapped))
      c n s fits cells
      (ap (λ n. import_lists fuel fs n p mapped) w
        ∙ import_lists-entries mapped p (p + size) fuel fs wss out (omega (arith, n.0)) linked
            enough)
      (riscv_fill_plt-SameOutside (code + words) (p + 8 * (code + 2 * words))
        (p + 8 * (code + 2 * words - (code + words))) (import_lists fuel fs words p mapped))

-- What main of the x86-64 port does in the area at `p`.
pub main_into-Ready :
    (p fuel : ℕ) (c : Compiler) (mapped : Mem) (last : ℕ) (ws : List ℕ) (words code size : ℕ)
    → words ≡ length ws
    → code ≡ length (gather (the_code mapped) ws)
    → size ≡ size_for 9 (entries mapped ws) words
    → Linked mapped last ws
    → count ws < fuel
    → AreCells (entries mapped ws)
    → WordsOutside p (p + size) ws
    → p + size < 2 ^ 64
    → Ready 9 p
        (entries mapped ws)
        words
        mapped
        (set_end size (main_into fuel last words code p mapped c).0)
        (x86_numbers (main_into fuel last words code p mapped c).1)
unfolding main_into first_code Amd64Tables.init_plt
main_into-Ready p fuel c mapped last ws words code size w k s linked enough cells out fits =
    let n = count_of mapped ws words code w k in
    set_end-Ready 9 p words size (code + 2 * words) (code + words) (entries mapped ws) mapped
      (fill_main fuel last words p mapped)
      (Amd64Tables.fill_plt (code + words) (p + 8 * (code + 2 * words))
        (p + 8 * (code + 2 * words - (code + words))) (fill_main fuel last words p mapped))
      c n s fits cells
      (ap (λ n. fill_main fuel last n p mapped) w
        ∙ fill_main-entries mapped p (p + size) fuel last ws out (omega (arith, n.0)) linked enough)
      (x86_fill_plt-SameOutside (code + words) (p + 8 * (code + 2 * words))
        (p + 8 * (code + 2 * words - (code + words))) (fill_main fuel last words p mapped))

-- The mapping at `p`, as the operating system gives it: it fits below the end of memory, and nothing
-- but the area has changed. The words, whose addresses are cells, lie outside.
abbrev pub Maps : Mmap → ℕ → ℕ → Mem → Mem → Type 0
Maps mmap size p mem mapped =
    (mmap size mem ≡ some (p, mapped)) × (p + size < 2 ^ 64) × SameOutside p (p + size) mapped mem

-- What holds of the words before the mapping holds after it.
pub moved :
    (mem mapped : Mem) (p room plt_bytes : ℕ) (ws : List ℕ) (words code size : ℕ)
    → SameOutside p (p + room) mapped mem
    → WordsOutside p (p + room) ws
    → words ≡ length ws
    → code ≡ length (gather (the_code mem) ws)
    → (size ≡ room) × (room ≡ size_for plt_bytes (entries mem ws) words)
    → AreCells (entries mem ws)
    → p + room < 2 ^ 64
    → (d : Compiler) (numbers : ℕ × ℕ × ℕ × ℕ)
    → (code ≡ length (gather (the_code mapped) ws)
        → size ≡ size_for plt_bytes (entries mapped ws) words
        → AreCells (entries mapped ws)
        → WordsOutside p (p + size) ws
        → p + size < 2 ^ 64
        → Ready plt_bytes p (entries mapped ws) words mapped d numbers)
    → Ready plt_bytes p (entries mem ws) (length ws) mapped d numbers
moved mem mapped p room plt_bytes ws words code size same out w k s cells fits d numbers h =
    subst (λ es. Ready plt_bytes p es (length ws) mapped d numbers) es_same
      (subst (λ n. Ready plt_bytes p (entries mapped ws) n mapped d numbers) w
        (h (omega (arith, k, ap length es_same, length-entries mem ws, length-entries mapped ws))
          (s.0 ∙ s.1 ∙ ap (λ es. size_for plt_bytes es words) (sym es_same))
          (subst AreCells (sym es_same) cells)
          (subst (λ z. WordsOutside p (p + z) ws) (sym s.0) out) (omega (arith, s.0))))
  where
    es_same : entries mapped ws ≡ entries mem ws
    es_same = entries_same p (p + room) mapped mem same ws out
